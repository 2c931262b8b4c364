-- ===== src/Fleet/Keys/Minting.antt =====
-- POST /api/machines/{mid}/term of worker/src/fleet.js: which key a session has after it.
use Prim.Native.String.{◌++◌ as concat}
use popfleet.Base.{
  ℕ, ◌≤◌, ◌<◌, ◌+◌, String, false, true, Option, some, is_some, ◌≡◌, ◌↔◌, refl, sym, ◌∙◌, arith,
  eq_iff, eq_refl,
}
use popfleet.Json.{Json, str, prop, truthy, or_else, is_null, null}
use popfleet.Dict.{lookup}
use popfleet.Dict.Laws.{lookup-put}
use popfleet.Fleet.Runtime.{Runtime, sha256hex, to_text}
use popfleet.Fleet.State.{Fleet, Pend, key_ttl_ms}
use popfleet.Fleet.Api.{term_response, body_or_empty, mint, post_term, remintable}
use popfleet.Fleet.Keys.{Opens}

-- The only keys that open the session `sid` are those with the digest of `key`, and each does so
-- for the 60 seconds after `now`.
abbrev pub OnlyKey : Runtime → ℕ → String → String → Fleet → Type 0
OnlyKey rt now sid key s =
    (at : ℕ) (other : String)
    → Opens rt at sid other s ↔ ((at < now + key_ttl_ms) × (sha256hex rt other ≡ sha256hex rt key))

-- The one-time URL of a session.
abbrev pub session_url : String → String → String
session_url sid key = concat "/term/" (concat sid (concat "?k=" key))

module _ (rt : Runtime) (now : ℕ) (mid : String) (cmd : Json) (sid : String) (value : Json)
    (key : String) (s : Fleet) where
  minted : Pend
  minted = record { key_sum = sha256hex rt key; mid = mid; cmd = cmd; exp = now + key_ttl_ms }

  lookup-mint : lookup sid (mint rt now mid cmd sid value key s).0.pends ≡ some minted
  unfolding mint minted
  lookup-mint = ground (arith, lookup-put sid sid minted s.pends, eq_refl sid)

  pub mint-OnlyKey : OnlyKey rt now sid key (mint rt now mid cmd sid value key s).0
  unfolding minted
  mint-OnlyKey at other = (
    λ o. let e : some o.pend ≡ some minted = sym o.found ∙ lookup-mint in ground arith,
    λ h. record { pend = minted; found = lookup-mint; in_time = h.0; right = h.1 },
  )

null-of_truthy : (b : Json) → truthy (prop b "sid") ≡ true → is_null b ≡ false
unfolding truthy prop
null-of_truthy null h = cc
null-of_truthy _ h = refl

-- For a registered machine and a body that names no session, the call makes a new session and
-- answers its one-time URL: only keys with the digest of the URL's key open it, for 60 seconds.
pub post_term_new :
    (rt : Runtime) (now : ℕ) (mid : String) (body : Option Json) (sid key : String) (s : Fleet)
    → is_some (lookup mid s.machines) ≡ true
    → is_null (body_or_empty body) ≡ false
    → truthy (prop (body_or_empty body) "sid") ≡ false
    → let r = post_term rt now mid body sid key s in
      (r.1 ≡ term_response (session_url sid key) (str sid)) × OnlyKey rt now sid key r.0
unfolding post_term mint
post_term_new rt now mid body sid key s known object unnamed =
    rw (known, object, unnamed) (refl, mint-OnlyKey rt now mid _ sid (str sid) key s)

-- The text of the session that a body names.
abbrev pub named_session : Runtime → Option Json → String
named_session rt body = to_text rt (prop (body_or_empty body) "sid")

-- For a body that names a pending session of this registered machine which has not expired, the call
-- replaces the key: from then on only the new one opens the session, and its 60 seconds start again.
pub post_term_again :
    (rt : Runtime) (now : ℕ) (mid : String) (body : Option Json) (unused key : String) (s : Fleet)
    (p : Pend)
    → is_some (lookup mid s.machines) ≡ true
    → truthy (prop (body_or_empty body) "sid") ≡ true
    → lookup (named_session rt body) s.pends ≡ some p
    → p.mid ≡ mid
    → now ≤ p.exp
    → let sid = named_session rt body in
      let r = post_term rt now mid body unused key s in
      (r.1
        ≡ term_response (session_url sid key) (or_else (prop (body_or_empty body) "sid") (str "")))
      × OnlyKey rt now sid key r.0
unfolding post_term mint
post_term_again rt now mid body unused key s p known named found same_mid early =
    let b = body_or_empty body in
    let fits : remintable now mid (lookup (named_session rt body) s.pends) ≡ true =
      rw found (ground (arith, eq_iff p.mid mid)) in
    rw (known, null-of_truthy b named, named, fits)
      (
        refl,
        mint-OnlyKey rt now mid _ (named_session rt body) (or_else (prop b "sid") (str "")) key s,
      )
