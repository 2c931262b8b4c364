-- ===== src/Fleet/Grants/Handlers.antt =====
-- Minting and redeeming a session key in worker/src/fleet.js: each handler does what the service does.
use popfleet.Base.{
  true, Bool-cases, inl, inr, ℕ, ◌+◌, String, [], ◌∷◌, Option, none, some, is_some, str_eq,
  if◌then◌else◌, ◌≡◌, refl, ap, ◌∙◌, arith,
}
use popfleet.Json.{Json, str, prop, truthy, is_null, or_else}
use popfleet.Dict.{lookup, delete}
use popfleet.Dict.Laws.{lookup-put, lookup-delete}
use popfleet.Fleet.Runtime.{Runtime, rand_hex, sha256hex, to_text}
use popfleet.Fleet.State.{Fleet, Pend, term, key_ttl_ms, term_tag, sid_tag, mid_tag, e2e_frame}
use popfleet.Fleet.Sockets.{agent_socket, ws_send, ws_close, arm_alarm, accept}
use popfleet.Fleet.Api.{text_response, threw, body_or_empty, mint, mint_body, remintable, post_term}
use popfleet.Fleet.Upgrades.{tell_agent, key_fits, open_term, open_if}
use popfleet.Fleet.Events.{Request, Draws}
use popfleet.Fleet.Grants.{
  grants, grant_of, mints, redeems, grant, is_renewable, is_redeemable, named_in, minting, Tells,
  Serves, kept,
}

is_renewable-remintable :
    (now : ℕ) (mid : String) (p : Option Pend)
    → is_renewable now mid (grant_of p) ≡ remintable now mid p
is_renewable-remintable now mid none = refl
is_renewable-remintable now mid (some p) = ground arith

is_redeemable-key_fits :
    (rt : Runtime) (now : ℕ) (key : String) (p : Pend)
    → is_redeemable now (sha256hex rt key) (grant_of (some p)) ≡ key_fits rt now key p
unfolding key_fits
is_redeemable-key_fits rt now key p = refl

module _ (rt : Runtime) (now : ℕ) (s : Fleet) where
  grants-mint :
      (mid : String) (cmd : Json) (sid : String) (value : Json) (key other : String)
      → grants (mint rt now mid cmd sid value key s).0 other ≡ (
          if str_eq sid other
          then some (record { digest = sha256hex rt key; mid = mid; until = now + key_ttl_ms })
          else grants s other)
  unfolding mint arm_alarm
  grants-mint mid cmd sid value key other =
      let p : Pend = record {
        key_sum = sha256hex rt key;
        mid = mid;
        cmd = cmd;
        exp = now + key_ttl_ms;
      } in
      rw (lookup-put sid other p s.pends) (ground arith)

  mint-Serves :
      (mid : String) (cmd : Json) (sid : String) (value : Json) (key : String)
      → let r = mint rt now mid cmd sid value key s in
        let done = grant now mid sid (sha256hex rt key) (grants s) in
        ((other : String) → grants r.0 other ≡ done.0 other) × Tells rt s done.1 r.1
  unfolding mint
  mint-Serves mid cmd sid value key =
      (λ other. grants-mint mid cmd sid value key other, (key, refl, refl))

  mint_body-Serves :
      (mid : String) (b : Json) (sid key : String)
      → Serves rt s now
          (mints mid (named_in rt s b) sid (sha256hex rt key))
          (mint_body rt now mid b sid key s)
  unfolding mint_body
  mint_body-Serves mid b sid key =
      let cmd = or_else (prop b "cmd") (str "") in
      let named = to_text rt (prop b "sid") in
      let value = or_else (prop b "sid") (str "") in
      let same = is_renewable-remintable now mid (lookup named s.pends) in
      elim (Bool-cases (truthy (prop b "sid"))) [
        | inr e ↦
            let done = mint-Serves mid cmd sid (str sid) key in
            rw (e) (record { keys = done.0; tells = done.1 })
        | inl e ↦ elim (Bool-cases (remintable now mid (lookup named s.pends))) [
          | inl fits ↦
              let done = mint-Serves mid cmd named value key in
              rw (e, fits)
                (record {
                  keys = λ other. rw (same ∙ fits) (done.0 other);
                  tells = rw (same ∙ fits) done.1;
                })
          | inr unfit ↦
              rw (e, unfit)
                (record { keys = λ other. rw (same ∙ unfit) refl; tells = rw (same ∙ unfit) refl })
        ]
      ]

pends-tell_agent :
    (server : ℕ) (sid : String) (cmd : Json) (ws : Option ℕ) (s : Fleet)
    → (tell_agent server sid cmd ws s).pends ≡ s.pends
unfolding ws_send ws_close
pends-tell_agent server sid cmd none s = refl
pends-tell_agent server sid cmd (some ws) s = refl

pends-open_term :
    (sid : String) (p : Pend) (s : Fleet) → (open_term sid p s).0.pends ≡ delete sid s.pends
unfolding open_term ws_send accept
pends-open_term sid p s =
    let registered =
      accept (term_tag ∷ sid_tag sid ∷ mid_tag p.mid ∷ []) (term sid p.mid)
        (record s { pends = delete sid s.pends }) in
    let greeted = ws_send s.next_id e2e_frame registered in
    pends-tell_agent s.next_id sid p.cmd (agent_socket greeted (some p.mid)) greeted

module _ (rt : Runtime) (now : ℕ) (s : Fleet) where
  pub open_if-Serves :
      (sid key : String) (p : Option Pend)
      → lookup sid s.pends ≡ p
      → Serves rt s now (redeems sid (sha256hex rt key)) (open_if rt now sid key p s)
  unfolding open_term
  open_if-Serves sid key none e = record { keys = λ other. rw (e) refl; tells = rw (e) refl }
  open_if-Serves sid key (some p) e =
      let same = is_redeemable-key_fits rt now key p in
      elim (Bool-cases (key_fits rt now key p)) [
        | inl fits ↦ rw (fits) (record {
          keys = λ other.
              ap (λ ps. grant_of (lookup other ps)) (pends-open_term sid p s)
              ∙ rw (e, same ∙ fits, lookup-delete sid other s.pends) (ground arith);
          tells = rw (e, same ∙ fits) refl;
        })
        | inr unfit ↦ rw (unfit) (record {
          keys = λ other. rw (e, same ∙ unfit) refl;
          tells = rw (e, same ∙ unfit) refl;
        })
      ]

  pub post_term-Serves :
      (mid : String) (r : Request) (d : Draws)
      → str_eq r.method "POST" ≡ true
      → Serves rt s now
          (minting rt s r d (some mid))
          (post_term rt now mid r.body (rand_hex d.short) (rand_hex d.long) s)
  unfolding post_term
  post_term-Serves mid r d post = elim (Bool-cases (is_some (lookup mid s.machines))) [
    | inr unknown ↦ rw (post, unknown) (kept rt s now (s, text_response 404 "no such machine") refl)
    | inl known ↦ elim (Bool-cases (is_null (body_or_empty r.body))) [
      | inl null_body ↦ rw (post, known, null_body) (kept rt s now (s, threw) refl)
      | inr b ↦
          rw (post, known, b)
            (mint_body-Serves rt now s mid (body_or_empty r.body) (rand_hex d.short)
              (rand_hex d.long))
    ]
  ]
