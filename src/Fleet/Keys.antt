-- ===== src/Fleet/Keys.antt =====
-- The one-time session keys of worker/src/fleet.js: when an upgrade is accepted, and for how long
-- and how often a minted key works.
pub mod Minting
use Prim.Native.String.{◌++◌ as concat}
use popfleet.Base.{
  ℕ, suc, ◌≤◌, ◌<◌, ◌+◌, String, Bool, false, true, Option, none, some, is_some, ◌≡◌, ◌≢◌, ◌↔◌,
  refl, sym, ap, subst, ◌∙◌, arith, eq_iff, eq_refl, List, [], ◌∷◌, str_eq, ltb, inl, inr,
  Option-cases, Bool-cases, if◌then◌else◌,
}
use popfleet.Json.{Json, str}
use popfleet.Dict.{lookup, put, delete}
use popfleet.Dict.Laws.{lookup-put, lookup-delete}
use popfleet.Fleet.Runtime.{Runtime, sha256hex}
use popfleet.Fleet.State.{
  new_fleet, Fleet, Pend, key_ttl_ms, e2e_frame, term_tag, sid_tag, mid_tag, term,
}
use popfleet.Fleet.Sockets.{ws_send, accept, agent_socket, has_tag}
use popfleet.Fleet.Api.{
  Response, switching, text_response, term_response, mint, mint_body, remintable,
}
use popfleet.Fleet.Upgrades.{upgrade_term, open_if, open_term, tell_agent, forbidden, key_fits}
use popfleet.Fleet.Core.{Core, core, bare}
use popfleet.Fleet.Counts.{opened}
use popfleet.Fleet.Soundness.{IsSound}
use popfleet.Fleet.Soundness.Requests.{core-tell_agent}
use popfleet.Fleet.Soundness.Histories.{
  start, handled, AllFresh, handled-Reach, Reach-IsSound, opened-bare,
}
use popfleet.Fleet.Events.{Event}

-- A key opens a session: the session is pending, the key has not expired, and it is the key whose
-- sum was stored.
pub record Opens (rt : Runtime) (now : ℕ) (sid key : String) (s : Fleet) : Type 0 where
  pub pend : Pend
  pub found : lookup sid s.pends ≡ some pend
  pub in_time : now < pend.exp
  pub right : sha256hex rt key ≡ pend.key_sum

key_fits_iff :
    (rt : Runtime) (now : ℕ) (key : String) (p : Pend)
    → (key_fits rt now key p ≡ true) ↔ ((now < p.exp) × (sha256hex rt key ≡ p.key_sum))
unfolding key_fits
key_fits_iff rt now key p = ground (arith, eq_iff (sha256hex rt key) p.key_sum)

open_if-Opens :
    (rt : Runtime) (now : ℕ) (sid key : String) (p : Option Pend) (s : Fleet)
    → lookup sid s.pends ≡ p
    → (open_if rt now sid key p s).1 ≢ forbidden
    → Opens rt now sid key s
open_if-Opens rt now sid key none s e h = absurd (h refl)
open_if-Opens rt now sid key (some p) s e h = elim (Bool-cases (key_fits rt now key p)) [
  | inl fits ↦
      let (early, right) = (key_fits_iff rt now key p).0 fits in
      record { pend = p; found = e; in_time = early; right = right }
  | inr misfit ↦ absurd (h (rw misfit))
]

upgrade_term_accepts :
    (rt : Runtime) (now : ℕ) (sid key : String) (s : Fleet) (o : Opens rt now sid key s)
    → upgrade_term rt now sid key s ≡ open_term sid o.pend s
unfolding upgrade_term
upgrade_term_accepts rt now sid key s o =
    rw (o.found, open_if) (rw ((key_fits_iff rt now key o.pend).1 (o.in_time, o.right)))

-- An upgrade is accepted, on a new socket, exactly when the session is pending, its key has not
-- expired and the digest of the key given is the one stored.
pub upgrade_term_accepted_iff :
    (rt : Runtime) (now : ℕ) (sid key : String) (s : Fleet)
    → ((upgrade_term rt now sid key s).1 ≡ switching s.next_id) ↔ Opens rt now sid key s
unfolding upgrade_term open_term
upgrade_term_accepted_iff rt now sid key s = (
  λ h. open_if-Opens rt now sid key (lookup sid s.pends) s refl (λ e. cc),
  λ o. ap (λ (r : Fleet × Response). r.1) (upgrade_term_accepts rt now sid key s o),
)

open_if-refused :
    (rt : Runtime) (now : ℕ) (sid key : String) (p : Option Pend) (s : Fleet)
    → lookup sid s.pends ≡ p
    → ¬ Opens rt now sid key s
    → open_if rt now sid key p s ≡ (s, forbidden)
open_if-refused rt now sid key none s e h = refl
open_if-refused rt now sid key (some p) s e h = elim (Bool-cases (key_fits rt now key p)) [
  | inl fits ↦
      let (early, right) = (key_fits_iff rt now key p).0 fits in
      absurd (h (record { pend = p; found = e; in_time = early; right = right }))
  | inr misfit ↦ rw misfit
]

-- Any other upgrade is answered 403 and changes nothing.
pub upgrade_term_refused :
    (rt : Runtime) (now : ℕ) (sid key : String) (s : Fleet)
    → ¬ Opens rt now sid key s
    → upgrade_term rt now sid key s ≡ (s, forbidden)
unfolding upgrade_term
upgrade_term_refused rt now sid key s h =
    open_if-refused rt now sid key (lookup sid s.pends) s refl h

not-pending_of_opened :
    (sid : String) (s : Fleet)
    → IsSound (core s)
    → opened sid s.sockets ≢ 0
    → lookup sid s.pends ≡ none
not-pending_of_opened sid s v h = ground (arith, v.once sid, opened-bare sid s.sockets)

-- If a new object handles events one after the other, each to its end before the next begins, and the
-- ids that their requests draw are new when they are drawn, then once a terminal of a session was opened, no
-- key at any time opens the session again: an upgrade that is handled then, to its end, is answered 403
-- and changes nothing. Upgrades and mints that overlap at an `await` are not among these histories.
pub session_opens_once :
    (rt : Runtime) (es : List (ℕ × Event)) (sid key : String) (now : ℕ)
    → AllFresh rt es new_fleet
    → opened sid (handled rt es new_fleet).sockets ≢ 0
    → upgrade_term rt now sid key (handled rt es new_fleet) ≡ (handled rt es new_fleet, forbidden)
session_opens_once rt es sid key now fresh h =
    let s = handled rt es new_fleet in
    let sound = Reach-IsSound rt (handled-Reach rt es start fresh) in
    upgrade_term_refused rt now sid key s (λ o. cc (o.found, not-pending_of_opened sid s sound h))

-- The state in which the agent is told.
abbrev pub greeted : String → Pend → Fleet → Fleet
greeted sid p s = ws_send s.next_id e2e_frame (
    accept (term_tag ∷ sid_tag sid ∷ mid_tag p.mid ∷ []) (term sid p.mid)
      (record s { pends = delete sid s.pends }))

opened-greeted : (sid : String) (p : Pend) (s : Fleet) → opened sid (greeted sid p s).sockets ≢ 0
unfolding opened has_tag ws_send accept
opened-greeted sid p s h = ground (arith, eq_refl sid)

opened_after_tell :
    (sid : String) (p : Pend) (s : Fleet) (ws : Option ℕ)
    → opened sid (tell_agent s.next_id sid p.cmd ws (greeted sid p s)).sockets ≢ 0
opened_after_tell sid p s ws h =
    let told = tell_agent s.next_id sid p.cmd ws (greeted sid p s) in
    opened-greeted sid p s (
      sym (opened-bare sid (greeted sid p s).sockets)
      ∙ ap (λ (c : Core). opened sid c.sockets)
          (sym (core-tell_agent s.next_id sid p.cmd ws (greeted sid p s)))
      ∙ opened-bare sid told.sockets
      ∙ h)

-- An accepted upgrade opens the session.
pub opened-upgrade_term :
    (rt : Runtime) (now : ℕ) (sid key : String) (s : Fleet)
    → Opens rt now sid key s
    → opened sid (upgrade_term rt now sid key s).0.sockets ≢ 0
unfolding open_term
opened-upgrade_term rt now sid key s o =
    rw (upgrade_term_accepts rt now sid key s o)
      (opened_after_tell sid o.pend s (agent_socket (greeted sid o.pend s) (some o.pend.mid)))
