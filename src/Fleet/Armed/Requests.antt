-- ===== src/Fleet/Armed/Requests.antt =====
-- The requests of worker/src/fleet.js leave the alarm set while anything is there to sweep.
use popfleet.Base.{
  ℕ, ◌+◌, String, true, ◌&&◌, [], ◌∷◌, Option, none, some, is_some, if-both, str_eq, ◌≡◌, refl, ap,
  ◌∙◌,
}
use popfleet.Json.{Json, str, prop, truthy, is_null, or_else}
use popfleet.Dict.{Dict, lookup}
use popfleet.Routes.{strip, match_term, match_machine}
use popfleet.Fleet.Runtime.{Runtime, rand_hex, to_text}
use popfleet.Fleet.State.{Fleet, Machine, Pend, sweep_ms}
use popfleet.Fleet.Sockets.{agent_socket, accept, ws_send, ws_close, arm_alarm}
use popfleet.Fleet.Lifecycle.{any_pend}
use popfleet.Fleet.Api.{
  Response, body_or_empty, post_tokens, get_machines, mint, mint_body, remintable, post_term,
  drop_if, forget, revoke, delete_machine,
}
use popfleet.Fleet.Upgrades.{upgrade_agent, tell_agent, open_term, open_if, key_fits, upgrade_term}
use popfleet.Fleet.Events.{
  Request, Draws, fetch_machine, fetch_delete, fetch_term, fetch_upgrade, fetch, or_empty,
}
use popfleet.Fleet.Armed.{IsArmed, IsArmed-Calms}
use popfleet.Fleet.Armed.Calls.{drop_agent-Calms, is_some-armed}

abbrev StaysArmed : Fleet × Response → Type 0
StaysArmed r = IsArmed r.0

post_tokens-IsArmed :
    (rt : Runtime) (body : Option Json) (id token : String) (s : Fleet)
    → IsArmed s
    → StaysArmed (post_tokens rt body id token s)
unfolding post_tokens
post_tokens-IsArmed rt body id token s h = if-both StaysArmed (is_null (body_or_empty body)) h h

mint-IsArmed :
    (rt : Runtime) (now : ℕ) (mid : String) (cmd : Json) (sid : String) (value : Json)
    (key : String) (s : Fleet)
    → StaysArmed (mint rt now mid cmd sid value key s)
unfolding mint arm_alarm
mint-IsArmed rt now mid cmd sid value key s n = is_some-armed s.alarm (now + sweep_ms)

mint_body-IsArmed :
    (rt : Runtime) (now : ℕ) (mid : String) (b : Json) (sid key : String) (s : Fleet)
    → IsArmed s
    → StaysArmed (mint_body rt now mid b sid key s)
unfolding mint_body
mint_body-IsArmed rt now mid b sid key s h =
    let cmd = or_else (prop b "cmd") (str "") in
    if-both StaysArmed (truthy (prop b "sid"))
      (if-both StaysArmed (remintable now mid (lookup (to_text rt (prop b "sid")) s.pends))
        (mint-IsArmed rt now mid cmd (to_text rt (prop b "sid")) (or_else (prop b "sid") (str ""))
          key s)
        h)
      (mint-IsArmed rt now mid cmd sid (str sid) key s)

post_term-IsArmed :
    (rt : Runtime) (now : ℕ) (mid : String) (body : Option Json) (sid key : String) (s : Fleet)
    → IsArmed s
    → StaysArmed (post_term rt now mid body sid key s)
unfolding post_term
post_term-IsArmed rt now mid body sid key s h =
    if-both StaysArmed (is_some (lookup mid s.machines))
      (if-both StaysArmed (is_null (body_or_empty body)) h
        (mint_body-IsArmed rt now mid (body_or_empty body) sid key s h))
      h

drop_if-IsArmed :
    (ws : Option ℕ) (why : String) (s : Fleet) → IsArmed s → IsArmed (drop_if ws why s)
drop_if-IsArmed none why s h = h
drop_if-IsArmed (some ws) why s h = IsArmed-Calms (drop_agent-Calms ws why s) h

revoke-IsArmed :
    (mid : String) (m : Option Machine) (s : Fleet) → IsArmed s → StaysArmed (revoke mid m s)
revoke-IsArmed mid none s h = h
revoke-IsArmed mid (some m) s h =
    drop_if-IsArmed (agent_socket (forget mid m s) (some mid)) "machine revoked" (forget mid m s) h

delete_machine-IsArmed : (mid : String) (s : Fleet) → IsArmed s → StaysArmed (delete_machine mid s)
unfolding delete_machine
delete_machine-IsArmed mid s h = revoke-IsArmed mid (lookup mid s.machines) s h

alarm-tell_agent :
    (server : ℕ) (sid : String) (cmd : Json) (ws : Option ℕ) (s : Fleet)
    → (tell_agent server sid cmd ws s).alarm ≡ s.alarm
unfolding ws_send ws_close
alarm-tell_agent server sid cmd none s = refl
alarm-tell_agent server sid cmd (some ws) s = refl

alarm-open_term : (sid : String) (p : Pend) (s : Fleet) → (open_term sid p s).0.alarm ≡ s.alarm
unfolding open_term ws_send accept
alarm-open_term sid p s = alarm-tell_agent s.next_id sid p.cmd _ _

lookup-any_pend :
    (sid : String) (p : Pend) (ps : Dict Pend) → lookup sid ps ≡ some p → any_pend ps ≡ true
unfolding lookup
lookup-any_pend sid p [] e = cc
lookup-any_pend sid p (q ∷ ps) e = refl

open_term-IsArmed :
    (sid : String) (p : Pend) (s : Fleet)
    → lookup sid s.pends ≡ some p
    → IsArmed s
    → StaysArmed (open_term sid p s)
open_term-IsArmed sid p s e h n =
    ap is_some (alarm-open_term sid p s) ∙ h (rw (lookup-any_pend sid p s.pends e) refl)

open_if-IsArmed :
    (rt : Runtime) (now : ℕ) (sid key : String) (p : Option Pend) (s : Fleet)
    → lookup sid s.pends ≡ p
    → IsArmed s
    → StaysArmed (open_if rt now sid key p s)
open_if-IsArmed rt now sid key none s e h = h
open_if-IsArmed rt now sid key (some p) s e h =
    if-both StaysArmed (key_fits rt now key p) (open_term-IsArmed sid p s e h) h

upgrade_term-IsArmed :
    (rt : Runtime) (now : ℕ) (sid key : String) (s : Fleet)
    → IsArmed s
    → StaysArmed (upgrade_term rt now sid key s)
unfolding upgrade_term
upgrade_term-IsArmed rt now sid key s h =
    open_if-IsArmed rt now sid key (lookup sid s.pends) s refl h

upgrade_agent-IsArmed : (now : ℕ) (s : Fleet) → StaysArmed (upgrade_agent now s)
unfolding upgrade_agent arm_alarm accept
upgrade_agent-IsArmed now s n = is_some-armed s.alarm (now + sweep_ms)

fetch_delete-IsArmed : (r : Request) (s : Fleet) → IsArmed s → StaysArmed (fetch_delete r s)
fetch_delete-IsArmed r s h =
    if-both StaysArmed (str_eq r.method "DELETE") (by_id (match_machine r.path)) h
  where
    by_id : (mid : Option String) → StaysArmed (fetch_machine mid s)
    by_id none = h
    by_id (some mid) = delete_machine-IsArmed mid s h

module _ (rt : Runtime) (now : ℕ) (r : Request) (d : Draws) (s : Fleet) (h : IsArmed s) where
  fetch_term-IsArmed : (mid : Option String) → StaysArmed (fetch_term rt now r d mid s)
  fetch_term-IsArmed none = fetch_delete-IsArmed r s h
  fetch_term-IsArmed (some mid) =
      if-both StaysArmed (str_eq r.method "POST")
        (post_term-IsArmed rt now mid r.body (rand_hex d.short) (rand_hex d.long) s h)
        (fetch_delete-IsArmed r s h)

  fetch_upgrade-IsArmed : (sid : Option String) → StaysArmed (fetch_upgrade rt now r d sid s)
  unfolding get_machines
  fetch_upgrade-IsArmed (some sid) = upgrade_term-IsArmed rt now sid (or_empty r.k) s h
  fetch_upgrade-IsArmed none =
      if-both StaysArmed (str_eq r.path "/api/tokens" && str_eq r.method "POST")
        (post_tokens-IsArmed rt r.body (rand_hex d.short) (rand_hex d.long) s h)
        (if-both StaysArmed (str_eq r.path "/api/machines" && str_eq r.method "GET") h
          (fetch_term-IsArmed (match_term r.path)))

  pub fetch-IsArmed : StaysArmed (fetch rt now r d s)
  unfolding fetch
  fetch-IsArmed =
      if-both StaysArmed (str_eq r.path "/ws/agent") (upgrade_agent-IsArmed now s)
        (fetch_upgrade-IsArmed (strip "/ws/term/" r.path))
