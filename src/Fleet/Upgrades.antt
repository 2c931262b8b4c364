-- ===== src/Fleet/Upgrades.antt =====
-- `upgradeAgent` and `upgradeTerm` of worker/src/fleet.js.
use popfleet.Base.{ℕ, String, Bool, ◌&&◌, [], ◌∷◌, Option, none, some, str_eq, ltb, if◌then◌else◌}
use popfleet.Json.{Json, str}
use popfleet.Dict.{lookup, delete}
use popfleet.Fleet.Runtime.{Runtime, sha256hex}
use popfleet.Fleet.State.{
  Fleet, Pend, agent_tag, term_tag, sid_tag, mid_tag, pending, term, e2e_frame, err_frame,
  open_frame,
}
use popfleet.Fleet.Sockets.{agent_socket, ws_send, ws_close, accept, arm_alarm}
use popfleet.Fleet.Api.{Response, text_response, switching}

unfoldable pub upgrade_agent : ℕ → Fleet → Fleet × Response
unfolding accept arm_alarm
upgrade_agent now s = (arm_alarm now (accept (agent_tag ∷ []) (pending now) s), switching s.next_id)

-- `pend && Date.now() < pend.exp && keySum === pend.keySum`.
unfoldable pub key_fits : Runtime → ℕ → String → Pend → Bool
unfolding sha256hex
key_fits rt now key p = ltb now p.exp && str_eq (sha256hex rt key) p.key_sum

abbrev pub tell_agent : ℕ → String → Json → Option ℕ → Fleet → Fleet
tell_agent server sid cmd none s =
    ws_close server 1000 "agent is offline" (ws_send server (err_frame (str "agent is offline")) s)
tell_agent server sid cmd (some ws) s = ws_send ws (open_frame sid cmd) s

-- The upgrade once the key is found valid.
unfoldable pub open_term : String → Pend → Fleet → Fleet × Response
unfolding delete accept ws_send ws_close agent_socket
open_term sid p s =
    let server = s.next_id in
    let registered =
      accept (term_tag ∷ sid_tag sid ∷ mid_tag p.mid ∷ []) (term sid p.mid)
        (record s { pends = delete sid s.pends }) in
    let greeted = ws_send server e2e_frame registered in
    (tell_agent server sid p.cmd (agent_socket greeted (some p.mid)) greeted, switching server)

abbrev pub forbidden : Response
forbidden = text_response 403 "invalid, expired or already-used session key"

abbrev pub open_if : Runtime → ℕ → String → String → Option Pend → Fleet → Fleet × Response
open_if rt now sid key none s = (s, forbidden)
open_if rt now sid key (some p) s =
    if key_fits rt now key p then open_term sid p s else (s, forbidden)

unfoldable pub upgrade_term : Runtime → ℕ → String → String → Fleet → Fleet × Response
unfolding lookup
upgrade_term rt now sid key s = open_if rt now sid key (lookup sid s.pends) s
