-- ===== src/Fleet/Armed/Histories.antt =====
-- After any history of worker/src/fleet.js the alarm is set while anything is there to sweep.
use popfleet.Base.{ℕ, String, true, Option, none, some, is_some, ◌≡◌}
use popfleet.Fleet.Runtime.{Runtime}
use popfleet.Fleet.State.{
  Fleet, Socket, Attachment, blank, pending, agent, term, replaced, new_fleet,
}
use popfleet.Fleet.Sockets.{attach}
use popfleet.Fleet.Lifecycle.{reap_kind, reap}
use popfleet.Fleet.Sockets.{agent_socket, drop_agent}
use popfleet.Fleet.State.{close_frame}
use popfleet.Fleet.Events.{
  Event, fetches, messages, ends, alarms, heartbeats, disconnects, heard_at, as_gone, step,
}
use popfleet.Fleet.Lifecycle.{tell_close}
use popfleet.Fleet.Core.{core}
use popfleet.Fleet.Soundness.{IsSound}
use popfleet.Fleet.Soundness.Histories.{Reach, start, next, Reach-IsSound}
use popfleet.Fleet.Armed.{
  IsArmed, Calms, Calms-refl, Calms-trans, IsArmed-Calms, modify-Calms, is_live, needs_alarm,
  any_live,
}
use popfleet.Fleet.Armed.Calls.{ws_send-Calms, drop_agent-Calms, save_seen-Calms}
use popfleet.Fleet.Armed.Requests.{fetch-IsArmed}
use popfleet.Fleet.Armed.Messages.{web_socket_message-IsArmed}
use popfleet.Fleet.Armed.Always.{alarm-IsArmed}

tell_close-Calms : (sid : String) (ws : Option ℕ) (s : Fleet) → Calms s (tell_close sid ws s)
tell_close-Calms sid none s = Calms-refl s
tell_close-Calms sid (some ws) s = ws_send-Calms ws (close_frame sid) s

reap_kind-Calms : (ws : ℕ) (a : Attachment) (s : Fleet) → Calms s (reap_kind ws a s)
unfolding reap_kind
reap_kind-Calms ws (term sid mid) s = tell_close-Calms sid (agent_socket s (some mid)) s
reap_kind-Calms ws (agent mid seen) s =
    Calms-trans (drop_agent-Calms ws "agent went offline" s)
      (save_seen-Calms mid ws (drop_agent ws "agent went offline" s))
reap_kind-Calms ws blank s = Calms-refl s
reap_kind-Calms ws (pending since) s = Calms-refl s
reap_kind-Calms ws replaced s = Calms-refl s

gone-less : (k : Socket) → is_live (as_gone k) ≡ true → is_live k ≡ true
gone-less k h = cc

step-IsArmed :
    (rt : Runtime) (now : ℕ) (e : Event) (s : Fleet)
    → IsSound (core s)
    → IsArmed s
    → IsArmed (step rt now e s)
unfolding step reap
step-IsArmed rt now (fetches r d) s v h = fetch-IsArmed rt now r d s h
step-IsArmed rt now (messages ws raw) s v h = web_socket_message-IsArmed rt now ws raw s v h
step-IsArmed rt now (ends ws) s v h = IsArmed-Calms (reap_kind-Calms ws (attach s ws) s) h
step-IsArmed rt now alarms s v h = alarm-IsArmed now (record s { alarm = none }) v
step-IsArmed rt now (heartbeats ws) s v h =
    IsArmed-Calms (modify-Calms ws (heard_at now) s (λ k e. e)) h
step-IsArmed rt now (disconnects ws) s v h = IsArmed-Calms (modify-Calms ws as_gone s gone-less) h

-- In every reachable state in which a session key is stored, or an agent or terminal is connected,
-- or an accepted agent socket that is still open has not said hello, the alarm is set.
pub Reach-armed :
    (rt : Runtime) (s : Fleet) → Reach rt s → needs_alarm s ≡ true → is_some s.alarm ≡ true
unfolding new_fleet any_live
Reach-armed rt _ start need = cc
Reach-armed rt _ (next {s} r now e new) need =
    step-IsArmed rt now e s (Reach-IsSound rt r) (Reach-armed rt s r) need
