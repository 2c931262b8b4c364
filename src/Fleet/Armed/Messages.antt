-- ===== src/Fleet/Armed/Messages.antt =====
-- The frames that worker/src/fleet.js handles leave the alarm set while anything is there to sweep.
use popfleet.Base.{
  ℕ, ◌+◌, ◌≤◌, String, ◌||◌, List, [], ◌∷◌, Option, none, some, if-both, str_eq, ◌≡◌, refl, sym, ap,
  ◌∙◌, arith,
}
use popfleet.Json.{Json, str, prop, truthy, is_null, tag_of, or_else}
use popfleet.Dict.{lookup}
use popfleet.Fleet.Runtime.{Runtime, to_text}
use popfleet.Fleet.State.{
  Fleet, Frame, Socket, Attachment, blank, pending, agent, term, replaced, err_frame, in_frame,
  resize_frame, out_frame, exit_frame, sweep_ms,
}
use popfleet.Fleet.Lifecycle.{any_pend}
use popfleet.Fleet.Sockets.{
  attach, attachment_of, find_socket, modify, with_attachment, serialize, ws_send, agent_socket,
  term_by_sid, arm_alarm,
}
use popfleet.Fleet.Frames.{
  Raw, Ended, relay, relay_last, owned, enroll, e2e_required, admit, token_sum_of, hello_object,
  known_id, from_agent, from_term, from_term_to, dispatch, dispatch_if, parsed, web_socket_message,
}
use popfleet.Fleet.Core.{core}
use popfleet.Fleet.Counts.{Below}
use popfleet.Fleet.Soundness.{IsSound}
use popfleet.Fleet.Armed.{IsArmed, Calms, Calms-refl, Calms-trans, IsArmed-Calms, any_live}
use popfleet.Fleet.Armed.Calls.{ws_send-Calms, ws_close-Calms, is_some-armed}
use popfleet.Fleet.Armed.Always.{Below-bare}

enroll-IsArmed :
    (now ws : ℕ) (m : Json) (mid : String) (s : Fleet) → IsArmed (enroll now ws m mid s)
unfolding enroll arm_alarm
enroll-IsArmed now ws m mid s n = is_some-armed _ (now + sweep_ms)

admit-IsArmed :
    (now ws : ℕ) (m : Json) (mid : Option String) (s : Fleet)
    → IsArmed s
    → IsArmed (admit now ws m mid s)
admit-IsArmed now ws m none s h =
    IsArmed-Calms (ws_close-Calms ws 1008 "unknown or revoked token" s) h
admit-IsArmed now ws m (some mid) s h =
    let told = ws_send ws (err_frame (str e2e_required)) s in
    if-both IsArmed (truthy (prop m "e2e")) (enroll-IsArmed now ws m mid s) (
      IsArmed-Calms
        (Calms-trans (ws_send-Calms ws (err_frame (str e2e_required)) s)
          (ws_close-Calms ws 1008 "e2e required" told))
        h)

hello_object-IsArmed :
    (rt : Runtime) (now ws : ℕ) (m : Json) (s : Fleet)
    → IsArmed s
    → IsArmed (hello_object rt now ws m s)
unfolding hello_object
hello_object-IsArmed rt now ws m s h =
    if-both IsArmed (str_eq (tag_of m) "hello")
      (admit-IsArmed now ws m (known_id (lookup (token_sum_of rt m) s.toks)) s h)
      (IsArmed-Calms (ws_close-Calms ws 1002 "first frame must be hello" s) h)

-- A heartbeat of an agent changes its attachment, and that is all.
modify_absent-live :
    (n ws : ℕ) (a : Attachment) (ks : List Socket)
    → Below n ks
    → n ≤ ws
    → any_live (modify ws (with_attachment a) ks) ≡ any_live ks
unfolding any_live modify
modify_absent-live n ws a [] b h = refl
modify_absent-live n ws a (k ∷ ks) b h =
    ground (arith, modify_absent-live k.id ws a ks b.1 (omega (arith, b.0)))

any_live-refresh :
    (n ws now : ℕ) (mid : String) (seen : ℕ) (ks : List Socket)
    → Below n ks
    → attachment_of (find_socket ws ks) ≡ agent mid seen
    → any_live (modify ws (with_attachment (agent mid now)) ks) ≡ any_live ks
unfolding any_live modify find_socket
any_live-refresh n ws now mid seen [] b e = refl
any_live-refresh n ws now mid seen (k ∷ ks) b e = ground (
  arith,
  any_live-refresh k.id ws now mid seen ks b.1,
  modify_absent-live k.id ws (agent mid now) ks b.1,
)

refresh-IsArmed :
    (now ws : ℕ) (mid : String) (seen : ℕ) (s : Fleet)
    → attach s ws ≡ agent mid seen
    → IsSound (core s)
    → IsArmed s
    → IsArmed (serialize ws (agent mid now) s)
unfolding attach serialize
refresh-IsArmed now ws mid seen s e v h n = h (
    ap (λ b. any_pend s.pends || b)
      (sym (
        any_live-refresh s.next_id ws now mid seen s.sockets (Below-bare s.next_id s.sockets v.ids)
          e))
    ∙ n)

relay-Calms : (t : Option ℕ) (f : Frame) (s : Fleet) → Calms s (relay t f s)
relay-Calms none f s = Calms-refl s
relay-Calms (some t) f s = ws_send-Calms t f s

relay_last-Calms :
    (t : Option ℕ) (f : Frame) (why : String) (s : Fleet) → Calms s (relay_last t f why s)
relay_last-Calms none f why s = Calms-refl s
relay_last-Calms (some t) f why s =
    Calms-trans (ws_send-Calms t f s) (ws_close-Calms t 1000 why (ws_send t f s))

from_agent-IsArmed :
    (rt : Runtime) (now ws : ℕ) (mid : String) (seen : ℕ) (m : Json) (s : Fleet)
    → attach s ws ≡ agent mid seen
    → IsSound (core s)
    → IsArmed s
    → IsArmed (from_agent rt now ws mid m s)
unfolding from_agent
from_agent-IsArmed rt now ws mid seen m s e v h =
    let t = owned s mid (term_by_sid s (to_text rt (prop m "sid"))) in
    let error = err_frame (or_else (prop m "msg") (str "session error")) in
    if-both IsArmed (str_eq (tag_of m) "hb") (refresh-IsArmed now ws mid seen s e v h) (
      if-both IsArmed (str_eq (tag_of m) "out")
        (IsArmed-Calms (relay-Calms t (out_frame (prop m "data")) s) h)
        (if-both IsArmed (str_eq (tag_of m) "exit")
          (IsArmed-Calms (relay_last-Calms t (exit_frame (prop m "code")) "shell exited" s) h)
          (if-both IsArmed (str_eq (tag_of m) "err")
            (IsArmed-Calms (relay_last-Calms t error "agent error" s) h) h)))

abbrev StaysArmed : Fleet × Ended → Type 0
StaysArmed r = IsArmed r.0

from_term_to-IsArmed :
    (sid : String) (m : Json) (ws : Option ℕ) (s : Fleet)
    → IsArmed s
    → StaysArmed (from_term_to sid m ws s)
unfolding from_term
from_term_to-IsArmed sid m none s h = h
from_term_to-IsArmed sid m (some ws) s h = if-both StaysArmed (is_null m) h (
    if-both IsArmed (str_eq (tag_of m) "in")
      (IsArmed-Calms (ws_send-Calms ws (in_frame sid (prop m "data")) s) h)
      (if-both IsArmed (str_eq (tag_of m) "resize")
        (IsArmed-Calms (ws_send-Calms ws (resize_frame sid (prop m "c") (prop m "r")) s) h) h))

dispatch-IsArmed :
    (rt : Runtime) (now ws : ℕ) (a : Attachment) (m : Json) (s : Fleet)
    → attach s ws ≡ a
    → IsSound (core s)
    → IsArmed s
    → StaysArmed (dispatch rt now ws a m s)
unfolding dispatch
dispatch-IsArmed rt now ws blank m s e v h = h
dispatch-IsArmed rt now ws (pending since) m s e v h =
    if-both StaysArmed (is_null m) h (hello_object-IsArmed rt now ws m s h)
dispatch-IsArmed rt now ws (agent mid seen) m s e v h =
    if-both StaysArmed (is_null m) h (from_agent-IsArmed rt now ws mid seen m s e v h)
dispatch-IsArmed rt now ws (term sid mid) m s e v h =
    from_term_to-IsArmed sid m (agent_socket s (some mid)) s h
dispatch-IsArmed rt now ws replaced m s e v h = h

dispatch_if-IsArmed :
    (rt : Runtime) (now ws : ℕ) (m : Option Json) (s : Fleet)
    → IsSound (core s)
    → IsArmed s
    → StaysArmed (dispatch_if rt now ws m s)
dispatch_if-IsArmed rt now ws none s v h = h
dispatch_if-IsArmed rt now ws (some m) s v h = dispatch-IsArmed rt now ws (attach s ws) m s refl v h

pub web_socket_message-IsArmed :
    (rt : Runtime) (now ws : ℕ) (raw : Raw) (s : Fleet)
    → IsSound (core s)
    → IsArmed s
    → StaysArmed (web_socket_message rt now ws raw s)
unfolding web_socket_message
web_socket_message-IsArmed rt now ws raw s v h = dispatch_if-IsArmed rt now ws (parsed rt raw) s v h
