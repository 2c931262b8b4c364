-- ===== src/Fleet/Frames.antt =====
-- `webSocketMessage` and `hello` of worker/src/fleet.js.
use popfleet.Base.{ℕ, String, Bool, Option, none, some, str_eq, if◌then◌else◌}
use popfleet.Json.{Json, str, prop, is_null, truthy, or_else, tag_of}
use popfleet.Dict.{lookup, put}
use popfleet.Fleet.Runtime.{Runtime, sha256hex, to_text}
use popfleet.Fleet.State.{
  Fleet, Machine, Attachment, blank, pending, agent, term, replaced, Frame, err_frame,
  hello_ok_frame, in_frame, resize_frame, out_frame, exit_frame,
}
use popfleet.Fleet.Sockets.{
  attach, mid_of, same, agent_socket, term_sockets, term_by_sid, serialize, ws_send, ws_close,
  arm_alarm, end_terms,
}

-- How a handler ends.
pub data Ended : Type 0 where
  finished threw : Ended

-- What a socket delivers.
pub data Raw : Type 0 where
  binary : Raw
  text : String → Raw

abbrev pub e2e_required : String
e2e_required =
    "this relay requires end-to-end encryption: upgrade the agent to v2 and set POPFLEET_E2E_KEY (or run the v1 Go broker on your LAN)"

-- A second connection with the same token takes the machine over from the first.
abbrev pub replace_old : String → Option ℕ → Fleet → Fleet
replace_old mid none s = s
replace_old mid (some old) s =
    let tagged = serialize old replaced s in
    ws_close old 1000 "replaced by a newer connection"
      (end_terms "agent reconnected" (term_sockets tagged (some mid)) tagged)

abbrev pub greeted_machine : ℕ → Json → Machine → Machine
greeted_machine now m machine = record machine {
  name = or_else (prop m "name") machine.name;
  agent_ver = or_else (prop m "ver") machine.agent_ver;
  last_seen = now;
}

abbrev pub touch : ℕ → Json → String → Option Machine → Fleet → Fleet
touch now m mid none s = s
touch now m mid (some machine) s = record s {
  machines = put mid (greeted_machine now m machine) s.machines;
}

-- A hello whose token is known and which speaks v1e.
unfoldable pub enroll : ℕ → ℕ → Json → String → Fleet → Fleet
unfolding agent_socket serialize end_terms term_sockets ws_close lookup put ws_send arm_alarm
enroll now ws m mid s =
    let cleared = replace_old mid (agent_socket s (some mid)) s in
    let tagged = serialize ws (agent mid now) cleared in
    let saved = touch now m mid (lookup mid tagged.machines) tagged in
    arm_alarm now (ws_send ws (hello_ok_frame mid) saved)

abbrev pub admit : ℕ → ℕ → Json → Option String → Fleet → Fleet
admit now ws m none s = ws_close ws 1008 "unknown or revoked token" s
admit now ws m (some mid) s =
    if truthy (prop m "e2e")
    then enroll now ws m mid s
    else ws_close ws 1008 "e2e required" (ws_send ws (err_frame (str e2e_required)) s)

unfoldable pub token_sum_of : Runtime → Json → String
unfolding sha256hex to_text or_else prop
token_sum_of rt m = sha256hex rt (to_text rt (some (or_else (prop m "token") (str ""))))

-- `!mid` holds of a missing id and of an empty one.
abbrev pub known_id : Option String → Option String
known_id none = none
known_id (some mid) = if str_eq mid "" then none else some mid

-- `hello` on a frame whose `t` can be read.
unfoldable pub hello_object : Runtime → ℕ → ℕ → Json → Fleet → Fleet
unfolding tag_of lookup enroll ws_close ws_send token_sum_of
hello_object rt now ws m s =
    if str_eq (tag_of m) "hello"
    then admit now ws m (known_id (lookup (token_sum_of rt m) s.toks)) s
    else ws_close ws 1002 "first frame must be hello" s

abbrev pub or_threw : Bool → Fleet → Fleet → Fleet × Ended
or_threw null_frame s s' = if null_frame then (s, threw) else (s', finished)

-- On null, `m.t` throws.
unfoldable pub hello : Runtime → ℕ → ℕ → Json → Fleet → Fleet × Ended
unfolding hello_object
hello rt now ws m s = or_threw (is_null m) s (hello_object rt now ws m s)

-- The terminal of a session, if it belongs to this machine.
abbrev pub owned : Fleet → String → Option ℕ → Option ℕ
owned s mid none = none
owned s mid (some t) = if same (mid_of (attach s t)) (some mid) then some t else none

abbrev pub relay : Option ℕ → Frame → Fleet → Fleet
relay none frame s = s
relay (some t) frame s = ws_send t frame s

abbrev pub relay_last : Option ℕ → Frame → String → Fleet → Fleet
relay_last none frame why s = s
relay_last (some t) frame why s = ws_close t 1000 why (ws_send t frame s)

unfoldable pub from_agent : Runtime → ℕ → ℕ → String → Json → Fleet → Fleet
unfolding tag_of serialize term_by_sid to_text prop attach same mid_of ws_send ws_close or_else
from_agent rt now ws mid m s =
    let t = owned s mid (term_by_sid s (to_text rt (prop m "sid"))) in
    if str_eq (tag_of m) "hb"
    then serialize ws (agent mid now) s
    else (if str_eq (tag_of m) "out"
        then relay t (out_frame (prop m "data")) s
        else (if str_eq (tag_of m) "exit"
            then relay_last t (exit_frame (prop m "code")) "shell exited" s
            else (if str_eq (tag_of m) "err"
                then relay_last t (err_frame (or_else (prop m "msg") (str "session error")))
                    "agent error" s
                else s)))

unfoldable pub from_term : String → Json → ℕ → Fleet → Fleet
unfolding tag_of prop ws_send
from_term sid m ws s =
    if str_eq (tag_of m) "in"
    then ws_send ws (in_frame sid (prop m "data")) s
    else (if str_eq (tag_of m) "resize"
        then ws_send ws (resize_frame sid (prop m "c") (prop m "r")) s
        else s)

abbrev pub from_term_to : String → Json → Option ℕ → Fleet → Fleet × Ended
from_term_to sid m none s = (s, finished)
from_term_to sid m (some ws) s = or_threw (is_null m) s (from_term sid m ws s)

-- By the socket's kind. On null, `m.t` throws.
unfoldable pub dispatch : Runtime → ℕ → ℕ → Attachment → Json → Fleet → Fleet × Ended
unfolding hello from_agent from_term agent_socket
dispatch rt now ws (pending since) m s = hello rt now ws m s
dispatch rt now ws (agent mid seen) m s = or_threw (is_null m) s (from_agent rt now ws mid m s)
dispatch rt now ws (term sid mid) m s = from_term_to sid m (agent_socket s (some mid)) s
dispatch rt now ws blank m s = (s, finished)
dispatch rt now ws replaced m s = (s, finished)

abbrev pub parsed : Runtime → Raw → Option Json
parsed rt binary = none
parsed rt (text raw) = rt.parse raw

abbrev pub dispatch_if : Runtime → ℕ → ℕ → Option Json → Fleet → Fleet × Ended
dispatch_if rt now ws none s = (s, finished)
dispatch_if rt now ws (some m) s = dispatch rt now ws (attach s ws) m s

unfoldable pub web_socket_message : Runtime → ℕ → ℕ → Raw → Fleet → Fleet × Ended
unfolding dispatch attach
web_socket_message rt now ws raw s = dispatch_if rt now ws (parsed rt raw) s
