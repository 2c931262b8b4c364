-- ===== src/Fleet/Events.antt =====
-- `Fleet.fetch` of worker/src/fleet.js, and the events that the runtime delivers, one by one.
use popfleet.Base.{ℕ, String, false, ◌&&◌, List, Option, none, some, str_eq, if◌then◌else◌}
use popfleet.Json.{Json}
use popfleet.Routes.{strip, match_term, match_machine}
use popfleet.Fleet.Runtime.{Runtime, rand_hex}
use popfleet.Fleet.State.{Fleet, Socket}
use popfleet.Fleet.Sockets.{modify}
use popfleet.Fleet.Api.{
  Response, text_response, post_tokens, get_machines, post_term, delete_machine,
}
use popfleet.Fleet.Upgrades.{upgrade_agent, upgrade_term}
use popfleet.Fleet.Frames.{Raw, web_socket_message}
use popfleet.Fleet.Lifecycle.{reap, alarm}

-- `body` is `none` where it is no JSON, `k` the query parameter of this name.
pub record Request : Type 0 where
  pub method : String
  pub path : String
  pub k : Option String
  pub body : Option Json

-- The random bytes that a request may draw: 8 for an id or a sid, 24 for a token or a key.
pub record Draws : Type 0 where
  pub short : List ℕ
  pub long : List ℕ

abbrev pub or_empty : Option String → String
or_empty none = ""
or_empty (some k) = k

abbrev pub not_found : Response
not_found = text_response 404 "not found"

abbrev pub fetch_machine : Option String → Fleet → Fleet × Response
fetch_machine none s = (s, not_found)
fetch_machine (some mid) s = delete_machine mid s

abbrev pub fetch_delete : Request → Fleet → Fleet × Response
fetch_delete r s =
    if str_eq r.method "DELETE" then fetch_machine (match_machine r.path) s else (s, not_found)

abbrev pub fetch_term : Runtime → ℕ → Request → Draws → Option String → Fleet → Fleet × Response
fetch_term rt now r d none s = fetch_delete r s
fetch_term rt now r d (some mid) s =
    if str_eq r.method "POST"
    then post_term rt now mid r.body (rand_hex d.short) (rand_hex d.long) s
    else fetch_delete r s

abbrev pub fetch_api : Runtime → ℕ → Request → Draws → Fleet → Fleet × Response
fetch_api rt now r d s =
    if str_eq r.path "/api/tokens" && str_eq r.method "POST"
    then post_tokens rt r.body (rand_hex d.short) (rand_hex d.long) s
    else (if str_eq r.path "/api/machines" && str_eq r.method "GET"
        then get_machines rt now s
        else fetch_term rt now r d (match_term r.path) s)

abbrev pub fetch_upgrade : Runtime → ℕ → Request → Draws → Option String → Fleet → Fleet × Response
fetch_upgrade rt now r d none s = fetch_api rt now r d s
fetch_upgrade rt now r d (some sid) s = upgrade_term rt now sid (or_empty r.k) s

unfoldable pub fetch : Runtime → ℕ → Request → Draws → Fleet → Fleet × Response
unfolding upgrade_agent upgrade_term post_tokens get_machines post_term delete_machine match_term
    match_machine strip rand_hex
fetch rt now r d s =
    if str_eq r.path "/ws/agent"
    then upgrade_agent now s
    else fetch_upgrade rt now r d (strip "/ws/term/" r.path) s

-- `heartbeats` is one that the auto-response answers, `disconnects` the end of a connection, after
-- which `getWebSockets` no longer returns the socket.
pub data Event : Type 0 where
  fetches : Request → Draws → Event
  messages : (ws : ℕ) → Raw → Event
  ends : (ws : ℕ) → Event
  alarms : Event
  heartbeats : (ws : ℕ) → Event
  disconnects : (ws : ℕ) → Event

abbrev pub heard_at : ℕ → Socket → Socket
heard_at now k = record k { auto = some now }

abbrev pub as_gone : Socket → Socket
as_gone k = record k { connected = false }

-- The state after an event at the time `now`: its handler runs to its end before the next event. Where a
-- handler awaits, events may come in between: Fleet/Interleaved cuts the two handlers that await a digest
-- between the check of a session key and its use.
unfoldable pub step : Runtime → ℕ → Event → Fleet → Fleet
unfolding fetch web_socket_message reap alarm modify
step rt now (fetches r d) s = (fetch rt now r d s).0
step rt now (messages ws raw) s = (web_socket_message rt now ws raw s).0
step rt now (ends ws) s = reap ws s
step rt now alarms s = alarm now (record s { alarm = none })
step rt now (heartbeats ws) s = record s { sockets = modify ws (heard_at now) s.sockets }
step rt now (disconnects ws) s = record s { sockets = modify ws as_gone s.sockets }
