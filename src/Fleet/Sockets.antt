-- ===== src/Fleet/Sockets.antt =====
-- The socket lookups of worker/src/fleet.js, and the calls that change a socket.
use popfleet.Base.{
  ℕ, suc, max, ◌+◌, String, Bool, true, false, not, ◌&&◌, ◌||◌, List, [], ◌∷◌, ◌++◌, Option, none,
  some, str_eq, ◌==◌, if◌then◌else◌,
}
use popfleet.Json.{str}
use popfleet.Fleet.State.{
  Fleet, Socket, Tag, agent_tag, term_tag, sid_tag, mid_tag, Attachment, blank, pending, agent,
  term, replaced, Frame, err_frame, sends, closes, sweep_ms,
}

unfoldable pub tag_eq : Tag → Tag → Bool
tag_eq agent_tag agent_tag = true
tag_eq term_tag term_tag = true
tag_eq (sid_tag s) (sid_tag t) = str_eq s t
tag_eq (mid_tag s) (mid_tag t) = str_eq s t
tag_eq _ _ = false

unfoldable pub has_tag : Tag → List Tag → Bool
unfolding tag_eq
has_tag t [] = false
has_tag t (u ∷ us) = tag_eq t u || has_tag t us

unfoldable pub find_socket : ℕ → List Socket → Option Socket
find_socket ws [] = none
find_socket ws (k ∷ ks) = if k.id == ws then some k else find_socket ws ks

abbrev pub attachment_of : Option Socket → Attachment
attachment_of none = blank
attachment_of (some k) = k.attachment

-- `attach(ws)`.
unfoldable pub attach : Fleet → ℕ → Attachment
unfolding find_socket
attach s ws = attachment_of (find_socket ws s.sockets)

-- `attach(ws).mid`.
unfoldable pub mid_of : Attachment → Option String
mid_of blank = none
mid_of (pending since) = none
mid_of (agent mid seen) = some mid
mid_of (term sid mid) = some mid
mid_of replaced = none

-- `===` on texts that may be undefined.
unfoldable pub same : Option String → Option String → Bool
same none none = true
same none (some b) = false
same (some a) none = false
same (some a) (some b) = str_eq a b

-- `getWebSockets(tag)`.
unfoldable pub get_web_sockets : Tag → List Socket → List Socket
unfolding has_tag
get_web_sockets t [] = []
get_web_sockets t (k ∷ ks) =
    let rest = get_web_sockets t ks in if k.connected && has_tag t k.tags then k ∷ rest else rest

-- The first socket, or all of them, whose attachment has this `mid`.
unfoldable pub first_with : Option String → List Socket → Option ℕ
unfolding same mid_of
first_with mid [] = none
first_with mid (k ∷ ks) = if same (mid_of k.attachment) mid then some k.id else first_with mid ks

unfoldable pub all_with : Option String → List Socket → List ℕ
unfolding same mid_of
all_with mid [] = []
all_with mid (k ∷ ks) =
    let rest = all_with mid ks in if same (mid_of k.attachment) mid then k.id ∷ rest else rest

unfoldable pub agent_socket : Fleet → Option String → Option ℕ
unfolding first_with get_web_sockets
agent_socket s mid = first_with mid (get_web_sockets agent_tag s.sockets)

unfoldable pub term_sockets : Fleet → Option String → List ℕ
unfolding all_with get_web_sockets
term_sockets s mid = all_with mid (get_web_sockets term_tag s.sockets)

abbrev pub first_id : List Socket → Option ℕ
first_id [] = none
first_id (k ∷ ks) = some k.id

unfoldable pub term_by_sid : Fleet → String → Option ℕ
unfolding get_web_sockets
term_by_sid s sid = first_id (get_web_sockets (sid_tag sid) s.sockets)

abbrev pub seen_of : Attachment → ℕ
seen_of blank = 0
seen_of (pending since) = 0
seen_of (agent mid seen) = seen
seen_of (term sid mid) = 0
seen_of replaced = 0

abbrev pub or_zero : Option ℕ → ℕ
or_zero none = 0
or_zero (some t) = t

abbrev pub auto_of : Option Socket → ℕ
auto_of none = 0
auto_of (some k) = or_zero k.auto

unfoldable pub last_seen_of : Fleet → ℕ → ℕ
unfolding attach find_socket
last_seen_of s ws = max (seen_of (attach s ws)) (auto_of (find_socket ws s.sockets))

unfoldable pub modify : ℕ → (Socket → Socket) → List Socket → List Socket
modify ws f [] = []
modify ws f (k ∷ ks) = (if k.id == ws then f k else k) ∷ modify ws f ks

abbrev pub with_attachment : Attachment → Socket → Socket
with_attachment a k = record k { attachment = a }

abbrev pub as_closed : Socket → Socket
as_closed k = record k { closed = true }

-- `ws.serializeAttachment(a)`.
unfoldable pub serialize : ℕ → Attachment → Fleet → Fleet
unfolding modify
serialize ws a s = record s { sockets = modify ws (with_attachment a) s.sockets }

abbrev pub is_open_socket : Option Socket → Bool
is_open_socket none = false
is_open_socket (some k) = k.connected && not k.closed

unfoldable pub is_open : Fleet → ℕ → Bool
unfolding find_socket
is_open s ws = is_open_socket (find_socket ws s.sockets)

-- `wsSend(ws, frame)`: on a socket that is gone or closed, `send` throws and this is caught.
unfoldable pub ws_send : ℕ → Frame → Fleet → Fleet
unfolding is_open
ws_send ws frame s = record s {
  sent = if is_open s ws then s.sent ++ sends ws frame ∷ [] else s.sent;
}

-- `ws.close(code, reason)`, which does nothing the second time.
unfoldable pub ws_close : ℕ → ℕ → String → Fleet → Fleet
unfolding is_open modify
ws_close ws code reason s = record s {
  sockets = modify ws as_closed s.sockets;
  sent = if is_open s ws then s.sent ++ closes ws code reason ∷ [] else s.sent;
}

-- `acceptWebSocket(server, tags)` and the attachment that follows it. The new socket's identity is
-- `next_id` of the state before.
unfoldable pub accept : List Tag → Attachment → Fleet → Fleet
accept tags a s = record s {
  sockets =
      record {
        id = s.next_id;
        tags = tags;
        attachment = a;
        connected = true;
        closed = false;
        auto = none;
      }
      ∷ s.sockets;
  next_id = suc s.next_id;
}

abbrev pub armed : Option ℕ → ℕ → Option ℕ
armed none at = some at
armed (some t) at = some t

unfoldable pub arm_alarm : ℕ → Fleet → Fleet
arm_alarm now s = record s { alarm = armed s.alarm (now + sweep_ms) }

-- The loop that ends terminals: an error frame and a close for each.
unfoldable pub end_terms : String → List ℕ → Fleet → Fleet
unfolding ws_send ws_close
end_terms why [] s = s
end_terms why (t ∷ ts) s =
    end_terms why ts (ws_close t 1000 why (ws_send t (err_frame (str why)) s))

unfoldable pub drop_agent : ℕ → String → Fleet → Fleet
unfolding end_terms term_sockets mid_of attach serialize ws_close
drop_agent ws why s =
    ws_close ws 1000 why
      (serialize ws replaced (end_terms why (term_sockets s (mid_of (attach s ws))) s))
