-- ===== src/Fleet/State.antt =====
-- The state of the class Fleet: its storage, one map for each key prefix, its alarm, and its
-- WebSockets with what the code attaches to them and sends through them.
use popfleet.Base.{ℕ, String, Bool, List, [], Option, none}
use popfleet.Json.{Json}
use popfleet.Dict.{Dict}

abbrev pub key_ttl_ms : ℕ
key_ttl_ms = 60_000

abbrev pub offline_ms : ℕ
offline_ms = 25_000

abbrev pub dead_ms : ℕ
dead_ms = 35_000

abbrev pub hello_ms : ℕ
hello_ms = 10_000

abbrev pub sweep_ms : ℕ
sweep_ms = 15_000

-- "machine:<id>". Names and versions are what an agent or a request sent.
pub record Machine : Type 0 where
  pub id : String
  pub name : Json
  pub token_sum : String
  pub last_seen : ℕ
  pub agent_ver : Json

-- "pend:<sid>".
pub record Pend : Type 0 where
  pub key_sum : String
  pub mid : String
  pub cmd : Json
  pub exp : ℕ

-- The tags of `acceptWebSocket`.
pub data Tag : Type 0 where
  agent_tag term_tag : Tag
  sid_tag : String → Tag
  mid_tag : String → Tag

-- What `serializeAttachment` keeps, by its `kind`; `blank` is `{}`.
pub data Attachment : Type 0 where
  blank : Attachment
  pending : (since : ℕ) → Attachment
  agent : (mid : String) → (seen : ℕ) → Attachment
  term : (sid mid : String) → Attachment
  replaced : Attachment

-- The frames that the relay sends. A field is `none` where it is undefined, and then
-- JSON.stringify leaves it out.
pub data Frame : Type 0 where
  e2e_frame : Frame
  err_frame : (msg : Json) → Frame
  hello_ok_frame : (id : String) → Frame
  open_frame : (sid : String) → (cmd : Json) → Frame
  in_frame : (sid : String) → (payload : Option Json) → Frame
  resize_frame : (sid : String) → (c r : Option Json) → Frame
  close_frame : (sid : String) → Frame
  out_frame : (payload : Option Json) → Frame
  exit_frame : (code : Option Json) → Frame

-- What a handler does to a socket, in order.
pub data Effect : Type 0 where
  sends : (ws : ℕ) → Frame → Effect
  closes : (ws : ℕ) → (code : ℕ) → (reason : String) → Effect

-- A WebSocket object; `id` is its identity. It is `connected` while `getWebSockets` returns it,
-- which goes on after `close` until the other side is gone; `closed` is set by `close`; `auto` is
-- the time of the last heartbeat that the runtime answered by itself.
pub record Socket : Type 0 where
  pub id : ℕ
  pub tags : List Tag
  pub attachment : Attachment
  pub connected : Bool
  pub closed : Bool
  pub auto : Option ℕ

pub record Fleet : Type 0 where
  pub machines : Dict Machine
  pub toks : Dict String
  pub pends : Dict Pend
  pub alarm : Option ℕ
  pub sockets : List Socket
  pub next_id : ℕ
  pub sent : List Effect

-- A new object.
unfoldable pub new_fleet : Fleet
new_fleet = record {
  machines = [];
  toks = [];
  pends = [];
  alarm = none;
  sockets = [];
  next_id = 0;
  sent = [];
}
