-- ===== src/Fleet/Core.antt =====
-- The part of the state of worker/src/fleet.js on which its invariants rest: it forgets the alarm,
-- the frames sent, which sockets are closed and when a heartbeat was last absorbed. Sending,
-- closing and arming leave it as it is.
use popfleet.Base.{ℕ, String, false, List, [], ◌∷◌, Option, none, ◌≡◌, refl, ap, ◌∙◌, arith}
use popfleet.Dict.{Dict}
use popfleet.Fleet.State.{Fleet, Socket, Machine, Pend, Frame, err_frame, Attachment, Tag, replaced}
use popfleet.Json.{str}
use popfleet.Fleet.Sockets.{
  attach, find_socket, attachment_of, first_with, get_web_sockets, term_sockets, mid_of, modify,
  with_attachment, as_closed, serialize, ws_send, ws_close, arm_alarm, end_terms, drop_agent,
}
use popfleet.Fleet.Events.{heard_at}

abbrev pub bare_socket : Socket → Socket
bare_socket k = record k { closed = false; auto = none }

abbrev pub bare : List Socket → List Socket
bare [] = []
bare (k ∷ ks) = bare_socket k ∷ bare ks

pub record Core : Type 0 where
  pub machines : Dict Machine
  pub toks : Dict String
  pub pends : Dict Pend
  pub sockets : List Socket
  pub next_id : ℕ

abbrev pub core : Fleet → Core
core s = record {
  machines = s.machines;
  toks = s.toks;
  pends = s.pends;
  sockets = bare s.sockets;
  next_id = s.next_id;
}

abbrev pub with_sockets : List Socket → Core → Core
with_sockets ks c = record c { sockets = ks }

bare-modify_closed : (ws : ℕ) (ks : List Socket) → bare (modify ws as_closed ks) ≡ bare ks
unfolding modify
bare-modify_closed ws [] = refl
bare-modify_closed ws (k ∷ ks) = ground (arith, bare-modify_closed ws ks)

bare-modify_heard : (ws now : ℕ) (ks : List Socket) → bare (modify ws (heard_at now) ks) ≡ bare ks
unfolding modify
bare-modify_heard ws now [] = refl
bare-modify_heard ws now (k ∷ ks) = ground (arith, bare-modify_heard ws now ks)

bare-modify_attachment :
    (ws : ℕ) (a : Attachment) (ks : List Socket)
    → bare (modify ws (with_attachment a) ks) ≡ modify ws (with_attachment a) (bare ks)
unfolding modify
bare-modify_attachment ws a [] = refl
bare-modify_attachment ws a (k ∷ ks) = ground (arith, bare-modify_attachment ws a ks)

pub core-ws_send : (ws : ℕ) (f : Frame) (s : Fleet) → core (ws_send ws f s) ≡ core s
unfolding ws_send
core-ws_send ws f s = refl

pub core-ws_close :
    (ws code : ℕ) (why : String) (s : Fleet) → core (ws_close ws code why s) ≡ core s
unfolding ws_close
core-ws_close ws code why s = ap (λ ks. with_sockets ks (core s)) (bare-modify_closed ws s.sockets)

pub core-heard :
    (ws now : ℕ) (s : Fleet)
    → core (record s { sockets = modify ws (heard_at now) s.sockets }) ≡ core s
core-heard ws now s = ap (λ ks. with_sockets ks (core s)) (bare-modify_heard ws now s.sockets)

pub core-arm_alarm : (now : ℕ) (s : Fleet) → core (arm_alarm now s) ≡ core s
unfolding arm_alarm
core-arm_alarm now s = refl

pub core-serialize :
    (ws : ℕ) (a : Attachment) (s : Fleet)
    → core (serialize ws a s)
      ≡ with_sockets (modify ws (with_attachment a) (bare s.sockets)) (core s)
unfolding serialize
core-serialize ws a s = ap (λ ks. with_sockets ks (core s)) (bare-modify_attachment ws a s.sockets)

pub core-end_terms : (why : String) (ts : List ℕ) (s : Fleet) → core (end_terms why ts s) ≡ core s
unfolding end_terms
core-end_terms why [] s = refl
core-end_terms why (t ∷ ts) s =
    let told = ws_send t (err_frame (str why)) s in
    core-end_terms why ts (ws_close t 1000 why told)
    ∙ core-ws_close t 1000 why told
    ∙ core-ws_send t (err_frame (str why)) s

-- The lookups read nothing else.
pub find_socket-bare :
    (ws : ℕ) (ks : List Socket)
    → attachment_of (find_socket ws (bare ks)) ≡ attachment_of (find_socket ws ks)
unfolding find_socket
find_socket-bare ws [] = refl
find_socket-bare ws (k ∷ ks) = ground (arith, find_socket-bare ws ks)

pub first_with-bare :
    (t : Tag) (mid : Option String) (ks : List Socket)
    → first_with mid (get_web_sockets t (bare ks)) ≡ first_with mid (get_web_sockets t ks)
unfolding first_with get_web_sockets
first_with-bare t mid [] = refl
first_with-bare t mid (k ∷ ks) = ground (arith, first_with-bare t mid ks)

-- A socket that is tagged anew and closed.
pub core-retire :
    (ws code : ℕ) (why : String) (a : Attachment) (s : Fleet)
    → core (ws_close ws code why (serialize ws a s))
      ≡ with_sockets (modify ws (with_attachment a) (bare s.sockets)) (core s)
core-retire ws code why a s = core-ws_close ws code why (serialize ws a s) ∙ core-serialize ws a s

pub core-drop_agent :
    (ws : ℕ) (why : String) (s : Fleet)
    → core (drop_agent ws why s)
      ≡ with_sockets (modify ws (with_attachment replaced) (bare s.sockets)) (core s)
unfolding drop_agent
core-drop_agent ws why s =
    let ts = term_sockets s (mid_of (attach s ws)) in
    core-retire ws 1000 why replaced (end_terms why ts s)
    ∙ ap (λ (c : Core). with_sockets (modify ws (with_attachment replaced) c.sockets) c)
        (core-end_terms why ts s)
