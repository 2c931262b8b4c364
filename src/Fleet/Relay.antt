-- ===== src/Fleet/Relay.antt =====
-- To whom the frames of worker/src/fleet.js go: the relay between agents and browsers.
use popfleet.Base.{
  ℕ, String, true, Option, none, some, ◌≡◌, refl, ap, subst, arith, eq_iff, Bool-cases, str_eq,
  if-both, List, [], ◌∷◌, ◌++◌, inl, inr,
}
use popfleet.Json.{Json, str, prop, is_null, tag_of, or_else}
use popfleet.Fleet.Runtime.{Runtime, to_text}
use popfleet.Fleet.State.{
  Fleet, Frame, Effect, sends, closes, agent, term, err_frame, in_frame, resize_frame, out_frame,
  exit_frame,
}
use popfleet.Fleet.Sockets.{
  attach, mid_of, same, is_open, ws_send, ws_close, agent_socket, term_by_sid, serialize,
}
use popfleet.Fleet.Frames.{
  Raw, relay, relay_last, owned, from_agent, from_term, from_term_to, dispatch, dispatch_if, parsed,
  web_socket_message, Ended,
}

-- What was sent grew by effects that satisfy `P`.
pub data Grows (P : Effect → Type 0) (before : List Effect) : List Effect → Type 0 where
  unchanged : Grows P before before
  grown :
      {after : List Effect}
      → Grows P before after
      → (e : Effect) → P e
      → Grows P before (after ++ e ∷ [])

module _ {P : Effect → Type 0} {before : List Effect} where
  pub ws_send-Grows :
      (ws : ℕ) (f : Frame) (s : Fleet)
      → P (sends ws f)
      → Grows P before s.sent
      → Grows P before (ws_send ws f s).sent
  unfolding ws_send
  ws_send-Grows ws f s p g = if-both (Grows P before) (is_open s ws) (grown g (sends ws f) p) g

  pub ws_close-Grows :
      (ws code : ℕ) (why : String) (s : Fleet)
      → P (closes ws code why)
      → Grows P before s.sent
      → Grows P before (ws_close ws code why s).sent
  unfolding ws_close
  ws_close-Grows ws code why s p g =
      if-both (Grows P before) (is_open s ws) (grown g (closes ws code why) p) g

-- The effect is on a socket that is attached to the machine `mid`.
abbrev pub target : Effect → ℕ
target (sends ws f) = ws
target (closes ws code why) = ws

abbrev pub Within : Fleet → String → Effect → Type 0
Within s mid e = mid_of (attach s (target e)) ≡ some mid

pub same-eq : (a b : Option String) → same a b ≡ true → a ≡ b
unfolding same
same-eq none none h = refl
same-eq none (some b) h = cc
same-eq (some a) none h = cc
same-eq (some a) (some b) h = ap some ((eq_iff a b).0 h)

owned-Within :
    (s : Fleet) (mid : String) (t : Option ℕ) {u : ℕ}
    → owned s mid t ≡ some u
    → mid_of (attach s u) ≡ some mid
owned-Within s mid none h = cc
owned-Within s mid (some t) {u} h = elim (Bool-cases (same (mid_of (attach s t)) (some mid))) [
  | inl own ↦
      let hit : t ≡ u = ground arith in
      same-eq (mid_of (attach s u)) (some mid)
        (subst (λ v. same (mid_of (attach s v)) (some mid) ≡ true) hit own)
  | inr foreign ↦ absurd (ground arith)
]

module _ (s : Fleet) (mid : String) where
  relay-Within :
      (t : Option ℕ) (f : Frame)
      → ((u : ℕ) → t ≡ some u → mid_of (attach s u) ≡ some mid)
      → Grows (Within s mid) s.sent (relay t f s).sent
  relay-Within none f own = unchanged
  relay-Within (some t) f own = ws_send-Grows t f s (own t refl) unchanged

  relay_last-Within :
      (t : Option ℕ) (f : Frame) (why : String)
      → ((u : ℕ) → t ≡ some u → mid_of (attach s u) ≡ some mid)
      → Grows (Within s mid) s.sent (relay_last t f why s).sent
  relay_last-Within none f why own = unchanged
  relay_last-Within (some t) f why own =
      ws_close-Grows t 1000 why (ws_send t f s) (own t refl)
        (ws_send-Grows t f s (own t refl) unchanged)

  from_agent-Within :
      (rt : Runtime) (now ws : ℕ) (m : Json)
      → Grows (Within s mid) s.sent (from_agent rt now ws mid m s).sent
  unfolding from_agent serialize
  from_agent-Within rt now ws m =
      let t = owned s mid (term_by_sid s (to_text rt (prop m "sid"))) in
      let own = λ (u : ℕ). owned-Within s mid (term_by_sid s (to_text rt (prop m "sid"))) {u = u} in
      let P = λ (r : Fleet). Grows (Within s mid) s.sent r.sent in
      if-both P (str_eq (tag_of m) "hb") unchanged (
        if-both P (str_eq (tag_of m) "out") (relay-Within t (out_frame (prop m "data")) own) (
          if-both P (str_eq (tag_of m) "exit")
            (relay_last-Within t (exit_frame (prop m "code")) "shell exited" own)
            (if-both P (str_eq (tag_of m) "err")
              (relay_last-Within t (err_frame (or_else (prop m "msg") (str "session error")))
                "agent error" own)
              unchanged)))

  dispatch_if-Within :
      (rt : Runtime) (now ws seen : ℕ) (m : Option Json)
      → attach s ws ≡ agent mid seen
      → Grows (Within s mid) s.sent (dispatch_if rt now ws m s).0.sent
  unfolding dispatch
  dispatch_if-Within rt now ws seen none e = unchanged
  dispatch_if-Within rt now ws seen (some m) e =
      rw (e, dispatch)
        (if-both (λ (r : Fleet × Ended). Grows (Within s mid) s.sent r.0.sent) (is_null m) unchanged
          (from_agent-Within rt now ws m))

-- Whatever an enrolled agent sends, the relay sends to and closes only sockets that are attached to
-- the agent's own machine.
pub agent_message-Within :
    (rt : Runtime) (now ws : ℕ) (raw : Raw) (s : Fleet) (mid : String) (seen : ℕ)
    → attach s ws ≡ agent mid seen
    → Grows (Within s mid) s.sent (web_socket_message rt now ws raw s).0.sent
unfolding web_socket_message
agent_message-Within rt now ws raw s mid seen e =
    dispatch_if-Within s mid rt now ws seen (parsed rt raw) e

-- The effect is a frame of the session `sid` to the machine's agent.
abbrev pub session_of : Frame → Option String
session_of (in_frame sid payload) = some sid
session_of (resize_frame sid c r) = some sid
session_of _ = none

pub record ToAgent (s : Fleet) (sid mid : String) (e : Effect) : Type 0 where
  pub ws : ℕ
  pub frame : Frame
  pub to : agent_socket s (some mid) ≡ some ws
  pub is : e ≡ sends ws frame
  pub session : session_of frame ≡ some sid

from_term_to-ToAgent :
    (sid mid : String) (m : Json) (ws : Option ℕ) (s : Fleet)
    → agent_socket s (some mid) ≡ ws
    → Grows (ToAgent s sid mid) s.sent (from_term_to sid m ws s).0.sent
unfolding from_term
from_term_to-ToAgent sid mid m none s e = unchanged
from_term_to-ToAgent sid mid m (some ws) s e =
    let P = λ (r : Fleet). Grows (ToAgent s sid mid) s.sent r.sent in
    if-both (λ (r : Fleet × Ended). P r.0) (is_null m) unchanged
      (if-both P (str_eq (tag_of m) "in")
        (ws_send-Grows ws (in_frame sid (prop m "data")) s
          (record {
            ws = ws;
            frame = in_frame sid (prop m "data");
            to = e;
            is = refl;
            session = refl;
          })
          unchanged)
        (if-both P (str_eq (tag_of m) "resize")
          (ws_send-Grows ws (resize_frame sid (prop m "c") (prop m "r")) s
            (record {
              ws = ws;
              frame = resize_frame sid (prop m "c") (prop m "r");
              to = e;
              is = refl;
              session = refl;
            })
            unchanged)
          unchanged))

dispatch_if-ToAgent :
    (rt : Runtime) (now ws : ℕ) (m : Option Json) (s : Fleet) (sid mid : String)
    → attach s ws ≡ term sid mid
    → Grows (ToAgent s sid mid) s.sent (dispatch_if rt now ws m s).0.sent
unfolding dispatch
dispatch_if-ToAgent rt now ws none s sid mid e = unchanged
dispatch_if-ToAgent rt now ws (some m) s sid mid e =
    rw (e, dispatch) (from_term_to-ToAgent sid mid m (agent_socket s (some mid)) s refl)

-- Whatever a browser sends on the terminal of a session, the relay sends only to the agent of that
-- session's machine, and only input and resize frames that carry this session's sid.
pub term_message-ToAgent :
    (rt : Runtime) (now ws : ℕ) (raw : Raw) (s : Fleet) (sid mid : String)
    → attach s ws ≡ term sid mid
    → Grows (ToAgent s sid mid) s.sent (web_socket_message rt now ws raw s).0.sent
unfolding web_socket_message
term_message-ToAgent rt now ws raw s sid mid e =
    dispatch_if-ToAgent rt now ws (parsed rt raw) s sid mid e
