-- ===== src/Fleet/Looks.antt =====
-- What the calls on sockets of worker/src/fleet.js do to the socket that one looks at: its
-- attachment, when it was last heard of, and whether it is open.
use popfleet.Base.{
  ℕ, String, Bool, true, false, List, [], ◌∷◌, Option, none, some, ◌==◌, if◌then◌else◌, ◌≡◌, ◌≢◌,
  refl, ap, ◌∙◌, arith,
}
use mathlib.Core.Option
use popfleet.Fleet.State.{Fleet, Socket, Attachment, Frame, err_frame, replaced}
use popfleet.Json.{str}
use popfleet.Fleet.Sockets.{
  find_socket, modify, with_attachment, as_closed, attach, attachment_of, auto_of, is_open,
  serialize, ws_send, ws_close, end_terms, drop_agent, term_sockets, mid_of,
}

pub find_socket-modify :
    (u ws : ℕ) (f : Socket → Socket) (ks : List Socket)
    → ((k : Socket) → (f k).id ≡ k.id)
    → find_socket ws (modify u f ks)
      ≡ (if u == ws then Option.map f (find_socket ws ks) else find_socket ws ks)
unfolding find_socket modify
find_socket-modify u ws f [] h = ground arith
find_socket-modify u ws f (k ∷ ks) h = ground (arith, h k, find_socket-modify u ws f ks h)

-- What the code reads of a socket: its attachment and the time of its last absorbed heartbeat.
pub record Look : Type 0 where
  pub attachment : Attachment
  pub auto : ℕ

abbrev pub look_at : Option Socket → Look
look_at k = record { attachment = attachment_of k; auto = auto_of k }

unfoldable pub look : Fleet → ℕ → Look
unfolding find_socket
look s ws = look_at (find_socket ws s.sockets)

pub look-attach : (s : Fleet) (ws : ℕ) → (look s ws).attachment ≡ attach s ws
unfolding look attach
look-attach s ws = refl

pub look-ws_send : (u ws : ℕ) (f : Frame) (s : Fleet) → look (ws_send u f s) ws ≡ look s ws
unfolding look ws_send
look-ws_send u ws f s = refl

look-map_closed : (k : Option Socket) → look_at (Option.map as_closed k) ≡ look_at k
look-map_closed none = refl
look-map_closed (some k) = refl

pub look-ws_close :
    (u code : ℕ) (why : String) (ws : ℕ) (s : Fleet) → look (ws_close u code why s) ws ≡ look s ws
unfolding look ws_close
look-ws_close u code why ws s = ground (
  arith,
  find_socket-modify u ws as_closed s.sockets (λ (k : Socket). refl),
  look-map_closed (find_socket ws s.sockets),
)

pub look-serialize_ne :
    (u ws : ℕ) (a : Attachment) (s : Fleet) → u ≢ ws → look (serialize u a s) ws ≡ look s ws
unfolding look serialize
look-serialize_ne u ws a s h =
    ground (arith, find_socket-modify u ws (with_attachment a) s.sockets (λ (k : Socket). refl))

look-map_attachment :
    (a : Attachment) (k : Option Socket)
    → k ≢ none
    → look_at (Option.map (with_attachment a) k) ≡ record { attachment = a; auto = auto_of k }
look-map_attachment a none h = absurd (h refl)
look-map_attachment a (some k) h = refl

pub look-serialize_self :
    (ws : ℕ) (a : Attachment) (s : Fleet)
    → find_socket ws s.sockets ≢ none
    → look (serialize ws a s) ws ≡ record { attachment = a; auto = (look s ws).auto }
unfolding look serialize
look-serialize_self ws a s h = ground (
  arith,
  find_socket-modify ws ws (with_attachment a) s.sockets (λ (k : Socket). refl),
  look-map_attachment a (find_socket ws s.sockets),
)

pub look-end_terms :
    (why : String) (ts : List ℕ) (ws : ℕ) (s : Fleet) → look (end_terms why ts s) ws ≡ look s ws
unfolding end_terms
look-end_terms why [] ws s = refl
look-end_terms why (t ∷ ts) ws s =
    let told = ws_send t (err_frame (str why)) s in
    look-end_terms why ts ws (ws_close t 1000 why told)
    ∙ look-ws_close t 1000 why ws told
    ∙ look-ws_send t ws (err_frame (str why)) s

pub look-drop_agent_ne :
    (u ws : ℕ) (why : String) (s : Fleet) → u ≢ ws → look (drop_agent u why s) ws ≡ look s ws
unfolding drop_agent
look-drop_agent_ne u ws why s h =
    let ts = term_sockets s (mid_of (attach s u)) in
    let ended = end_terms why ts s in
    look-ws_close u 1000 why ws (serialize u replaced ended)
    ∙ look-serialize_ne u ws replaced ended h
    ∙ look-end_terms why ts ws s

-- Whether the socket is there at all.
abbrev pub present : Option Socket → Bool
present none = false
present (some k) = true

-- Only `close` changes whether a socket is open.
pub is_open-ws_send : (u ws : ℕ) (f : Frame) (s : Fleet) → is_open (ws_send u f s) ws ≡ is_open s ws
unfolding is_open ws_send
is_open-ws_send u ws f s = refl

pub is_open-serialize :
    (u ws : ℕ) (a : Attachment) (s : Fleet) → is_open (serialize u a s) ws ≡ is_open s ws
unfolding is_open serialize
is_open-serialize u ws a s =
    ground (arith, find_socket-modify u ws (with_attachment a) s.sockets (λ (k : Socket). refl))

pub is_open-ws_close :
    (u code : ℕ) (why : String) (ws : ℕ) (s : Fleet)
    → is_open (ws_close u code why s) ws ≡ (if u == ws then false else is_open s ws)
unfolding is_open ws_close
is_open-ws_close u code why ws s =
    ground (arith, find_socket-modify u ws as_closed s.sockets (λ (k : Socket). refl))

find_socket-end_terms-present :
    (why : String) (ts : List ℕ) (ws : ℕ) (s : Fleet)
    → present (find_socket ws (end_terms why ts s).sockets) ≡ present (find_socket ws s.sockets)
unfolding end_terms ws_send ws_close
find_socket-end_terms-present why [] ws s = refl
find_socket-end_terms-present why (t ∷ ts) ws s =
    find_socket-end_terms-present why ts ws
      (ws_close t 1000 why (ws_send t (err_frame (str why)) s))
    ∙ ground (arith, find_socket-modify t ws as_closed s.sockets (λ (k : Socket). refl))

-- A dropped agent is tagged as replaced.
pub look-drop_agent_self :
    (ws : ℕ) (why : String) (s : Fleet)
    → present (find_socket ws s.sockets) ≡ true
    → look (drop_agent ws why s) ws ≡ record { attachment = replaced; auto = (look s ws).auto }
unfolding drop_agent
look-drop_agent_self ws why s h =
    let ts = term_sockets s (mid_of (attach s ws)) in
    let left = end_terms why ts s in
    look-ws_close ws 1000 why ws (serialize ws replaced left)
    ∙ look-serialize_self ws replaced left
        (λ e. cc (e, find_socket-end_terms-present why ts ws s, h))
    ∙ ap (λ (l : Look). record { attachment = replaced; auto = l.auto })
        (look-end_terms why ts ws s)
