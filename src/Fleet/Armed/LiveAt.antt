-- ===== src/Fleet/Armed/LiveAt.antt =====
-- Whether a given socket is one that a later alarm of worker/src/fleet.js has to sweep, and what the
-- calls do to that.
use mathlib.Core.Option
use popfleet.Base.{
  ℕ, String, Bool, true, false, List, [], ◌∷◌, Option, none, some, ◌≡◌, refl, sym, ◌∙◌, arith,
}
use popfleet.Dict.{lookup}
use popfleet.Fleet.State.{
  Fleet, Socket, Attachment, blank, pending, agent, term, replaced, Machine, Frame, err_frame,
}
use popfleet.Json.{str}
use popfleet.Fleet.Sockets.{
  find_socket, as_closed, with_attachment, serialize, ws_send, ws_close, end_terms, drop_agent,
  attach, attachment_of, last_seen_of, term_sockets, mid_of,
}
use popfleet.Fleet.Lifecycle.{save_seen, save_seen_in}
use popfleet.Fleet.Looks.{find_socket-modify}
use popfleet.Fleet.Armed.{is_live, live_kind}

abbrev pub live_option : Option Socket → Bool
live_option none = false
live_option (some k) = is_live k

unfoldable pub live_at : Fleet → ℕ → Bool
live_at s ws = live_option (find_socket ws s.sockets)

module _ (u ws : ℕ) (s : Fleet) where
  pub live_at-ws_close :
      (code : ℕ) (why : String) → live_at (ws_close u code why s) ws ≡ true → live_at s ws ≡ true
  unfolding live_at ws_close
  live_at-ws_close code why h =
      ground (arith, find_socket-modify u ws as_closed s.sockets (λ (k : Socket). refl))

  pub live_at-retire : live_at (serialize u replaced s) ws ≡ true → live_at s ws ≡ true
  unfolding live_at serialize
  live_at-retire h =
      ground
        (arith, find_socket-modify u ws (with_attachment replaced) s.sockets (λ (k : Socket). refl))

  pub live_at-retired : u ≡ ws → live_at (serialize u replaced s) ws ≡ false
  unfolding live_at serialize
  live_at-retired e =
      ground
        (arith, find_socket-modify u ws (with_attachment replaced) s.sockets (λ (k : Socket). refl))

pub live_at-ws_send :
    (u ws : ℕ) (f : Frame) (s : Fleet) → live_at (ws_send u f s) ws ≡ true → live_at s ws ≡ true
unfolding live_at ws_send
live_at-ws_send u ws f s h = h

pub live_at-end_terms :
    (why : String) (ts : List ℕ) (ws : ℕ) (s : Fleet)
    → live_at (end_terms why ts s) ws ≡ true
    → live_at s ws ≡ true
unfolding end_terms
live_at-end_terms why [] ws s h = h
live_at-end_terms why (t ∷ ts) ws s h =
    let told = ws_send t (err_frame (str why)) s in
    live_at-ws_send t ws (err_frame (str why)) s (
      live_at-ws_close t ws told 1000 why
        (live_at-end_terms why ts ws (ws_close t 1000 why told) h))

pub live_at-drop_agent :
    (u ws : ℕ) (why : String) (s : Fleet)
    → live_at (drop_agent u why s) ws ≡ true
    → live_at s ws ≡ true
unfolding drop_agent
live_at-drop_agent u ws why s h =
    let ts = term_sockets s (mid_of (attach s u)) in
    let left = end_terms why ts s in
    live_at-end_terms why ts ws s
      (live_at-retire u ws left (live_at-ws_close u ws (serialize u replaced left) 1000 why h))

pub live_at-save_seen_in :
    (mid : String) (at : ℕ) (m : Option Machine) (ws : ℕ) (s : Fleet)
    → live_at (save_seen_in mid at m s) ws ≡ live_at s ws
unfolding live_at
live_at-save_seen_in mid at none ws s = refl
live_at-save_seen_in mid at (some m) ws s = refl

pub live_at-save_seen :
    (mid : String) (u ws : ℕ) (s : Fleet) → live_at (save_seen mid u s) ws ≡ live_at s ws
unfolding save_seen
live_at-save_seen mid u ws s =
    live_at-save_seen_in mid (last_seen_of s u) (lookup mid s.machines) ws s

pub live_at-swept :
    (mid : String) (u ws : ℕ) (s : Fleet)
    → live_at (save_seen mid u (drop_agent u "agent went offline" s)) ws ≡ true
    → live_at s ws ≡ true
live_at-swept mid u ws s h =
    let left = drop_agent u "agent went offline" s in
    live_at-drop_agent u ws "agent went offline" s (sym (live_at-save_seen mid u ws left) ∙ h)

live_kind_any : (a : Attachment) (c : Bool) → live_kind a false ≡ false → live_kind a c ≡ false
live_kind_any blank c h = refl
live_kind_any (pending since) c h = cc
live_kind_any (agent mid seen) c h = cc
live_kind_any (term sid mid) c h = cc
live_kind_any replaced c h = refl

pub not_true : (b : Bool) → ¬ (b ≡ true) → b ≡ false
not_true true h = absurd (h refl)
not_true false h = refl

-- Closing a socket that has not said hello, and dropping an agent, leave it not live.
closed_pending :
    (since : ℕ) (k : Option Socket)
    → attachment_of k ≡ pending since
    → live_option (Option.map as_closed k) ≡ false
closed_pending since none e = refl
closed_pending since (some k) e = ground arith

pub live_at-closed :
    (ws code : ℕ) (why : String) (since : ℕ) (s : Fleet)
    → attach s ws ≡ pending since
    → live_at (ws_close ws code why s) ws ≡ false
unfolding live_at ws_close attach
live_at-closed ws code why since s e = ground (
  arith,
  find_socket-modify ws ws as_closed s.sockets (λ (k : Socket). refl),
  closed_pending since (find_socket ws s.sockets) e,
)

pub live_at-dropped : (ws : ℕ) (why : String) (s : Fleet) → live_at (drop_agent ws why s) ws ≡ false
unfolding drop_agent
live_at-dropped ws why s =
    let left = end_terms why (term_sockets s (mid_of (attach s ws))) s in
    not_true _ (λ h. cc (
      live_at-ws_close ws ws (serialize ws replaced left) 1000 why h,
      live_at-retired ws ws left refl,
    ))

pub live_at-attach :
    (ws : ℕ) (s : Fleet) (a : Attachment)
    → attach s ws ≡ a
    → live_kind a false ≡ false
    → live_at s ws ≡ false
unfolding live_at attach
live_at-attach ws s a e h = not_live (find_socket ws s.sockets) e
  where
    not_live : (k : Option Socket) → attachment_of k ≡ a → live_option k ≡ false
    not_live none e' = refl
    not_live (some k) e' = ground (arith, live_kind_any a k.closed h)
