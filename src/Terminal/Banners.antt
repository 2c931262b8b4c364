-- ===== src/Terminal/Banners.antt =====
-- The banner of the terminal page, worker/public/term.js.
use Prim.Native.String.{◌++◌ as concat}
use popfleet.Base.{
  ℕ, String, Bool, true, false, List, [], ◌∷◌, Option, none, some, if-both, str_eq, ◌≡◌, refl,
  Option-cases, Bool-cases, inl, inr,
}
use popfleet.Json.{Json, prop, tag_of, is_null, or_else, str}
use popfleet.Terminal.{SocketState, absent, connecting, opened, closing, PageFrame, input, resize}
use popfleet.Terminal.{
  Browser, Banner, Page, banner, kill, of_length_32, or_forget, prompts, enable_first, enable_e2e,
  unseal, or_same, or_killed, show_output, handle_frame,
}
use popfleet.Terminal.Session.{
  send_if, send_resize, socket_opens, socket_ends, receives, payload_of, on_data, PageEvent, opens,
  arrives, types, resizes, disconnects, page_step, page_run,
}

module _ {Key : Type 0} (br : Browser Key) (sid : String) where
  -- A banner that is shown stays.
  abbrev Shows : Banner → Page Key → Type 0
  Shows b p = p.shown ≡ some b

  banner-Shows :
      (msg : String) (clean : Bool) (b : Banner) (p : Page Key)
      → Shows b p
      → Shows b (banner msg clean p)
  unfolding banner
  banner-Shows msg clean b p h = rw h refl

  kill-Shows : (b : Banner) (p : Page Key) → Shows b p → Shows b (kill p)
  unfolding kill banner
  kill-Shows b p h = rw h refl

  or_forget-Shows :
      (raw : Option (List ℕ)) (b64 : String) (again : Page Key × Bool) (b : Banner) (p : Page Key)
      → Shows b again.0
      → Shows b p
      → Shows b (or_forget br sid raw b64 again p).0
  or_forget-Shows none b64 again b p h k = h
  or_forget-Shows (some raw) b64 again b p h k = k

  prompts-Shows :
      (answers : List String) (b : Banner) (p : Page Key)
      → Shows b p
      → Shows b (prompts br sid answers p).0
  unfolding prompts
  prompts-Shows [] b p h = banner-Shows "no fleet key: cannot decrypt this session" false b p h
  prompts-Shows (b64 ∷ answers) b p h =
      let again = prompts br sid answers (record p { stored = "" }) in
      let used =
        or_forget-Shows (of_length_32 br sid (br.atob b64)) b64 again b p
          (prompts-Shows answers b (record p { stored = "" }) h) h in
      elim (Bool-cases (str_eq b64 "")) [
        | inl e ↦ rw e (banner-Shows "no fleet key: cannot decrypt this session" false b p h)
        | inr e ↦ rw e used
      ]

  enable_first-Shows :
      (k : Option Key) (answers : List String) (b : Banner) (p : Page Key)
      → Shows b p
      → Shows b (enable_first br sid k answers p).0
  enable_first-Shows (some k) answers b p h = h
  enable_first-Shows none answers b p h =
      let again = prompts br sid answers (record p { stored = "" }) in
      if-both (λ (r : Page Key × Bool). Shows b r.0) (str_eq p.stored "")
        (prompts-Shows answers b p h)
        (or_forget-Shows (of_length_32 br sid (br.atob p.stored)) p.stored again b p
          (prompts-Shows answers b (record p { stored = "" }) h) h)

  show_output-Shows :
      (k : Option Key) (wire : String) (b : Banner) (p : Page Key)
      → Shows b p
      → Shows b (show_output br sid k wire p)
  show_output-Shows none wire b p h = elim (Option-cases (br.atob wire)) [
    | inl e ↦ rw (e, or_same) h
    | inr (bytes, e) ↦ rw (e, or_same) h
  ]
  show_output-Shows (some k) wire b p h = elim (Option-cases (unseal br sid k wire)) [
    | inl e ↦ rw (e, or_killed) (kill-Shows b p h)
    | inr (bytes, e) ↦ rw (e, or_killed) h
  ]

  handle_frame-Shows :
      (m : Json) (answers : List String) (b : Banner) (p : Page Key)
      → Shows b p
      → Shows b (handle_frame br sid m answers p)
  unfolding handle_frame enable_e2e
  handle_frame-Shows m answers b p h =
      let P = Shows b in
      let ended = concat "session ended (exit " (concat (br.to_text (prop m "code")) ")") in
      let failed = br.to_text (some (or_else (prop m "msg") (str "session error"))) in
      if-both P (is_null m) h (
        if-both P (str_eq (tag_of m) "e2e") (enable_first-Shows p.aead answers b p h) (
          if-both P (str_eq (tag_of m) "out")
            (show_output-Shows p.aead (br.to_text (prop m "data")) b p h)
            (if-both P (str_eq (tag_of m) "exit") (banner-Shows ended true b p h)
              (if-both P (str_eq (tag_of m) "err") (banner-Shows failed false b p h) h))))

  send_if-Shows :
      (k : SocketState) (f : PageFrame) (b : Banner) (p : Page Key)
      → Shows b p
      → Shows b (send_if k f p)
  send_if-Shows absent f b p h = h
  send_if-Shows connecting f b p h = h
  send_if-Shows opened f b p h = h
  send_if-Shows closing f b p h = h

  page_step-Shows :
      (e : PageEvent br sid) (b : Banner) (p : Page Key)
      → Shows b p
      → Shows b (page_step br sid e p)
  unfolding page_step on_data send_resize
  page_step-Shows (opens cols rows) b p h = by_state p.socket
    where
      by_state : (k : SocketState) → Shows b (socket_opens k cols rows p)
      by_state absent = h
      by_state connecting = h
      by_state opened = h
      by_state closing = h
  page_step-Shows (arrives m answers) b p h = by_state p.socket
    where
      by_state : (k : SocketState) → Shows b (receives br sid k m answers p)
      by_state absent = h
      by_state connecting = handle_frame-Shows m answers b p h
      by_state opened = handle_frame-Shows m answers b p h
      by_state closing = handle_frame-Shows m answers b p h
  page_step-Shows (types nonce bytes) b p h =
      send_if-Shows p.socket (input (payload_of br sid p.aead nonce bytes)) b p h
  page_step-Shows (resizes cols rows) b p h = send_if-Shows p.socket (resize cols rows) b p h
  page_step-Shows disconnects b p h = by_state p.socket
    where
      ended :
          (k : SocketState)
          → Shows b (banner "disconnected from broker" false (record p { socket = k }))
      ended k = banner-Shows "disconnected from broker" false b (record p { socket = k }) h

      by_state : (k : SocketState) → Shows b (socket_ends k p)
      by_state absent = h
      by_state connecting = ended closing
      by_state opened = ended closing
      by_state closing = banner-Shows "disconnected from broker" false b p h

  -- The first cause wins: once a banner is shown, no event of the page changes it.
  pub page_run-first_banner :
      (es : List (PageEvent br sid)) (b : Banner) (p : Page Key)
      → p.shown ≡ some b
      → (page_run br sid es p).shown ≡ some b
  unfolding page_run
  page_run-first_banner [] b p h = h
  page_run-first_banner (e ∷ es) b p h =
      page_run-first_banner es b (page_step br sid e p) (page_step-Shows e b p h)
