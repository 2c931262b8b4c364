-- ===== src/Terminal/Sending.antt =====
-- What the terminal page, worker/public/term.js, sends to a relay that speaks v1e.
use popfleet.Base.{
  ℕ, String, Bool, true, false, List, [], ◌∷◌, Option, none, some, if-both, str_eq, All, All-append,
  ◌≡◌, refl, ap, ◌∙◌, Option-cases, Bool-cases, inl, inr,
}
use popfleet.Json.{null, truthy, Json, is_null, tag_of, prop}
use popfleet.Terminal.{
  Browser, Page, SocketState, absent, connecting, opened, closing, PageFrame, input, resize, banner,
  kill, of_length_32, or_forget, prompts, enable_first, enable_e2e, seal, unseal, or_killed,
  show_output, handle_frame,
}
use popfleet.Terminal.Session.{
  send_if, send_resize, socket_opens, socket_ends, receives, payload_of, on_data, init, connect_if,
  new_page, probed, PageEvent, opens, arrives, types, resizes, disconnects, page_step, page_run,
}

not_null-of_e2e : (cfg : Json) → truthy (prop cfg "e2e") ≡ true → is_null cfg ≡ false
unfolding truthy prop
not_null-of_e2e null h = cc h
not_null-of_e2e _ h = refl

module _ {Key : Type 0} (br : Browser Key) (sid : String) where
  -- The payload was sealed under the key `k`.
  pub record WasSealed (k : Key) (payload : String) : Type 0 where
    pub nonce : List ℕ
    pub bytes : List ℕ
    pub is : payload ≡ seal br sid k nonce bytes

  abbrev pub Protected : Key → PageFrame → Type 0
  Protected k (input payload) = WasSealed k payload
  Protected k (resize cols rows) = Unit

  -- Without a socket no event does anything.
  page_step-absent :
      (e : PageEvent br sid) (p : Page Key) → p.socket ≡ absent → page_step br sid e p ≡ p
  unfolding page_step on_data send_resize
  page_step-absent (opens cols rows) p h = ap (λ k. socket_opens k cols rows p) h
  page_step-absent (arrives m answers) p h = ap (λ k. receives br sid k m answers p) h
  page_step-absent (types nonce bytes) p h =
      ap (λ k. send_if k (input (payload_of br sid p.aead nonce bytes)) p) h
  page_step-absent (resizes cols rows) p h = ap (λ k. send_if k (resize cols rows) p) h
  page_step-absent disconnects p h = ap (λ k. socket_ends k p) h

  page_run-absent :
      (es : List (PageEvent br sid)) (p : Page Key) → p.socket ≡ absent → page_run br sid es p ≡ p
  unfolding page_run
  page_run-absent [] p h = refl
  page_run-absent (e ∷ es) p h =
      ap (page_run br sid es) (page_step-absent e p h) ∙ page_run-absent es p h

  module _ (k : Key) where
    abbrev Online : Page Key → Type 0
    Online p = (p.aead ≡ some k) × All (Protected k) p.sent

    show_output-Online :
        (a : Option Key) (wire : String) (p : Page Key)
        → p.aead ≡ a
        → Online p
        → Online (show_output br sid a wire p)
    unfolding kill banner
    show_output-Online none wire p e g = cc (e, g.0)
    show_output-Online (some j) wire p e g = elim (Option-cases (unseal br sid j wire)) [
      | inl shut ↦ rw (shut, or_killed) g
      | inr (bytes, found) ↦ rw (found, or_killed) g
    ]

    handle_frame-Online :
        (m : Json) (answers : List String) (p : Page Key)
        → Online p
        → Online (handle_frame br sid m answers p)
    unfolding handle_frame enable_e2e banner
    handle_frame-Online m answers p g =
        let asked : enable_first br sid p.aead answers p ≡ (p, true) =
          ap (λ a. enable_first br sid a answers p) g.0 in
        if-both Online (is_null m) g (
          if-both Online (str_eq (tag_of m) "e2e") (rw asked g) (
            if-both Online (str_eq (tag_of m) "out")
              (show_output-Online p.aead (br.to_text (prop m "data")) p refl g)
              (if-both Online (str_eq (tag_of m) "exit") g
                (if-both Online (str_eq (tag_of m) "err") g g))))

    send_if-Online :
        (state : SocketState) (f : PageFrame) (p : Page Key)
        → Protected k f
        → Online p
        → Online (send_if state f p)
    send_if-Online opened f p h g = (g.0, All-append (Protected k) p.sent (f ∷ []) g.1 (h, tt))
    send_if-Online absent f p h g = g
    send_if-Online connecting f p h g = g
    send_if-Online closing f p h g = g

    page_step-Online :
        (e : PageEvent br sid) (p : Page Key) → Online p → Online (page_step br sid e p)
    unfolding page_step banner on_data send_resize
    page_step-Online (opens cols rows) p g = by_state p.socket
      where
        by_state : (state : SocketState) → Online (socket_opens state cols rows p)
        by_state absent = g
        by_state connecting =
            send_if-Online opened (resize cols rows) (record p { socket = opened }) tt g
        by_state opened = g
        by_state closing = g
    page_step-Online (arrives m answers) p g = by_state p.socket
      where
        by_state : (state : SocketState) → Online (receives br sid state m answers p)
        by_state absent = g
        by_state connecting = handle_frame-Online m answers p g
        by_state opened = handle_frame-Online m answers p g
        by_state closing = handle_frame-Online m answers p g
    page_step-Online (types nonce bytes) p g =
        send_if-Online p.socket (input (payload_of br sid p.aead nonce bytes)) p
          (record {
            nonce = nonce;
            bytes = bytes;
            is = ap (λ a. payload_of br sid a nonce bytes) g.0;
          })
          g
    page_step-Online (resizes cols rows) p g = send_if-Online p.socket (resize cols rows) p tt g
    page_step-Online disconnects p g = by_state p.socket
      where
        by_state : (state : SocketState) → Online (socket_ends state p)
        by_state absent = g
        by_state connecting = g
        by_state opened = g
        by_state closing = g

    page_run-Online :
        (es : List (PageEvent br sid)) (p : Page Key) → Online p → Online (page_run br sid es p)
    unfolding page_run
    page_run-Online [] p g = g
    page_run-Online (e ∷ es) p g =
        page_run-Online es (page_step br sid e p) (page_step-Online e p g)

  -- What `enableE2E` leaves: a key where it succeeds, and always the socket and what was sent.
  record Enabled (p : Page Key) (r : Page Key × Bool) : Type 0 where
    pub socket : r.0.socket ≡ p.socket
    pub sent : r.0.sent ≡ p.sent
    pub key : r.1 ≡ true → (k : Key) × (r.0.aead ≡ some k)

  or_forget-Enabled :
      (raw : Option (List ℕ)) (b64 : String) (again : Page Key × Bool) (p : Page Key)
      → Enabled p again
      → Enabled p (or_forget br sid raw b64 again p)
  or_forget-Enabled none b64 again p h = h
  or_forget-Enabled (some raw) b64 again p h = record {
    socket = refl;
    sent = refl;
    key = λ e. (br.derive_key raw sid "popfleet-v2", refl);
  }

  declined-Enabled : (msg : String) (p : Page Key) → Enabled p (banner msg false p, false)
  unfolding banner
  declined-Enabled msg p = record { socket = refl; sent = refl; key = λ e. cc }

  prompts-Enabled : (answers : List String) (p : Page Key) → Enabled p (prompts br sid answers p)
  unfolding prompts
  prompts-Enabled [] p = declined-Enabled "no fleet key: cannot decrypt this session" p
  prompts-Enabled (b64 ∷ answers) p =
      let again = prompts br sid answers (record p { stored = "" }) in
      let ih = prompts-Enabled answers (record p { stored = "" }) in
      let later : Enabled p again = record { socket = ih.socket; sent = ih.sent; key = ih.key } in
      elim (Bool-cases (str_eq b64 "")) [
        | inl e ↦ rw e (declined-Enabled "no fleet key: cannot decrypt this session" p)
        | inr e ↦ rw e (or_forget-Enabled (of_length_32 br sid (br.atob b64)) b64 again p later)
      ]

  enable_first-Enabled :
      (a : Option Key) (answers : List String) (p : Page Key)
      → p.aead ≡ a
      → Enabled p (enable_first br sid a answers p)
  enable_first-Enabled (some k) answers p e = record {
    socket = refl;
    sent = refl;
    key = λ h. (k, e);
  }
  enable_first-Enabled none answers p e =
      let again = prompts br sid answers (record p { stored = "" }) in
      let ih = prompts-Enabled answers (record p { stored = "" }) in
      let later : Enabled p again = record { socket = ih.socket; sent = ih.sent; key = ih.key } in
      if-both (Enabled p) (str_eq p.stored "") (prompts-Enabled answers p)
        (or_forget-Enabled (of_length_32 br sid (br.atob p.stored)) p.stored again p later)

  -- What a run can leave of a new page: it has no socket and sent nothing, or it has a key under which
  -- all input that it sent was sealed.
  pub data IsPrivate (p : Page Key) : Type 0 where
    offline : p.socket ≡ absent → p.sent ≡ [] → IsPrivate p
    online : (k : Key) → p.aead ≡ some k → All (Protected k) p.sent → IsPrivate p

  connect_if-run :
      (es : List (PageEvent br sid)) (stored : String) (r : Page Key × Bool)
      → Enabled (new_page Key stored) r
      → IsPrivate (page_run br sid es (connect_if br sid r))
  connect_if-run es stored (p, false) h =
      let same = page_run-absent es p h.socket in
      offline (ap (λ (q : Page Key). q.socket) same ∙ h.socket)
        (ap (λ (q : Page Key). q.sent) same ∙ h.sent)
  connect_if-run es stored (p, true) h =
      let (k, set) = h.key refl in
      let g = page_run-Online k es (record p { socket = connecting }) (set, rw h.sent tt) in
      online k g.0 g.1

  -- If the fetch of /config.json is answered, with a status that is ok, by a JSON value whose e2e is
  -- true, then whatever a new page has stored, the user answers and then happens: the page has no socket
  -- and sent nothing, or all input that it sent was sealed under its session key.
  pub init-IsPrivate :
      (cfg : Json) (answers : List String) (stored : String) (es : List (PageEvent br sid))
      → truthy (prop cfg "e2e") ≡ true
      → IsPrivate (
          page_run br sid es (
            init br sid
              (some (record { ok = true; body = some cfg }))
              answers
              (new_page Key stored)))
  unfolding init enable_e2e probed
  init-IsPrivate cfg answers stored es asks =
      rw (not_null-of_e2e cfg asks, asks)
        (connect_if-run es stored (enable_first br sid none answers (new_page Key stored))
          (enable_first-Enabled none answers (new_page Key stored) refl))
