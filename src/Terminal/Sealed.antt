-- ===== src/Terminal/Sealed.antt =====
-- What the terminal page, worker/public/term.js, writes once the session has a key.
use popfleet.Base.{
  ℕ, String, true, false, List, [], ◌∷◌, ◌++◌, Option, none, some, if-both, str_eq, length, ◌≡◌,
  refl, sym, ap, ◌∙◌, arith, Option-cases, inl, inr,
}
use popfleet.Json.{Json, prop, tag_of, is_null, str}
use popfleet.Terminal.{SocketState, absent, connecting, opened, closing, PageFrame, input, resize}
use popfleet.Terminal.{
  Browser, Page, take, drop, banner, kill, enable_first, enable_e2e, seal, unseal, open_raw,
  or_killed, show_output, handle_frame,
}
use popfleet.Terminal.Session.{
  send_if, send_resize, socket_opens, socket_ends, receives, payload_of, on_data, PageEvent, opens,
  arrives, types, resizes, disconnects, page_step, page_run,
}

take-append : (xs ys : List ℕ) → take (length xs) (xs ++ ys) ≡ xs
unfolding take
take-append [] ys = refl
take-append (x ∷ xs) ys = ap (λ l. x ∷ l) (take-append xs ys)

drop-append : (xs ys : List ℕ) → drop (length xs) (xs ++ ys) ≡ ys
unfolding drop
drop-append [] ys = refl
drop-append (x ∷ xs) ys = drop-append xs ys

module _ {Key : Type 0} (br : Browser Key) (sid : String) where
  pub unseal-seal :
      (k : Key) (nonce bytes : List ℕ)
      → ((xs : List ℕ) → br.atob (br.btoa xs) ≡ some xs)
      → ((iv xs : List ℕ) → br.decrypt k iv (br.encrypt k iv xs) ≡ some xs)
      → length nonce ≡ 12
      → unseal br sid k (seal br sid k nonce bytes) ≡ some bytes
  unfolding unseal seal
  unseal-seal k nonce bytes codec aead twelve =
      let ct = br.encrypt k nonce bytes in
      ap (open_raw br sid k) (codec (nonce ++ ct))
      ∙ ap (λ n. br.decrypt k (take n (nonce ++ ct)) (drop n (nonce ++ ct))) (sym twelve)
      ∙ ap (λ iv. br.decrypt k iv (drop (length nonce) (nonce ++ ct))) (take-append nonce ct)
      ∙ ap (br.decrypt k nonce) (drop-append nonce ct)
      ∙ aead nonce bytes

  -- With a session key set, the page writes what was sealed under this key with a nonce of 12 bytes,
  -- if `atob` undoes `btoa`, AES-GCM opens what it sealed, and a text is converted to itself.
  pub handle_frame-sealed :
      (k : Key) (nonce bytes : List ℕ) (m : Json) (answers : List String) (p : Page Key)
      → ((xs : List ℕ) → br.atob (br.btoa xs) ≡ some xs)
      → ((iv xs : List ℕ) → br.decrypt k iv (br.encrypt k iv xs) ≡ some xs)
      → ((s : String) → br.to_text (some (str s)) ≡ s)
      → length nonce ≡ 12
      → p.aead ≡ some k
      → is_null m ≡ false
      → tag_of m ≡ "out"
      → prop m "data" ≡ some (str (seal br sid k nonce bytes))
      → (handle_frame br sid m answers p).written ≡ p.written ++ bytes ∷ []
  unfolding handle_frame
  handle_frame-sealed k nonce bytes m answers p codec aead same twelve set object is_out carries =
      rw (object, is_out, carries)
        (ap
            (λ a.
              (show_output br sid a (br.to_text (some (str (seal br sid k nonce bytes))))
                p).written)
            set
          ∙ ap (λ w. (or_killed br sid (unseal br sid k w) p).written)
              (same (seal br sid k nonce bytes))
          ∙ ap (λ o. (or_killed br sid o p).written) (unseal-seal k nonce bytes codec aead twelve))

  -- What the page wrote since `before` was opened under the key `k`.
  pub data Opened (k : Key) (before : List (List ℕ)) : List (List ℕ) → Type 0 where
    nothing : Opened k before before
    grew :
        {after : List (List ℕ)}
        → Opened k before after
        → (wire : String) (bytes : List ℕ) → unseal br sid k wire ≡ some bytes
        → Opened k before (after ++ bytes ∷ [])

  module _ (k : Key) (before : List (List ℕ)) where
    abbrev pub Guards : Page Key → Type 0
    Guards p = (p.aead ≡ some k) × Opened k before p.written

    show_output-Guards :
        (a : Option Key) (wire : String) (p : Page Key)
        → p.aead ≡ a
        → Guards p
        → Guards (show_output br sid a wire p)
    unfolding kill banner
    show_output-Guards none wire p e g = cc (e, g.0)
    show_output-Guards (some j) wire p e g = elim (Option-cases (unseal br sid j wire)) [
      | inl shut ↦ rw (shut, or_killed) g
      | inr (bytes, open_) ↦
          let same_key : some j ≡ some k = sym e ∙ g.0 in
          let key : j ≡ k = ground arith in
          rw (open_, or_killed)
            (g.0, grew g.1 wire bytes (ap (λ i. unseal br sid i wire) (sym key) ∙ open_))
    ]

    handle_frame-Guards :
        (m : Json) (answers : List String) (p : Page Key)
        → Guards p
        → Guards (handle_frame br sid m answers p)
    unfolding handle_frame enable_e2e banner
    handle_frame-Guards m answers p g =
        let asked : enable_first br sid p.aead answers p ≡ (p, true) =
          ap (λ a. enable_first br sid a answers p) g.0 in
        if-both Guards (is_null m) g (
          if-both Guards (str_eq (tag_of m) "e2e") (rw asked g) (
            if-both Guards (str_eq (tag_of m) "out")
              (show_output-Guards p.aead (br.to_text (prop m "data")) p refl g)
              (if-both Guards (str_eq (tag_of m) "exit") g
                (if-both Guards (str_eq (tag_of m) "err") g g))))

    send_if-Guards :
        (k' : SocketState) (f : PageFrame) (p : Page Key) → Guards p → Guards (send_if k' f p)
    send_if-Guards absent f p g = g
    send_if-Guards connecting f p g = g
    send_if-Guards opened f p g = g
    send_if-Guards closing f p g = g

    page_step-Guards :
        (e : PageEvent br sid) (p : Page Key) → Guards p → Guards (page_step br sid e p)
    unfolding page_step banner on_data send_resize
    page_step-Guards (opens cols rows) p g = by_state p.socket
      where
        by_state : (k' : SocketState) → Guards (socket_opens k' cols rows p)
        by_state absent = g
        by_state connecting = g
        by_state opened = g
        by_state closing = g
    page_step-Guards (arrives m answers) p g = by_state p.socket
      where
        by_state : (k' : SocketState) → Guards (receives br sid k' m answers p)
        by_state absent = g
        by_state connecting = handle_frame-Guards m answers p g
        by_state opened = handle_frame-Guards m answers p g
        by_state closing = handle_frame-Guards m answers p g
    page_step-Guards (types nonce bytes) p g =
        send_if-Guards p.socket (input (payload_of br sid p.aead nonce bytes)) p g
    page_step-Guards (resizes cols rows) p g = send_if-Guards p.socket (resize cols rows) p g
    page_step-Guards disconnects p g = by_state p.socket
      where
        by_state : (k' : SocketState) → Guards (socket_ends k' p)
        by_state absent = g
        by_state connecting = g
        by_state opened = g
        by_state closing = g

    pub page_run-Guards :
        (es : List (PageEvent br sid)) (p : Page Key) → Guards p → Guards (page_run br sid es p)
    unfolding page_run
    page_run-Guards [] p g = g
    page_run-Guards (e ∷ es) p g =
        page_run-Guards es (page_step br sid e p) (page_step-Guards e p g)

  -- Once the session has a key, all that the page writes after that, whatever events follow, are payloads
  -- that AES-GCM opened under this key.
  pub page_run-Opened :
      (k : Key) (es : List (PageEvent br sid)) (p : Page Key)
      → p.aead ≡ some k
      → Opened k p.written (page_run br sid es p).written
  page_run-Opened k es p set = (page_run-Guards k p.written es p (set, nothing)).1
