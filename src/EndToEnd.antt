-- ===== src/EndToEnd.antt =====
-- A terminal's bytes on their way through worker/public/term.js and worker/src/fleet.js, both ways.
pub mod Typing
pub mod Opening
pub mod Enrolling
use popfleet.Base.{
  ℕ, String, true, false, List, [], ◌∷◌, ◌++◌, Option, none, some, length, ◌≡◌, refl, ap, ◌∙◌,
  eq_refl,
}
use popfleet.Json.{Json, Fields, bool, num, str, obj, field, end, pos, prop, is_null, tag_of}
use popfleet.Fleet.Runtime.{Runtime, to_text}
use popfleet.Fleet.State.{
  Fleet, Frame, e2e_frame, err_frame, hello_ok_frame, open_frame, in_frame, resize_frame,
  close_frame, out_frame, exit_frame, sends, agent, term,
}
use popfleet.Fleet.Sockets.{attach, mid_of, same, is_open, agent_socket, term_by_sid, ws_send}
use popfleet.Fleet.Frames.{
  text, web_socket_message, dispatch, dispatch_if, from_agent, from_term, owned, relay,
}
use popfleet.Terminal.{Browser, Page, PageFrame, input, resize, opened, seal, unseal, handle_frame}
use popfleet.Terminal.Session.{types, page_step, on_data, payload_of, send_if}
use popfleet.Terminal.Sealed.{unseal-seal, handle_frame-sealed}

-- `JSON.stringify` leaves out what is undefined.
abbrev pub field_if : String → Option Json → Fields → Fields
field_if k none fs = fs
field_if k (some v) fs = field k v fs

-- The frame as its receiver parses it.
abbrev pub frame_json : Frame → Json
frame_json e2e_frame = obj (field "t" (str "e2e") end)
frame_json (err_frame msg) = obj (field "t" (str "err") (field "msg" msg end))
frame_json (hello_ok_frame id) =
    obj (field "t" (str "hello_ok") (field "id" (str id) (field "e2e" (bool true) end)))
frame_json (open_frame sid cmd) =
    obj (field "t" (str "open") (field "sid" (str sid) (field "cmd" cmd end)))
frame_json (in_frame sid payload) =
    obj (field "t" (str "in") (field "sid" (str sid) (field_if "data" payload end)))
frame_json (resize_frame sid c r) =
    obj (field "t" (str "resize") (field "sid" (str sid) (field_if "c" c (field_if "r" r end))))
frame_json (close_frame sid) = obj (field "t" (str "close") (field "sid" (str sid) end))
frame_json (out_frame payload) = obj (field "t" (str "out") (field_if "data" payload end))
frame_json (exit_frame code) = obj (field "t" (str "exit") (field_if "code" code end))

abbrev pub page_frame_json : PageFrame → Json
page_frame_json (input payload) = obj (field "t" (str "in") (field "data" (str payload) end))
page_frame_json (resize cols rows) =
    obj (field "t" (str "resize") (field "c" (num (pos cols)) (field "r" (num (pos rows)) end)))

to_text-str : (rt : Runtime) (v : String) → to_text rt (some (str v)) ≡ v
unfolding to_text
to_text-str rt v = refl

-- The relay's part of an agent's output.
sent-out :
    (rt : Runtime) (now ws t seen : ℕ) (sid mid raw : String) (m : Json) (payload : Option Json)
    (s : Fleet)
    → rt.parse raw ≡ some m
    → is_null m ≡ false
    → tag_of m ≡ "out"
    → prop m "sid" ≡ some (str sid)
    → prop m "data" ≡ payload
    → attach s ws ≡ agent mid seen
    → term_by_sid s sid ≡ some t
    → attach s t ≡ term sid mid
    → is_open s t ≡ true
    → (web_socket_message rt now ws (text raw) s).0.sent
      ≡ s.sent ++ sends t (out_frame payload) ∷ []
unfolding web_socket_message dispatch from_agent ws_send mid_of same
sent-out rt now ws t seen sid mid raw m payload s parses object is_out names carries from found to
      is_here =
    let target : owned s mid (term_by_sid s (to_text rt (prop m "sid"))) ≡ some t =
      ap (λ v. owned s mid (term_by_sid s (to_text rt v))) names
      ∙ ap (λ x. owned s mid (term_by_sid s x)) (to_text-str rt sid)
      ∙ ap (owned s mid) found
      ∙ rw to (rw (eq_refl mid) refl) in
    rw (parses, dispatch_if, from, dispatch, object, is_out, target, relay, carries, is_here) refl

module _ {Key : Type 0} (br : Browser Key) (rt : Runtime) (k : Key) (nonce bytes : List ℕ) where
  -- If an enrolled agent sends output of a session, sealed under the session's key, and the session has
  -- an open terminal on the agent's machine, then the relay sends one frame, to this terminal, and the
  -- page that has the key and receives it writes the bytes that were sealed. The nonce has 12 bytes,
  -- `atob` undoes `btoa`, AES-GCM opens what it sealed, and a text is converted to itself.
  pub output_reaches_page :
      (now ws t seen : ℕ) (sid mid raw : String) (m : Json) (answers : List String) (s : Fleet)
      (p : Page Key)
      → ((xs : List ℕ) → br.atob (br.btoa xs) ≡ some xs)
      → ((iv xs : List ℕ) → br.decrypt k iv (br.encrypt k iv xs) ≡ some xs)
      → ((v : String) → br.to_text (some (str v)) ≡ v)
      → length nonce ≡ 12
      → rt.parse raw ≡ some m
      → is_null m ≡ false
      → tag_of m ≡ "out"
      → prop m "sid" ≡ some (str sid)
      → prop m "data" ≡ some (str (seal br sid k nonce bytes))
      → attach s ws ≡ agent mid seen
      → term_by_sid s sid ≡ some t
      → attach s t ≡ term sid mid
      → is_open s t ≡ true
      → p.aead ≡ some k
      → let f = out_frame (some (str (seal br sid k nonce bytes))) in
        ((web_socket_message rt now ws (text raw) s).0.sent ≡ s.sent ++ sends t f ∷ [])
        × ((handle_frame br sid (frame_json f) answers p).written ≡ p.written ++ bytes ∷ [])
  unfolding tag_of prop
  output_reaches_page now ws t seen sid mid raw m answers s p codec aead same_text twelve parses
        object is_out names carries from found to is_here set =
      (
        sent-out rt now ws t seen sid mid raw m (some (str (seal br sid k nonce bytes))) s parses
            object is_out names carries from found to is_here,
        handle_frame-sealed br sid k nonce bytes
            (frame_json (out_frame (some (str (seal br sid k nonce bytes))))) answers p codec aead
            same_text twelve set refl refl refl,
      )
