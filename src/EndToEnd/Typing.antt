-- ===== src/EndToEnd/Typing.antt =====
-- All that is typed on a page, on its way through worker/public/term.js and worker/src/fleet.js.
use popfleet.Base.{
  ℕ, String, true, List, [], ◌∷◌, ◌++◌, map, Option, some, length, ◌≡◌, refl, sym, ap, ◌∙◌,
}
use mathlib.Core.List.{append-nil, append_assoc}
use popfleet.Json.{str, tag_of, prop}
use popfleet.Fleet.Runtime.{Runtime}
use popfleet.Fleet.State.{Fleet, Effect, in_frame, sends, term}
use popfleet.Fleet.Sockets.{attach, is_open, agent_socket, ws_send}
use popfleet.Fleet.Frames.{text, web_socket_message, dispatch, from_term}
use popfleet.Terminal.{Browser, Page, PageFrame, input, opened, seal, unseal}
use popfleet.Terminal.Session.{PageEvent, types, page_step, page_run, on_data, payload_of, send_if}
use popfleet.Terminal.Sealed.{unseal-seal}
use popfleet.EndToEnd.{page_frame_json}

-- Bytes that were typed, with the nonce drawn for them.
pub record Keystroke : Type 0 where
  pub nonce : List ℕ
  pub bytes : List ℕ

abbrev pub AllFresh : List Keystroke → Type 0
AllFresh [] = Unit {0}
AllFresh (k ∷ ks) = (length k.nonce ≡ 12) × AllFresh ks

-- The relay gets the page's frames, one by one, as texts of the page's `JSON.stringify`.
unfoldable pub relays : Runtime → (PageFrame → String) → ℕ → ℕ → List PageFrame → Fleet → Fleet
unfolding web_socket_message
relays rt print now t [] s = s
relays rt print now t (f ∷ fs) s =
    relays rt print now t fs (web_socket_message rt now t (text (print f)) s).0

module _ {Key : Type 0} (br : Browser Key) (sid : String) (k : Key) where
  abbrev pub typing : List Keystroke → List (PageEvent br sid)
  typing [] = []
  typing (x ∷ xs) = types x.nonce x.bytes ∷ typing xs

  abbrev pub payloads : List Keystroke → List String
  payloads [] = []
  payloads (x ∷ xs) = seal br sid k x.nonce x.bytes ∷ payloads xs

  abbrev pub opens_as : List Keystroke → List (Option (List ℕ))
  opens_as [] = []
  opens_as (x ∷ xs) = some x.bytes ∷ opens_as xs

  typed :
      (xs : List Keystroke) (p : Page Key)
      → p.aead ≡ some k
      → p.socket ≡ opened
      → (page_run br sid (typing xs) p).sent ≡ p.sent ++ map input (payloads xs)
  unfolding page_run page_step on_data
  typed [] p set is_opened = sym (append-nil p.sent)
  typed (x ∷ xs) p set is_opened =
      let f = input (seal br sid k x.nonce x.bytes) in
      let here : page_step br sid (types x.nonce x.bytes) p ≡ record p { sent = p.sent ++ f ∷ [] } =
        ap (λ a. send_if p.socket (input (payload_of br sid a x.nonce x.bytes)) p) set
        ∙ ap (λ state. send_if state f p) is_opened in
      ap (λ (q : Page Key). (page_run br sid (typing xs) q).sent) here
      ∙ typed xs (record p { sent = p.sent ++ f ∷ [] }) set is_opened
      ∙ append_assoc p.sent (f ∷ []) (map input (payloads xs))

  opened_all :
      (xs : List Keystroke)
      → ((ys : List ℕ) → br.atob (br.btoa ys) ≡ some ys)
      → ((iv ys : List ℕ) → br.decrypt k iv (br.encrypt k iv ys) ≡ some ys)
      → AllFresh xs
      → map (unseal br sid k) (payloads xs) ≡ opens_as xs
  opened_all [] codec aead fresh = refl
  opened_all (x ∷ xs) codec aead fresh =
      rw (unseal-seal br sid k x.nonce x.bytes codec aead fresh.0)
        (ap (λ l. some x.bytes ∷ l) (opened_all xs codec aead fresh.1))

-- The effects of the relay on the agent's socket.
abbrev pub inputs : ℕ → String → List String → List Effect
inputs ws sid [] = []
inputs ws sid (x ∷ xs) = sends ws (in_frame sid (some (str x))) ∷ inputs ws sid xs

module _ (rt : Runtime) (print : PageFrame → String) (now ws t : ℕ) (sid mid : String)
    (prints : (x : String) → rt.parse (print (input x)) ≡ some (page_frame_json (input x))) where
  relayed_one :
      (x : String) (s : Fleet)
      → attach s t ≡ term sid mid
      → agent_socket s (some mid) ≡ some ws
      → is_open s ws ≡ true
      → (web_socket_message rt now t (text (print (input x))) s).0
        ≡ record s { sent = s.sent ++ sends ws (in_frame sid (some (str x))) ∷ [] }
  unfolding web_socket_message dispatch from_term ws_send tag_of prop
  relayed_one x s from agent_is is_here = rw (prints x, from, dispatch, agent_is, is_here) refl

  relayed :
      (xs : List String) (s : Fleet)
      → attach s t ≡ term sid mid
      → agent_socket s (some mid) ≡ some ws
      → is_open s ws ≡ true
      → (relays rt print now t (map input xs) s).sent ≡ s.sent ++ inputs ws sid xs
  unfolding relays attach agent_socket is_open
  relayed [] s from agent_is is_here = sym (append-nil s.sent)
  relayed (x ∷ xs) s from agent_is is_here =
      let e = sends ws (in_frame sid (some (str x))) in
      ap (λ (q : Fleet). (relays rt print now t (map input xs) q).sent)
        (relayed_one x s from agent_is is_here)
      ∙ relayed xs (record s { sent = s.sent ++ e ∷ [] }) from agent_is is_here
      ∙ append_assoc s.sent (e ∷ []) (inputs ws sid xs)

-- Whatever is typed, in whatever pieces, on a page that has the session's key and an open socket:
-- the page sends one frame for each piece, in order; the relay that gets them on the terminal of
-- the session sends one frame for each to the open socket of the machine's agent, in the same
-- order, with the session's sid and the same payload; and the key opens these payloads to the
-- bytes that were typed. The nonces have 12 bytes, JSON.parse undoes JSON.stringify on these
-- frames, atob undoes btoa, and AES-GCM opens what it sealed.
pub typing_reaches_agent :
    {Key : Type 0} (br : Browser Key) (rt : Runtime) (print : PageFrame → String) (k : Key)
    (now ws t : ℕ) (sid mid : String) (xs : List Keystroke) (s : Fleet) (p : Page Key)
    → ((x : String) → rt.parse (print (input x)) ≡ some (page_frame_json (input x)))
    → ((ys : List ℕ) → br.atob (br.btoa ys) ≡ some ys)
    → ((iv ys : List ℕ) → br.decrypt k iv (br.encrypt k iv ys) ≡ some ys)
    → AllFresh xs
    → p.aead ≡ some k
    → p.socket ≡ opened
    → attach s t ≡ term sid mid
    → agent_socket s (some mid) ≡ some ws
    → is_open s ws ≡ true
    → let sealed = payloads br sid k xs in
      ((page_run br sid (typing br sid k xs) p).sent ≡ p.sent ++ map input sealed)
      × ((relays rt print now t (map input sealed) s).sent ≡ s.sent ++ inputs ws sid sealed)
      × (map (unseal br sid k) sealed ≡ opens_as br sid k xs)
typing_reaches_agent br rt print k now ws t sid mid xs s p prints codec aead fresh set is_opened
      from agent_is is_here =
    (
      typed br sid k xs p set is_opened,
      relayed rt print now ws t sid mid prints (payloads br sid k xs) s from agent_is is_here,
      opened_all br sid k xs codec aead fresh,
    )
