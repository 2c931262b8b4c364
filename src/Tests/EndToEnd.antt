-- ===== src/Tests/EndToEnd.antt =====
-- Bytes between the toy page and the busy fleet.
use popfleet.Base.{ℕ, String, map, List, [], ◌∷◌, some, str_eq, if◌then◌else◌, ◌≡◌, refl, ap}
use popfleet.Json.{Json, str, obj, field, end, prop, tag_of}
use popfleet.Fleet.Runtime.{Runtime}
use popfleet.Fleet.State.{out_frame, sends}
use popfleet.Fleet.Sockets.{attach, term_by_sid, agent_socket, is_open}
use popfleet.Fleet.Frames.{text, web_socket_message}
use popfleet.Terminal.{PageFrame, input, resize, seal, unseal, handle_frame}
use popfleet.Terminal.Session.{page_run}
use popfleet.EndToEnd.{frame_json, page_frame_json, output_reaches_page}
use popfleet.EndToEnd.Typing.{
  Keystroke, payloads, typing, opens_as, relays, inputs, typing_reaches_agent,
}
use popfleet.Tests.World.{platform, busy}
use popfleet.Tests.Terminal.{browser, nonce, page, read-write, opens_own}

abbrev hi : List ℕ
hi = 104 ∷ 105 ∷ []

abbrev sealed_hi : String
sealed_hi = seal browser "s1" 32 nonce hi

abbrev out_hi : Json
out_hi = obj (field "t" (str "out") (field "sid" (str "s1") (field "data" (str sealed_hi) end)))

abbrev wire : Runtime
wire = record platform {
  parse = λ s. if str_eq s "out" then some out_hi else some (page_frame_json (input sealed_hi));
}

output_reaches_page_example :
    ((web_socket_message wire 7000 0 (text "out") busy).0.sent
      ≡ sends 1 (out_frame (some (str sealed_hi))) ∷ [])
    × ((handle_frame browser "s1" (frame_json (out_frame (some (str sealed_hi)))) [] page).written
        ≡ hi ∷ [])
unfolding tag_of prop attach term_by_sid is_open
output_reaches_page_example =
    output_reaches_page browser wire 32 nonce hi 7000 0 1 1000 "s1" "m1" "out" out_hi [] busy page
      (λ xs. ap some (read-write xs)) (λ iv xs. opens_own 32 xs) (λ s. refl) refl refl refl refl
      refl refl refl refl refl refl refl

abbrev print : PageFrame → String
print (input x) = x
print (resize cols rows) = ""

abbrev prints_inputs : Runtime
prints_inputs = record platform { parse = λ s. some (page_frame_json (input s)) }

abbrev keys : List Keystroke
keys =
    record { nonce = nonce; bytes = 108 ∷ [] }
    ∷ record { nonce = nonce; bytes = 115 ∷ 13 ∷ [] }
    ∷ []

abbrev sealed_keys : List String
sealed_keys = payloads browser "s1" 32 keys

typing_reaches_agent_example :
    ((page_run browser "s1" (typing browser "s1" 32 keys) page).sent ≡ map input sealed_keys)
    × ((relays prints_inputs print 7000 1 (map input sealed_keys) busy).sent
        ≡ inputs 0 "s1" sealed_keys)
    × (map (unseal browser "s1" 32) sealed_keys ≡ opens_as browser "s1" 32 keys)
unfolding attach agent_socket is_open
typing_reaches_agent_example =
    typing_reaches_agent browser prints_inputs print 32 7000 0 1 "s1" "m1" keys busy page
      (λ x. refl) (λ xs. ap some (read-write xs)) (λ iv xs. opens_own 32 xs) (refl, (refl, tt)) refl
      refl refl refl refl
