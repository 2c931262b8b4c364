-- ===== src/Tests/Enrolling.antt =====
-- The add button with the busy fleet.
use popfleet.Base.{[], ◌∷◌, some, true, ◌≡◌, refl}
use popfleet.Json.{Json, str, bool, obj, field, end, prop, tag_of, truthy}
use popfleet.Dict.{lookup}
use popfleet.Fleet.Runtime.{Runtime, rand_hex}
use popfleet.Fleet.Sockets.{agent_socket}
use popfleet.Fleet.Api.{switching}
use popfleet.Fleet.Events.{fetch}
use popfleet.Fleet.Frames.{text, web_socket_message}
use popfleet.Worker
use popfleet.Worker.{forwards}
use popfleet.Panel.{Panel}
use popfleet.Panel.Access.{request_of}
use popfleet.Panel.Actions.{add_machine, blocks_of}
use popfleet.EndToEnd.Opening.{connect, handshake}
use popfleet.EndToEnd.Enrolling.{token_of, token_call, token_request, button_enrolls}
use popfleet.Tests.World.{platform, busy, codes}
use popfleet.Tests.Sessions.{busy-IsSound}
use popfleet.Tests.Gate.{env}
use popfleet.Tests.Panel.{surface, panel}
use popfleet.Tests.Opening.{draws}

abbrev hello_04 : Json
hello_04 = obj (field "t" (str "hello") (field "token" (str "04") (field "e2e" (bool true) end)))

abbrev wire : Runtime
wire = record platform { parse = λ s. some hello_04 }

abbrev keyed : Panel
keyed = record panel { stored_key = "fk" }

button_enrolls_example :
    let made = fetch wire 7000 (token_request keyed) draws busy in
    let after = add_machine surface (token_of made.1) keyed in
    let connected = fetch wire 7500 (connect "/ws/agent" "") draws made.0 in
    let enrolled = (web_socket_message wire 8000 3 (text "hello") connected.0).0 in
    (after.calls ≡ token_call keyed ∷ [])
    × (Worker.fetch codes (request_of (token_call keyed)) env ≡ forwards)
    × (after.blocks ≡ some (blocks_of surface "fk" "04"))
    × (Worker.fetch codes (handshake "/ws/agent") env ≡ forwards)
    × (connected.1 ≡ switching 3)
    × (agent_socket enrolled (some "03") ≡ some 3)
unfolding lookup rand_hex prop tag_of truthy
button_enrolls_example =
    button_enrolls surface codes env wire 7000 7500 8000 draws draws "hello" hello_04 busy keyed
      refl refl (λ e. cc e) refl busy-IsSound refl (λ e. cc e) (λ e. cc e) refl refl refl refl
