-- ===== src/Tests/Frames.antt =====
-- Frames and the first frame of an agent.
use popfleet.Base.{true, ◌≡◌, refl, some, [], ◌∷◌}
use popfleet.Dict.{lookup}
use popfleet.Json.{truthy, prop, tag_of, str}
use popfleet.Fleet.State.{sends, closes, err_frame}
use popfleet.Fleet.Sockets.{
  attach, find_socket, agent_socket, is_open, has_tag, drop_agent, term_sockets, mid_of,
}
use popfleet.Fleet.Frames.{text, web_socket_message, hello, threw, token_sum_of}
use popfleet.Fleet.Core.{core}
use popfleet.Fleet.Relay.{Grows, Within, ToAgent, agent_message-Within, term_message-ToAgent}
use popfleet.Fleet.Farewells.{sent-drop_agent}
use popfleet.Fleet.Enrollment.{hello_enrolls}
use popfleet.Fleet.Enrollment.Refusals.{first_frame_refused}
use popfleet.Tests.World.{platform, busy, waiting_ws, hello_json}
use popfleet.Tests.Sessions.{busy-IsSound}

agent_message-Within_example :
    Grows (Within busy "m1") [] (web_socket_message platform 6000 0 (text "out") busy).0.sent
unfolding attach find_socket
agent_message-Within_example = agent_message-Within platform 6000 0 (text "out") busy "m1" 1000 refl

term_message-ToAgent_example :
    Grows (ToAgent busy "s1" "m1") [] (web_socket_message platform 6000 1 (text "in") busy).0.sent
unfolding attach find_socket
term_message-ToAgent_example = term_message-ToAgent platform 6000 1 (text "in") busy "s1" "m1" refl

sent-drop_agent_example :
    (drop_agent 0 "machine revoked" busy).sent
    ≡ sends 1 (err_frame (str "machine revoked"))
      ∷ closes 1 1000 "machine revoked"
      ∷ closes 0 1000 "machine revoked"
      ∷ []
unfolding attach find_socket term_sockets mid_of is_open
sent-drop_agent_example = sent-drop_agent 0 "machine revoked" busy busy-IsSound.ids refl

hello_enrolls_example : agent_socket (hello platform 6000 2 hello_json busy).0 (some "m1") ≡ some 2
unfolding find_socket has_tag tag_of lookup token_sum_of truthy prop
hello_enrolls_example =
    hello_enrolls platform 6000 2 hello_json "m1" waiting_ws busy busy-IsSound refl refl refl refl
      refl (λ e. cc e) refl

-- The text "null" makes the handler throw, and the socket stays open.
first_frame_refused_example :
    (core (web_socket_message platform 6000 2 (text "null") busy).0 ≡ core busy)
    × (is_open (web_socket_message platform 6000 2 (text "null") busy).0 2 ≡ true)
    × ((web_socket_message platform 6000 2 (text "null") busy).1 ≡ threw)
unfolding attach find_socket is_open
first_frame_refused_example = first_frame_refused platform 6000 2 5500 (text "null") busy refl refl
