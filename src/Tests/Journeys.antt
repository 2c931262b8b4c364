-- ===== src/Tests/Journeys.antt =====
-- The opening of a session, a heartbeat and the machine list.
use popfleet.Base.{◌≡◌, refl, [], ◌∷◌, arith, All}
use popfleet.Dict.{lookup}
use popfleet.Json.{prop, tag_of, str}
use popfleet.Fleet.Runtime.{sha256hex}
use popfleet.Fleet.State.{sends, e2e_frame, open_frame}
use popfleet.Fleet.Sockets.{attach, find_socket, agent_socket, is_open}
use popfleet.Fleet.State.{agent}
use popfleet.Fleet.Api.{get_machines}
use popfleet.Fleet.Upgrades.{upgrade_term, key_fits}
use popfleet.Fleet.Frames.{text, web_socket_message}
use popfleet.Fleet.Lifecycle.{alarm}
use popfleet.Fleet.Journeys.{sent-upgrade_term, heartbeat_keeps_agent}
use popfleet.Fleet.Listing.{get_machines-Tells, Tells, listed}
use popfleet.Tests.World.{platform, busy, agent_ws, hb_json, waiting}
use popfleet.Tests.Sessions.{busy-IsSound}

sent-upgrade_term_example :
    (upgrade_term platform 6000 "s2" "k" busy).0.sent
    ≡ sends 3 e2e_frame ∷ sends 0 (open_frame "s2" (str "")) ∷ []
unfolding lookup key_fits sha256hex agent_socket is_open
sent-upgrade_term_example =
    sent-upgrade_term platform 6000 "s2" "k" waiting busy busy-IsSound.ids refl refl

heartbeat_keeps_agent_example :
    attach (alarm 50_000 (web_socket_message platform 20_000 0 (text "hb") busy).0) 0
    ≡ agent "m1" 20_000
unfolding find_socket tag_of prop
heartbeat_keeps_agent_example =
    heartbeat_keeps_agent platform 20_000 50_000 0 "hb" hb_json agent_ws "m1" 1000 busy refl refl
      refl refl refl refl (omega arith)

get_machines-Tells_example : All (Tells busy) (listed (get_machines platform 6000 busy).1)
get_machines-Tells_example = get_machines-Tells platform 6000 busy ((λ e. cc e), tt)
