-- ===== src/Tests/Sweeps.antt =====
-- Alarms, and agents that leave.
use popfleet.Base.{◌≡◌, ◌<◌, refl, some, [], ◌∷◌, arith}
use popfleet.Dict.{lookup}
use popfleet.Fleet.State.{Fleet, Socket, agent, replaced}
use popfleet.Fleet.Sockets.{attach, find_socket, last_seen_of}
use popfleet.Fleet.Lifecycle.{alarm, reap}
use popfleet.Fleet.Sweeps.{alarm_sweeps_keys}
use popfleet.Fleet.Silence.{alarm_drops_silent}
use popfleet.Fleet.Departures.{reap-last_seen, reap_loses_heartbeat}
use popfleet.Tests.World.{busy, agent_ws, lab, waiting}

alarm_sweeps_keys_example : lookup "s2" (alarm 60_000 busy).pends ≡ some waiting
unfolding lookup
alarm_sweeps_keys_example =
    (alarm_sweeps_keys 60_000 "s2" waiting busy (refl, tt)).1 (refl, omega arith)

alarm_drops_silent_example : attach (alarm 50_000 busy) 0 ≡ replaced
unfolding find_socket last_seen_of attach
alarm_drops_silent_example = alarm_drops_silent 50_000 0 agent_ws "m1" 1000 busy refl refl refl

reap-last_seen_example : lookup "m1" (reap 0 busy).machines ≡ some (record lab { last_seen = 5000 })
unfolding lookup attach find_socket
reap-last_seen_example = reap-last_seen 0 "m1" 1000 lab busy refl refl

-- The agent's last heartbeat, at 9000, was not absorbed.
abbrev answered_ws : Socket
answered_ws = record agent_ws { attachment = agent "m1" 9000 }

abbrev answered : Fleet
answered = record busy { sockets = answered_ws ∷ [] }

reap_loses_heartbeat_example : ◌<◌ 5000 9000
unfolding lookup attach find_socket last_seen_of reap
reap_loses_heartbeat_example =
    reap_loses_heartbeat 0 "m1" 9000 lab (record lab { last_seen = 5000 }) answered refl refl
      (omega arith) (omega arith) (reap-last_seen 0 "m1" 9000 lab answered refl refl)
