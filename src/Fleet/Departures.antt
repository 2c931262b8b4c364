-- ===== src/Fleet/Departures.antt =====
-- The time that worker/src/fleet.js keeps of an agent whose connection ended.
use popfleet.Base.{ℕ, max, ◌<◌, String, some, ◌≡◌, sym, ap, ◌∙◌, arith, eq_refl}
use popfleet.Dict.{lookup}
use popfleet.Dict.Laws.{lookup-put}
use popfleet.Fleet.State.{Fleet, Machine, agent}
use popfleet.Fleet.Sockets.{attach, auto_of, seen_of, find_socket, last_seen_of, drop_agent}
use popfleet.Fleet.Lifecycle.{save_seen, seen_machine, reap, reap_kind}
use popfleet.Fleet.Core.{Core, core-drop_agent}
use popfleet.Fleet.Looks.{Look, look, look-drop_agent_self}
use popfleet.Fleet.Silence.{last_seen-look, present_of_agent}

save_seen-row :
    (mid : String) (ws : ℕ) (m : Machine) (s : Fleet)
    → lookup mid s.machines ≡ some m
    → lookup mid (save_seen mid ws s).machines
      ≡ some (record m { last_seen = max m.last_seen (last_seen_of s ws) })
unfolding save_seen
save_seen-row mid ws m s found = rw found (
    lookup-put mid mid (seen_machine (last_seen_of s ws) m) s.machines
    ∙ ground (arith, eq_refl mid))

last_seen-drop_agent :
    (ws : ℕ) (why : String) (mid : String) (seen : ℕ) (s : Fleet)
    → attach s ws ≡ agent mid seen
    → last_seen_of (drop_agent ws why s) ws ≡ auto_of (find_socket ws s.sockets)
unfolding look attach
last_seen-drop_agent ws why mid seen s e =
    last_seen-look (drop_agent ws why s) ws
    ∙ ap (λ (l : Look). max (seen_of l.attachment) l.auto)
        (look-drop_agent_self ws why s (present_of_agent s ws mid seen e))
    ∙ omega arith

-- When the connection of an agent ends, its machine's row keeps the later of the time in the row
-- and that of the last heartbeat which the runtime absorbed; the time of a heartbeat which the
-- object answered itself, kept in the attachment, does not count.
pub reap-last_seen :
    (ws : ℕ) (mid : String) (seen : ℕ) (m : Machine) (s : Fleet)
    → attach s ws ≡ agent mid seen
    → lookup mid s.machines ≡ some m
    → lookup mid (reap ws s).machines
      ≡ some (record m { last_seen = max m.last_seen (auto_of (find_socket ws s.sockets)) })
unfolding reap
reap-last_seen ws mid seen m s e found =
    let left = drop_agent ws "agent went offline" s in
    let kept : left.machines ≡ s.machines =
      ap (λ (c : Core). c.machines) (core-drop_agent ws "agent went offline" s) in
    ap (λ a. lookup mid (reap_kind ws a s).machines) e
    ∙ save_seen-row mid ws m left (ap (lookup mid) kept ∙ found)
    ∙ ap (λ t. some (record m { last_seen = max m.last_seen t }))
        (last_seen-drop_agent ws "agent went offline" mid seen s e)

-- If a heartbeat which the object answered itself is later than the last one that the runtime
-- absorbed and than the time in the machine's row, then after the agent's connection ended the row
-- has an earlier time than the one at which the agent was last seen.
pub reap_loses_heartbeat :
    (ws : ℕ) (mid : String) (seen : ℕ) (m saved : Machine) (s : Fleet)
    → attach s ws ≡ agent mid seen
    → lookup mid s.machines ≡ some m
    → m.last_seen < seen
    → auto_of (find_socket ws s.sockets) < seen
    → lookup mid (reap ws s).machines ≡ some saved
    → saved.last_seen < last_seen_of s ws
unfolding last_seen_of
reap_loses_heartbeat ws mid seen m saved s e found row auto after =
    let is_saved : some
          (record m { last_seen = max m.last_seen (auto_of (find_socket ws s.sockets)) })
        ≡ some saved =
      sym (reap-last_seen ws mid seen m s e found) ∙ after in
    ground (arith, e)
