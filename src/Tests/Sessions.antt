-- ===== src/Tests/Sessions.antt =====
-- Session keys and revocation.
use popfleet.Base.{
  List, [], ◌∷◌, true, String, is_some, ℕ, none, some, ◌≡◌, ◌≢◌, refl, arith, eq_iff, eq_refl,
}
use popfleet.Dict.{lookup}
use popfleet.Fleet.Runtime.{rand_hex, sha256hex}
use popfleet.Fleet.State.{Fleet, new_fleet}
use popfleet.Fleet.Sockets.{has_tag, agent_socket}
use popfleet.Fleet.Api.{delete_machine, switching}
use popfleet.Fleet.Upgrades.{upgrade_term, forbidden, key_fits, open_term}
use popfleet.Fleet.Events.{step, Event}
use popfleet.Fleet.Core.{core}
use popfleet.Fleet.Counts.{opened, agents, is_agent_of}
use popfleet.Fleet.Soundness.{IsSound, sum_at}
use popfleet.Fleet.Soundness.Revocation.{delete_machine_cuts_off}
use popfleet.Fleet.Soundness.Histories.{handled, AllFresh, Reach, start, next, step-IsSound}
use popfleet.Fleet.Armed.{any_live}
use popfleet.Fleet.Armed.Histories.{Reach-armed}
use popfleet.Fleet.Keys.{session_opens_once, upgrade_term_accepted_iff, Opens}
use popfleet.Fleet.Tags.{all_fit}
use popfleet.Fleet.Tags.Histories.{Reach-Tagged, IsTermOf}
use popfleet.Fleet.Sockets.{term_by_sid, attach}
use popfleet.Tests.World.{platform, busy, lab, enrolls, asks, upgrades, waiting}

pub busy-IsSound : IsSound (core busy)
unfolding agents is_agent_of opened lookup sum_at has_tag
busy-IsSound = record {
  ids = omega arith;
  sole = λ m. ground (arith, eq_iff "m1" m);
  vouched = λ sum mid h. ground (arith, eq_iff "746b" sum, eq_iff "m1" mid, eq_refl "m1");
  once = λ sid. ground (arith, eq_iff "s1" sid, eq_iff sid "s1", eq_iff "s2" sid, eq_iff "s1" "s2");
  unique = (refl, tt);
}

one_ne_zero : ◌≢◌ {A = ℕ} 1 0
one_ne_zero = omega arith

abbrev opened_fleet : Fleet
opened_fleet =
    step platform 2000 upgrades (step platform 1500 asks (step platform 1000 enrolls new_fleet))

history : Reach platform opened_fleet
unfolding step new_fleet lookup rand_hex opened has_tag key_fits open_term
history =
    next
      (next (next start 1000 enrolls (record { new_id = refl; new_sid = refl })) 1500 asks
        (record { new_id = refl; new_sid = refl }))
      2000 upgrades (record { new_id = refl; new_sid = refl })

abbrev events : List (ℕ × Event)
events = (1000, enrolls) ∷ (1500, asks) ∷ (2000, upgrades) ∷ []

events-AllFresh : AllFresh platform events new_fleet
unfolding step new_fleet lookup rand_hex opened has_tag key_fits open_term
events-AllFresh = (
  record { new_id = refl; new_sid = refl },
  (record { new_id = refl; new_sid = refl }, (record { new_id = refl; new_sid = refl }, tt)),
)

session_opens_once_example :
    upgrade_term platform 2001 "03" "04" (handled platform events new_fleet)
    ≡ (handled platform events new_fleet, forbidden)
unfolding handled step new_fleet lookup rand_hex opened has_tag key_fits open_term
session_opens_once_example =
    session_opens_once platform events "03" "04" 2001 events-AllFresh one_ne_zero

step-IsSound_example : IsSound (core (step platform 6000 upgrades busy))
unfolding lookup rand_hex opened has_tag
step-IsSound_example =
    step-IsSound platform 6000 upgrades busy (record { new_id = refl; new_sid = refl }) busy-IsSound

delete_machine_cuts_off_example : agent_socket (delete_machine "m1" busy).0 (some "m1") ≡ none
unfolding lookup
delete_machine_cuts_off_example = (delete_machine_cuts_off "m1" lab busy busy-IsSound refl).2

pub k-Opens : Opens platform 6000 "s2" "k" busy
unfolding lookup sha256hex
k-Opens = record { pend = waiting; found = refl; in_time = omega arith; right = refl }

upgrade_term_accepted_iff_example : (upgrade_term platform 6000 "s2" "k" busy).1 ≡ switching 3
upgrade_term_accepted_iff_example =
    (upgrade_term_accepted_iff platform 6000 "s2" "k" busy).1 k-Opens

Reach-armed_example : is_some opened_fleet.alarm ≡ true
unfolding step new_fleet lookup rand_hex opened has_tag key_fits open_term any_live
Reach-armed_example = Reach-armed platform opened_fleet history refl

Reach-Tagged_example :
    (all_fit opened_fleet.sockets ≡ true)
    × ((sid : String) (t : ℕ)
        → term_by_sid opened_fleet sid ≡ some t
        → IsTermOf sid (attach opened_fleet t))
Reach-Tagged_example = Reach-Tagged platform opened_fleet history
