-- ===== src/Tests/Races.antt =====
-- Events that interleave, and the keys as an abstract service.
use popfleet.Base.{String, none, [], some, ◌≡◌, ◌≢◌, refl, arith, ◌+◌}
use popfleet.Json.{Json, str, obj, field, end, prop, truthy}
use popfleet.Dict.{lookup}
use popfleet.Fleet.Runtime.{sha256hex, to_text}
use popfleet.Fleet.State.{Fleet}
use popfleet.Fleet.Api.{switching}
use popfleet.Fleet.Upgrades.{key_fits, upgrade_term}
use popfleet.Fleet.Events.{Event, fetches, step}
use popfleet.Fleet.Counts.{opened}
use popfleet.Fleet.Grants.{grants, call_of, serve}
use popfleet.Fleet.Grants.Refinement.{step-refines, Answers}
use popfleet.Fleet.Interleaved.{
  begin_upgrade, end_upgrade, begin_mint, end_mint, key_opens_twice, remint_reopens,
}
use popfleet.Tests.World.{platform, busy, waiting}
use popfleet.Tests.Sessions.{busy-IsSound, k-Opens}

-- An upgrade with the key of the pending session.
abbrev redeems_s2 : Event
redeems_s2 =
    fetches (record { method = "GET"; path = "/ws/term/s2"; k = some "k"; body = none })
      (record { short = []; long = [] })

step-refines_example :
    let done = serve 6000 (call_of platform busy redeems_s2) (grants busy) in
    ((sid : String) → grants (step platform 6000 redeems_s2 busy) sid ≡ done.0 sid)
    × Answers platform 6000 redeems_s2 busy done.1
step-refines_example = step-refines platform 6000 redeems_s2 busy busy-IsSound

abbrev once : Fleet
once = (end_upgrade platform 6000 "s2" "k" (some waiting) busy).0

key_opens_twice_example :
    ((end_upgrade platform 6000 "s2" "k" (begin_upgrade "s2" busy) busy).1 ≡ switching 3)
    × ((end_upgrade platform 6001 "s2" "k"
          (begin_upgrade "s2" busy)
          (end_upgrade platform 6000 "s2" "k" (begin_upgrade "s2" busy) busy).0).1
        ≡ switching 4)
    × (opened "s2"
          (end_upgrade platform 6001 "s2" "k"
            (begin_upgrade "s2" busy)
            (end_upgrade platform 6000 "s2" "k" (begin_upgrade "s2" busy) busy).0).0.sockets
        ≡ opened "s2" busy.sockets + 2)
unfolding begin_upgrade lookup key_fits sha256hex
key_opens_twice_example = key_opens_twice platform 6000 6001 "s2" "k" waiting busy refl refl refl

abbrev again_body : Json
again_body = obj (field "sid" (str "s2") end)

remint_reopens_example :
    let consumed = (upgrade_term platform 6000 "s2" "k" busy).0 in
    let renewed =
      (end_mint platform 6100 "m1" again_body "n"
        (begin_mint platform 5900 "m1" again_body "03" busy)
        consumed).0 in
    (opened "s2" renewed.sockets ≢ 0)
    × ((upgrade_term platform 6200 "s2" "n" renewed).1 ≡ switching renewed.next_id)
unfolding begin_mint lookup prop truthy to_text
remint_reopens_example =
    remint_reopens platform 5900 6000 6100 6200 "m1" again_body "03" "s2" "k" "n" (str "s2") busy
      refl k-Opens (omega arith)
