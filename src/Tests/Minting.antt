-- ===== src/Tests/Minting.antt =====
-- Session keys.
use popfleet.Base.{◌≡◌, refl, some, none, arith}
use popfleet.Json.{Json, str, obj, field, end, truthy, prop, or_else}
use popfleet.Dict.{lookup}
use popfleet.Fleet.Runtime.{to_text}
use popfleet.Fleet.Api.{post_term, term_response}
use popfleet.Fleet.Keys.Minting.{post_term_new, post_term_again, OnlyKey}
use popfleet.Tests.World.{platform, busy, waiting}

abbrev asks_s2 : Json
asks_s2 = obj (field "sid" (str "s2") (field "cmd" (str "bHM=") end))

post_term_new_example :
    ((post_term platform 6000 "m1" none "07" "08" busy).1
      ≡ term_response "/term/07?k=08" (str "07"))
    × OnlyKey platform 6000 "07" "08" (post_term platform 6000 "m1" none "07" "08" busy).0
unfolding lookup truthy prop
post_term_new_example = post_term_new platform 6000 "m1" none "07" "08" busy refl refl refl

post_term_again_example :
    ((post_term platform 6000 "m1" (some asks_s2) "07" "08" busy).1
      ≡ term_response "/term/s2?k=08" (str "s2"))
    × OnlyKey platform 6000 "s2" "08" (post_term platform 6000 "m1" (some asks_s2) "07" "08" busy).0
unfolding lookup truthy prop to_text or_else
post_term_again_example =
    post_term_again platform 6000 "m1" (some asks_s2) "07" "08" busy waiting refl refl refl refl
      (omega arith)
