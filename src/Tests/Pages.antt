-- ===== src/Tests/Pages.antt =====
-- The pages' code at concrete inputs.
use popfleet.Base.{String, false, List, [], ◌∷◌, Option, none, some, ◌≡◌, refl}
use popfleet.Fleet.Api.{Row}
use popfleet.Terminal.Address.{last_segment}
use popfleet.Panel.{Reply, failed, Toast, api, admin_token}
use popfleet.Panel.Age.{age, never, no_date, seconds, minutes, days}
use popfleet.Panel.Actions.{polls, blocks_of, panel_run}
use popfleet.Tests.Panel.{surface, panel, row}

sid_of_page : last_segment "/term/03" ≡ "03"
unfolding last_segment
sid_of_page = refl

ages :
    (age surface 31_500 "then" ≡ seconds 30)
    × (age surface 121_000 "then" ≡ minutes 2)
    × (age surface 172_801_000 "then" ≡ days 2)
    × (age surface 500 "then" ≡ seconds 0)
    × (age surface 500 "" ≡ never)
    × (age surface 500 "now" ≡ no_date)
unfolding age
ages = (refl, refl, refl, refl, refl, refl)

shell_text :
    (blocks_of surface "fk" "tk").shell
    ≡ "curl -sSf https://fleet/agent.sh | POPFLEET_URL=https://fleet POPFLEET_E2E_KEY=fk sh -s -- tk"
shell_text = refl

python_text_without_key :
    (blocks_of surface "" "tk").python
    ≡ "curl -sSfO https://fleet/agent.py && pip install websockets\nPOPFLEET_URL=https://fleet POPFLEET_TOKEN=tk python3 agent.py"
python_text_without_key = refl

abbrev unauthorized : Option (Reply String)
unauthorized = some (record { status = 401; body = none })

-- The page forgets its admin token and asks for another.
asks_again :
    ((api surface "GET" "/api/machines" none unauthorized panel).0 ≡ failed "unauthorized")
    × ((api surface "GET" "/api/machines" none unauthorized panel).1.admin ≡ "lab2")
unfolding api admin_token
asks_again = (refl, refl)

abbrev offline : Row
offline = record row { online = false }

abbrev listed : List Row → Option (Reply (List Row))
listed rows = some (record { status = 200; body = some rows })

messages_shown : List Toast → List String
messages_shown [] = []
messages_shown (t ∷ ts) = t.msg ∷ messages_shown ts

toasts_in_order :
    messages_shown
      (panel_run surface
        (polls 1 (listed [])
          ∷ polls 2 (listed (row ∷ []))
          ∷ polls 3 none
          ∷ polls 4 (listed (offline ∷ []))
          ∷ polls 5 (listed (row ∷ []))
          ∷ polls 6 (listed [])
          ∷ [])
        panel).toasts
    ≡ "lab enrolled" ∷ "lab went offline" ∷ "lab is online" ∷ "lab removed" ∷ []
unfolding panel_run messages_shown
toasts_in_order = refl
