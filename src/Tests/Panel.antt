-- ===== src/Tests/Panel.antt =====
-- The panel page with a small fleet.
use popfleet.Base.{
  ◌-◌, String, true, false, List, [], ◌∷◌, Option, none, some, str_eq, if◌then◌else◌, ◌≡◌, ◌≢◌, ◌↔◌,
  refl,
}
use popfleet.Json.{str}
use popfleet.Fleet.Api.{Row}
use popfleet.Panel.{Surface, Toast, Panel, Reply, Call, api}
use popfleet.Panel.Age.{age, Fits, age-Fits}
use popfleet.Panel.Machines.{render, news, seen_of}
use popfleet.Panel.Machines.Scan.{In}
use popfleet.Panel.Machines.News.{Announced, render_announces}
use popfleet.Panel.Actions.{PanelEvent, configures, polls, adds, panel_run}
use popfleet.Panel.Privacy.{fleet_key_unsent}
use popfleet.Panel.Access.{request_of, panel_request_forwards_iff}
use popfleet.Routes.{starts_with}
use popfleet.Worker.{Env, forwards, or_empty, fetch}
use popfleet.Tests.World.{codes}

abbrev pub surface : Surface
surface = record {
  trim = λ s. s;
  show = λ n. "1";
  to_text = λ j. "lab";
  parse_date = λ s. if str_eq s "then" then some 1000 else none;
  origin = "https://fleet";
}

abbrev pub panel : Panel
panel = record {
  e2e = true;
  stored_key = "";
  admin = "pw";
  answers = some "lab2" ∷ [];
  known = none;
  views = [];
  toasts = [];
  calls = [];
  windows = [];
  blocks = none;
  dialog = false;
  clipboard = none;
}

abbrev pub row : Row
row = record {
  id = "m1";
  name = str "lab1";
  last_seen = "then";
  agent_ver = str "";
  online = true;
  sessions = 1;
}

age-Fits_example : Fits (125_000 - 1000) (age surface 125_000 "then")
age-Fits_example = age-Fits surface 125_000 1000 "then" refl refl

abbrev gone : List Toast
gone = record { msg = "lab removed"; cls = "leave" } ∷ []

render_announces_example :
    ((render surface 4000 [] (render surface 2000 (row ∷ []) panel)).toasts ≡ gone)
    × ((t : Toast) → In t gone ↔ Announced surface (seen_of (row ∷ []) []) (seen_of [] []) t)
unfolding render seen_of news
render_announces_example = render_announces surface 2000 4000 (row ∷ []) [] panel

abbrev given : Option (Reply String)
given = some (record { status = 200; body = some "tk" })

abbrev day : List PanelEvent
day =
    configures true
    ∷ polls 2000 (some (record { status = 200; body = some (row ∷ []) }))
    ∷ adds given
    ∷ []

fleet_key_unsent_example :
    let one = panel_run surface day (record panel { stored_key = "key1" }) in
    let two = panel_run surface day (record panel { stored_key = "key2" }) in
    (one.calls ≡ two.calls)
    × (one.windows ≡ two.windows)
    × (one.toasts ≡ two.toasts)
    × (one.answers ≡ two.answers)
    × (one.stored_key ≡ "key1")
fleet_key_unsent_example = fleet_key_unsent surface "key1" "key2" day panel refl refl

abbrev env : Env
env = record { admin_token = some "pw" }

abbrev lists : Call
lists = record { verb = "GET"; path = "/api/machines"; authorization = "Bearer pw"; body = none }

panel_request_forwards_iff_example :
    ((api surface "GET" "/api/machines" none given panel).1.calls ≡ lists ∷ [])
    × ((fetch codes (request_of lists) env ≡ forwards)
        ↔ ((or_empty env.admin_token ≢ "") × (codes "pw" ≡ codes "pw")))
unfolding starts_with
panel_request_forwards_iff_example =
    panel_request_forwards_iff surface codes env "GET" "/api/machines" none given panel refl refl
