-- ===== src/Panel/Machines.antt =====
-- `render` of worker/public/index.js: the table of machines and the toasts. The table is hidden, and the
-- hint for an empty fleet shown, while there are no views.
pub mod Scan
pub mod News
use Prim.Native.String.{◌++◌ as concat}
use popfleet.Base.{
  ℕ, String, Bool, true, false, not, ◌&&◌, List, [], ◌∷◌, ◌++◌, Option, none, some, is_some, ◌==◌,
  ltb, if◌then◌else◌, str_eq,
}
use popfleet.Json.{Json, str, or_else}
use popfleet.Dict.{Dict, lookup, put}
use popfleet.Fleet.Api.{Row}
use popfleet.Panel.{Surface, Seen, Toast, View, Panel}
use popfleet.Panel.Age.{ago}

-- `name || id`.
abbrev pub label : Surface → Json → String → String
label sf name id = sf.to_text (some (or_else (some name) (str id)))

unfoldable pub view_of : Surface → ℕ → Row → View
unfolding ago or_else
view_of sf now r = record {
  dot = if r.online then "dot on" else "dot off";
  label = label sf r.name r.id;
  last = ago sf now r.last_seen;
  version = sf.to_text (some (or_else (some r.agent_ver) (str "—")));
  sessions =
      if r.sessions == 0
      then ""
      else concat (sf.show r.sessions) (concat " session" (if ltb 1 r.sessions then "s" else ""));
  can_open = r.online;
}

unfoldable pub views_of : Surface → ℕ → List Row → List View
unfolding view_of
views_of sf now [] = []
views_of sf now (r ∷ rs) = view_of sf now r ∷ views_of sf now rs

-- `seen`, filled row by row. The ids are no array indices, so that the object keeps their order.
unfoldable pub seen_of : List Row → Dict Seen → Dict Seen
unfolding put
seen_of [] seen = seen
seen_of (r ∷ rs) seen = seen_of rs (put r.id (record { name = r.name; online = r.online }) seen)

-- The toasts of one entry of `seen`, given its entry of `known`.
abbrev pub join_toasts : Surface → String → Seen → Option Seen → List Toast
join_toasts sf id k none =
    record { msg = concat (label sf k.name id) " enrolled"; cls = "join" } ∷ []
join_toasts sf id k (some old) =
    if k.online && not old.online
    then record { msg = concat (label sf k.name id) " is online"; cls = "join" } ∷ []
    else (if not k.online && old.online
        then record { msg = concat (label sf k.name id) " went offline"; cls = "leave" } ∷ []
        else [])

unfoldable pub joins : Surface → Dict Seen → Dict Seen → List Toast
unfolding lookup
joins sf known [] = []
joins sf known ((id, k) ∷ seen) = join_toasts sf id k (lookup id known) ++ joins sf known seen

abbrev pub leave_toasts : Surface → String → Seen → Option Seen → List Toast
leave_toasts sf id old none =
    record { msg = concat (label sf old.name id) " removed"; cls = "leave" } ∷ []
leave_toasts sf id old (some k) = []

unfoldable pub leaves : Surface → Dict Seen → Dict Seen → List Toast
unfolding lookup
leaves sf seen [] = []
leaves sf seen ((id, old) ∷ known) = leave_toasts sf id old (lookup id seen) ++ leaves sf seen known

-- The first list of machines makes no toasts.
unfoldable pub news : Surface → Option (Dict Seen) → Dict Seen → List Toast
unfolding joins leaves
news sf none seen = []
news sf (some known) seen = joins sf known seen ++ leaves sf seen known

unfoldable pub render : Surface → ℕ → List Row → Panel → Panel
unfolding views_of seen_of news
render sf now rows p =
    let seen = seen_of rows [] in
    record p {
      views = views_of sf now rows;
      toasts = p.toasts ++ news sf p.known seen;
      known = some seen;
    }
