-- ===== src/Tests/Gate.antt =====
-- The Worker's entry and the routes.
use popfleet.Base.{◌≡◌, ◌≢◌, refl, some, none, inr, arith, String}
use popfleet.Routes.{match_term}
use popfleet.Routes.Laws.{match_term_iff, NoSlash}
use popfleet.Worker.{Env, HttpRequest, forwards, fetch}
use popfleet.Worker.Gate.{fetch_forwards_iff, Admitted}
use popfleet.Routes.{starts_with}
use popfleet.Tests.World.{codes}

pub m1-NoSlash : NoSlash "m1"
m1-NoSlash = (omega arith, (omega arith, tt))

pub m1-full : ◌≢◌ {A = String} "m1" ""
m1-full e = cc e

match_term_iff_example : match_term "/api/machines/m1/term" ≡ some "m1"
match_term_iff_example = (match_term_iff "/api/machines/m1/term" "m1").1 (refl, m1-NoSlash, m1-full)

abbrev pub env : Env
env = record { admin_token = some "pw" }

abbrev polls : HttpRequest
polls = record { path = "/api/machines"; upgrade = none; authorization = some "Bearer pw" }

polls-Admitted : Admitted codes polls env
polls-Admitted = record { given = "pw"; header = refl; same_sum = refl; set = λ e. cc e }

fetch_forwards_iff_example : fetch codes polls env ≡ forwards
unfolding starts_with
fetch_forwards_iff_example = (fetch_forwards_iff codes polls env).1 (inr (refl, polls-Admitted))
