-- ===== src/Panel/Age.antt =====
-- `ago` of worker/public/index.js.
use Prim.Native.String.{◌++◌ as concat}
use popfleet.Base.{
  ℕ, ◌+◌, ◌-◌, ◌*◌, ◌/◌, ◌<◌, ◌≤◌, String, false, Option, none, some, ltb, if◌then◌else◌, str_eq,
  ◌≡◌, arith,
}
use popfleet.Panel.{Surface}

-- The age before it is written out; `no_date` is NaN.
pub data Age : Type 0 where
  never no_date : Age
  seconds minutes hours days : ℕ → Age

-- Of so many milliseconds.
abbrev pub age_of : ℕ → Age
age_of ms =
    if ltb ms 60_000
    then seconds (ms / 1000)
    else (if ltb ms 3_600_000
        then minutes (ms / 60_000)
        else (if ltb ms 86_400_000 then hours (ms / 3_600_000) else days (ms / 86_400_000)))

abbrev pub age_since : ℕ → Option ℕ → Age
age_since now none = no_date
age_since now (some at) = age_of (now - at)

unfoldable pub age : Surface → ℕ → String → Age
age sf now rfc3339 = if str_eq rfc3339 "" then never else age_since now (sf.parse_date rfc3339)

abbrev pub written : Surface → Age → String
written sf never = "never"
written sf no_date = "NaNd ago"
written sf (seconds n) = concat (sf.show n) "s ago"
written sf (minutes n) = concat (sf.show n) "m ago"
written sf (hours n) = concat (sf.show n) "h ago"
written sf (days n) = concat (sf.show n) "d ago"

unfoldable pub ago : Surface → ℕ → String → String
unfolding age
ago sf now rfc3339 = written sf (age sf now rfc3339)

-- The number is what fits of its unit into the time, and less than the next unit.
abbrev pub Fits : ℕ → Age → Type 0
Fits ms never = ⊥
Fits ms no_date = ⊥
Fits ms (seconds n) = (n * 1000 ≤ ms) × (ms < (n + 1) * 1000) × (n < 60)
Fits ms (minutes n) = (n * 60_000 ≤ ms) × (ms < (n + 1) * 60_000) × (0 < n) × (n < 60)
Fits ms (hours n) = (n * 3_600_000 ≤ ms) × (ms < (n + 1) * 3_600_000) × (0 < n) × (n < 24)
Fits ms (days n) = (n * 86_400_000 ≤ ms) × (ms < (n + 1) * 86_400_000) × (0 < n)

-- The age shown of a time is a number of seconds, minutes, hours or days: as many whole units as fit into
-- the time that has passed, and fewer than make the next unit, below 60 seconds or minutes or 24 hours; a
-- time in the future counts as now.
pub age-Fits :
    (sf : Surface) (now at : ℕ) (rfc3339 : String)
    → str_eq rfc3339 "" ≡ false
    → sf.parse_date rfc3339 ≡ some at
    → Fits (now - at) (age sf now rfc3339)
unfolding age
age-Fits sf now at rfc3339 given dated = rw (given, dated) (ground arith)
