-- ===== src/Fleet/Order.antt =====
-- The order of the machine list of worker/src/fleet.js.
use Prim.Native.Nat.{Ordering, compare as compare_codes}
use Prim.Native.Char.{Char}
use Prim.Native.String.compare
use Prim.Native.String.{
  compare as compare_texts, [] as empty_text, ◌∷◌ as cons_text, then as and_then,
}
use mathlib.Core.List.{Perm}
use mathlib.Core.List.Perm
use popfleet.Base.{String, Bool, true, false, List, [], ◌∷◌, All, ◌≡◌}
use popfleet.Fleet.Runtime.{Runtime}
use popfleet.Fleet.State.{Fleet}
use popfleet.Fleet.Api.{Row, text_lt}

is_lt : Ordering → Bool
is_lt Ordering.lt = true
is_lt Ordering.eq = false
is_lt Ordering.gt = false

is_eq : Ordering → Bool
is_eq Ordering.lt = false
is_eq Ordering.eq = true
is_eq Ordering.gt = false

-- Nothing later in the list is less.
abbrev pub Ascending : List Row → Type 0
Ascending [] = Unit
Ascending (r ∷ rs) = All (λ x. text_lt x.id r.id ≡ false) rs × Ascending rs
