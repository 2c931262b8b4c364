-- ===== src/Dict.antt =====
-- The maps that worker/src/fleet.js keeps in `ctx.storage` under one key prefix each, and the plain
-- object in which it counts sessions: an association list whose keys are texts. A missing key
-- reads `none`, which stands for `undefined`.
pub mod Laws
use popfleet.Base.{String, List, [], ◌∷◌, Option, none, some, str_eq, if◌then◌else◌}

abbrev pub Dict {ℓ} : Type ℓ → Type ℓ
Dict V = List (String × V)

module _ {ℓ} {V : Type ℓ} where
  unfoldable pub lookup : String → Dict V → Option V
  lookup k [] = none
  lookup k ((j, v) ∷ m) = if str_eq j k then some v else lookup k m

  unfoldable pub put : String → V → Dict V → Dict V
  put k v [] = (k, v) ∷ []
  put k v ((j, w) ∷ m) = if str_eq j k then (k, v) ∷ m else (j, w) ∷ put k v m

  unfoldable pub delete : String → Dict V → Dict V
  delete k [] = []
  delete k ((j, v) ∷ m) = let rest = delete k m in if str_eq j k then rest else (j, v) ∷ rest
