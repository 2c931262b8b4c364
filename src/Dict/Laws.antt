-- ===== src/Dict/Laws.antt =====
-- The laws of the maps of Dict.
use popfleet.Base.{String, [], ◌∷◌, none, some, str_eq, if◌then◌else◌, ◌≡◌, refl, arith, eq_iff}
use popfleet.Dict.{Dict, lookup, put, delete}

module _ {ℓ} {V : Type ℓ} where
  pub lookup-put :
      (k j : String) (v : V) (m : Dict V)
      → lookup j (put k v m) ≡ (if str_eq k j then some v else lookup j m)
  unfolding lookup put
  lookup-put k j v [] = refl
  lookup-put k j v ((i, w) ∷ m) =
      ground (arith, eq_iff k j, eq_iff i k, eq_iff i j, lookup-put k j v m)

  pub lookup-delete :
      (k j : String) (m : Dict V)
      → lookup j (delete k m) ≡ (if str_eq k j then none else lookup j m)
  unfolding lookup delete
  lookup-delete k j [] = ground arith
  lookup-delete k j ((i, w) ∷ m) =
      ground (arith, eq_iff k j, eq_iff i k, eq_iff i j, lookup-delete k j m)

  -- Each key stands once.
  abbrev pub Unique : Dict V → Type ℓ
  Unique [] = Unit
  Unique ((k, v) ∷ m) = (lookup k m ≡ none) × Unique m

  pub Unique-put : (k : String) (v : V) (m : Dict V) → Unique m → Unique (put k v m)
  unfolding lookup put
  Unique-put k v [] u = (refl, tt)
  Unique-put k v ((j, w) ∷ m) u =
      ground (arith, eq_iff j k, eq_iff k j, Unique-put k v m u.1, lookup-put k j v m)

  pub Unique-delete : (k : String) (m : Dict V) → Unique m → Unique (delete k m)
  unfolding lookup delete
  Unique-delete k [] u = tt
  Unique-delete k ((j, w) ∷ m) u =
      ground (arith, eq_iff j k, Unique-delete k m u.1, lookup-delete k j m)
