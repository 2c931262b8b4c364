-- ===== src/Panel/Machines/Scan.antt =====
-- What the two loops of `render` (worker/public/index.js) that make toasts have in common: each lists what
-- an entry of one map and its partner in the other give.
use popfleet.Base.{
  String, List, [], ◌∷◌, ◌++◌, Option, some, str_eq, Bool-cases, inl, inr, ◌⊎◌, ◌≡◌, refl, sym, ap,
  subst, arith, eq_iff, eq_refl,
}
use popfleet.Dict.{Dict, lookup}
use popfleet.Dict.Laws.{Unique}
use popfleet.Panel.{Surface, Seen, Toast}
use popfleet.Panel.Machines.{join_toasts, joins, leave_toasts, leaves}

abbrev pub In : Toast → List Toast → Type 0
In t [] = ⊥
In t (x ∷ xs) = (x ≡ t) ⊎ In t xs

pub In-left : (t : Toast) (xs ys : List Toast) → In t xs → In t (xs ++ ys)
In-left t [] ys h = absurd h
In-left t (x ∷ xs) ys (inl e) = inl e
In-left t (x ∷ xs) ys (inr h) = inr (In-left t xs ys h)

pub In-right : (t : Toast) (xs ys : List Toast) → In t ys → In t (xs ++ ys)
In-right t [] ys h = h
In-right t (x ∷ xs) ys h = inr (In-right t xs ys h)

in_left : {A B C : Type 0} → A ⊎ B → (C ⊎ A) ⊎ B
in_left (inl a) = inl (inr a)
in_left (inr b) = inr b

pub In-append : (t : Toast) (xs ys : List Toast) → In t (xs ++ ys) → In t xs ⊎ In t ys
unfolding in_left
In-append t [] ys h = inr h
In-append t (x ∷ xs) ys (inl e) = inl (inl e)
In-append t (x ∷ xs) ys (inr h) = in_left (In-append t xs ys h)

-- Both loops list, entry by entry, what a function makes of an entry and its partner in the other map.
abbrev pub Maker : Type 0
Maker = String → Seen → Option Seen → List Toast

pub scan : Maker → Dict Seen → Dict Seen → List Toast
unfolding lookup
scan f other [] = []
scan f other ((id, k) ∷ m) = f id k (lookup id other) ++ scan f other m

pub scan-joins :
    (sf : Surface) (known m : Dict Seen) → joins sf known m ≡ scan (join_toasts sf) known m
unfolding joins scan
scan-joins sf known [] = refl
scan-joins sf known ((id, k) ∷ m) =
    ap (λ ts. join_toasts sf id k (lookup id known) ++ ts) (scan-joins sf known m)

pub scan-leaves :
    (sf : Surface) (seen m : Dict Seen) → leaves sf seen m ≡ scan (leave_toasts sf) seen m
unfolding leaves scan
scan-leaves sf seen [] = refl
scan-leaves sf seen ((id, k) ∷ m) =
    ap (λ ts. leave_toasts sf id k (lookup id seen) ++ ts) (scan-leaves sf seen m)

-- An entry of `m` whose toasts hold `t`.
pub record Entry (f : Maker) (other m : Dict Seen) (t : Toast) : Type 0 where
  pub id : String
  pub seen : Seen
  pub found : lookup id m ≡ some seen
  pub makes : In t (f id seen (lookup id other))

pub scan-Entry :
    (f : Maker) (other m : Dict Seen) (t : Toast)
    → Unique m
    → In t (scan f other m)
    → Entry f other m t
unfolding scan lookup
scan-Entry f other [] t u h = absurd h
scan-Entry f other ((id, k) ∷ m) t u h =
    elim (In-append t (f id k (lookup id other)) (scan f other m) h) [
      | inl here ↦ record { id = id; seen = k; found = rw (eq_refl id) refl; makes = here }
      | inr later ↦
          let e = scan-Entry f other m t u.1 later in
          record {
            id = e.id;
            seen = e.seen;
            found = ground (arith, eq_iff id e.id, e.found, u.0);
            makes = e.makes;
          }
    ]

pub Entry-scan :
    (f : Maker) (other m : Dict Seen) (t : Toast) (id : String) (k : Seen)
    → lookup id m ≡ some k
    → In t (f id k (lookup id other))
    → In t (scan f other m)
unfolding scan lookup
Entry-scan f other [] t id k e h = cc
Entry-scan f other ((j, v) ∷ m) t id k e h = elim (Bool-cases (str_eq j id)) [
  | inl same ↦
      let is_id : j ≡ id = (eq_iff j id).0 same in
      let is_k : v ≡ k = ground arith in
      In-left t (f j v (lookup j other)) (scan f other m) (
        subst (λ x. In t (f x v (lookup x other))) (sym is_id)
          (subst (λ w. In t (f id w (lookup id other))) (sym is_k) h))
  | inr other_id ↦
      In-right t (f j v (lookup j other)) (scan f other m)
        (Entry-scan f other m t id k (ground arith) h)
]
