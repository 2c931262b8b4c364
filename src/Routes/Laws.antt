-- ===== src/Routes/Laws.antt =====
-- What the tests of Routes accept.
use Prim.Native.Char.{code}
use Prim.Native.String.{[] as empty_text, ◌∷◌ as cons_text, ◌++◌ as concat}
use text.Mathlib.TextLemmas.{nil-append, cons-append, append-nil}
use text.Mathlib.TextEquality.{Char-path}
use popfleet.Base.{
  String, Bool, true, false, not, ◌||◌, some, ◌==◌, str_eq, eq_iff, Bool-cases, Option-cases, inl,
  inr, ◌≡◌, ◌≢◌, ◌↔◌, refl, sym, ap, subst, ◌∙◌, arith,
}
use popfleet.Routes.{
  strip, starts_with, segment, after_segment, id_before, match_term, match_machine,
}

-- Two prefixes that differ at some place.
unfoldable pub clash : String → String → Bool
clash empty_text q = false
clash (cons_text c p) empty_text = false
clash (cons_text c p) (cons_text d q) = not (code c == code d) || clash p q

pub strip-clash :
    (p q s : String) → clash p q ≡ true → starts_with p s ≡ true → starts_with q s ≡ false
unfolding clash strip starts_with
strip-clash empty_text q s c h = cc
strip-clash (cons_text a p) empty_text s c h = cc
strip-clash (cons_text a p) (cons_text b q) empty_text c h = cc
strip-clash (cons_text a p) (cons_text b q) (cons_text d s) c h = ground (arith, strip-clash p q s)

pub strip-concat : (p s : String) → strip p (concat p s) ≡ some s
unfolding strip
strip-concat empty_text s = ap some (nil-append s)
strip-concat (cons_text c p) s = rw (cons-append c p s) (ground (arith, strip-concat p s))

pub strip-eq : (p s r : String) → strip p s ≡ some r → s ≡ concat p r
unfolding strip
strip-eq empty_text s r h = let e : s ≡ r = ground arith in e ∙ sym (nil-append r)
strip-eq (cons_text c p) empty_text r h = cc
strip-eq (cons_text c p) (cons_text d s) r h = elim (Bool-cases (code c == code d)) [
  | inl alike ↦
      ap (cons_text d) (strip-eq p s r (ground arith))
      ∙ ap (λ x. cons_text x (concat p r)) (sym (Char-path c d (ground arith)))
      ∙ sym (cons-append c p r)
  | inr differ ↦ absurd (ground arith)
]

-- A path segment as the routes take it.
abbrev pub NoSlash : String → Type 0
NoSlash empty_text = Unit
NoSlash (cons_text c s) = (code c ≢ b'/') × NoSlash s

segment-NoSlash : (s : String) → NoSlash (segment s)
unfolding segment
segment-NoSlash empty_text = tt
segment-NoSlash (cons_text c s) = elim (Bool-cases (code c == b'/')) [
  | inl slash ↦ rw slash tt
  | inr other ↦ rw other (ground arith, segment-NoSlash s)
]

segment-concat : (s : String) → concat (segment s) (after_segment s) ≡ s
unfolding segment after_segment
segment-concat empty_text = refl
segment-concat (cons_text c s) = elim (Bool-cases (code c == b'/')) [
  | inl slash ↦ rw slash (nil-append (cons_text c s))
  | inr other ↦
      rw other (cons-append c (segment s) (after_segment s) ∙ ap (cons_text c) (segment-concat s))
]

segment-of :
    (s t : String)
    → NoSlash s
    → (segment (concat s (cons_text "/" t)) ≡ s)
      × (after_segment (concat s (cons_text "/" t)) ≡ cons_text "/" t)
unfolding segment after_segment
segment-of empty_text t h = rw (nil-append (cons_text "/" t)) (refl, refl)
segment-of (cons_text c s) t h =
    let other : (code c == b'/') ≡ false = ground arith in
    let (whole, tail) = segment-of s t h.1 in
    rw (cons-append c s (cons_text "/" t), other) (ap (cons_text c) whole, tail)

segment-all : (s : String) → NoSlash s → (segment s ≡ s) × (after_segment s ≡ "")
unfolding segment after_segment
segment-all empty_text h = (refl, refl)
segment-all (cons_text c s) h =
    let other : (code c == b'/') ≡ false = ground arith in
    let (whole, tail) = segment-all s h.1 in rw other (ap (cons_text c) whole, tail)

-- The two routes end in "/term" and in nothing.
id_before-eq :
    (tail r mid : String)
    → id_before tail (some r) ≡ some mid
    → (r ≡ concat mid tail) × NoSlash mid × (mid ≢ "")
unfolding id_before
id_before-eq tail r mid h = elim (Bool-cases (str_eq (segment r) "")) [
  | inl empty ↦ absurd (ground arith)
  | inr full ↦ elim (Bool-cases (str_eq (after_segment r) tail)) [
    | inr differ ↦ absurd (ground arith)
    | inl ends ↦
        let is_mid : segment r ≡ mid = ground arith in
        (
          sym (segment-concat r)
              ∙ ap (λ x. concat x (after_segment r)) is_mid
              ∙ ap (concat mid) ((eq_iff (after_segment r) tail).0 ends),
          subst NoSlash is_mid (segment-NoSlash r),
          λ e. ground (arith, eq_iff (segment r) ""),
        )
  ]
]

id_before-of :
    (tail r mid : String)
    → segment r ≡ mid
    → after_segment r ≡ tail
    → mid ≢ ""
    → id_before tail (some r) ≡ some mid
unfolding id_before
id_before-of tail r mid e f h = ground (arith, eq_iff (segment r) "", eq_iff (after_segment r) tail)

id_before-route :
    (tail path mid : String)
    → id_before tail (strip "/api/machines/" path) ≡ some mid
    → (path ≡ concat "/api/machines/" (concat mid tail)) × NoSlash mid × (mid ≢ "")
unfolding id_before
id_before-route tail path mid h = elim (Option-cases (strip "/api/machines/" path)) [
  | inl other ↦ absurd (ground arith)
  | inr (r, e) ↦
      let (is_r, plain, full) = id_before-eq tail r mid (ap (id_before tail) (sym e) ∙ h) in
      (strip-eq "/api/machines/" path r e ∙ ap (concat "/api/machines/") is_r, plain, full)
]

-- The terminal route is taken exactly for /api/machines/{id}/term, with an id that is not empty and
-- holds no slash, and it passes this id on.
pub match_term_iff :
    (path mid : String)
    → (match_term path ≡ some mid)
      ↔ ((path ≡ concat "/api/machines/" (concat mid "/term")) × NoSlash mid × (mid ≢ ""))
unfolding match_term
match_term_iff path mid = (
  λ h. id_before-route "/term" path mid h,
  λ (is_path, plain, full).
      let (whole, tail) = segment-of mid "term" plain in
      ap match_term is_path
      ∙ ap (id_before "/term") (strip-concat "/api/machines/" (concat mid "/term"))
      ∙ id_before-of "/term" (concat mid "/term") mid whole tail full,
)

-- The revocation route is taken exactly for /api/machines/{id}, with an id that is not empty and holds
-- no slash, and it passes this id on.
pub match_machine_iff :
    (path mid : String)
    → (match_machine path ≡ some mid)
      ↔ ((path ≡ concat "/api/machines/" mid) × NoSlash mid × (mid ≢ ""))
unfolding match_machine
match_machine_iff path mid = (
  λ h.
      let (is_path, plain, full) = id_before-route "" path mid h in
      (is_path ∙ ap (concat "/api/machines/") (append-nil mid), plain, full),
  λ (is_path, plain, full).
      let (whole, tail) = segment-all mid plain in
      ap match_machine is_path
      ∙ ap (id_before "") (strip-concat "/api/machines/" mid)
      ∙ id_before-of "" mid mid whole tail full,
)
