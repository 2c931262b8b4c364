-- ===== src/Fleet/Runtime/Hex.antt =====
-- The hexadecimal texts of worker/src/fleet.js tell byte strings apart.
use Prim.Native.Char.{Char, code}
use Prim.Native.String.{count}
use text.Mathlib.TextLemmas.{
  length-nil, length-cons, head-eq_of_cons-eq, tail-eq_of_cons-eq, cons-ne-nil,
}
use popfleet.Base.{
  not, ◌≢◌, ℕ, zero, suc, ◌+◌, ◌*◌, ◌/◌, ◌%◌, ◌<◌, ◌==◌, Bool, true, ◌&&◌, List, [], ◌∷◌, All,
  length, ◌≡◌, refl, sym, ap, ◌∙◌, arith, ltb, ◌-◌, if◌then◌else◌,
}
use popfleet.Fleet.Runtime.{to_hex, digits, nth}
use popfleet.Routes.Laws.{NoSlash}

-- The value of a digit.
unhex : ℕ → ℕ
unhex c = if ltb c 58 then c - 48 else c - 87

-- The characters stand for one number after the other.
counts_up : ℕ → List Char → Bool
unfolding unhex
counts_up n [] = true
counts_up n (c ∷ cs) = unhex (code c) == n && counts_up (suc n) cs

unhex-nth :
    (cs : List Char) (n d : ℕ)
    → counts_up n cs ≡ true
    → d < length cs
    → unhex (code (nth cs d)) ≡ n + d
unfolding counts_up
unhex-nth [] n d h k = absurd (omega arith)
unhex-nth (c ∷ cs) n zero h k = ground arith
unhex-nth (c ∷ cs) n (suc d) h k = ground (arith, unhex-nth cs (suc n) d)

unhex-digit : (d : ℕ) → d < 16 → unhex (code (nth digits d)) ≡ d
unfolding counts_up unhex
unhex-digit d h = omega (arith, unhex-nth digits 0 d refl h)

digit-injective : (d e : ℕ) → d < 16 → e < 16 → nth digits d ≡ nth digits e → d ≡ e
digit-injective d e h k p = sym (unhex-digit d h) ∙ ap (λ c. unhex (code c)) p ∙ unhex-digit e k

-- Lists of bytes with the same hexadecimal text are the same.
pub to_hex-injective :
    (xs ys : List ℕ)
    → All (λ b. b < 256) xs
    → All (λ b. b < 256) ys
    → to_hex xs ≡ to_hex ys
    → xs ≡ ys
unfolding to_hex
to_hex-injective [] [] h k e = refl
to_hex-injective [] (y ∷ ys) h k e = absurd (cons-ne-nil _ _ (sym e))
to_hex-injective (x ∷ xs) [] h k e = absurd (cons-ne-nil _ _ e)
to_hex-injective (x ∷ xs) (y ∷ ys) h k e =
    let high =
      digit-injective (x / 16) (y / 16) (omega arith) (omega arith) (head-eq_of_cons-eq e) in
    let rest = tail-eq_of_cons-eq e in
    let low =
      digit-injective (x % 16) (y % 16) (omega arith) (omega arith) (head-eq_of_cons-eq rest) in
    let same : x ≡ y = omega arith in
    cc (same, to_hex-injective xs ys h.1 k.1 (tail-eq_of_cons-eq rest))

-- A text has two digits for each byte.
pub count-to_hex : (xs : List ℕ) → count (to_hex xs) ≡ 2 * length xs
unfolding to_hex
count-to_hex [] = length-nil ∙ omega arith
count-to_hex (x ∷ xs) = length-cons _ _ ∙ ap suc (length-cons _ _) ∙ omega (arith, count-to_hex xs)

-- A hexadecimal text is one segment of a path.
no_slash : List Char → Bool
no_slash [] = true
no_slash (c ∷ cs) = not (code c == b'/') && no_slash cs

nth-no_slash : (cs : List Char) (d : ℕ) → no_slash cs ≡ true → code (nth cs d) ≢ b'/'
unfolding no_slash
nth-no_slash [] d h = λ e. omega (arith, e)
nth-no_slash (c ∷ cs) zero h = ground arith
nth-no_slash (c ∷ cs) (suc d) h = nth-no_slash cs d (ground arith)

pub to_hex-NoSlash : (bs : List ℕ) → NoSlash (to_hex bs)
unfolding to_hex no_slash
to_hex-NoSlash [] = tt
to_hex-NoSlash (b ∷ bs) =
    (nth-no_slash digits (b / 16) refl, (nth-no_slash digits (b % 16) refl, to_hex-NoSlash bs))
