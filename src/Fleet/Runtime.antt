-- ===== src/Fleet/Runtime.antt =====
-- What worker/src/fleet.js takes from the platform, as a parameter of the model, and its
-- hexadecimal texts (`randHex`, `sha256hex`) and the `json` conversions made from it.
pub mod Hex
use Prim.Native.Char.{Char}
use Prim.Native.String.{[] as empty_text, ◌∷◌ as cons_text}
use popfleet.Base.{ℕ, zero, suc, ◌/◌, ◌%◌, String, List, [], ◌∷◌, Option, none, some, true, false}
use popfleet.Json.{Json, null, bool, num, str, arr, obj}

-- `digest` gives the bytes of a SHA-256 sum, `parse` is JSON.parse (`none` where it throws),
-- `render` converts a number, an array or an object to a text, and `iso` is the ISO date of a
-- time in milliseconds.
pub record Runtime : Type 0 where
  pub digest : String → List ℕ
  pub parse : String → Option Json
  pub render : Json → String
  pub iso : ℕ → String

abbrev digits : List Char
digits =
    "0" ∷ "1" ∷ "2" ∷ "3" ∷ "4" ∷ "5" ∷ "6" ∷ "7" ∷ "8" ∷ "9" ∷ "a" ∷ "b" ∷ "c" ∷ "d" ∷ "e" ∷ "f"
    ∷ []

abbrev nth : List Char → ℕ → Char
nth [] n = "0"
nth (c ∷ cs) zero = c
nth (c ∷ cs) (suc n) = nth cs n

-- `x.toString(16).padStart(2, "0")` of each byte, joined.
unfoldable pub to_hex : List ℕ → String
to_hex [] = empty_text
to_hex (b ∷ bs) = cons_text (nth digits (b / 16)) (cons_text (nth digits (b % 16)) (to_hex bs))

-- The random bytes are an argument.
unfoldable pub rand_hex : List ℕ → String
unfolding to_hex
rand_hex bytes = to_hex bytes

unfoldable pub sha256hex : Runtime → String → String
unfolding to_hex
sha256hex rt s = to_hex (rt.digest s)

-- A value joined to a text, or encoded as one.
unfoldable pub to_text : Runtime → Option Json → String
to_text rt none = "undefined"
to_text rt (some null) = "null"
to_text rt (some (bool true)) = "true"
to_text rt (some (bool false)) = "false"
to_text rt (some (num n)) = rt.render (num n)
to_text rt (some (str s)) = s
to_text rt (some (arr vs)) = rt.render (arr vs)
to_text rt (some (obj fs)) = rt.render (obj fs)
