-- ===== src/Routes.antt =====
-- How the requests of worker/src/fleet.js and worker/src/index.js are told apart by their path.
pub mod Laws
use Prim.Native.Char.{code}
use Prim.Native.String.{[] as empty_text, ◌∷◌ as cons_text}
use popfleet.Base.{
  ◌≡◌, refl, String, Bool, Option, none, some, ◌==◌, str_eq, is_some, if◌then◌else◌,
}

-- What follows a prefix: `startsWith` and `slice` in one.
unfoldable pub strip : String → String → Option String
strip empty_text s = some s
strip (cons_text c p) empty_text = none
strip (cons_text c p) (cons_text d s) =
    let rest = strip p s in if code c == code d then rest else none

unfoldable pub starts_with : String → String → Bool
unfolding strip
starts_with p s = is_some (strip p s)

-- `[^/]+` takes all up to the first slash.
unfoldable pub segment : String → String
segment empty_text = ""
segment (cons_text c s) = let rest = segment s in if code c == b'/' then "" else cons_text c rest

unfoldable pub after_segment : String → String
after_segment empty_text = ""
after_segment (cons_text c s) =
    let rest = after_segment s in if code c == b'/' then cons_text c s else rest

-- `^([^/]+)<tail>$` on what follows "/api/machines/".
unfoldable pub id_before : String → Option String → Option String
unfolding segment after_segment
id_before tail none = none
id_before tail (some r) =
    if str_eq (segment r) ""
    then none
    else (if str_eq (after_segment r) tail then some (segment r) else none)

-- `/^\/api\/machines\/([^/]+)\/term$/` and `/^\/api\/machines\/([^/]+)$/`.
unfoldable pub match_term : String → Option String
unfolding id_before strip
match_term path = id_before "/term" (strip "/api/machines/" path)

unfoldable pub match_machine : String → Option String
unfolding id_before strip
match_machine path = id_before "" (strip "/api/machines/" path)
