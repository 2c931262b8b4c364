-- ===== src/Terminal/Address.antt =====
-- The session that the terminal page, worker/public/term.js, takes from its address.
use Prim.Native.Char.{code}
use Prim.Native.String.{[] as empty_text, ◌∷◌ as cons_text, ◌++◌ as concat}
use text.Mathlib.TextLemmas.{nil-append, cons-append}
use popfleet.Base.{String, Bool, true, false, ◌||◌, ◌==◌, if◌then◌else◌, ◌≡◌, refl, arith}
use popfleet.Routes.Laws.{NoSlash}

unfoldable pub has_slash : String → Bool
has_slash empty_text = false
has_slash (cons_text c s) = code c == b'/' || has_slash s

-- `path.split("/").pop()`.
unfoldable pub last_segment : String → String
unfolding has_slash
last_segment empty_text = ""
last_segment (cons_text c s) =
    let rest = last_segment s in if code c == b'/' || has_slash s then rest else cons_text c s

-- The path of the page's WebSocket.
abbrev pub socket_path : String → String
socket_path pathname = concat "/ws/term/" (last_segment pathname)

has_slash-NoSlash : (s : String) → NoSlash s → has_slash s ≡ false
unfolding has_slash
has_slash-NoSlash empty_text h = refl
has_slash-NoSlash (cons_text c s) h = ground (arith, has_slash-NoSlash s h.1)

last_segment-NoSlash : (s : String) → NoSlash s → last_segment s ≡ s
unfolding last_segment
last_segment-NoSlash empty_text h = refl
last_segment-NoSlash (cons_text c s) h = ground (arith, has_slash-NoSlash s h.1)

-- Whether a text ends in a slash.
unfoldable pub ends_slash : String → Bool
ends_slash empty_text = false
ends_slash (cons_text c empty_text) = code c == b'/'
ends_slash (cons_text c (cons_text d p)) = ends_slash (cons_text d p)

has_slash-concat : (p s : String) → ends_slash p ≡ true → has_slash (concat p s) ≡ true
unfolding has_slash ends_slash
has_slash-concat empty_text s h = cc h
has_slash-concat (cons_text c empty_text) s h = rw (cons-append c empty_text s) (ground (arith, h))
has_slash-concat (cons_text c (cons_text d p)) s h =
    rw (cons-append c (cons_text d p) s) (ground (arith, has_slash-concat (cons_text d p) s h))

-- After a path that ends in a slash the last segment is what follows it.
pub last_segment-concat :
    (p s : String) → ends_slash p ≡ true → NoSlash s → last_segment (concat p s) ≡ s
unfolding last_segment ends_slash
last_segment-concat empty_text s h plain = cc h
last_segment-concat (cons_text c empty_text) s h plain =
    rw (cons-append c empty_text s, nil-append s, h) (last_segment-NoSlash s plain)
last_segment-concat (cons_text c (cons_text d p)) s h plain = rw (cons-append c (cons_text d p) s) (
    ground
      (arith, has_slash-concat (cons_text d p) s h, last_segment-concat (cons_text d p) s h plain))
