-- ===== src/Tests/Terminal.antt =====
-- The terminal page with a toy codec and a toy cipher.
use Prim.Native.Char.{code}
use Prim.Native.String.{[] as empty_text, ◌∷◌ as cons_text}
use popfleet.Base.{
  false, ℕ, zero, suc, ◌+◌, String, true, List, [], ◌∷◌, Option, none, some, ◌==◌, if◌then◌else◌,
  length, ◌≡◌, refl, ap, ◌∙◌, arith,
}
use popfleet.Json.{bool, truthy, Json, str, obj, field, end, prop, tag_of}
use popfleet.Terminal.{Browser, Banner, Page, input, resize, opened, seal, handle_frame}
use popfleet.Terminal.Session.{
  opens, arrives, types, disconnects, page_run, init, new_page, ConfigReply,
}
use popfleet.Terminal.Probe.{not_ok, failed_probe_sends_plaintext}
use popfleet.Terminal.Sending.{init-IsPrivate, IsPrivate}
use popfleet.Terminal.Banners.{page_run-first_banner}
use popfleet.Terminal.Sealed.{handle_frame-sealed, page_run-Opened, Opened}

-- A number is written as so many ones and a zero.
pub ones : ℕ → String → String
ones zero s = cons_text "0" s
ones (suc n) s = cons_text "1" (ones n s)

pub write : List ℕ → String
unfolding ones
write [] = empty_text
write (n ∷ ns) = ones n (write ns)

pub read : String → ℕ → List ℕ
read empty_text n = []
read (cons_text c s) n =
    let more = read s (suc n) in let next = read s 0 in if code c == b'1' then more else n ∷ next

read-ones : (n m : ℕ) (s : String) → read (ones n s) m ≡ (n + m) ∷ read s 0
unfolding read ones
read-ones zero m s = ap (λ k. k ∷ read s 0) (omega arith)
read-ones (suc n) m s = read-ones n (suc m) s ∙ ap (λ k. k ∷ read s 0) (omega arith)

pub read-write : (ns : List ℕ) → read (write ns) 0 ≡ ns
unfolding read write
read-write [] = refl
read-write (n ∷ ns) =
    read-ones n 0 (write ns)
    ∙ ap (λ k. k ∷ read (write ns) 0) (omega arith)
    ∙ ap (λ l. n ∷ l) (read-write ns)

abbrev pub opens_with : ℕ → List ℕ → Option (List ℕ)
opens_with k [] = none
opens_with k (j ∷ xs) = if j == k then some xs else none

abbrev pub text_of : Option Json → String
text_of (some (str s)) = s
text_of _ = ""

abbrev pub browser : Browser ℕ
browser = record {
  atob = λ s. some (read s 0);
  btoa = write;
  derive_key = λ raw salt info. length raw;
  encrypt = λ k iv xs. k ∷ xs;
  decrypt = λ k iv xs. opens_with k xs;
  to_text = text_of;
}

pub opens_own : (k : ℕ) (xs : List ℕ) → opens_with k (k ∷ xs) ≡ some xs
opens_own k xs = ground arith

abbrev pub nonce : List ℕ
nonce = 0 ∷ 1 ∷ 2 ∷ 3 ∷ 4 ∷ 5 ∷ 6 ∷ 7 ∷ 8 ∷ 9 ∷ 10 ∷ 11 ∷ []

abbrev pub page : Page ℕ
page = record {
  shown = none;
  aead = some 32;
  stored = "fk";
  written = [];
  socket = opened;
  sent = [];
}

abbrev sealed : Json
sealed =
    obj
      (field "t" (str "out") (field "data" (str (seal browser "s1" 32 nonce (104 ∷ 105 ∷ []))) end))

handle_frame-sealed_example :
    (handle_frame browser "s1" sealed [] page).written ≡ (104 ∷ 105 ∷ []) ∷ []
unfolding tag_of prop
handle_frame-sealed_example =
    handle_frame-sealed browser "s1" 32 nonce (104 ∷ 105 ∷ []) sealed [] page
      (λ xs. ap some (read-write xs)) (λ iv xs. opens_own 32 xs) (λ s. refl) refl refl refl refl
      refl

page_run-Opened_example :
    Opened browser "s1" 32 []
      (page_run browser "s1" (arrives sealed [] ∷ disconnects ∷ []) page).written
page_run-Opened_example =
    page_run-Opened browser "s1" 32 (arrives sealed [] ∷ disconnects ∷ []) page refl

abbrev ended : Banner
ended = record { text = "session ended"; clean = true }

page_run-first_banner_example :
    (page_run browser "s1"
      (arrives sealed [] ∷ disconnects ∷ [])
      (record page { shown = some ended })).shown
    ≡ some ended
page_run-first_banner_example =
    page_run-first_banner browser "s1" (arrives sealed [] ∷ disconnects ∷ []) ended
      (record page { shown = some ended }) refl

abbrev v1e : Json
v1e = obj (field "e2e" (bool true) end)

-- The user gives a key that is no base64 of 32 bytes, and then one that is.
init-IsPrivate_example : IsPrivate browser "s1" (
    page_run browser "s1" (opens 80 24 ∷ types nonce (108 ∷ []) ∷ disconnects ∷ []) (
      init browser "s1"
        (some (record { ok = true; body = some v1e }))
        ("0" ∷ write nonce ∷ [])
        (new_page ℕ "")))
unfolding truthy prop
init-IsPrivate_example =
    init-IsPrivate browser "s1" v1e ("0" ∷ write nonce ∷ []) ""
      (opens 80 24 ∷ types nonce (108 ∷ []) ∷ disconnects ∷ []) refl

abbrev bad_gateway : ConfigReply
bad_gateway = record { ok = false; body = none }

failed_probe_sends_plaintext_example :
    (page_run browser "s1"
      (opens 80 24 ∷ types nonce (108 ∷ []) ∷ [])
      (init browser "s1" (some bad_gateway) [] (new_page ℕ "fk"))).sent
    ≡ resize 80 24 ∷ input (write (108 ∷ [])) ∷ []
failed_probe_sends_plaintext_example =
    failed_probe_sends_plaintext browser "s1" (some bad_gateway) [] "fk" 80 24 nonce (108 ∷ [])
      (not_ok none)
