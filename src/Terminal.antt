-- ===== src/Terminal.antt =====
-- The terminal page, worker/public/term.js: the key of a session, sealing and opening payloads, the
-- frames that it handles, and the banner. The DOM and the terminal itself are what is shown and
-- written. The events of the page and its socket are in Session.
pub mod Address
pub mod Session
pub mod Banners
pub mod Sealed
pub mod Sending
pub mod Probe
use Prim.Native.String.{◌++◌ as concat}
use popfleet.Base.{
  ℕ, suc, zero, String, Bool, true, false, List, [], ◌∷◌, ◌++◌, Option, none, some, ◌==◌,
  if◌then◌else◌, str_eq, length,
}
use popfleet.Json.{Json, str, prop, tag_of, is_null, or_else}

-- The browser's functions: `atob` and `btoa` on binary strings, which are lists of bytes here (`none`
-- where it throws), HKDF and AES-GCM of `crypto.subtle`, and the conversion of a value to a text.
pub record Browser (Key : Type 0) : Type 0 where
  pub atob : String → Option (List ℕ)
  pub btoa : List ℕ → String
  pub derive_key : (raw : List ℕ) → (salt info : String) → Key
  pub encrypt : Key → (iv : List ℕ) → List ℕ → List ℕ
  pub decrypt : Key → (iv : List ℕ) → List ℕ → Option (List ℕ)
  pub to_text : Option Json → String

pub record Banner : Type 0 where
  pub text : String
  pub clean : Bool

-- `ws` before `init` has made it, and its `readyState` after.
pub data SocketState : Type 0 where
  absent connecting opened closing : SocketState

-- The frames that the page sends.
pub data PageFrame : Type 0 where
  input : (payload : String) → PageFrame
  resize : (cols rows : ℕ) → PageFrame

-- `shown` is set with `ended`; `stored` is the item popfleet_e2e of localStorage, "" if there is none.
pub record Page (Key : Type 0) : Type 0 where
  pub shown : Option Banner
  pub aead : Option Key
  pub stored : String
  pub written : List (List ℕ)
  pub socket : SocketState
  pub sent : List PageFrame

-- `raw.slice(0, n)` and `raw.slice(n)`.
unfoldable pub take : ℕ → List ℕ → List ℕ
take zero xs = []
take (suc n) [] = []
take (suc n) (x ∷ xs) = x ∷ take n xs

unfoldable pub drop : ℕ → List ℕ → List ℕ
drop zero xs = xs
drop (suc n) [] = []
drop (suc n) (x ∷ xs) = drop n xs

-- The first cause wins.
abbrev pub first_banner : Option Banner → Banner → Option Banner
first_banner none b = some b
first_banner (some shown) b = some shown

module _ {Key : Type 0} where
  unfoldable pub banner : String → Bool → Page Key → Page Key
  banner msg clean p = record p {
    shown =
        first_banner p.shown (record {
          text = concat msg " — close this tab or reopen from the panel";
          clean = clean;
        });
  }

  -- `ws.close()` after a payload that does not open.
  unfoldable pub kill : Page Key → Page Key
  unfolding banner
  kill p =
      record (banner "e2e decrypt failed (wrong fleet key or tampered frame) — session killed" false
        (record p { stored = "" })) { socket = closing }

  module _ (br : Browser Key) (sid : String) where
    abbrev pub of_length_32 : Option (List ℕ) → Option (List ℕ)
    of_length_32 none = none
    of_length_32 (some raw) = if length raw == 32 then some raw else none

    abbrev with_key : String → List ℕ → Page Key → Page Key
    with_key b64 raw p = record p {
      aead = some (br.derive_key raw sid "popfleet-v2");
      stored = b64;
    }

    abbrev declined : Page Key → Page Key
    declined p = banner "no fleet key: cannot decrypt this session" false p

    abbrev or_forget : Option (List ℕ) → String → Page Key × Bool → Page Key → Page Key × Bool
    or_forget none b64 again p = again
    or_forget (some raw) b64 again p = (with_key b64 raw p, true)

    -- The prompts of the loop: the user's answers, trimmed, after the last of which the user cancels.
    unfoldable pub prompts : List String → Page Key → Page Key × Bool
    unfolding banner
    prompts [] p = (declined p, false)
    prompts (b64 ∷ answers) p =
        let again = prompts answers (record p { stored = "" }) in
        if str_eq b64 ""
        then (declined p, false)
        else or_forget (of_length_32 (br.atob b64)) b64 again p

    abbrev enable_first : Option Key → List String → Page Key → Page Key × Bool
    enable_first (some k) answers p = (p, true)
    enable_first none answers p =
        if str_eq p.stored ""
        then prompts answers p
        else or_forget (of_length_32 (br.atob p.stored)) p.stored
            (prompts answers (record p { stored = "" })) p

    unfoldable pub enable_e2e : List String → Page Key → Page Key × Bool
    unfolding prompts
    enable_e2e answers p = enable_first p.aead answers p

    -- The nonce is the random bytes that the browser drew.
    unfoldable pub seal : Key → (nonce : List ℕ) → List ℕ → String
    seal k nonce bytes = br.btoa (nonce ++ br.encrypt k nonce bytes)

    abbrev open_raw : Key → Option (List ℕ) → Option (List ℕ)
    open_raw k none = none
    open_raw k (some raw) = br.decrypt k (take 12 raw) (drop 12 raw)

    unfoldable pub unseal : Key → String → Option (List ℕ)
    unfolding take drop
    unseal k wire = open_raw k (br.atob wire)

    abbrev or_same : Option (List ℕ) → Page Key → Page Key
    or_same none p = p
    or_same (some bytes) p = record p { written = p.written ++ bytes ∷ [] }

    abbrev or_killed : Option (List ℕ) → Page Key → Page Key
    or_killed none p = kill p
    or_killed (some bytes) p = record p { written = p.written ++ bytes ∷ [] }

    -- Without a key, what does not decode throws, and this is caught.
    abbrev show_output : Option Key → String → Page Key → Page Key
    show_output (some k) wire p = or_killed (unseal k wire) p
    show_output none wire p = or_same (br.atob wire) p

    -- On null, `m.t` throws, and this is caught.
    unfoldable pub handle_frame : Json → List String → Page Key → Page Key
    unfolding tag_of prop or_else unseal kill banner enable_e2e
    handle_frame m answers p =
        if is_null m
        then p
        else (if str_eq (tag_of m) "e2e"
            then (enable_e2e answers p).0
            else (if str_eq (tag_of m) "out"
                then show_output p.aead (br.to_text (prop m "data")) p
                else (if str_eq (tag_of m) "exit"
                    then banner
                        (concat "session ended (exit " (concat (br.to_text (prop m "code")) ")"))
                        true p
                    else (if str_eq (tag_of m) "err"
                        then banner
                            (br.to_text (some (or_else (prop m "msg") (str "session error")))) false
                            p
                        else p))))
