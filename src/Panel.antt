-- ===== src/Panel.antt =====
-- The panel page, worker/public/index.js: what it keeps, what it asks the user, and its requests.
-- Children: the age of a time, the list of machines with its toasts, what the buttons do, and what the
-- requests can carry and reach.
pub mod Age
pub mod Machines
pub mod Actions
pub mod Privacy
pub mod Access
use Prim.Native.String.{◌++◌ as concat}
use popfleet.Base.{
  ℕ, String, Bool, true, false, ◌&&◌, ◌||◌, List, [], ◌∷◌, ◌++◌, Option, none, some, ◌==◌, ltb,
  if◌then◌else◌, str_eq,
}
use popfleet.Json.{Json}
use popfleet.Dict.{Dict}

-- What the page takes from the browser: `trim`, a number or another value as a text, `Date.parse` in
-- milliseconds (`none` for NaN), and `location.origin`.
pub record Surface : Type 0 where
  pub trim : String → String
  pub show : ℕ → String
  pub to_text : Option Json → String
  pub parse_date : String → Option ℕ
  pub origin : String

-- An entry of `known` and `seen`.
pub record Seen : Type 0 where
  pub name : Json
  pub online : Bool

pub record Toast : Type 0 where
  pub msg : String
  pub cls : String

-- A row of the table; `can_open` is whether its Terminal button is enabled.
pub record View : Type 0 where
  pub dot : String
  pub label : String
  pub last : String
  pub version : String
  pub sessions : String
  pub can_open : Bool

-- The three texts of the enrollment dialog, and which of them a copy button is for.
pub record Blocks : Type 0 where
  pub shell : String
  pub podman : String
  pub python : String

pub data Block : Type 0 where
  shell_block podman_block python_block : Block

-- A request; `body` is the name in it, if it has a body.
pub record Call : Type 0 where
  pub verb : String
  pub path : String
  pub authorization : String
  pub body : Option String

-- `stored_key` is popfleet_e2e of localStorage and `admin` popfleet_admin of sessionStorage, "" where
-- there is none. `answers` is what the user will answer to prompts, `none` to cancel; after the last the
-- user cancels. `toasts`, `calls` and `windows` grow as they are shown, made and opened.
pub record Panel : Type 0 where
  pub e2e : Bool
  pub stored_key : String
  pub admin : String
  pub answers : List (Option String)
  pub known : Option (Dict Seen)
  pub views : List View
  pub toasts : List Toast
  pub calls : List Call
  pub windows : List String
  pub blocks : Option Blocks
  pub dialog : Bool
  pub clipboard : Option String

abbrev pub or_blank : Option String → String
or_blank none = ""
or_blank (some t) = t

abbrev pub next_answer : List (Option String) → Option String
next_answer [] = none
next_answer (a ∷ as') = a

abbrev pub later_answers : List (Option String) → List (Option String)
later_answers [] = []
later_answers (a ∷ as') = as'

-- The state after a prompt.
abbrev pub answered : Panel → Panel
answered p = record p { answers = later_answers p.answers }

-- `(prompt(...) || "").trim()`.
abbrev pub prompted_key : Surface → Panel → String
prompted_key sf p = sf.trim (or_blank (next_answer p.answers))

-- `e2eKey`.
unfoldable pub e2e_key : Surface → Panel → String × Panel
e2e_key sf p =
    let k = prompted_key sf p in
    if str_eq p.stored_key ""
    then (if str_eq k ""
        then ("$POPFLEET_E2E_KEY", answered p)
        else (k, record (answered p) { stored_key = k }))
    else (p.stored_key, p)

-- `adminToken`, whose result is `admin` of the state after it.
unfoldable pub admin_token : Surface → Bool → Panel → Panel
admin_token sf force p =
    let t = or_blank (next_answer p.answers) in
    if str_eq p.admin "" || force
    then (if str_eq t "" then answered p else record (answered p) { admin = sf.trim t })
    else p

-- The answer to a request; `body` is `none` where it is no JSON.
pub record Reply {ℓ} (A : Type ℓ) : Type ℓ where
  pub status : ℕ
  pub body : Option A

-- What `api` returns, `null` for 204, or the error that it throws.
pub data Outcome {ℓ} (A : Type ℓ) : Type ℓ where
  value : A → Outcome A
  nothing : Outcome A
  failed : String → Outcome A

-- `r.ok` is a status from 200 to 299.
abbrev pub is_ok : ℕ → Bool
is_ok status = ltb 199 status && ltb status 300

module _ {ℓ} {A : Type ℓ} where
  abbrev pub parsed_or_failed : Option A → Outcome A
  parsed_or_failed none = failed "invalid JSON"
  parsed_or_failed (some a) = value a

  abbrev pub outcome_of : Surface → String → String → Reply A → Outcome A
  outcome_of sf verb path r =
      if is_ok r.status
      then (if r.status == 204 then nothing else parsed_or_failed r.body)
      else failed (concat verb (concat " " (concat path (concat ": " (sf.show r.status)))))

  -- Without an answer `fetch` rejects.
  abbrev pub received : Surface → String → String → Option (Reply A) → Panel → Outcome A × Panel
  received sf verb path none p = (failed "network", p)
  received sf verb path (some r) p =
      if r.status == 401
      then (failed "unauthorized", admin_token sf true (record p { admin = "" }))
      else (outcome_of sf verb path r, p)

  unfoldable pub api :
      Surface → String → String → Option String → Option (Reply A) → Panel → Outcome A × Panel
  unfolding admin_token
  api sf verb path body reply p =
      let signed = admin_token sf false p in
      received sf verb path reply (record signed {
        calls =
            signed.calls
            ++ record {
              verb = verb;
              path = path;
              authorization = concat "Bearer " signed.admin;
              body = body;
            }
              ∷ [];
      })
