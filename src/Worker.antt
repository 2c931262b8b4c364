-- ===== src/Worker.antt =====
-- The Worker's entry, worker/src/index.js: the admin check and the routing in front of the Durable
-- Object. `ASSETS` and the object's stub are named by what is asked of them.
pub mod Gate
use popfleet.Base.{
  ℕ, String, Bool, true, false, not, ◌&&◌, ◌||◌, List, [], ◌∷◌, Option, none, some, str_eq, ◌==◌,
  if◌then◌else◌,
}
use popfleet.Routes.{strip, starts_with}

-- `admin_token` is `env.POPFLEET_ADMIN_TOKEN`, `none` where it is not set.
pub record Env : Type 0 where
  pub admin_token : Option String

pub record HttpRequest : Type 0 where
  pub path : String
  pub upgrade : Option String
  pub authorization : Option String

-- `answers` is a response of the Worker's own, `serves` the asset at a path, `forwards` the
-- Durable Object's answer to the request.
pub data Answer : Type 0 where
  answers : (status : ℕ) → String → Answer
  serves : (path : String) → Answer
  forwards : Answer

abbrev pub or_empty : Option String → String
or_empty none = ""
or_empty (some t) = t

-- `crypto.subtle.timingSafeEqual` on two sums.
unfoldable pub bytes_eq : List ℕ → List ℕ → Bool
bytes_eq [] [] = true
bytes_eq (a ∷ as') (b ∷ bs) = a == b && bytes_eq as' bs
bytes_eq _ _ = false

abbrev pub is_websocket : Option String → Bool
is_websocket none = false
is_websocket (some u) = str_eq u "websocket"

abbrev pub is_socket_path : String → Bool
is_socket_path path = str_eq path "/ws/agent" || starts_with "/ws/term/" path

abbrev pub fetch_socket : HttpRequest → Answer
fetch_socket r = if is_websocket r.upgrade then forwards else answers 426 "websocket endpoint"

abbrev pub not_set : String
not_set = "POPFLEET_ADMIN_TOKEN secret is not set (wrangler secret put POPFLEET_ADMIN_TOKEN)"

module _ (digest : String → List ℕ) where
  abbrev pub bearer_fits : Env → Option String → Bool
  bearer_fits env none = false
  bearer_fits env (some given) = bytes_eq (digest given) (digest (or_empty env.admin_token))

  -- `adminOK`: the header without "Bearer " is compared with the secret, sum with sum.
  unfoldable pub admin_ok : HttpRequest → Env → Bool
  unfolding strip bytes_eq
  admin_ok r env = bearer_fits env (strip "Bearer " (or_empty r.authorization))

  abbrev pub fetch_admin : HttpRequest → Env → Answer
  fetch_admin r env =
      if str_eq (or_empty env.admin_token) ""
      then answers 500 not_set
      else (if admin_ok r env then forwards else answers 401 "unauthorized")

  -- The default export's `fetch`.
  unfoldable pub fetch : HttpRequest → Env → Answer
  unfolding admin_ok starts_with
  fetch r env =
      if str_eq r.path "/healthz"
      then answers 200 "ok"
      else (if starts_with "/term/" r.path
          then serves "/term"
          else (if is_socket_path r.path
              then fetch_socket r
              else (if starts_with "/api/" r.path then fetch_admin r env else serves r.path)))
