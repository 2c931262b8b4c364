-- ===== src/Worker/Gate.antt =====
-- Who reaches the Durable Object through worker/src/index.js.
use Prim.Native.String.{◌++◌ as concat}
use popfleet.Base.{
  ℕ, String, true, false, List, [], ◌∷◌, str_eq, ◌≡◌, ◌≢◌, ◌↔◌, ◌⊎◌, inl, inr, refl, sym, ap, ◌∙◌,
  arith, eq_iff, Bool-cases, Option-cases,
}
use popfleet.Routes.{strip, starts_with}
use popfleet.Routes.Laws.{clash, strip-clash, strip-eq, strip-concat}
use popfleet.Worker.{
  Env, HttpRequest, forwards, or_empty, bytes_eq, is_websocket, is_socket_path, fetch_socket,
  bearer_fits, admin_ok, fetch_admin, fetch,
}

bytes_eq_iff : (xs ys : List ℕ) → (bytes_eq xs ys ≡ true) ↔ (xs ≡ ys)
unfolding bytes_eq
bytes_eq_iff [] [] = (λ h. refl, λ h. refl)
bytes_eq_iff [] (y ∷ ys) = (λ h. cc, λ h. cc)
bytes_eq_iff (x ∷ xs) [] = (λ h. cc, λ h. cc)
bytes_eq_iff (x ∷ xs) (y ∷ ys) = ground (arith, bytes_eq_iff xs ys)

module _ (digest : String → List ℕ) where
  -- The header is "Bearer " with a text whose sum is that of the secret, which is not empty.
  pub record Admitted (r : HttpRequest) (env : Env) : Type 0 where
    pub given : String
    pub header : or_empty r.authorization ≡ concat "Bearer " given
    pub same_sum : digest given ≡ digest (or_empty env.admin_token)
    pub set : or_empty env.admin_token ≢ ""

  admin_ok-Admitted :
      (r : HttpRequest) (env : Env)
      → admin_ok digest r env ≡ true
      → or_empty env.admin_token ≢ ""
      → Admitted r env
  unfolding admin_ok
  admin_ok-Admitted r env h set = elim (Option-cases (strip "Bearer " (or_empty r.authorization))) [
    | inl other ↦ absurd (ground arith)
    | inr (given, e) ↦ record {
      given = given;
      header = strip-eq "Bearer " (or_empty r.authorization) given e;
      same_sum = (bytes_eq_iff _ _).0 (ap (bearer_fits digest env) (sym e) ∙ h);
      set = set;
    }
  ]

  admin_ok-of : (r : HttpRequest) (env : Env) → Admitted r env → admin_ok digest r env ≡ true
  unfolding admin_ok
  admin_ok-of r env a =
      ap (λ h. bearer_fits digest env (strip "Bearer " h)) a.header
      ∙ ap (bearer_fits digest env) (strip-concat "Bearer " a.given)
      ∙ (bytes_eq_iff (digest a.given) (digest (or_empty env.admin_token))).1 a.same_sum

  fetch_admin_iff :
      (r : HttpRequest) (env : Env) → (fetch_admin digest r env ≡ forwards) ↔ Admitted r env
  fetch_admin_iff r env = (
    λ h.
        let set : or_empty env.admin_token ≢ "" =
          λ e. ground (arith, eq_iff (or_empty env.admin_token) "") in
        admin_ok-Admitted r env (ground (arith, eq_iff (or_empty env.admin_token) "")) set,
    λ a.
        let good = admin_ok-of r env a in
        let set = a.set in ground (arith, eq_iff (or_empty env.admin_token) ""),
  )

pub not-literal :
    (p path lit : String)
    → starts_with p lit ≡ false
    → starts_with p path ≡ true
    → str_eq path lit ≡ false
not-literal p path lit other h = elim (Bool-cases (str_eq path lit)) [
  | inl e ↦ cc (h, other, ap (starts_with p) ((eq_iff path lit).0 e))
  | inr e ↦ e
]

-- The kinds of path exclude one another.
prefix-not_socket :
    (p path : String)
    → clash p "/ws/term/" ≡ true
    → starts_with p "/ws/agent" ≡ false
    → starts_with p path ≡ true
    → is_socket_path path ≡ false
prefix-not_socket p path differ other h =
    rw (not-literal p path "/ws/agent" other h) (strip-clash p "/ws/term/" path differ h)

module _ (digest : String → List ℕ) (r : HttpRequest) (env : Env) where
  fetch-api : starts_with "/api/" r.path ≡ true → fetch digest r env ≡ fetch_admin digest r env
  unfolding fetch clash starts_with
  fetch-api api =
      let no_health = not-literal "/api/" r.path "/healthz" refl api in
      let no_term = strip-clash "/api/" "/term/" r.path refl api in
      let no_socket = prefix-not_socket "/api/" r.path refl refl api in
      rw (no_health, no_term, no_socket, api)

  fetch-socket : is_socket_path r.path ≡ true → fetch digest r env ≡ fetch_socket r
  unfolding fetch clash starts_with
  fetch-socket socket = rw (no_health, no_term, socket)
    where
      no_health : str_eq r.path "/healthz" ≡ false
      no_health = elim (Bool-cases (str_eq r.path "/healthz")) [
        | inl e ↦ cc (socket, ap is_socket_path ((eq_iff r.path "/healthz").0 e))
        | inr e ↦ e
      ]

      no_term : starts_with "/term/" r.path ≡ false
      no_term = elim (Bool-cases (starts_with "/term/" r.path)) [
        | inl e ↦ cc (socket, prefix-not_socket "/term/" r.path refl refl e)
        | inr e ↦ e
      ]

  fetch-neither :
      is_socket_path r.path ≡ false
      → starts_with "/api/" r.path ≡ false
      → fetch digest r env ≢ forwards
  unfolding fetch
  fetch-neither no_socket no_api h = ground arith

  fetch_socket_iff : (fetch_socket r ≡ forwards) ↔ (is_websocket r.upgrade ≡ true)
  fetch_socket_iff = ground arith

-- A request reaches the Durable Object exactly in two ways: on one of the two WebSocket paths with
-- the header Upgrade: websocket, or on a path below /api/ with the admin secret set and a bearer
-- text whose digest is the secret's.
pub fetch_forwards_iff :
    (digest : String → List ℕ) (r : HttpRequest) (env : Env)
    → (fetch digest r env ≡ forwards) ↔ (
        ((is_socket_path r.path ≡ true) × (is_websocket r.upgrade ≡ true))
        ⊎ ((starts_with "/api/" r.path ≡ true) × Admitted digest r env))
fetch_forwards_iff digest r env = (to, from)
  where
    to :
        fetch digest r env ≡ forwards
        → ((is_socket_path r.path ≡ true) × (is_websocket r.upgrade ≡ true))
          ⊎ ((starts_with "/api/" r.path ≡ true) × Admitted digest r env)
    to h = elim (Bool-cases (is_socket_path r.path)) [
      | inl socket ↦
          inl
            (socket, (fetch_socket_iff digest r env).0 (sym (fetch-socket digest r env socket) ∙ h))
      | inr no_socket ↦ elim (Bool-cases (starts_with "/api/" r.path)) [
        | inl api ↦
            inr (api, (fetch_admin_iff digest r env).0 (sym (fetch-api digest r env api) ∙ h))
        | inr no_api ↦ absurd (fetch-neither digest r env no_socket no_api h)
      ]
    ]

    from :
        ((is_socket_path r.path ≡ true) × (is_websocket r.upgrade ≡ true))
          ⊎ ((starts_with "/api/" r.path ≡ true) × Admitted digest r env)
        → fetch digest r env ≡ forwards
    from (inl (socket, upgrade)) =
        fetch-socket digest r env socket ∙ (fetch_socket_iff digest r env).1 upgrade
    from (inr (api, a)) = fetch-api digest r env api ∙ (fetch_admin_iff digest r env).1 a
