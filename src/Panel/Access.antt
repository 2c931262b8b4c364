-- ===== src/Panel/Access.antt =====
-- A request of the panel page, worker/public/index.js, at the Worker's entry, worker/src/index.js.
use Prim.Native.String.{◌++◌ as concat}
use popfleet.Base.{
  ℕ, String, Bool, true, false, List, [], ◌∷◌, ◌++◌, Option, none, some, str_eq, inl, inr, arith,
  ◌==◌, ◌≡◌, ◌≢◌, ◌↔◌, refl, sym, ap, ◌∙◌, Bool-cases,
}
use popfleet.Routes.{strip, starts_with}
use popfleet.Routes.Laws.{strip-concat}
use popfleet.Worker.{Env, HttpRequest, forwards, or_empty, fetch}
use popfleet.Worker.Gate.{fetch_forwards_iff}
use popfleet.Panel.{Surface, Panel, Call, admin_token, Reply, received, api}

-- A call as the Worker gets it.
abbrev pub request_of : Call → HttpRequest
request_of c = record { path = c.path; upgrade = none; authorization = some c.authorization }

calls-admin_token :
    (sf : Surface) (force : Bool) (p : Panel) → (admin_token sf force p).calls ≡ p.calls
unfolding admin_token
calls-admin_token sf force p = ground arith

calls-received :
    {A : Type 0} (sf : Surface) (verb path : String) (reply : Option (Reply A)) (p : Panel)
    → (received sf verb path reply p).1.calls ≡ p.calls
calls-received sf verb path none p = refl
calls-received sf verb path (some r) p = elim (Bool-cases (r.status == 401)) [
  | inl e ↦ rw e (calls-admin_token sf true (record p { admin = "" }))
  | inr e ↦ rw e refl
]

concat-injective : (before s t : String) → concat before s ≡ concat before t → s ≡ t
concat-injective before s t e =
    let both : some s ≡ some t =
      sym (strip-concat before s) ∙ ap (strip before) e ∙ strip-concat before t in
    ground (arith, both)

-- A page that holds an admin token makes one call, with the token, whatever is answered; below /api/ the
-- Worker passes it to the Durable Object exactly if the admin secret is set and the token's digest is the
-- secret's.
pub panel_request_forwards_iff :
    {A : Type 0} (sf : Surface) (digest : String → List ℕ) (env : Env) (verb path : String)
    (body : Option String) (reply : Option (Reply A)) (p : Panel)
    → str_eq p.admin "" ≡ false
    → starts_with "/api/" path ≡ true
    → let call : Call = record {
      verb = verb;
      path = path;
      authorization = concat "Bearer " p.admin;
      body = body;
    } in
      ((api sf verb path body reply p).1.calls ≡ p.calls ++ call ∷ [])
      × ((fetch digest (request_of call) env ≡ forwards) ↔ (
          (or_empty env.admin_token ≢ "") × (digest p.admin ≡ digest (or_empty env.admin_token))))
unfolding api admin_token
panel_request_forwards_iff sf digest env verb path body reply p held below =
    let call : Call = record {
      verb = verb;
      path = path;
      authorization = concat "Bearer " p.admin;
      body = body;
    } in
    let r = request_of call in
    let gate = fetch_forwards_iff digest r env in
    (
      rw held (calls-received sf verb path reply (record p { calls = p.calls ++ call ∷ [] })),
      (
        λ h. elim (gate.0 h) [
          | inl (socket, upgrade) ↦ cc upgrade
          | inr (api, a) ↦
              (a.set, ap digest (concat-injective "Bearer " p.admin a.given a.header) ∙ a.same_sum)
        ],
        λ h.
            gate.1
              (inr (below, record { given = p.admin; header = refl; same_sum = h.1; set = h.0 })),
      ),
    )
