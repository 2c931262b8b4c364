-- ===== src/Panel/Privacy/Holding.antt =====
-- What worker/public/index.js does on a poll and on its buttons but the add button, with any fleet key.
use popfleet.Base.{
  ℕ, String, Bool, true, false, List, Option, none, some, ◌==◌, ◌||◌, str_eq, Bool-cases, inl, inr,
  ◌≡◌, refl, ap, ◌∙◌,
}
use popfleet.Json.{Json}
use popfleet.Fleet.Api.{Row}
use popfleet.Panel.{
  Surface, Panel, Blocks, or_blank, next_answer, admin_token, Reply, Outcome, value, nothing,
  failed, received, api,
}
use popfleet.Panel.Machines.{render, label}
use popfleet.Panel.Actions.{polled, poll, window_if, open_terminal, revoked, revoke_machine}

-- The texts of the dialog, and what was copied.
abbrev pub Texts : Type 0
Texts = Option Blocks × Option String

-- A page with this key stored and these texts.
abbrev pub holding : String → Texts → Panel → Panel
holding k b p = record p { stored_key = k; blocks = b.0; clipboard = b.1 }

abbrev pub also : {A : Type 0} → String → Texts → A × Panel → A × Panel
also k b (a, p) = (a, holding k b p)

module _ (sf : Surface) (k : String) (b : Texts) where
  pub admin_token-holding :
      (force : Bool) (p : Panel)
      → admin_token sf force (holding k b p) ≡ holding k b (admin_token sf force p)
  unfolding admin_token
  admin_token-holding force p = elim (Bool-cases (str_eq p.admin "" || force)) [
    | inl asks ↦ elim (Bool-cases (str_eq (or_blank (next_answer p.answers)) "")) [
      | inl e ↦ rw (asks, e) refl
      | inr e ↦ rw (asks, e) refl
    ]
    | inr e ↦ rw e refl
  ]

  module _ {A : Type 0} where
    pub received-holding :
        (verb path : String) (reply : Option (Reply A)) (p : Panel)
        → received sf verb path reply (holding k b p) ≡ also k b (received sf verb path reply p)
    received-holding verb path none p = refl
    received-holding verb path (some r) p = elim (Bool-cases (r.status == 401)) [
      | inl e ↦ rw e (
          ap (λ q. (failed "unauthorized", q)) (admin_token-holding true (record p { admin = "" })))
      | inr e ↦ rw e refl
    ]

    pub api-holding :
        (verb path : String) (body : Option String) (reply : Option (Reply A)) (p : Panel)
        → api sf verb path body reply (holding k b p) ≡ also k b (api sf verb path body reply p)
    unfolding api
    api-holding verb path body reply p =
        rw (admin_token-holding false p) (received-holding verb path reply _)

  pub polled-holding :
      (now : ℕ) (x : Outcome (List Row) × Panel)
      → polled sf now (also k b x) ≡ holding k b (polled sf now x)
  unfolding render
  polled-holding now (value rows, p) = refl
  polled-holding now (nothing, p) = refl
  polled-holding now (failed why, p) = refl

  pub poll-holding :
      (now : ℕ) (reply : Option (Reply (List Row))) (p : Panel)
      → poll sf now reply (holding k b p) ≡ holding k b (poll sf now reply p)
  unfolding poll
  poll-holding now reply p =
      ap (polled sf now) (api-holding "GET" "/api/machines" none reply p)
      ∙ polled-holding now (api sf "GET" "/api/machines" none reply p)

  pub window_if-holding :
      (x : Outcome String × Panel) → window_if (also k b x) ≡ holding k b (window_if x)
  window_if-holding (value url, p) = refl
  window_if-holding (nothing, p) = refl
  window_if-holding (failed why, p) = refl

  pub open_terminal-holding :
      (id : String) (reply : Option (Reply String)) (p : Panel)
      → open_terminal sf id reply (holding k b p) ≡ holding k b (open_terminal sf id reply p)
  unfolding open_terminal
  open_terminal-holding id reply p =
      ap window_if (api-holding "POST" _ none reply p)
      ∙ window_if-holding (api sf "POST" _ none reply p)

  pub revoked-holding :
      (now : ℕ) (name : String) (next : Option (Reply (List Row))) (x : Outcome Json × Panel)
      → revoked sf now name next (also k b x) ≡ holding k b (revoked sf now name next x)
  revoked-holding now name next (value v, p) = poll-holding now next _
  revoked-holding now name next (nothing, p) = poll-holding now next _
  revoked-holding now name next (failed why, p) = refl

  pub revoke_machine-holding :
      (now : ℕ) (confirmed : Bool) (r : Row) (reply : Option (Reply Json))
      (next : Option (Reply (List Row))) (p : Panel)
      → revoke_machine sf now confirmed r reply next (holding k b p)
        ≡ holding k b (revoke_machine sf now confirmed r reply next p)
  unfolding revoke_machine
  revoke_machine-holding now false r reply next p = refl
  revoke_machine-holding now true r reply next p =
      ap (revoked sf now (label sf r.name r.id) next) (api-holding "DELETE" _ none reply p)
      ∙ revoked-holding now (label sf r.name r.id) next (api sf "DELETE" _ none reply p)
