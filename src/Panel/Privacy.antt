-- ===== src/Panel/Privacy.antt =====
-- Where the fleet key of the panel page, worker/public/index.js, can go.
pub mod Holding
use popfleet.Base.{
  ℕ, String, Bool, true, false, List, [], ◌∷◌, Option, none, some, ◌==◌, ◌||◌, if◌then◌else◌,
  str_eq, Bool-cases, inl, inr, ◌≡◌, refl, ap, ◌∙◌, sym,
}
use popfleet.Json.{Json}
use popfleet.Fleet.Api.{Row}
use popfleet.Panel.{
  Surface, Panel, Blocks, or_blank, next_answer, answered, e2e_key, admin_token, Reply, Outcome,
  value, nothing, failed, received, api,
}
use popfleet.Panel.Machines.{render, label}
use popfleet.Panel.Actions.{
  polled, poll, window_if, open_terminal, revoked, revoke_machine, blocks_of, key_if, token_shown,
  add_machine, PanelEvent, loads, configures, polls, opens_terminal, revokes, adds, copies, closes,
  text_of, panel_step, panel_run,
}
use popfleet.Panel.Privacy.Holding.{
  Texts, holding, also, admin_token-holding, received-holding, api-holding, polled-holding,
  poll-holding, window_if-holding, open_terminal-holding, revoked-holding, revoke_machine-holding,
}

-- What a click on the add button does besides the texts of the dialog, where a key is stored.
dialog_if : Outcome String × Panel → Panel
dialog_if (value token, p) = record p { dialog = true }
dialog_if (nothing, p) = p
dialog_if (failed why, p) = p

quiet_step : Surface → PanelEvent → Panel → Panel
unfolding dialog_if
quiet_step sf (adds reply) p =
    let name = or_blank (next_answer p.answers) in
    dialog_if
      (api sf "POST" "/api/tokens" (if str_eq name "" then none else some name) reply (answered p))
quiet_step sf (copies b) p = p
quiet_step sf e p = panel_step sf e p

-- A page that does what it does without the key, but for the key and the texts.
record Same (k : String) (p after : Panel) : Type 0 where
  pub texts : Texts
  pub moves : after ≡ holding k texts p

module _ (sf : Surface) (k : String) (stored : str_eq k "" ≡ false) where
  key_if-holding : (b : Texts) (p : Panel) → (key_if sf (holding k b p)).1 ≡ holding k b p
  unfolding e2e_key
  key_if-holding b p = elim (Bool-cases p.e2e) [ inl e ↦ rw (e, stored) refl | inr e ↦ rw e refl ]

  token_shown-Same :
      (b : Texts) (x : Outcome String × Panel) → Same k (dialog_if x) (token_shown sf (also k b x))
  unfolding dialog_if
  token_shown-Same b (failed why, p) = record { texts = b; moves = refl }
  token_shown-Same b (nothing, p) = record { texts = b; moves = key_if-holding b p }
  token_shown-Same b (value token, p) =
      let ek = (key_if sf (holding k b p)).0 in
      let here = some (blocks_of sf ek token) in
      record {
        texts = (here, b.1);
        moves =
            ap {A = Panel} (λ q. record q { blocks = here; dialog = true }) (key_if-holding b p);
      }

  panel_step-Same :
      (e : PanelEvent) (b : Texts) (p : Panel)
      → Same k (quiet_step sf e p) (panel_step sf e (holding k b p))
  unfolding panel_step quiet_step add_machine
  panel_step-Same (loads now reply) b p = record {
    texts = b;
    moves =
        ap (poll sf now reply) (admin_token-holding sf k b false p)
        ∙ poll-holding sf k b now reply (admin_token sf false p);
  }
  panel_step-Same (configures e2e) b p = record { texts = b; moves = refl }
  panel_step-Same (polls now reply) b p = record {
    texts = b;
    moves = poll-holding sf k b now reply p;
  }
  panel_step-Same (opens_terminal id reply) b p = record {
    texts = b;
    moves = open_terminal-holding sf k b id reply p;
  }
  panel_step-Same (revokes now confirmed r reply next) b p = record {
    texts = b;
    moves = revoke_machine-holding sf k b now confirmed r reply next p;
  }
  panel_step-Same (adds reply) b p =
      let name = or_blank (next_answer p.answers) in
      let body : Option String = if str_eq name "" then none else some name in
      let same = token_shown-Same b (api sf "POST" "/api/tokens" body reply (answered p)) in
      record {
        texts = same.texts;
        moves =
            ap (token_shown sf) (api-holding sf k b "POST" "/api/tokens" body reply (answered p))
            ∙ same.moves;
      }
  panel_step-Same (copies which) b p = record {
    texts = (b.0, some (text_of which b.0));
    moves = refl;
  }
  panel_step-Same closes b p = record { texts = b; moves = refl }

quiet_run : Surface → List PanelEvent → Panel → Panel
quiet_run sf [] p = p
quiet_run sf (e ∷ es) p = quiet_run sf es (quiet_step sf e p)

panel_run-Same :
    (sf : Surface) (k : String) (es : List PanelEvent) (b : Texts) (p : Panel)
    → str_eq k "" ≡ false
    → Same k (quiet_run sf es p) (panel_run sf es (holding k b p))
unfolding panel_run quiet_run
panel_run-Same sf k [] b p stored = record { texts = b; moves = refl }
panel_run-Same sf k (e ∷ es) b p stored =
    let first = panel_step-Same sf k stored e b p in
    let later = panel_run-Same sf k es first.texts (quiet_step sf e p) stored in
    record { texts = later.texts; moves = ap (panel_run sf es) first.moves ∙ later.moves }

-- Whichever fleet key is stored, as long as one is: whatever happens on the page, its requests with their
-- headers and bodies, the windows it opens and its toasts are the same, it asks the user as often, and
-- the key stays stored.
pub fleet_key_unsent :
    (sf : Surface) (k other : String) (es : List PanelEvent) (p : Panel)
    → str_eq k "" ≡ false
    → str_eq other "" ≡ false
    → let one = panel_run sf es (record p { stored_key = k }) in
      let two = panel_run sf es (record p { stored_key = other }) in
      (one.calls ≡ two.calls)
      × (one.windows ≡ two.windows)
      × (one.toasts ≡ two.toasts)
      × (one.answers ≡ two.answers)
      × (one.stored_key ≡ k)
fleet_key_unsent sf k other es p stored stored_too =
    let one = (panel_run-Same sf k es (p.blocks, p.clipboard) p stored).moves in
    let two = sym (panel_run-Same sf other es (p.blocks, p.clipboard) p stored_too).moves in
    (
      ap (λ q. q.calls) one ∙ ap (λ q. q.calls) two,
      ap (λ q. q.windows) one ∙ ap (λ q. q.windows) two,
      ap (λ q. q.toasts) one ∙ ap (λ q. q.toasts) two,
      ap (λ q. q.answers) one ∙ ap (λ q. q.answers) two,
      ap (λ q. q.stored_key) one,
    )
