-- ===== src/Panel/Actions.antt =====
-- What the panel page, worker/public/index.js, does on a poll and on its buttons.
use Prim.Native.String.{◌++◌ as concat}
use popfleet.Base.{
  ℕ, String, Bool, true, false, List, [], ◌∷◌, ◌++◌, Option, none, some, if◌then◌else◌, str_eq,
}
use popfleet.Json.{Json}
use popfleet.Fleet.Api.{Row}
use popfleet.Panel.{
  Surface, Panel, Blocks, Block, shell_block, podman_block, python_block, or_blank, next_answer,
  answered, e2e_key, admin_token, Reply, Outcome, value, nothing, failed, api,
}
use popfleet.Panel.Machines.{render, label}

-- `poll`; whatever is thrown is caught.
abbrev pub polled : Surface → ℕ → Outcome (List Row) × Panel → Panel
polled sf now (value rows, p) = render sf now rows p
polled sf now (nothing, p) = p
polled sf now (failed why, p) = p

unfoldable pub poll : Surface → ℕ → Option (Reply (List Row)) → Panel → Panel
unfolding render api
poll sf now reply p = polled sf now (api sf "GET" "/api/machines" none reply p)

-- The Terminal button of a row.
abbrev pub window_if : Outcome String × Panel → Panel
window_if (value url, p) = record p { windows = p.windows ++ url ∷ [] }
window_if (nothing, p) = p
window_if (failed why, p) = p

unfoldable pub open_terminal : Surface → String → Option (Reply String) → Panel → Panel
unfolding api
open_terminal sf id reply p =
    window_if (api sf "POST" (concat "/api/machines/" (concat id "/term")) none reply p)

-- The Revoke button of a row.
abbrev pub revoked : Surface → ℕ → String → Option (Reply (List Row)) → Outcome Json × Panel → Panel
revoked sf now name next (failed why, p) = p
revoked sf now name next (value v, p) =
    poll sf now next (record p {
      toasts = p.toasts ++ record { msg = concat name " revoked"; cls = "leave" } ∷ [];
    })
revoked sf now name next (nothing, p) =
    poll sf now next (record p {
      toasts = p.toasts ++ record { msg = concat name " revoked"; cls = "leave" } ∷ [];
    })

unfoldable pub revoke_machine :
    Surface
    → ℕ
    → (confirmed : Bool) → Row
    → Option (Reply Json)
    → Option (Reply (List Row))
    → Panel
    → Panel
unfolding api poll
revoke_machine sf now confirmed r reply next p =
    if confirmed
    then revoked sf now (label sf r.name r.id) next
        (api sf "DELETE" (concat "/api/machines/" r.id) none reply p)
    else p

-- The add button.
abbrev pub key_part : String → String → String
key_part before ek = if str_eq ek "" then "" else concat before ek

abbrev pub blocks_of : Surface → String → String → Blocks
blocks_of sf ek token =
    let o = sf.origin in
    record {
      shell = concat "curl -sSf " (
          concat o (
            concat "/agent.sh | POPFLEET_URL="
              (concat o (concat (key_part " POPFLEET_E2E_KEY=" ek) (concat " sh -s -- " token)))));
      podman = concat "podman run -d --name popfleet-agent \\\n  -e POPFLEET_URL=" (
          concat o (
            concat " \\\n  -e POPFLEET_TOKEN=" (
              concat token (
                concat (key_part " \\\n  -e POPFLEET_E2E_KEY=" ek)
                  " \\\n  ghcr.io/ejoliet/popfleet-agent:latest"))));
      python = concat "curl -sSfO " (
          concat o (
            concat "/agent.py && pip install websockets" (
              concat (if str_eq ek "" then "" else " cryptography") (
                concat "\nPOPFLEET_URL=" (
                  concat o (
                    concat " POPFLEET_TOKEN=" (
                      concat token
                        (concat (key_part " POPFLEET_E2E_KEY=" ek) " python3 agent.py"))))))));
    }

-- `cfg.e2e ? e2eKey() : ""`.
abbrev pub key_if : Surface → Panel → String × Panel
key_if sf p = if p.e2e then e2e_key sf p else ("", p)

abbrev pub shown : Surface → String → String × Panel → Panel
shown sf token (ek, p) = record p { blocks = some (blocks_of sf ek token); dialog = true }

-- A 204 answer throws only where its token is read, after the key was asked for.
abbrev pub token_shown : Surface → Outcome String × Panel → Panel
token_shown sf (failed why, p) = p
token_shown sf (nothing, p) = (key_if sf p).1
token_shown sf (value token, p) = shown sf token (key_if sf p)

unfoldable pub add_machine : Surface → Option (Reply String) → Panel → Panel
unfolding api e2e_key
add_machine sf reply p =
    let name = or_blank (next_answer p.answers) in
    token_shown sf
      (api sf "POST" "/api/tokens" (if str_eq name "" then none else some name) reply (answered p))

-- The copy buttons. Before the first enrollment the blocks are empty.
abbrev pub text_of : Block → Option Blocks → String
text_of b none = ""
text_of shell_block (some t) = t.shell
text_of podman_block (some t) = t.podman
text_of python_block (some t) = t.python

-- What happens on the page, with the answers to its requests.
pub data PanelEvent : Type 0 where
  loads : (now : ℕ) → Option (Reply (List Row)) → PanelEvent
  configures : (e2e : Bool) → PanelEvent
  polls : (now : ℕ) → Option (Reply (List Row)) → PanelEvent
  opens_terminal : (id : String) → Option (Reply String) → PanelEvent
  revokes :
      (now : ℕ)
      → (confirmed : Bool) → Row
      → Option (Reply Json)
      → Option (Reply (List Row))
      → PanelEvent
  adds : Option (Reply String) → PanelEvent
  copies : Block → PanelEvent
  closes : PanelEvent

unfoldable pub panel_step : Surface → PanelEvent → Panel → Panel
unfolding admin_token poll open_terminal revoke_machine add_machine
panel_step sf (loads now reply) p = poll sf now reply (admin_token sf false p)
panel_step sf (configures e2e) p = record p { e2e = e2e }
panel_step sf (polls now reply) p = poll sf now reply p
panel_step sf (opens_terminal id reply) p = open_terminal sf id reply p
panel_step sf (revokes now confirmed r reply next) p =
    revoke_machine sf now confirmed r reply next p
panel_step sf (adds reply) p = add_machine sf reply p
panel_step sf (copies b) p = record p { clipboard = some (text_of b p.blocks) }
panel_step sf closes p = record p { dialog = false }

unfoldable pub panel_run : Surface → List PanelEvent → Panel → Panel
unfolding panel_step
panel_run sf [] p = p
panel_run sf (e ∷ es) p = panel_run sf es (panel_step sf e p)
