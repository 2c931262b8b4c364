-- ===== src/Fleet/Grants.antt =====
-- The session keys of worker/src/fleet.js, abstractly: a service that grants a key for a session, renews
-- it, redeems it once and sweeps it after its time, and which of its calls an event is. Children: the
-- events do what the service does.
pub mod Calls
pub mod Handlers
pub mod Refinement
use popfleet.Base.{
  not, ℕ, ◌+◌, ◌<◌, ◌≤◌, String, Bool, true, false, ◌&&◌, List, [], ◌∷◌, Option, none, some,
  is_some, str_eq, ltb, if◌then◌else◌, if-both, if-cases, ◌≡◌, refl, sym, ap, ◌∙◌, arith, eq_iff,
  Option-cases, inl, inr,
}
use popfleet.Json.{Json, str, prop, truthy, is_null, tag_of, or_else}
use popfleet.Routes.{strip, match_term, match_machine}
use popfleet.Dict.{Dict, lookup, put, delete}
use popfleet.Dict.Laws.{lookup-put, lookup-delete, Unique}
use popfleet.Fleet.Runtime.{Runtime, rand_hex, sha256hex, to_text}
use popfleet.Fleet.State.{
  Fleet, Machine, Pend, Attachment, blank, pending, agent, term, replaced, key_ttl_ms, term_tag,
  sid_tag, mid_tag, e2e_frame, err_frame,
}
use popfleet.Fleet.Sockets.{
  attach, mid_of, agent_socket, term_sockets, end_terms, drop_agent, serialize, ws_send, ws_close,
  arm_alarm, accept, last_seen_of, term_by_sid,
}
use popfleet.Fleet.Keys.Minting.{session_url}
use popfleet.Fleet.Api.{
  Response, text_response, term_response, switching, body_or_empty, post_tokens, get_machines, mint,
  mint_body, remintable, post_term, drop_if, forget, revoke, delete_machine,
}
use popfleet.Fleet.Upgrades.{upgrade_agent, tell_agent, key_fits, open_term, open_if, upgrade_term}
use popfleet.Fleet.Frames.{
  Ended, relay, relay_last, owned, replace_old, touch, enroll, admit, hello_object, token_sum_of,
  from_agent, from_term, from_term_to, dispatch, dispatch_if, parsed, web_socket_message,
}
use popfleet.Fleet.Lifecycle.{tell_close, save_seen, save_seen_in, reap_kind, reap, alarm}
use popfleet.Fleet.Events.{
  Request, Draws, or_empty, fetch_machine, fetch_delete, fetch_term, fetch_upgrade, fetch, Event,
  fetches, messages, ends, alarms, heartbeats, disconnects, step,
}
use popfleet.Fleet.Core.{core}
use popfleet.Fleet.Soundness.{IsSound}
use popfleet.Fleet.Sweeps.{lookup-alarm}

-- What the service keeps of a session: the digest of its key, its machine and the end of its time.
pub record Grant : Type 0 where
  pub digest : String
  pub mid : String
  pub until : ℕ

abbrev pub grant_of : Option Pend → Option Grant
grant_of none = none
grant_of (some p) = some (record { digest = p.key_sum; mid = p.mid; until = p.exp })

abbrev pub Grants : Type 0
Grants = String → Option Grant

abbrev pub grants : Fleet → Grants
grants s sid = grant_of (lookup sid s.pends)

-- A call of the service: `mints` for a machine, for the session named or else a fresh one; `redeems` with
-- the digest of the key given.
pub data Call : Type 0 where
  idle sweeps : Call
  mints : (mid : String) → (named : Option String) → (fresh digest : String) → Call
  redeems : (sid digest : String) → Call

pub data Verdict : Type 0 where
  silent redeemed : Verdict
  refused : (status : ℕ) → Verdict
  granted : (sid digest : String) → Verdict

abbrev pub update : Grants → String → Option Grant → Grants
update g sid v other = if str_eq sid other then v else g other

abbrev pub unexpired : ℕ → Option Grant → Option Grant
unexpired now none = none
unexpired now (some v) = if ltb v.until now then none else some v

abbrev pub is_renewable : ℕ → String → Option Grant → Bool
is_renewable now mid none = false
is_renewable now mid (some v) = str_eq v.mid mid && not (ltb v.until now)

abbrev pub is_redeemable : ℕ → String → Option Grant → Bool
is_redeemable now digest none = false
is_redeemable now digest (some v) = ltb now v.until && str_eq digest v.digest

abbrev pub grant : ℕ → String → String → String → Grants → Grants × Verdict
grant now mid sid digest g = (
  update g sid (some (record { digest = digest; mid = mid; until = now + 60_000 })),
  granted sid digest,
)

-- What the service does at the time `now`.
abbrev pub serve : ℕ → Call → Grants → Grants × Verdict
serve now idle g = (g, silent)
serve now sweeps g = (λ sid. unexpired now (g sid), silent)
serve now (mints mid none fresh digest) g = grant now mid fresh digest g
serve now (mints mid (some sid) fresh digest) g =
    if is_renewable now mid (g sid) then grant now mid sid digest g else (g, refused 404)
serve now (redeems sid digest) g =
    if is_redeemable now digest (g sid) then (update g sid none, redeemed) else (g, refused 403)

-- Which call an event is. POST term for a machine that is registered mints, an upgrade on a session's path
-- redeems, the alarm sweeps, and all else is none of the service's.
module _ (rt : Runtime) (s : Fleet) where
  abbrev pub named_in : Json → Option String
  named_in b = if truthy (prop b "sid") then some (to_text rt (prop b "sid")) else none

  abbrev pub minting : Request → Draws → Option String → Call
  minting r d none = idle
  minting r d (some mid) =
      if str_eq r.method "POST"
        && is_some (lookup mid s.machines)
        && not (is_null (body_or_empty r.body))
      then mints mid (named_in (body_or_empty r.body)) (rand_hex d.short)
          (sha256hex rt (rand_hex d.long))
      else idle

  abbrev pub redeeming : Request → Draws → Option String → Call
  redeeming r d none = minting r d (match_term r.path)
  redeeming r d (some sid) = redeems sid (sha256hex rt (or_empty r.k))

  abbrev pub call_of : Event → Call
  call_of (fetches r d) =
      if str_eq r.path "/ws/agent" then idle else redeeming r d (strip "/ws/term/" r.path)
  call_of (messages ws raw) = idle
  call_of (ends ws) = idle
  call_of alarms = sweeps
  call_of (heartbeats ws) = idle
  call_of (disconnects ws) = idle

  -- The response that a verdict is: the status of a refusal; the URL of a session with a key of the digest;
  -- a new socket.
  abbrev pub Tells : Verdict → Response → Type 0
  Tells silent r = Unit
  Tells (refused status) (text_response given t) = given ≡ status
  Tells (granted sid digest) (term_response url v) =
      (key : String) × (url ≡ session_url sid key) × (sha256hex rt key ≡ digest)
  Tells redeemed (switching ws) = ws ≡ s.next_id
  Tells _ _ = ⊥

  -- A handler that leaves the keys and answers as the service does.
  pub record Serves (now : ℕ) (c : Call) (r : Fleet × Response) : Type 0 where
    pub keys : (sid : String) → grants r.0 sid ≡ (serve now c (grants s)).0 sid
    pub tells : Tells (serve now c (grants s)).1 r.1

  pub kept : (now : ℕ) (r : Fleet × Response) → r.0.pends ≡ s.pends → Serves now idle r
  kept now r e = record { keys = λ sid. ap (λ ps. grant_of (lookup sid ps)) e; tells = tt }
