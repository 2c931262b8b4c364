-- ===== src/Fleet/Grants/Refinement.antt =====
-- Every event of worker/src/fleet.js does to the session keys what the service does on its call.
use popfleet.Base.{
  Bool-cases, inl, inr, eq_iff, ℕ, String, ◌&&◌, Option, none, some, str_eq, if◌then◌else◌, if-both,
  if-cases, ◌≡◌, refl, ap, ◌∙◌, arith,
}
use popfleet.Json.{is_null}
use popfleet.Routes.{strip, match_term, match_machine}
use popfleet.Dict.{lookup}
use popfleet.Fleet.Runtime.{Runtime, rand_hex}
use popfleet.Fleet.State.{Fleet, Pend}
use popfleet.Fleet.Sockets.{attach}
use popfleet.Fleet.Api.{Response, body_or_empty, post_tokens, get_machines, delete_machine}
use popfleet.Fleet.Upgrades.{upgrade_agent, upgrade_term}
use popfleet.Fleet.Lifecycle.{reap}
use popfleet.Fleet.Events.{
  Request, Draws, or_empty, not_found, fetch_machine, fetch_delete, fetch_term, fetch_upgrade,
  fetch_api, fetch, Event, fetches, messages, ends, alarms, heartbeats, disconnects, step,
}
use popfleet.Fleet.Core.{core}
use popfleet.Fleet.Soundness.{IsSound}
use popfleet.Fleet.Sweeps.{lookup-alarm, expired}
use popfleet.Fleet.Grants.{
  grants, grant_of, unexpired, idle, Verdict, serve, minting, redeeming, call_of, Tells, Serves,
  kept,
}
use popfleet.Fleet.Grants.Calls.{pends-reap_kind, pends-revoke, pends-web_socket_message}
use popfleet.Fleet.Grants.Handlers.{open_if-Serves, post_term-Serves}

pends-delete_machine : (mid : String) (s : Fleet) → (delete_machine mid s).0.pends ≡ s.pends
unfolding delete_machine
pends-delete_machine mid s = pends-revoke mid (lookup mid s.machines) s

module _ (rt : Runtime) (now : ℕ) (s : Fleet) where
  fetch_delete-Serves : (r : Request) → Serves rt s now idle (fetch_delete r s)
  fetch_delete-Serves r =
      if-both (Serves rt s now idle) (str_eq r.method "DELETE") (by_id (match_machine r.path))
        (kept rt s now (s, not_found) refl)
    where
      by_id : (mid : Option String) → Serves rt s now idle (fetch_machine mid s)
      by_id none = kept rt s now (s, not_found) refl
      by_id (some mid) = kept rt s now (delete_machine mid s) (pends-delete_machine mid s)

  post_tokens-Serves :
      (r : Request) (d : Draws)
      → Serves rt s now idle (post_tokens rt r.body (rand_hex d.short) (rand_hex d.long) s)
  unfolding post_tokens
  post_tokens-Serves r d =
      kept rt s now (post_tokens rt r.body (rand_hex d.short) (rand_hex d.long) s) (
        if-both (λ (x : Fleet × Response). x.0.pends ≡ s.pends) (is_null (body_or_empty r.body))
          refl refl)

  fetch_term-Serves :
      (r : Request) (d : Draws) (mid : Option String)
      → Serves rt s now (minting rt s r d mid) (fetch_term rt now r d mid s)
  fetch_term-Serves r d none = fetch_delete-Serves r
  fetch_term-Serves r d (some mid) =
      if-cases (Serves rt s now (minting rt s r d (some mid))) (str_eq r.method "POST")
        (post_term-Serves rt now s mid r d) (λ other. rw (other) (fetch_delete-Serves r))

  -- The two fixed paths of the API are no machine's.
  minting-tokens :
      (r : Request) (d : Draws)
      → r.path ≡ "/api/tokens"
      → minting rt s r d (match_term r.path) ≡ idle
  unfolding match_term strip
  minting-tokens r d e = ap (λ path. minting rt s r d (match_term path)) e

  minting-machines :
      (r : Request) (d : Draws)
      → r.path ≡ "/api/machines"
      → minting rt s r d (match_term r.path) ≡ idle
  unfolding match_term strip
  minting-machines r d e = ap (λ path. minting rt s r d (match_term path)) e

  fetch_api-Serves :
      (r : Request) (d : Draws)
      → Serves rt s now (minting rt s r d (match_term r.path)) (fetch_api rt now r d s)
  unfolding get_machines
  fetch_api-Serves r d =
      let P = Serves rt s now (minting rt s r d (match_term r.path)) in
      if-cases P (str_eq r.path "/api/tokens" && str_eq r.method "POST")
        (λ at.
          rw (minting-tokens r d ((eq_iff r.path "/api/tokens").0 (ground (arith, at))))
            (post_tokens-Serves r d))
        (λ _.
          if-cases P (str_eq r.path "/api/machines" && str_eq r.method "GET")
            (λ at.
              rw (minting-machines r d ((eq_iff r.path "/api/machines").0 (ground (arith, at))))
                (kept rt s now (get_machines rt now s) refl))
            (λ _. fetch_term-Serves r d (match_term r.path)))

  fetch_upgrade-Serves :
      (r : Request) (d : Draws) (sid : Option String)
      → Serves rt s now (redeeming rt s r d sid) (fetch_upgrade rt now r d sid s)
  unfolding upgrade_term
  fetch_upgrade-Serves r d none = fetch_api-Serves r d
  fetch_upgrade-Serves r d (some sid) =
      open_if-Serves rt now s sid (or_empty r.k) (lookup sid s.pends) refl

  fetch-Serves :
      (r : Request) (d : Draws) → Serves rt s now (call_of rt s (fetches r d)) (fetch rt now r d s)
  unfolding fetch
  fetch-Serves r d = elim (Bool-cases (str_eq r.path "/ws/agent")) [
    | inl at ↦ rw (at) (kept rt s now (upgrade_agent now s) refl)
    | inr other ↦ rw (other) (fetch_upgrade-Serves r d (strip "/ws/term/" r.path))
  ]

unexpired-expired :
    (now : ℕ) (p : Option Pend)
    → grant_of (if expired now p then none else p) ≡ unexpired now (grant_of p)
unexpired-expired now none = ground arith
unexpired-expired now (some p) = ground arith

-- What an event tells its caller: only a request has a response.
abbrev pub Answers : Runtime → ℕ → Event → Fleet → Verdict → Type 0
Answers rt now (fetches r d) s v = Tells rt s v (fetch rt now r d s).1
Answers rt now (messages ws raw) s v = Unit
Answers rt now (ends ws) s v = Unit
Answers rt now alarms s v = Unit
Answers rt now (heartbeats ws) s v = Unit
Answers rt now (disconnects ws) s v = Unit

-- In a sound state every event does to the session keys exactly what an abstract service does on the
-- event's call, and a request is answered with the service's verdict. POST term for a registered
-- machine, unless its body is null, mints: for the session named in the body if a key of this machine is
-- pending for it and not expired, and is refused with 404 otherwise; for the fresh session if none is
-- named. The session then has the new key's digest, the machine and 60 seconds, and the response the
-- URL with that key. An upgrade on a session's path redeems: if the key's digest is the session's and
-- its time is not over, the session loses the key and the response is the new socket; otherwise the
-- status is 403 and no key changes. The alarm takes away exactly the expired keys. All other events
-- leave the keys alone.
pub step-refines :
    (rt : Runtime) (now : ℕ) (e : Event) (s : Fleet)
    → IsSound (core s)
    → let done = serve now (call_of rt s e) (grants s) in
      ((sid : String) → grants (step rt now e s) sid ≡ done.0 sid) × Answers rt now e s done.1
unfolding step reap
step-refines rt now (fetches r d) s v = let h = fetch-Serves rt now s r d in (h.keys, h.tells)
step-refines rt now (messages ws raw) s v =
    (λ sid. ap (λ ps. grant_of (lookup sid ps)) (pends-web_socket_message rt now ws raw s), tt)
step-refines rt now (ends ws) s v =
    (λ sid. ap (λ ps. grant_of (lookup sid ps)) (pends-reap_kind ws (attach s ws) s), tt)
step-refines rt now alarms s v = (
  λ sid.
      ap grant_of (lookup-alarm now sid (record s { alarm = none }) v.unique)
      ∙ unexpired-expired now (lookup sid s.pends),
  tt,
)
step-refines rt now (heartbeats ws) s v = (λ sid. refl, tt)
step-refines rt now (disconnects ws) s v = (λ sid. refl, tt)
