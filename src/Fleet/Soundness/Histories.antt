-- ===== src/Fleet/Soundness/Histories.antt =====
-- Every event that worker/src/fleet.js handles keeps the invariant, so it holds after any history.
use popfleet.Base.{
  ℕ, ◌≤◌, String, Option, none, some, ◌≡◌, refl, sym, ap, subst, ◌∙◌, arith, List, [], ◌∷◌, str_eq,
  ◌&&◌, if-both,
}
use popfleet.Dict.{lookup}
use popfleet.Routes.{strip, match_term, match_machine}
use popfleet.Fleet.Runtime.{Runtime, rand_hex}
use popfleet.Fleet.State.{Fleet, Socket, new_fleet}
use popfleet.Fleet.Sockets.{modify}
use popfleet.Fleet.Events.{
  Request, Draws, fetch_machine, fetch_delete, fetch_term, fetch_upgrade, fetch, or_empty, Event,
  fetches, messages, ends, alarms, heartbeats, disconnects, as_gone, step,
}
use popfleet.Fleet.Api.{get_machines}
use popfleet.Fleet.Core.{Core, core, bare, with_sockets, core-heard}
use popfleet.Fleet.Counts.{opened, agents, is_agent_of, Below}
use popfleet.Fleet.Soundness.{IsSound, Keeps, sum_at}
use popfleet.Fleet.Soundness.Requests.{
  post_tokens-IsSound, post_term-IsSound, upgrade_agent-IsSound, upgrade_term-IsSound,
}
use popfleet.Fleet.Soundness.Revocation.{delete_machine-IsSound}
use popfleet.Fleet.Soundness.Messages.{web_socket_message-IsSound}
use popfleet.Fleet.Soundness.Lifecycle.{reap-IsSound, alarm-IsSound}

-- The short random text is no machine's id, and no terminal was ever opened under it.
pub record IsNew (d : Draws) (s : Fleet) : Type 0 where
  pub new_id : lookup (rand_hex d.short) s.machines ≡ none
  pub new_sid : opened (rand_hex d.short) s.sockets ≡ 0

pub opened-bare : (sid : String) (ks : List Socket) → opened sid (bare ks) ≡ opened sid ks
unfolding opened
opened-bare sid [] = refl
opened-bare sid (k ∷ ks) = ground (arith, opened-bare sid ks)

fetch_delete-IsSound : (r : Request) (s : Fleet) → IsSound (core s) → Keeps (fetch_delete r s)
fetch_delete-IsSound r s v =
    if-both Keeps (str_eq r.method "DELETE") (by_id (match_machine r.path)) v
  where
    by_id : (mid : Option String) → Keeps (fetch_machine mid s)
    by_id none = v
    by_id (some mid) = delete_machine-IsSound mid s v

module _ (rt : Runtime) (now : ℕ) (r : Request) (d : Draws) (s : Fleet) (new : IsNew d s)
    (v : IsSound (core s)) where
  fetch_term-IsSound : (mid : Option String) → Keeps (fetch_term rt now r d mid s)
  fetch_term-IsSound none = fetch_delete-IsSound r s v
  fetch_term-IsSound (some mid) =
      if-both Keeps (str_eq r.method "POST")
        (post_term-IsSound rt now mid r.body (rand_hex d.short) (rand_hex d.long) s
          (opened-bare (rand_hex d.short) s.sockets ∙ new.new_sid) v)
        (fetch_delete-IsSound r s v)

  fetch_upgrade-IsSound : (sid : Option String) → Keeps (fetch_upgrade rt now r d sid s)
  unfolding sum_at get_machines
  fetch_upgrade-IsSound (some sid) = upgrade_term-IsSound rt now sid (or_empty r.k) s v
  fetch_upgrade-IsSound none =
      if-both Keeps (str_eq r.path "/api/tokens" && str_eq r.method "POST")
        (post_tokens-IsSound rt r.body (rand_hex d.short) (rand_hex d.long) s (rw new.new_id) v)
        (if-both Keeps (str_eq r.path "/api/machines" && str_eq r.method "GET") v
          (fetch_term-IsSound (match_term r.path)))

  fetch-IsSound : Keeps (fetch rt now r d s)
  unfolding fetch
  fetch-IsSound =
      if-both Keeps (str_eq r.path "/ws/agent") (upgrade_agent-IsSound now s v)
        (fetch_upgrade-IsSound (strip "/ws/term/" r.path))

bare-modify_gone :
    (ws : ℕ) (ks : List Socket) → bare (modify ws as_gone ks) ≡ modify ws as_gone (bare ks)
unfolding modify
bare-modify_gone ws [] = refl
bare-modify_gone ws (k ∷ ks) = ground (arith, bare-modify_gone ws ks)

Below-gone : (n ws : ℕ) (ks : List Socket) → Below n ks → Below n (modify ws as_gone ks)
unfolding modify
Below-gone n ws [] b = tt
Below-gone n ws (k ∷ ks) b = ground (arith, Below-gone k.id ws ks b.1)

agents-gone :
    (m : String) (ws : ℕ) (ks : List Socket) → agents m (modify ws as_gone ks) ≤ agents m ks
unfolding agents modify is_agent_of
agents-gone m ws [] = omega arith
agents-gone m ws (k ∷ ks) = ground (arith, agents-gone m ws ks)

opened-gone :
    (sid : String) (ws : ℕ) (ks : List Socket) → opened sid (modify ws as_gone ks) ≡ opened sid ks
unfolding opened modify
opened-gone sid ws [] = refl
opened-gone sid ws (k ∷ ks) = ground (arith, opened-gone sid ws ks)

gone-IsSound :
    (c : Core) (ws : ℕ) → IsSound c → IsSound (with_sockets (modify ws as_gone c.sockets) c)
gone-IsSound c ws v = record {
  ids = Below-gone c.next_id ws c.sockets v.ids;
  sole = λ m. omega (arith, v.sole m, agents-gone m ws c.sockets);
  vouched = v.vouched;
  once = λ sid. rw (opened-gone sid ws c.sockets) (v.once sid);
  unique = v.unique;
}

-- Only a request that draws random bytes asks something of them.
abbrev pub IsFresh : Event → Fleet → Type 0
IsFresh (fetches r d) s = IsNew d s
IsFresh (messages ws raw) s = Unit
IsFresh (ends ws) s = Unit
IsFresh alarms s = Unit
IsFresh (heartbeats ws) s = Unit
IsFresh (disconnects ws) s = Unit

-- Every event keeps the invariant, if the ids that a request draws are new: sockets have identities
-- of their own; a registered machine has at most one connected agent, an unregistered one none;
-- each token leads to a machine that is registered under that token's sum; a session is opened at
-- most once and is not pending after that.
pub step-IsSound :
    (rt : Runtime) (now : ℕ) (e : Event) (s : Fleet)
    → IsFresh e s
    → IsSound (core s)
    → IsSound (core (step rt now e s))
unfolding step
step-IsSound rt now (fetches r d) s new v = fetch-IsSound rt now r d s new v
step-IsSound rt now (messages ws raw) s new v = web_socket_message-IsSound rt now ws raw s v
step-IsSound rt now (ends ws) s new v = reap-IsSound ws s v
step-IsSound rt now alarms s new v = alarm-IsSound now (record s { alarm = none }) v
step-IsSound rt now (heartbeats ws) s new v = subst IsSound (sym (core-heard ws now s)) v
step-IsSound rt now (disconnects ws) s new v =
    subst IsSound (ap (λ ks. with_sockets ks (core s)) (sym (bare-modify_gone ws s.sockets)))
      (gone-IsSound (core s) ws v)

-- The states that a new object can reach.
pub data Reach (rt : Runtime) : Fleet → Type 0 where
  start : Reach rt new_fleet
  next : {s : Fleet} → Reach rt s → (now : ℕ) (e : Event) → IsFresh e s → Reach rt (step rt now e s)

pub Reach-IsSound : (rt : Runtime) {s : Fleet} → Reach rt s → IsSound (core s)
unfolding new_fleet agents opened lookup
Reach-IsSound rt start = record {
  ids = tt;
  sole = λ m. omega arith;
  vouched = λ sum mid h. cc;
  once = λ sid. omega arith;
  unique = tt;
}
Reach-IsSound rt (next {s} r now e new) = step-IsSound rt now e s new (Reach-IsSound rt r)

-- A list of events with their times, each handled to its end before the next begins.
unfoldable pub handled : Runtime → List (ℕ × Event) → Fleet → Fleet
unfolding step
handled rt [] s = s
handled rt ((now, e) ∷ es) s = handled rt es (step rt now e s)

abbrev pub AllFresh : Runtime → List (ℕ × Event) → Fleet → Type 0
AllFresh rt [] s = Unit
AllFresh rt ((now, e) ∷ es) s = IsFresh e s × AllFresh rt es (step rt now e s)

pub handled-Reach :
    (rt : Runtime) (es : List (ℕ × Event)) {s : Fleet}
    → Reach rt s
    → AllFresh rt es s
    → Reach rt (handled rt es s)
unfolding handled
handled-Reach rt [] r fresh = r
handled-Reach rt ((now, e) ∷ es) r fresh = handled-Reach rt es (next r now e fresh.0) fresh.1
