-- ===== src/Fleet/Soundness.antt =====
-- The invariant of the class Fleet of worker/src/fleet.js, and the changes of state that keep it.
-- Children: the proofs for the HTTP routes and upgrades, the frames, the lifecycle, and every event.
pub mod Requests
pub mod Messages
pub mod Lifecycle
pub mod Histories
pub mod Revocation
use popfleet.Base.{
  ℕ, suc, ◌+◌, ◌≤◌, ◌<◌, String, Bool, true, false, List, [], ◌∷◌, Option, none, some, str_eq,
  is_some, if◌then◌else◌, ◌≡◌, refl, ap, ◌∙◌, sym, arith, eq_iff, ◌⊎◌, inl, inr,
}
use popfleet.Dict.{Dict, lookup, put, delete}
use popfleet.Dict.Laws.{lookup-put, lookup-delete, Unique}
use popfleet.Fleet.State.{
  Fleet, Socket, Machine, Pend, Attachment, agent, pending, term, replaced, Tag, agent_tag, sid_tag,
}
use popfleet.Fleet.Sockets.{mid_of, same, modify, with_attachment}
use popfleet.Fleet.Core.{Core, core, bare, with_sockets}
use popfleet.Fleet.Counts.{
  one_if, agents, opened, Below, Below-modify, opened-modify, agents-modify_le, agents-modify_suc,
}

abbrev pub sum_of : Option Machine → Option String
sum_of none = none
sum_of (some m) = some m.token_sum

-- The token sum under which a machine is registered.
unfoldable pub sum_at : String → Dict Machine → Option String
unfolding lookup
sum_at mid ms = sum_of (lookup mid ms)

-- `ids`: sockets have identities of their own. `sole`: a registered machine has at most one live
-- agent, any other none. `vouched`: a token leads to a machine that is registered under it.
-- `once`: a session was opened at most once, and is no longer pending when it was. `unique`: a session is
-- pending once.
pub record IsSound (c : Core) : Type 0 where
  pub ids : Below c.next_id c.sockets
  pub sole : (m : String) → agents m c.sockets ≤ one_if (is_some (sum_at m c.machines))
  pub vouched : (sum mid : String) → lookup sum c.toks ≡ some mid → sum_at mid c.machines ≡ some sum
  pub once : (sid : String) → opened sid c.sockets + one_if (is_some (lookup sid c.pends)) ≤ 1
  pub unique : Unique c.pends

-- The invariant of the state that a handler leaves.
abbrev pub Keeps : {B : Type 0} → Fleet × B → Type 0
Keeps r = IsSound (core r.0)

pub sum_at-put :
    (mid k : String) (m : Machine) (ms : Dict Machine)
    → sum_at k (put mid m ms) ≡ (if str_eq mid k then some m.token_sum else sum_at k ms)
unfolding sum_at
sum_at-put mid k m ms = ground (arith, lookup-put mid k m ms)

pub sum_at-delete :
    (mid k : String) (ms : Dict Machine)
    → sum_at k (delete mid ms) ≡ (if str_eq mid k then none else sum_at k ms)
unfolding sum_at
sum_at-delete mid k ms = ground (arith, lookup-delete mid k ms)

-- A machine that is written back under its token sum.
pub sum_at-put_back :
    (mid k : String) (m old : Machine) (ms : Dict Machine)
    → lookup mid ms ≡ some old
    → m.token_sum ≡ old.token_sum
    → sum_at k (put mid m ms) ≡ sum_at k ms
unfolding sum_at
sum_at-put_back mid k m old ms found e = ground (arith, lookup-put mid k m ms, eq_iff mid k)

pub put_back-IsSound :
    (c : Core) (mid : String) (m old : Machine)
    → lookup mid c.machines ≡ some old
    → m.token_sum ≡ old.token_sum
    → IsSound c
    → IsSound (record c { machines = put mid m c.machines })
put_back-IsSound c mid m old found e v = record {
  ids = v.ids;
  sole = λ k. rw (sum_at-put_back mid k m old c.machines found e) (v.sole k);
  vouched = λ sum k h. rw (sum_at-put_back mid k m old c.machines found e) (v.vouched sum k h);
  once = v.once;
  unique = v.unique;
}

pub retire-IsSound :
    (c : Core) (ws : ℕ)
    → IsSound c
    → IsSound (with_sockets (modify ws (with_attachment replaced) c.sockets) c)
unfolding same mid_of
retire-IsSound c ws v = record {
  ids = Below-modify c.next_id ws replaced c.sockets v.ids;
  sole = λ m. omega (arith, v.sole m, agents-modify_le m ws replaced c.sockets refl);
  vouched = v.vouched;
  once = λ sid. rw (opened-modify sid ws replaced c.sockets) (v.once sid);
  unique = v.unique;
}

other_mid :
    (mid m : String) (now : ℕ)
    → str_eq mid m ≡ false
    → same (mid_of (agent mid now)) (some m) ≡ false
unfolding same mid_of
other_mid mid m now h = h

-- A socket becomes the agent of a registered machine that has none.
pub install-IsSound :
    (c : Core) (ws : ℕ) (mid : String) (now : ℕ)
    → agents mid c.sockets ≡ 0
    → is_some (sum_at mid c.machines) ≡ true
    → IsSound c
    → IsSound (with_sockets (modify ws (with_attachment (agent mid now)) c.sockets) c)
install-IsSound c ws mid now free known v = record {
  ids = Below-modify c.next_id ws (agent mid now) c.sockets v.ids;
  sole = λ m. ground (
    arith,
    v.sole m,
    eq_iff mid m,
    agents-modify_suc m c.next_id ws (agent mid now) c.sockets v.ids,
    agents-modify_le m ws (agent mid now) c.sockets,
    other_mid mid m now,
  );
  vouched = v.vouched;
  once = λ sid. rw (opened-modify sid ws (agent mid now) c.sockets) (v.once sid);
  unique = v.unique;
}

-- So does a terminal, or an agent that has not said hello, which joins.
pub join-IsSound :
    (c : Core) (k : Socket) (pends : Dict Pend)
    → k.id ≡ c.next_id
    → ((m : String) → agents m (k ∷ c.sockets) ≡ agents m c.sockets)
    → ((sid : String) → opened sid (k ∷ c.sockets) + one_if (is_some (lookup sid pends)) ≤ 1)
    → Unique pends
    → IsSound c
    → IsSound (record c { sockets = k ∷ c.sockets; next_id = suc c.next_id; pends = pends })
join-IsSound c k pends e quiet once distinct v = record {
  ids = (omega arith, rw e v.ids);
  sole = λ m. rw (quiet m) (v.sole m);
  vouched = v.vouched;
  once = once;
  unique = distinct;
}
