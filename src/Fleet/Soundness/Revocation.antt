-- ===== src/Fleet/Soundness/Revocation.antt =====
-- DELETE /api/machines/{mid} of worker/src/fleet.js keeps the invariant and cuts the machine off.
use popfleet.Base.{
  ℕ, ◌≤◌, String, Option, none, some, ◌≡◌, refl, sym, ap, ◌∙◌, ◌≢◌, eq_refl, arith, eq_iff, inl,
  inr, Option-cases, List,
}
use popfleet.Dict.{lookup, delete}
use popfleet.Dict.Laws.{lookup-delete}
use popfleet.Fleet.State.{Fleet, Socket, Machine, replaced, agent_tag}
use popfleet.Fleet.Sockets.{
  mid_of, same, modify, with_attachment, agent_socket, first_with, get_web_sockets,
}
use popfleet.Fleet.Api.{no_content, delete_machine, revoke, drop_if, forget}
use popfleet.Fleet.Core.{Core, core, bare, core-drop_agent, first_with-bare}
use popfleet.Fleet.Counts.{
  agents, opened, Below, agents-first_none, agents-first_some, first-none_of_agents,
  agents-modify_le, opened-modify, Below-modify,
}
use popfleet.Fleet.Soundness.{IsSound, sum_at}

module _ (c : Core) (mid : String) (m : Machine) (found : lookup mid c.machines ≡ some m)
    (v : IsSound c) where
  -- The machine is forgotten, and `ks` are the sockets without its agent.
  forget-IsSound :
      (ks : List Socket)
      → Below c.next_id ks
      → ((k : String) → agents k ks ≤ agents k c.sockets)
      → agents mid ks ≡ 0
      → ((sid : String) → opened sid ks ≡ opened sid c.sockets)
      → IsSound (record c {
        machines = delete mid c.machines;
        toks = delete m.token_sum c.toks;
        sockets = ks;
      })
  unfolding sum_at
  forget-IsSound ks below fewer gone same_opened = record {
    ids = below;
    sole = λ k. ground (arith, v.sole k, fewer k, lookup-delete mid k c.machines, eq_iff mid k);
    vouched = λ sum k h. ground (
      arith,
      v.vouched sum k,
      lookup-delete mid k c.machines,
      lookup-delete m.token_sum sum c.toks,
      eq_iff mid k,
      eq_iff m.token_sum sum,
    );
    once = λ sid. rw (same_opened sid) (v.once sid);
    unique = v.unique;
  }

-- The agent socket of the machine after it was dropped, if there was one.
unfoldable pub dropped : Option ℕ → List Socket → List Socket
dropped none ks = ks
dropped (some ws) ks = modify ws (with_attachment replaced) ks

core-drop_if :
    (ws : Option ℕ) (why : String) (s : Fleet)
    → core (drop_if ws why s) ≡ record (core s) { sockets = dropped ws (bare s.sockets) }
unfolding dropped
core-drop_if none why s = refl
core-drop_if (some ws) why s = core-drop_agent ws why s

pub dropped-Below :
    (n : ℕ) (ws : Option ℕ) (ks : List Socket) → Below n ks → Below n (dropped ws ks)
unfolding dropped
dropped-Below n none ks b = b
dropped-Below n (some ws) ks b = Below-modify n ws replaced ks b

pub dropped-fewer :
    (ws : Option ℕ) (ks : List Socket) (k : String) → agents k (dropped ws ks) ≤ agents k ks
unfolding dropped same mid_of
dropped-fewer none ks k = omega arith
dropped-fewer (some ws) ks k = agents-modify_le k ws replaced ks refl

pub dropped-opened :
    (ws : Option ℕ) (ks : List Socket) (sid : String) → opened sid (dropped ws ks) ≡ opened sid ks
unfolding dropped
dropped-opened none ks sid = refl
dropped-opened (some ws) ks sid = opened-modify sid ws replaced ks

-- With at most one agent, dropping the one that is found leaves none.
pub dropped-gone :
    (mid : String) (ws : Option ℕ) (ks : List Socket)
    → agents mid ks ≤ 1
    → first_with (some mid) (get_web_sockets agent_tag ks) ≡ ws
    → agents mid (dropped ws ks) ≡ 0
unfolding dropped
dropped-gone mid none ks h e = agents-first_none mid ks e
dropped-gone mid (some ws) ks h e = omega (arith, agents-first_some mid ws ks e)

pub sole-le-one : (c : Core) (mid : String) → IsSound c → agents mid c.sockets ≤ 1
sole-le-one c mid v = ground (arith, v.sole mid)

pub delete_machine-IsSound :
    (mid : String) (s : Fleet) → IsSound (core s) → IsSound (core (delete_machine mid s).0)
unfolding delete_machine
delete_machine-IsSound mid s v = elim (Option-cases (lookup mid s.machines)) [
  | inl absent ↦ rw (absent, revoke) v
  | inr (m, found) ↦
      let ws = agent_socket (forget mid m s) (some mid) in
      rw (found, revoke)
        (rw (core-drop_if ws "machine revoked" (forget mid m s)) (
          forget-IsSound (core s) mid m found v (dropped ws (bare s.sockets))
            (dropped-Below s.next_id ws (bare s.sockets) v.ids) (dropped-fewer ws (bare s.sockets))
            (dropped-gone mid ws (bare s.sockets) (sole-le-one (core s) mid v)
              (first_with-bare agent_tag (some mid) s.sockets))
            (dropped-opened ws (bare s.sockets))))
]

-- In a sound state a machine that is not registered has no agent, and no token leads to it.
pub agent_socket_of_unregistered :
    (mid : String) (s : Fleet)
    → IsSound (core s)
    → lookup mid s.machines ≡ none
    → agent_socket s (some mid) ≡ none
unfolding agent_socket sum_at
agent_socket_of_unregistered mid s v h =
    sym (first_with-bare agent_tag (some mid) s.sockets)
    ∙ first-none_of_agents mid (bare s.sockets) (ground (arith, v.sole mid))

pub token_of_unregistered :
    (sum mid : String) (s : Fleet)
    → IsSound (core s)
    → lookup mid s.machines ≡ none
    → lookup sum s.toks ≢ some mid
unfolding sum_at
token_of_unregistered sum mid s v h e = ground (arith, v.vouched sum mid e)

delete_machine_forgets :
    (mid : String) (s : Fleet) → lookup mid (core (delete_machine mid s).0).machines ≡ none
unfolding delete_machine
delete_machine_forgets mid s = elim (Option-cases (lookup mid s.machines)) [
  | inl absent ↦ rw (absent, revoke) absent
  | inr (m, found) ↦
      let ws = agent_socket (forget mid m s) (some mid) in
      rw (found, revoke)
        (ap (λ (c : Core). lookup mid c.machines)
            (core-drop_if ws "machine revoked" (forget mid m s))
          ∙ ground (arith, lookup-delete mid mid s.machines, eq_refl mid))
]

-- Revoking a registered machine answers 204 and, in a sound state, cuts the machine off: its row is
-- gone, no socket speaks for it any more, and no token leads to it.
pub delete_machine_cuts_off :
    (mid : String) (m : Machine) (s : Fleet)
    → IsSound (core s)
    → lookup mid s.machines ≡ some m
    → let s' = (delete_machine mid s).0 in
      ((delete_machine mid s).1 ≡ no_content)
      × (lookup mid s'.machines ≡ none)
      × (agent_socket s' (some mid) ≡ none)
      × ((sum : String) → lookup sum s'.toks ≢ some mid)
unfolding delete_machine
delete_machine_cuts_off mid m s v found =
    let s' = (delete_machine mid s).0 in
    let sound = delete_machine-IsSound mid s v in
    let gone = delete_machine_forgets mid s in
    (
      rw (found, revoke),
      gone,
      agent_socket_of_unregistered mid s' sound gone,
      λ sum. token_of_unregistered sum mid s' sound gone,
    )
