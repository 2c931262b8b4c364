-- ===== src/Fleet/Soundness/Requests.antt =====
-- The routes and upgrades of worker/src/fleet.js keep the invariant.
use popfleet.Base.{
  ℕ, String, true, Option, none, some, is_some, ◌≡◌, refl, ◌∙◌, arith, eq_iff, inl, inr,
  Option-cases, if-both, if-cases,
}
use popfleet.Json.{Json, str, prop, is_null, truthy, or_else}
use popfleet.Dict.{lookup, put, delete}
use popfleet.Dict.Laws.{lookup-put, lookup-delete, Unique-put, Unique-delete}
use popfleet.Fleet.Runtime.{Runtime, sha256hex, to_text}
use popfleet.Fleet.State.{Fleet, Machine, Pend, err_frame, open_frame}
use popfleet.Fleet.Sockets.{mid_of, same, has_tag}
use popfleet.Fleet.Api.{body_or_empty, post_tokens, mint, post_term, remintable}
use popfleet.Fleet.Upgrades.{upgrade_agent, upgrade_term, open_term, open_if, tell_agent, key_fits}
use popfleet.Fleet.Core.{Core, core, bare, core-ws_close, core-ws_send}
use popfleet.Fleet.Counts.{one_if, agents, opened, is_agent_of}
use popfleet.Fleet.Soundness.{IsSound, Keeps, sum_at, sum_at-put, join-IsSound}

register-IsSound :
    (c : Core) (id sum : String) (m : Machine)
    → m.token_sum ≡ sum
    → sum_at id c.machines ≡ none
    → IsSound c
    → IsSound (record c { machines = put id m c.machines; toks = put sum id c.toks })
register-IsSound c id sum m e fresh v = record {
  ids = v.ids;
  sole = λ k. ground (arith, v.sole k, sum_at-put id k m c.machines, eq_iff id k);
  vouched = λ t mid h. ground (
    arith,
    v.vouched t mid,
    sum_at-put id mid m c.machines,
    lookup-put sum t id c.toks,
    eq_iff id mid,
    eq_iff sum t,
  );
  once = v.once;
  unique = v.unique;
}

-- POST /api/tokens, with an id that no machine has.
pub post_tokens-IsSound :
    (rt : Runtime) (body : Option Json) (id token : String) (s : Fleet)
    → sum_at id s.machines ≡ none
    → IsSound (core s)
    → IsSound (core (post_tokens rt body id token s).0)
unfolding post_tokens
post_tokens-IsSound rt body id token s fresh v =
    if-both Keeps (is_null (body_or_empty body)) v
      (register-IsSound (core s) id (sha256hex rt token) _ refl fresh v)

pend-IsSound :
    (c : Core) (sid : String) (p : Pend)
    → opened sid c.sockets ≡ 0
    → IsSound c
    → IsSound (record c { pends = put sid p c.pends })
pend-IsSound c sid p fresh v = record {
  ids = v.ids;
  sole = v.sole;
  vouched = v.vouched;
  once = λ k. ground (arith, v.once k, eq_iff sid k, lookup-put sid k p c.pends);
  unique = Unique-put sid p c.pends v.unique;
}

mint-IsSound :
    (rt : Runtime) (now : ℕ) (mid : String) (cmd : Json) (sid : String) (value : Json)
    (key : String) (s : Fleet)
    → opened sid (bare s.sockets) ≡ 0
    → IsSound (core s)
    → IsSound (core (mint rt now mid cmd sid value key s).0)
unfolding mint
mint-IsSound rt now mid cmd sid value key s fresh v = pend-IsSound (core s) sid _ fresh v

remintable-pending :
    (now : ℕ) (mid : String) (p : Option Pend) → remintable now mid p ≡ true → is_some p ≡ true
remintable-pending now mid none h = h
remintable-pending now mid (some p) h = refl

-- POST /api/machines/{mid}/term, with a new sid for which no terminal was ever opened.
pub post_term-IsSound :
    (rt : Runtime) (now : ℕ) (mid : String) (body : Option Json) (fresh_sid key : String)
    (s : Fleet)
    → opened fresh_sid (bare s.sockets) ≡ 0
    → IsSound (core s)
    → IsSound (core (post_term rt now mid body fresh_sid key s).0)
unfolding post_term
post_term-IsSound rt now mid body fresh_sid key s fresh v =
    let b = body_or_empty body in
    let named = to_text rt (prop b "sid") in
    let cmd = or_else (prop b "cmd") (str "") in
    if-both Keeps (is_some (lookup mid s.machines))
      (if-both Keeps (is_null b) v (
        if-both Keeps (truthy (prop b "sid"))
          (if-cases Keeps (remintable now mid (lookup named s.pends))
            (λ h.
              mint-IsSound rt now mid cmd named (or_else (prop b "sid") (str "")) key s
                (omega (arith, v.once named, pending_once named h)) v)
            (λ _. v))
          (mint-IsSound rt now mid cmd fresh_sid (str fresh_sid) key s fresh v)))
      v
  where
    pending_once :
        (sid : String)
        → remintable now mid (lookup sid s.pends) ≡ true
        → one_if (is_some (lookup sid s.pends)) ≡ 1
    pending_once sid h = rw (remintable-pending now mid (lookup sid s.pends) h)

pub upgrade_agent-IsSound :
    (now : ℕ) (s : Fleet) → IsSound (core s) → IsSound (core (upgrade_agent now s).0)
unfolding upgrade_agent agents is_agent_of opened has_tag same mid_of
upgrade_agent-IsSound now s v =
    join-IsSound (core s) _ s.pends refl (λ m. omega arith) (λ sid. omega (arith, v.once sid))
      v.unique v

pub core-tell_agent :
    (server : ℕ) (sid : String) (cmd : Json) (ws : Option ℕ) (s : Fleet)
    → core (tell_agent server sid cmd ws s) ≡ core s
core-tell_agent server sid cmd none s =
    core-ws_close server 1000 "agent is offline" _
    ∙ core-ws_send server (err_frame (str "agent is offline")) s
core-tell_agent server sid cmd (some ws) s = core-ws_send ws (open_frame sid cmd) s

open_term-IsSound :
    (sid : String) (p : Pend) (s : Fleet)
    → lookup sid s.pends ≡ some p
    → IsSound (core s)
    → IsSound (core (open_term sid p s).0)
unfolding open_term agents is_agent_of opened has_tag same mid_of
open_term-IsSound sid p s found v = rw (core-tell_agent s.next_id sid p.cmd _ _) (
    join-IsSound (core s) _ (delete sid s.pends) refl (λ m. omega arith)
      (λ k. ground (arith, v.once k, eq_iff sid k, eq_iff k sid, lookup-delete sid k s.pends))
      (Unique-delete sid s.pends v.unique) v)

pub upgrade_term-IsSound :
    (rt : Runtime) (now : ℕ) (sid key : String) (s : Fleet)
    → IsSound (core s)
    → IsSound (core (upgrade_term rt now sid key s).0)
unfolding upgrade_term
upgrade_term-IsSound rt now sid key s v = elim (Option-cases (lookup sid s.pends)) [
  | inl none_pending ↦ rw (none_pending, open_if) v
  | inr (p, found) ↦
      rw (found, open_if)
        (if-both Keeps (key_fits rt now key p) (open_term-IsSound sid p s found v) v)
]
