-- ===== src/Fleet/Sweeps.antt =====
-- What an alarm of worker/src/fleet.js does: which session keys and which agents it sweeps.
use popfleet.Base.{
  ℕ, ◌≤◌, ◌-◌, String, Bool, false, List, [], ◌∷◌, Option, none, some, ltb, if◌then◌else◌, if-both,
  ◌≡◌, ◌↔◌, refl, ap, ◌∙◌, arith, eq_iff,
}
use popfleet.Dict.{Dict, lookup}
use popfleet.Dict.Laws.{Unique}
use popfleet.Fleet.State.{
  Fleet, Machine, Pend, Attachment, blank, pending, agent, term, replaced, dead_ms, hello_ms,
}
use popfleet.Fleet.Sockets.{attach, last_seen_of, drop_agent}
use popfleet.Fleet.Lifecycle.{
  sweep_pends, Sweep, sweep_kind, sweep_sockets, connected_ids, any_pend, alarm, save_seen,
  save_seen_in,
}
use popfleet.Fleet.Core.{Core, core-drop_agent, core-ws_close}
use popfleet.Fleet.Soundness.Lifecycle.{expired_in, lookup-sweep_pends}

-- The loop over the sockets leaves the session keys alone.
pends-save_seen_in :
    (mid : String) (at : ℕ) (m : Option Machine) (s : Fleet)
    → (save_seen_in mid at m s).pends ≡ s.pends
pends-save_seen_in mid at none s = refl
pends-save_seen_in mid at (some m) s = refl

pends-sweep_kind :
    (now ws : ℕ) (a : Attachment) (w : Sweep) → (sweep_kind now ws a w).fleet.pends ≡ w.fleet.pends
unfolding sweep_kind save_seen
pends-sweep_kind now ws blank w = refl
pends-sweep_kind now ws (pending since) w =
    if-both (λ (x : Sweep). x.fleet.pends ≡ w.fleet.pends) (ltb hello_ms (now - since))
      (ap (λ (c : Core). c.pends) (core-ws_close ws 1002 "no hello" w.fleet)) refl
pends-sweep_kind now ws (agent mid seen) w =
    let dropped = drop_agent ws "agent went offline" w.fleet in
    if-both (λ (x : Sweep). x.fleet.pends ≡ w.fleet.pends)
      (ltb dead_ms (now - last_seen_of w.fleet ws))
      (pends-save_seen_in mid (last_seen_of dropped ws) (lookup mid dropped.machines) dropped
        ∙ ap (λ (c : Core). c.pends) (core-drop_agent ws "agent went offline" w.fleet))
      refl
pends-sweep_kind now ws (term sid mid) w = refl
pends-sweep_kind now ws replaced w = refl

pub pends-sweep_sockets :
    (now : ℕ) (wss : List ℕ) (w : Sweep) → (sweep_sockets now wss w).fleet.pends ≡ w.fleet.pends
unfolding sweep_sockets
pends-sweep_sockets now [] w = refl
pends-sweep_sockets now (ws ∷ rest) w =
    let a = attach w.fleet ws in
    pends-sweep_sockets now rest (sweep_kind now ws a w) ∙ pends-sweep_kind now ws a w

abbrev pub expired : ℕ → Option Pend → Bool
expired now none = false
expired now (some p) = ltb p.exp now

expired_in-absent :
    (now : ℕ) (sid : String) (m : Dict Pend) → lookup sid m ≡ none → expired_in now sid m ≡ false
unfolding expired_in lookup
expired_in-absent now sid [] h = refl
expired_in-absent now sid ((k, p) ∷ m) h = ground (arith, expired_in-absent now sid m)

expired_in-lookup :
    (now : ℕ) (sid : String) (m : Dict Pend)
    → Unique m
    → expired_in now sid m ≡ expired now (lookup sid m)
unfolding expired_in lookup
expired_in-lookup now sid [] u = refl
expired_in-lookup now sid ((k, p) ∷ m) u =
    ground (arith, eq_iff k sid, expired_in-lookup now sid m u.1, expired_in-absent now sid m)

pub lookup-alarm :
    (now : ℕ) (sid : String) (s : Fleet)
    → Unique s.pends
    → lookup sid (alarm now s).pends
      ≡ (if expired now (lookup sid s.pends) then none else lookup sid s.pends)
unfolding alarm
lookup-alarm now sid s u =
    ap (lookup sid) (
      pends-sweep_sockets now (connected_ids s.sockets) (record {
        live = any_pend s.pends;
        fleet = record s { pends = sweep_pends now s.pends s.pends };
      }))
    ∙ lookup-sweep_pends now sid s.pends s.pends
    ∙ ap (λ b. if b then none else lookup sid s.pends) (expired_in-lookup now sid s.pends u)

-- After an alarm a session is pending exactly if it was before and its key has not expired.
pub alarm_sweeps_keys :
    (now : ℕ) (sid : String) (p : Pend) (s : Fleet)
    → Unique s.pends
    → (lookup sid (alarm now s).pends ≡ some p) ↔ ((lookup sid s.pends ≡ some p) × (now ≤ p.exp))
alarm_sweeps_keys now sid p s u = ground (arith, lookup-alarm now sid s u)
