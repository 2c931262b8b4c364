-- ===== src/Fleet/Soundness/Lifecycle.antt =====
-- `reap` and `alarm` of worker/src/fleet.js keep the invariant; which session keys the alarm sweeps.
use popfleet.Base.{
  ℕ, String, Bool, false, true, Option, none, some, ◌≡◌, refl, sym, subst, arith, List, [], ◌∷◌,
  str_eq, ltb, if-both, if◌then◌else◌,
}
use popfleet.Dict.{Dict, lookup, delete}
use popfleet.Dict.Laws.{lookup-delete, Unique, Unique-delete}
use popfleet.Fleet.State.{
  Fleet, Machine, Pend, Attachment, blank, pending, agent, term, replaced, close_frame,
}
use popfleet.Fleet.Sockets.{attach, agent_socket, last_seen_of, drop_agent}
use popfleet.Fleet.Lifecycle.{
  tell_close, seen_machine, save_seen_in, save_seen, reap_kind, reap, sweep_pends, Sweep,
  sweep_kind, sweep_sockets, connected_ids, alarm,
}
use popfleet.Fleet.Core.{Core, core, core-ws_send, core-ws_close, core-drop_agent}
use popfleet.Fleet.Soundness.{IsSound, retire-IsSound, put_back-IsSound}

save_seen_in-IsSound :
    (mid : String) (at : ℕ) (found : Option Machine) (s : Fleet)
    → lookup mid s.machines ≡ found
    → IsSound (core s)
    → IsSound (core (save_seen_in mid at found s))
save_seen_in-IsSound mid at none s e v = v
save_seen_in-IsSound mid at (some m) s e v =
    put_back-IsSound (core s) mid (seen_machine at m) m e refl v

save_seen-IsSound :
    (mid : String) (ws : ℕ) (s : Fleet) → IsSound (core s) → IsSound (core (save_seen mid ws s))
unfolding save_seen
save_seen-IsSound mid ws s v =
    save_seen_in-IsSound mid (last_seen_of s ws) (lookup mid s.machines) s refl v

drop_agent-IsSound :
    (ws : ℕ) (why : String) (s : Fleet) → IsSound (core s) → IsSound (core (drop_agent ws why s))
drop_agent-IsSound ws why s v =
    subst IsSound (sym (core-drop_agent ws why s)) (retire-IsSound (core s) ws v)

core-tell_close : (sid : String) (ws : Option ℕ) (s : Fleet) → core (tell_close sid ws s) ≡ core s
core-tell_close sid none s = refl
core-tell_close sid (some ws) s = core-ws_send ws (close_frame sid) s

reap_kind-IsSound :
    (ws : ℕ) (a : Attachment) (s : Fleet) → IsSound (core s) → IsSound (core (reap_kind ws a s))
unfolding reap_kind
reap_kind-IsSound ws blank s v = v
reap_kind-IsSound ws (pending since) s v = v
reap_kind-IsSound ws (agent mid seen) s v =
    save_seen-IsSound mid ws _ (drop_agent-IsSound ws "agent went offline" s v)
reap_kind-IsSound ws (term sid mid) s v =
    subst IsSound (sym (core-tell_close sid (agent_socket s (some mid)) s)) v
reap_kind-IsSound ws replaced s v = v

pub reap-IsSound : (ws : ℕ) (s : Fleet) → IsSound (core s) → IsSound (core (reap ws s))
unfolding reap
reap-IsSound ws s v = reap_kind-IsSound ws (attach s ws) s v

-- Whether the loop deletes the key `sid`.
unfoldable pub expired_in : ℕ → String → Dict Pend → Bool
expired_in now sid [] = false
expired_in now sid ((k, p) ∷ ps) =
    if str_eq k sid
    then (if ltb p.exp now then true else expired_in now sid ps)
    else expired_in now sid ps

pub lookup-sweep_pends :
    (now : ℕ) (sid : String) (ps m : Dict Pend)
    → lookup sid (sweep_pends now ps m) ≡ (if expired_in now sid ps then none else lookup sid m)
unfolding sweep_pends expired_in
lookup-sweep_pends now sid [] m = refl
lookup-sweep_pends now sid ((k, p) ∷ ps) m = ground (
  arith,
  lookup-sweep_pends now sid ps (if ltb p.exp now then delete k m else m),
  lookup-delete k sid m,
)

Unique-sweep_pends : (now : ℕ) (ps m : Dict Pend) → Unique m → Unique (sweep_pends now ps m)
unfolding sweep_pends
Unique-sweep_pends now [] m u = u
Unique-sweep_pends now ((k, p) ∷ ps) m u =
    Unique-sweep_pends now ps _ (if-both Unique (ltb p.exp now) (Unique-delete k m u) u)

sweep_pends-IsSound :
    (now : ℕ) (c : Core)
    → IsSound c
    → IsSound (record c { pends = sweep_pends now c.pends c.pends })
sweep_pends-IsSound now c v = record {
  ids = v.ids;
  sole = v.sole;
  vouched = v.vouched;
  once = λ sid. ground (arith, v.once sid, lookup-sweep_pends now sid c.pends c.pends);
  unique = Unique-sweep_pends now c.pends c.pends v.unique;
}

sweep_kind-IsSound :
    (now ws : ℕ) (a : Attachment) (w : Sweep)
    → IsSound (core w.fleet)
    → IsSound (core (sweep_kind now ws a w).fleet)
unfolding sweep_kind
sweep_kind-IsSound now ws blank w v = v
sweep_kind-IsSound now ws (pending since) w v =
    if-both (λ (x : Sweep). IsSound (core x.fleet)) _
      (subst IsSound (sym (core-ws_close ws 1002 "no hello" w.fleet)) v) v
sweep_kind-IsSound now ws (agent mid seen) w v =
    if-both (λ (x : Sweep). IsSound (core x.fleet)) _
      (save_seen-IsSound mid ws _ (drop_agent-IsSound ws "agent went offline" w.fleet v)) v
sweep_kind-IsSound now ws (term sid mid) w v = v
sweep_kind-IsSound now ws replaced w v = v

sweep_sockets-IsSound :
    (now : ℕ) (wss : List ℕ) (w : Sweep)
    → IsSound (core w.fleet)
    → IsSound (core (sweep_sockets now wss w).fleet)
unfolding sweep_sockets
sweep_sockets-IsSound now [] w v = v
sweep_sockets-IsSound now (ws ∷ rest) w v =
    sweep_sockets-IsSound now rest (sweep_kind now ws (attach w.fleet ws) w)
      (sweep_kind-IsSound now ws (attach w.fleet ws) w v)

pub alarm-IsSound : (now : ℕ) (s : Fleet) → IsSound (core s) → IsSound (core (alarm now s))
unfolding alarm
alarm-IsSound now s v =
    sweep_sockets-IsSound now (connected_ids s.sockets) _ (sweep_pends-IsSound now (core s) v)
