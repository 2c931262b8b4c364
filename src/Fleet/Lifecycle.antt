-- ===== src/Fleet/Lifecycle.antt =====
-- `reap` (the handlers `webSocketClose` and `webSocketError`) and `alarm` of worker/src/fleet.js.
use popfleet.Base.{
  ℕ, max, ◌+◌, ◌-◌, String, Bool, true, false, List, [], ◌∷◌, Option, none, some, ltb,
  if◌then◌else◌,
}
use popfleet.Dict.{Dict, lookup, put, delete}
use popfleet.Fleet.State.{
  Fleet, Machine, Pend, Socket, Attachment, blank, pending, agent, term, replaced, close_frame,
  hello_ms, dead_ms, sweep_ms,
}
use popfleet.Fleet.Sockets.{attach, agent_socket, last_seen_of, ws_send, ws_close, drop_agent}

abbrev pub tell_close : String → Option ℕ → Fleet → Fleet
tell_close sid none s = s
tell_close sid (some ws) s = ws_send ws (close_frame sid) s

abbrev pub seen_machine : ℕ → Machine → Machine
seen_machine at machine = record machine { last_seen = max machine.last_seen at }

abbrev pub save_seen_in : String → ℕ → Option Machine → Fleet → Fleet
save_seen_in mid at none s = s
save_seen_in mid at (some machine) s = record s {
  machines = put mid (seen_machine at machine) s.machines;
}

-- The machine's `lastSeen`, from its socket as it is now.
unfoldable pub save_seen : String → ℕ → Fleet → Fleet
unfolding lookup put last_seen_of
save_seen mid ws s = save_seen_in mid (last_seen_of s ws) (lookup mid s.machines) s

unfoldable pub reap_kind : ℕ → Attachment → Fleet → Fleet
unfolding agent_socket ws_send save_seen drop_agent
reap_kind ws (term sid mid) s = tell_close sid (agent_socket s (some mid)) s
reap_kind ws (agent mid seen) s = save_seen mid ws (drop_agent ws "agent went offline" s)
reap_kind ws blank s = s
reap_kind ws (pending since) s = s
reap_kind ws replaced s = s

unfoldable pub reap : ℕ → Fleet → Fleet
unfolding reap_kind attach
reap ws s = reap_kind ws (attach s ws) s

-- The loop over the session keys.
unfoldable pub sweep_pends : ℕ → Dict Pend → Dict Pend → Dict Pend
unfolding delete
sweep_pends now [] m = m
sweep_pends now ((k, p) ∷ ps) m = sweep_pends now ps (if ltb p.exp now then delete k m else m)

-- The state of the loop over the sockets.
pub record Sweep : Type 0 where
  pub live : Bool
  pub fleet : Fleet

unfoldable pub sweep_kind : ℕ → ℕ → Attachment → Sweep → Sweep
unfolding ws_close last_seen_of save_seen drop_agent
sweep_kind now ws (pending since) w =
    if ltb hello_ms (now - since)
    then record w { fleet = ws_close ws 1002 "no hello" w.fleet }
    else record w { live = true }
sweep_kind now ws (agent mid seen) w =
    if ltb dead_ms (now - last_seen_of w.fleet ws)
    then record w { fleet = save_seen mid ws (drop_agent ws "agent went offline" w.fleet) }
    else record w { live = true }
sweep_kind now ws (term sid mid) w = record w { live = true }
sweep_kind now ws blank w = w
sweep_kind now ws replaced w = w

unfoldable pub sweep_sockets : ℕ → List ℕ → Sweep → Sweep
unfolding sweep_kind attach
sweep_sockets now [] w = w
sweep_sockets now (ws ∷ rest) w = sweep_sockets now rest (sweep_kind now ws (attach w.fleet ws) w)

-- `getWebSockets()`.
unfoldable pub connected_ids : List Socket → List ℕ
connected_ids [] = []
connected_ids (k ∷ ks) = let rest = connected_ids ks in if k.connected then k.id ∷ rest else rest

abbrev pub any_pend : Dict Pend → Bool
any_pend [] = false
any_pend (p ∷ ps) = true

abbrev pub rearm : ℕ → Sweep → Fleet
rearm now w = record w.fleet { alarm = if w.live then some (now + sweep_ms) else w.fleet.alarm }

-- The runtime has cleared the alarm that it fires.
unfoldable pub alarm : ℕ → Fleet → Fleet
unfolding sweep_sockets sweep_pends connected_ids
alarm now s = rearm now (
    sweep_sockets now (connected_ids s.sockets) (record {
      live = any_pend s.pends;
      fleet = record s { pends = sweep_pends now s.pends s.pends };
    }))
