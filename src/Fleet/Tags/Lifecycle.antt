-- ===== src/Fleet/Tags/Lifecycle.antt =====
-- `reap`, `alarm` and DELETE of worker/src/fleet.js keep tags and attachments in order.
use popfleet.Base.{
  ℕ, ◌-◌, String, true, List, [], ◌∷◌, Option, none, some, ltb, if-both, ◌≡◌, refl, Option-cases,
  inl, inr,
}
use popfleet.Dict.{lookup}
use popfleet.Fleet.State.{
  Fleet, Machine, Attachment, blank, pending, agent, term, replaced, hello_ms, dead_ms, close_frame,
}
use popfleet.Fleet.Sockets.{attach, agent_socket, drop_agent, last_seen_of}
use popfleet.Fleet.Api.{forget, revoke, delete_machine}
use popfleet.Fleet.Lifecycle.{
  tell_close, save_seen, save_seen_in, reap_kind, reap, Sweep, sweep_kind, sweep_sockets, alarm,
  connected_ids, any_pend, sweep_pends,
}
use popfleet.Fleet.Tags.{Tagged, on_agent, speaks, on_agent-attach, on_agent-agent_socket}
use popfleet.Fleet.Tags.Keeps.{
  Keeps, Keeps-refl, Keeps-then, ws_send-Keeps, ws_close-Keeps, drop_agent-Keeps,
}

save_seen-Keeps : (mid : String) (ws : ℕ) (s : Fleet) → Keeps s (save_seen mid ws s)
unfolding save_seen
save_seen-Keeps mid ws s = elim (Option-cases (lookup mid s.machines)) [
  | inl e ↦ rw (e, save_seen_in) (Keeps-refl s)
  | inr (m, e) ↦ rw (e, save_seen_in) record { tagged = λ v. v; sides = λ u. refl }
]

tell_close-Keeps : (sid : String) (to : Option ℕ) (s : Fleet) → Keeps s (tell_close sid to s)
tell_close-Keeps sid none s = Keeps-refl s
tell_close-Keeps sid (some ws) s = ws_send-Keeps ws (close_frame sid) s

-- An agent whose connection is over.
lost-Keeps :
    (mid : String) (ws : ℕ) (s : Fleet)
    → on_agent ws s.sockets ≡ true
    → Keeps s (save_seen mid ws (drop_agent ws "agent went offline" s))
lost-Keeps mid ws s on =
    Keeps-then (drop_agent-Keeps ws "agent went offline" s on)
      (save_seen-Keeps mid ws (drop_agent ws "agent went offline" s))

reap_kind-Keeps :
    (ws : ℕ) (a : Attachment) (s : Fleet)
    → (speaks a ≡ true → on_agent ws s.sockets ≡ true)
    → Keeps s (reap_kind ws a s)
unfolding reap_kind
reap_kind-Keeps ws blank s on = Keeps-refl s
reap_kind-Keeps ws (pending since) s on = Keeps-refl s
reap_kind-Keeps ws replaced s on = Keeps-refl s
reap_kind-Keeps ws (agent mid seen) s on = lost-Keeps mid ws s (on refl)
reap_kind-Keeps ws (term sid mid) s on = tell_close-Keeps sid (agent_socket s (some mid)) s

pub reap-Tagged : (ws : ℕ) (s : Fleet) → Tagged s → Tagged (reap ws s)
unfolding reap
reap-Tagged ws s v = (reap_kind-Keeps ws (attach s ws) s (on_agent-attach ws s v)).tagged v

sweep_kind-Keeps :
    (now ws : ℕ) (a : Attachment) (w : Sweep)
    → (speaks a ≡ true → on_agent ws w.fleet.sockets ≡ true)
    → Keeps w.fleet (sweep_kind now ws a w).fleet
unfolding sweep_kind
sweep_kind-Keeps now ws blank w on = Keeps-refl w.fleet
sweep_kind-Keeps now ws replaced w on = Keeps-refl w.fleet
sweep_kind-Keeps now ws (term sid mid) w on = Keeps-refl w.fleet
sweep_kind-Keeps now ws (pending since) w on =
    if-both (λ (r : Sweep). Keeps w.fleet r.fleet) (ltb hello_ms (now - since))
      (ws_close-Keeps ws 1002 "no hello" w.fleet) (Keeps-refl w.fleet)
sweep_kind-Keeps now ws (agent mid seen) w on =
    if-both (λ (r : Sweep). Keeps w.fleet r.fleet) (ltb dead_ms (now - last_seen_of w.fleet ws))
      (lost-Keeps mid ws w.fleet (on refl)) (Keeps-refl w.fleet)

sweep_sockets-Tagged :
    (now : ℕ) (wss : List ℕ) (w : Sweep) → Tagged w.fleet → Tagged (sweep_sockets now wss w).fleet
unfolding sweep_sockets
sweep_sockets-Tagged now [] w v = v
sweep_sockets-Tagged now (ws ∷ rest) w v =
    let a = attach w.fleet ws in
    sweep_sockets-Tagged now rest (sweep_kind now ws a w)
      ((sweep_kind-Keeps now ws a w (on_agent-attach ws w.fleet v)).tagged v)

pub alarm-Tagged : (now : ℕ) (s : Fleet) → Tagged s → Tagged (alarm now s)
unfolding alarm
alarm-Tagged now s v =
    let swept = record s { pends = sweep_pends now s.pends s.pends } in
    sweep_sockets-Tagged now (connected_ids s.sockets)
      (record { live = any_pend s.pends; fleet = swept }) v

revoke-Tagged :
    (mid : String) (m : Option Machine) (s : Fleet) → Tagged s → Tagged (revoke mid m s).0
revoke-Tagged mid none s v = v
revoke-Tagged mid (some m) s v =
    let s' = forget mid m s in
    elim (Option-cases (agent_socket s' (some mid))) [
      | inl e ↦ rw e v
      | inr (ws, e) ↦ rw e (
          (drop_agent-Keeps ws "machine revoked" s'
              (on_agent-agent_socket (some mid) ws s' v e)).tagged
            v)
    ]

pub delete_machine-Tagged : (mid : String) (s : Fleet) → Tagged s → Tagged (delete_machine mid s).0
unfolding delete_machine
delete_machine-Tagged mid s v = revoke-Tagged mid (lookup mid s.machines) s v
