-- ===== src/Fleet/Armed/Alarm.antt =====
-- An alarm of worker/src/fleet.js sets the next one if it leaves anything to sweep.
use native.Mathlib.Decide.{ℕ_discrete}
use popfleet.Base.{
  ℕ, ◌-◌, String, true, false, List, [], ◌∷◌, Option, none, some, ltb, if-both, ◌≡◌, refl, ap, ◌∙◌,
  arith,
}
use popfleet.Dict.{lookup}
use popfleet.Fleet.State.{
  Fleet, Socket, Attachment, blank, pending, agent, term, replaced, hello_ms, dead_ms, Machine,
}
use popfleet.Fleet.Sockets.{modify, with_attachment, drop_agent, attach, last_seen_of}
use popfleet.Fleet.Lifecycle.{
  Sweep, sweep_kind, sweep_sockets, connected_ids, save_seen, save_seen_in,
}
use popfleet.Fleet.Farewells.{elem}
use popfleet.Fleet.Core.{Core, bare, core-drop_agent, core-ws_close}
use popfleet.Fleet.Armed.LiveAt.{
  live_at, live_at-ws_close, live_at-swept, live_at-attach, live_at-closed, live_at-dropped,
  live_at-save_seen, not_true,
}

-- No round makes a socket live that was not.
live_at-sweep_kind :
    (now u ws : ℕ) (a : Attachment) (w : Sweep)
    → live_at (sweep_kind now u a w).fleet ws ≡ true
    → live_at w.fleet ws ≡ true
unfolding sweep_kind
live_at-sweep_kind now u ws blank w h = h
live_at-sweep_kind now u ws (pending since) w h =
    if-both (λ (x : Sweep). live_at x.fleet ws ≡ true → live_at w.fleet ws ≡ true)
      (ltb hello_ms (now - since)) (live_at-ws_close u ws w.fleet 1002 "no hello") (λ e. e) h
live_at-sweep_kind now u ws (agent mid seen) w h =
    if-both (λ (x : Sweep). live_at x.fleet ws ≡ true → live_at w.fleet ws ≡ true)
      (ltb dead_ms (now - last_seen_of w.fleet u)) (live_at-swept mid u ws w.fleet) (λ e. e) h
live_at-sweep_kind now u ws (term sid mid) w h = h
live_at-sweep_kind now u ws replaced w h = h

-- No round takes the mark back that something lives.
live-sweep_kind :
    (now u : ℕ) (a : Attachment) (w : Sweep) → (sweep_kind now u a w).live ≡ false → w.live ≡ false
unfolding sweep_kind
live-sweep_kind now u blank w h = h
live-sweep_kind now u (pending since) w h = ground arith
live-sweep_kind now u (agent mid seen) w h = ground arith
live-sweep_kind now u (term sid mid) w h = cc
live-sweep_kind now u replaced w h = h

-- A round on the socket itself marks that it lives, or leaves it not live.
live_at-round :
    (now ws : ℕ) (a : Attachment) (w : Sweep)
    → attach w.fleet ws ≡ a
    → (sweep_kind now ws a w).live ≡ false
    → live_at (sweep_kind now ws a w).fleet ws ≡ false
unfolding sweep_kind
live_at-round now ws blank w e h = live_at-attach ws w.fleet blank e refl
live_at-round now ws (pending since) w e h =
    ground (arith, live_at-closed ws 1002 "no hello" since w.fleet e)
live_at-round now ws (agent mid seen) w e h =
    let left = drop_agent ws "agent went offline" w.fleet in
    ground
      (arith, live_at-save_seen mid ws ws left, live_at-dropped ws "agent went offline" w.fleet)
live_at-round now ws (term sid mid) w e h = cc
live_at-round now ws replaced w e h = live_at-attach ws w.fleet replaced e refl

pub live-sweep_sockets :
    (now : ℕ) (wss : List ℕ) (w : Sweep) → (sweep_sockets now wss w).live ≡ false → w.live ≡ false
unfolding sweep_sockets
live-sweep_sockets now [] w h = h
live-sweep_sockets now (u ∷ rest) w h =
    let a = attach w.fleet u in
    live-sweep_kind now u a w (live-sweep_sockets now rest (sweep_kind now u a w) h)

live_at-sweep_sockets :
    (now : ℕ) (wss : List ℕ) (ws : ℕ) (w : Sweep)
    → live_at (sweep_sockets now wss w).fleet ws ≡ true
    → live_at w.fleet ws ≡ true
unfolding sweep_sockets
live_at-sweep_sockets now [] ws w h = h
live_at-sweep_sockets now (u ∷ rest) ws w h =
    let a = attach w.fleet u in
    live_at-sweep_kind now u ws a w (live_at-sweep_sockets now rest ws (sweep_kind now u a w) h)

-- If nothing was marked as living, none of the sockets that were visited is live.
pub sweep_sockets-dead :
    (now : ℕ) (wss : List ℕ) (ws : ℕ) (w : Sweep)
    → elem ws wss ≡ true
    → (sweep_sockets now wss w).live ≡ false
    → live_at (sweep_sockets now wss w).fleet ws ≡ false
unfolding sweep_sockets
sweep_sockets-dead now [] ws w m h = cc
sweep_sockets-dead now (u ∷ rest) ws w m h = elim (ℕ_discrete u ws) [
  | no other ↦
      sweep_sockets-dead now rest ws (sweep_kind now u (attach w.fleet u) w) (ground arith) h
  | yes e ↦
      let a = attach w.fleet u in
      let w' = sweep_kind now u a w in
      let dead : live_at w'.fleet u ≡ false =
        live_at-round now u a w refl (live-sweep_sockets now rest w' h) in
      not_true _ (λ t. cc (live_at-sweep_sockets now rest ws w' t, ap (live_at w'.fleet) e, dead))
]

-- Which sockets are connected stays as it is.
pub connected_ids-bare : (ks : List Socket) → connected_ids (bare ks) ≡ connected_ids ks
unfolding connected_ids
connected_ids-bare [] = refl
connected_ids-bare (k ∷ ks) = ground (arith, connected_ids-bare ks)

connected_ids-modify :
    (ws : ℕ) (a : Attachment) (ks : List Socket)
    → connected_ids (modify ws (with_attachment a) ks) ≡ connected_ids ks
unfolding connected_ids modify
connected_ids-modify ws a [] = refl
connected_ids-modify ws a (k ∷ ks) = ground (arith, connected_ids-modify ws a ks)

sockets-save_seen_in :
    (mid : String) (at : ℕ) (m : Option Machine) (s : Fleet)
    → (save_seen_in mid at m s).sockets ≡ s.sockets
sockets-save_seen_in mid at none s = refl
sockets-save_seen_in mid at (some m) s = refl

abbrev pub ids_of : Fleet → List ℕ
ids_of s = connected_ids (bare s.sockets)

ids-sweep_kind :
    (now ws : ℕ) (a : Attachment) (w : Sweep)
    → ids_of (sweep_kind now ws a w).fleet ≡ ids_of w.fleet
unfolding sweep_kind save_seen
ids-sweep_kind now ws blank w = refl
ids-sweep_kind now ws (pending since) w =
    if-both (λ (x : Sweep). ids_of x.fleet ≡ ids_of w.fleet) (ltb hello_ms (now - since))
      (ap (λ (c : Core). connected_ids c.sockets) (core-ws_close ws 1002 "no hello" w.fleet)) refl
ids-sweep_kind now ws (agent mid seen) w =
    let left = drop_agent ws "agent went offline" w.fleet in
    if-both (λ (x : Sweep). ids_of x.fleet ≡ ids_of w.fleet)
      (ltb dead_ms (now - last_seen_of w.fleet ws))
      (ap (λ ks. connected_ids (bare ks))
          (sockets-save_seen_in mid (last_seen_of left ws) (lookup mid left.machines) left)
        ∙ ap (λ (c : Core). connected_ids c.sockets)
            (core-drop_agent ws "agent went offline" w.fleet)
        ∙ connected_ids-modify ws replaced (bare w.fleet.sockets))
      refl
ids-sweep_kind now ws (term sid mid) w = refl
ids-sweep_kind now ws replaced w = refl

pub ids-sweep_sockets :
    (now : ℕ) (wss : List ℕ) (w : Sweep) → ids_of (sweep_sockets now wss w).fleet ≡ ids_of w.fleet
unfolding sweep_sockets
ids-sweep_sockets now [] w = refl
ids-sweep_sockets now (u ∷ rest) w =
    let a = attach w.fleet u in
    ids-sweep_sockets now rest (sweep_kind now u a w) ∙ ids-sweep_kind now u a w
