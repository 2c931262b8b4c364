-- ===== src/Fleet/Armed/Always.antt =====
-- The alarm of worker/src/fleet.js is set, after every event, while anything is there to sweep.
use popfleet.Base.{
  ℕ, ◌<◌, true, false, List, [], ◌∷◌, Bool-cases, inl, inr, ◌≡◌, refl, sym, ap, ◌∙◌, arith,
}
use popfleet.Dict.{Dict}
use popfleet.Fleet.State.{Fleet, Socket, Pend}
use popfleet.Fleet.Sockets.{find_socket}
use popfleet.Fleet.Lifecycle.{any_pend, sweep_pends, Sweep, sweep_sockets, connected_ids, alarm}
use popfleet.Fleet.Counts.{Below}
use popfleet.Fleet.Farewells.{elem}
use popfleet.Fleet.Core.{core, bare}
use popfleet.Fleet.Soundness.{IsSound}
use popfleet.Fleet.Soundness.Lifecycle.{alarm-IsSound}
use popfleet.Fleet.Sweeps.{pends-sweep_sockets}
use popfleet.Fleet.Armed.{IsArmed, any_live}
use popfleet.Fleet.Armed.LiveAt.{live_option, live_at}
use popfleet.Fleet.Armed.Alarm.{
  live-sweep_sockets, sweep_sockets-dead, ids-sweep_sockets, connected_ids-bare,
}

elem-Below : (n ws : ℕ) (ks : List Socket) → Below n ks → elem ws (connected_ids ks) ≡ true → ws < n
unfolding connected_ids
elem-Below n ws [] b h = cc
elem-Below n ws (k ∷ ks) b h = ground (arith, elem-Below k.id ws ks b.1)

any_live-dead :
    (n : ℕ) (ks : List Socket)
    → Below n ks
    → ((ws : ℕ) → elem ws (connected_ids ks) ≡ true → live_option (find_socket ws ks) ≡ false)
    → any_live ks ≡ false
unfolding any_live connected_ids find_socket
any_live-dead n [] b h = refl
any_live-dead n (k ∷ ks) b h =
    let later =
      any_live-dead k.id ks b.1 (λ ws m. ground (arith, h ws, elem-Below k.id ws ks b.1 m)) in
    ground (arith, later, h k.id)

pub Below-bare : (n : ℕ) (ks : List Socket) → Below n (bare ks) → Below n ks
Below-bare n [] b = tt
Below-bare n (k ∷ ks) b = (b.0, Below-bare k.id ks b.1)

abbrev first_sweep : ℕ → Fleet → Sweep
first_sweep now s = record {
  live = any_pend s.pends;
  fleet = record s { pends = sweep_pends now s.pends s.pends };
}

abbrev swept : ℕ → Fleet → Sweep
swept now s = sweep_sockets now (connected_ids s.sockets) (first_sweep now s)

no_pends :
    (now : ℕ) (ps : Dict Pend) → any_pend ps ≡ false → any_pend (sweep_pends now ps ps) ≡ false
unfolding sweep_pends
no_pends now [] h = refl
no_pends now (p ∷ ps) h = cc

swept_ids :
    (now : ℕ) (s : Fleet) → connected_ids (swept now s).fleet.sockets ≡ connected_ids s.sockets
swept_ids now s =
    sym (connected_ids-bare (swept now s).fleet.sockets)
    ∙ ids-sweep_sockets now (connected_ids s.sockets) (first_sweep now s)
    ∙ connected_ids-bare s.sockets

swept_live :
    (now : ℕ) (s : Fleet)
    → IsSound (core s)
    → (swept now s).live ≡ false
    → any_live (swept now s).fleet.sockets ≡ false
unfolding alarm live_at
swept_live now s v quiet =
    let after = (swept now s).fleet in
    any_live-dead after.next_id after.sockets
      (Below-bare after.next_id after.sockets (alarm-IsSound now s v).ids)
      (λ ws m.
        sweep_sockets-dead now (connected_ids s.sockets) ws (first_sweep now s)
          (ap (elem ws) (sym (swept_ids now s)) ∙ m) quiet)

swept_pends :
    (now : ℕ) (s : Fleet) → (swept now s).live ≡ false → any_pend (swept now s).fleet.pends ≡ false
swept_pends now s quiet =
    ap any_pend (pends-sweep_sockets now (connected_ids s.sockets) (first_sweep now s))
    ∙ no_pends now s.pends
        (live-sweep_sockets now (connected_ids s.sockets) (first_sweep now s) quiet)

pub alarm-IsArmed : (now : ℕ) (s : Fleet) → IsSound (core s) → IsArmed (alarm now s)
unfolding alarm
alarm-IsArmed now s v need = elim (Bool-cases (swept now s).live) [
  | inl living ↦ rw living refl
  | inr quiet ↦ cc (need, swept_live now s v quiet, swept_pends now s quiet)
]
