-- ===== src/Fleet/Silence.antt =====
-- Agents that went silent: the deadline that an alarm of worker/src/fleet.js enforces.
use popfleet.Base.{
  ℕ, max, ◌-◌, String, true, List, [], ◌∷◌, Option, none, some, ◌==◌, ltb, if◌then◌else◌, if-both,
  ◌≡◌, ◌≢◌, refl, sym, ap, subst, ◌∙◌, arith,
}
use native.Mathlib.Decide.{ℕ_discrete}
use popfleet.Dict.{lookup}
use popfleet.Fleet.State.{
  Fleet, Machine, Socket, Attachment, blank, pending, agent, term, replaced, dead_ms, hello_ms,
}
use popfleet.Fleet.Sockets.{attach, attachment_of, seen_of, find_socket, last_seen_of, drop_agent}
use popfleet.Fleet.Lifecycle.{
  sweep_pends, Sweep, sweep_kind, sweep_sockets, connected_ids, any_pend, alarm, save_seen,
  save_seen_in,
}
use popfleet.Fleet.Looks.{
  Look, look, present, look-attach, look-ws_close, look-drop_agent_ne, look-drop_agent_self,
}
use popfleet.Fleet.Farewells.{elem}

look-save_seen_in :
    (mid : String) (at : ℕ) (m : Option Machine) (ws : ℕ) (s : Fleet)
    → look (save_seen_in mid at m s) ws ≡ look s ws
unfolding look
look-save_seen_in mid at none ws s = refl
look-save_seen_in mid at (some m) ws s = refl

look-save_seen : (mid : String) (u ws : ℕ) (s : Fleet) → look (save_seen mid u s) ws ≡ look s ws
unfolding save_seen
look-save_seen mid u ws s = look-save_seen_in mid (last_seen_of s u) (lookup mid s.machines) ws s

pub last_seen-look :
    (s : Fleet) (ws : ℕ) → last_seen_of s ws ≡ max (seen_of (look s ws).attachment) (look s ws).auto
unfolding last_seen_of look attach
last_seen-look s ws = refl

-- A round of the sweep for another socket.
look-sweep_kind_ne :
    (now u ws : ℕ) (a : Attachment) (w : Sweep)
    → u ≢ ws
    → look (sweep_kind now u a w).fleet ws ≡ look w.fleet ws
unfolding sweep_kind
look-sweep_kind_ne now u ws blank w h = refl
look-sweep_kind_ne now u ws (pending since) w h =
    if-both (λ (x : Sweep). look x.fleet ws ≡ look w.fleet ws) (ltb hello_ms (now - since))
      (look-ws_close u 1002 "no hello" ws w.fleet) refl
look-sweep_kind_ne now u ws (agent mid seen) w h =
    let dropped = drop_agent u "agent went offline" w.fleet in
    if-both (λ (x : Sweep). look x.fleet ws ≡ look w.fleet ws)
      (ltb dead_ms (now - last_seen_of w.fleet u))
      (look-save_seen mid u ws dropped ∙ look-drop_agent_ne u ws "agent went offline" w.fleet h)
      refl
look-sweep_kind_ne now u ws (term sid mid) w h = refl
look-sweep_kind_ne now u ws replaced w h = refl

pub present_of_agent :
    (s : Fleet) (ws : ℕ) (mid : String) (seen : ℕ)
    → (look s ws).attachment ≡ agent mid seen
    → present (find_socket ws s.sockets) ≡ true
unfolding look
present_of_agent s ws mid seen h = ground arith

-- A round of the sweep for the agent itself.
abbrev swept : ℕ → Look → Attachment
swept now l =
    if ltb dead_ms (now - max (seen_of l.attachment) l.auto) then replaced else l.attachment

look-sweep_kind_self :
    (now ws : ℕ) (mid : String) (seen : ℕ) (w : Sweep)
    → (look w.fleet ws).attachment ≡ agent mid seen
    → look (sweep_kind now ws (agent mid seen) w).fleet ws
      ≡ record { attachment = swept now (look w.fleet ws); auto = (look w.fleet ws).auto }
unfolding sweep_kind
look-sweep_kind_self now ws mid seen w h =
    let dropped = drop_agent ws "agent went offline" w.fleet in
    ground (
      arith,
      last_seen-look w.fleet ws,
      look-save_seen mid ws ws dropped,
      look-drop_agent_self ws "agent went offline" w.fleet (present_of_agent w.fleet ws mid seen h),
    )

module _ (now ws : ℕ) where
  -- One round, for whatever socket, and what it leaves of the one that is looked at.
  round : (u : ℕ) → Sweep → Sweep
  round u w = sweep_kind now u (attach w.fleet u) w

  round-replaced :
      (u : ℕ) (w : Sweep)
      → (look w.fleet ws).attachment ≡ replaced
      → (look (round u w).fleet ws).attachment ≡ replaced
  unfolding round sweep_kind
  round-replaced u w h = elim (ℕ_discrete u ws) [
    | yes e ↦
        subst (λ v. (look (sweep_kind now v (attach w.fleet v) w).fleet ws).attachment ≡ replaced)
          (sym e) (rw (sym (look-attach w.fleet ws) ∙ h) h)
    | no other ↦
        ap (λ (l : Look). l.attachment) (look-sweep_kind_ne now u ws (attach w.fleet u) w other) ∙ h
  ]

  sweep_sockets-replaced :
      (wss : List ℕ) (w : Sweep)
      → (look w.fleet ws).attachment ≡ replaced
      → (look (sweep_sockets now wss w).fleet ws).attachment ≡ replaced
  unfolding sweep_sockets round
  sweep_sockets-replaced [] w h = h
  sweep_sockets-replaced (u ∷ rest) w h =
      sweep_sockets-replaced rest (round u w) (round-replaced u w h)

  round-agent :
      (u : ℕ) (w : Sweep) (mid : String) (seen : ℕ)
      → (look w.fleet ws).attachment ≡ agent mid seen
      → look (round u w).fleet ws ≡ (
          if u == ws
          then record { attachment = swept now (look w.fleet ws); auto = (look w.fleet ws).auto }
          else look w.fleet ws)
  unfolding round
  round-agent u w mid seen h = elim (ℕ_discrete u ws) [
    | yes e ↦
        subst
          (λ v. look (sweep_kind now v (attach w.fleet v) w).fleet ws ≡ (
            if v == ws
            then record { attachment = swept now (look w.fleet ws); auto = (look w.fleet ws).auto }
            else look w.fleet ws))
          (sym e)
          (rw (sym (look-attach w.fleet ws) ∙ h)
            (look-sweep_kind_self now ws mid seen w h ∙ ground arith))
    | no other ↦ look-sweep_kind_ne now u ws (attach w.fleet u) w other ∙ ground arith
  ]

  sweep_sockets-agent :
      (wss : List ℕ) (w : Sweep) (mid : String) (seen : ℕ)
      → (look w.fleet ws).attachment ≡ agent mid seen
      → (look (sweep_sockets now wss w).fleet ws).attachment
        ≡ (if elem ws wss then swept now (look w.fleet ws) else agent mid seen)
  unfolding sweep_sockets round
  sweep_sockets-agent [] w mid seen h = h
  sweep_sockets-agent (u ∷ rest) w mid seen h = ground (
    arith,
    round-agent u w mid seen h,
    sweep_sockets-agent rest (round u w) mid seen,
    sweep_sockets-replaced rest (round u w),
  )

elem-connected_ids :
    (ws : ℕ) (k : Socket) (ks : List Socket)
    → find_socket ws ks ≡ some k
    → k.connected ≡ true
    → elem ws (connected_ids ks) ≡ true
unfolding find_socket connected_ids
elem-connected_ids ws k [] e h = cc
elem-connected_ids ws k (j ∷ ks) e h = ground (arith, elem-connected_ids ws k ks)

-- An alarm tags a connected agent as replaced exactly if more than 35 seconds passed since it was
-- last heard of, and otherwise leaves it the agent of its machine.
pub alarm_drops_silent :
    (now ws : ℕ) (k : Socket) (mid : String) (seen : ℕ) (s : Fleet)
    → find_socket ws s.sockets ≡ some k
    → k.connected ≡ true
    → k.attachment ≡ agent mid seen
    → attach (alarm now s) ws
      ≡ (if ltb dead_ms (now - last_seen_of s ws) then replaced else agent mid seen)
unfolding alarm attach look last_seen_of
alarm_drops_silent now ws k mid seen s found connected is_agent =
    let w : Sweep = record {
      live = any_pend s.pends;
      fleet = record s { pends = sweep_pends now s.pends s.pends };
    } in
    let e : (look w.fleet ws).attachment ≡ agent mid seen = ap attachment_of found ∙ is_agent in
    sweep_sockets-agent now ws (connected_ids s.sockets) w mid seen e
    ∙ ground (arith, e, elem-connected_ids ws k s.sockets found connected)
