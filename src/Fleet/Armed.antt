-- ===== src/Fleet/Armed.antt =====
-- When the alarm of worker/src/fleet.js has to be set: while a session key or a socket is there that
-- a later alarm may have to sweep. Children: the alarm itself, and every event.
pub mod Calls
pub mod LiveAt
pub mod Alarm
pub mod Always
pub mod Histories
pub mod Messages
pub mod Requests
use popfleet.Base.{
  ℕ, ◌+◌, String, Bool, true, false, not, ◌&&◌, ◌||◌, List, [], ◌∷◌, Option, none, some, is_some,
  ◌==◌, if◌then◌else◌, ◌≡◌, refl, sym, ap, ◌∙◌, arith,
}
use popfleet.Dict.{Dict}
use popfleet.Fleet.State.{Fleet, Socket, Pend, Attachment, blank, pending, agent, term, replaced}
use popfleet.Fleet.Sockets.{modify, find_socket}
use popfleet.Fleet.Lifecycle.{any_pend}

abbrev pub live_kind : Attachment → Bool → Bool
live_kind blank closed = false
live_kind (pending since) closed = not closed
live_kind (agent mid seen) closed = true
live_kind (term sid mid) closed = true
live_kind replaced closed = false

-- A connected agent or terminal, or an open socket that has not said hello.
abbrev pub is_live : Socket → Bool
is_live k = k.connected && live_kind k.attachment k.closed

unfoldable pub any_live : List Socket → Bool
any_live [] = false
any_live (k ∷ ks) = is_live k || any_live ks

abbrev pub needs_alarm : Fleet → Bool
needs_alarm s = any_pend s.pends || any_live s.sockets

abbrev pub IsArmed : Fleet → Type 0
IsArmed s = needs_alarm s ≡ true → is_some s.alarm ≡ true

-- A change that leaves the alarm alone and brings nothing to sweep.
pub record Calms (s s' : Fleet) : Type 0 where
  pub same_alarm : s'.alarm ≡ s.alarm
  pub less : needs_alarm s' ≡ true → needs_alarm s ≡ true

pub Calms-refl : (s : Fleet) → Calms s s
Calms-refl s = record { same_alarm = refl; less = λ h. h }

pub Calms-trans : {s t u : Fleet} → Calms s t → Calms t u → Calms s u
Calms-trans a b = record { same_alarm = b.same_alarm ∙ a.same_alarm; less = λ h. a.less (b.less h) }

pub IsArmed-Calms : {s s' : Fleet} → Calms s s' → IsArmed s → IsArmed s'
IsArmed-Calms {s} {s'} c h n = ap is_some c.same_alarm ∙ h (c.less n)

pub any_live-modify :
    (ws : ℕ) (f : Socket → Socket) (ks : List Socket)
    → ((k : Socket) → is_live (f k) ≡ true → is_live k ≡ true)
    → any_live (modify ws f ks) ≡ true
    → any_live ks ≡ true
unfolding any_live modify
any_live-modify ws f [] h e = e
any_live-modify ws f (k ∷ ks) h e = ground (arith, h k, any_live-modify ws f ks h)

pub modify-Calms :
    (ws : ℕ) (f : Socket → Socket) (s : Fleet)
    → ((k : Socket) → is_live (f k) ≡ true → is_live k ≡ true)
    → Calms s (record s { sockets = modify ws f s.sockets })
modify-Calms ws f s h = record {
  same_alarm = refl;
  less = λ n. ground (arith, any_live-modify ws f s.sockets h);
}
