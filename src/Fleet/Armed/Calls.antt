-- ===== src/Fleet/Armed/Calls.antt =====
-- The calls of worker/src/fleet.js that bring nothing to sweep.
use popfleet.Base.{ℕ, String, true, List, [], ◌∷◌, Option, none, some, is_some, ◌≡◌, refl, arith}
use popfleet.Json.{str}
use popfleet.Fleet.State.{Fleet, Socket, Machine, Frame, err_frame, replaced}
use popfleet.Dict.{lookup}
use popfleet.Fleet.Sockets.{
  as_closed, with_attachment, serialize, ws_send, ws_close, end_terms, drop_agent, term_sockets,
  mid_of, attach, armed, last_seen_of,
}
use popfleet.Fleet.Lifecycle.{save_seen, save_seen_in}
use popfleet.Fleet.Armed.{Calms, Calms-refl, Calms-trans, modify-Calms, is_live}

pub ws_send-Calms : (ws : ℕ) (f : Frame) (s : Fleet) → Calms s (ws_send ws f s)
unfolding ws_send
ws_send-Calms ws f s = record { same_alarm = refl; less = λ h. h }

closed-less : (k : Socket) → is_live (as_closed k) ≡ true → is_live k ≡ true
closed-less k h = ground arith

pub ws_close-Calms : (ws code : ℕ) (why : String) (s : Fleet) → Calms s (ws_close ws code why s)
unfolding ws_close
ws_close-Calms ws code why s =
    let c = modify-Calms ws as_closed s closed-less in record { same_alarm = refl; less = c.less }

replaced-less : (k : Socket) → is_live (with_attachment replaced k) ≡ true → is_live k ≡ true
replaced-less k h = ground arith

pub retire-Calms : (ws : ℕ) (s : Fleet) → Calms s (serialize ws replaced s)
unfolding serialize
retire-Calms ws s = modify-Calms ws (with_attachment replaced) s replaced-less

pub end_terms-Calms : (why : String) (ts : List ℕ) (s : Fleet) → Calms s (end_terms why ts s)
unfolding end_terms
end_terms-Calms why [] s = Calms-refl s
end_terms-Calms why (t ∷ ts) s =
    let told = ws_send t (err_frame (str why)) s in
    Calms-trans (ws_send-Calms t (err_frame (str why)) s) (
      Calms-trans (ws_close-Calms t 1000 why told)
        (end_terms-Calms why ts (ws_close t 1000 why told)))

pub drop_agent-Calms : (ws : ℕ) (why : String) (s : Fleet) → Calms s (drop_agent ws why s)
unfolding drop_agent
drop_agent-Calms ws why s =
    let left = end_terms why (term_sockets s (mid_of (attach s ws))) s in
    Calms-trans (end_terms-Calms why (term_sockets s (mid_of (attach s ws))) s)
      (Calms-trans (retire-Calms ws left) (ws_close-Calms ws 1000 why (serialize ws replaced left)))

save_seen_in-Calms :
    (mid : String) (at : ℕ) (m : Option Machine) (s : Fleet) → Calms s (save_seen_in mid at m s)
save_seen_in-Calms mid at none s = Calms-refl s
save_seen_in-Calms mid at (some m) s = record { same_alarm = refl; less = λ h. h }

pub save_seen-Calms : (mid : String) (ws : ℕ) (s : Fleet) → Calms s (save_seen mid ws s)
unfolding save_seen
save_seen-Calms mid ws s = save_seen_in-Calms mid (last_seen_of s ws) (lookup mid s.machines) s

pub is_some-armed : (a : Option ℕ) (at : ℕ) → is_some (armed a at) ≡ true
is_some-armed none at = refl
is_some-armed (some t) at = refl
