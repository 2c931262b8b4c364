-- ===== src/Fleet/Farewells.antt =====
-- The banner that terminals get when their agent goes (`dropAgent` of worker/src/fleet.js).
use mathlib.Core.List.{append_assoc, append-nil}
use popfleet.Base.{
  ℕ, ◌<◌, ◌≤◌, String, Bool, false, ◌||◌, List, [], ◌∷◌, ◌++◌, Option, ◌==◌, if◌then◌else◌, ◌≡◌,
  refl, sym, ap, ◌∙◌, arith,
}
use popfleet.Json.{str}
use popfleet.Fleet.State.{Fleet, Socket, Effect, sends, closes, err_frame, term_tag, replaced}
use popfleet.Fleet.Sockets.{
  is_open, ws_send, ws_close, serialize, end_terms, drop_agent, term_sockets, all_with,
  get_web_sockets, mid_of, attach,
}
use popfleet.Fleet.Counts.{Below}
use popfleet.Fleet.Looks.{is_open-ws_send, is_open-ws_close, is_open-serialize}

-- An error frame and a close for each terminal.
abbrev pub farewells : String → List ℕ → List Effect
farewells why [] = []
farewells why (t ∷ ts) = sends t (err_frame (str why)) ∷ closes t 1000 why ∷ farewells why ts

abbrev pub open_among : Fleet → List ℕ → List ℕ
open_among s [] = []
open_among s (t ∷ ts) = if is_open s t then t ∷ open_among s ts else open_among s ts

abbrev pub elem : ℕ → List ℕ → Bool
elem n [] = false
elem n (m ∷ ms) = m == n || elem n ms

abbrev pub Falls : ℕ → List ℕ → Type 0
Falls n [] = Unit {0}
Falls n (t ∷ ts) = (t < n) × Falls t ts

Falls-mono : (m n : ℕ) (ts : List ℕ) → m ≤ n → Falls m ts → Falls n ts
Falls-mono m n [] h f = tt
Falls-mono m n (t ∷ ts) h f = (omega arith, f.1)

Below-mono : (m n : ℕ) (ks : List Socket) → m ≤ n → Below m ks → Below n ks
Below-mono m n [] h b = tt
Below-mono m n (k ∷ ks) h b = (omega arith, b.1)

Falls-terms :
    (n : ℕ) (mid : Option String) (ks : List Socket)
    → Below n ks
    → Falls n (all_with mid (get_web_sockets term_tag ks))
unfolding all_with get_web_sockets
Falls-terms n mid [] b = tt
Falls-terms n mid (k ∷ ks) b = ground (
  arith,
  Falls-terms k.id mid ks b.1,
  Falls-mono k.id n (all_with mid (get_web_sockets term_tag ks)),
)

module _ (t : ℕ) (why : String) (s : Fleet) where
  -- The state after one terminal was ended.
  ended : Fleet
  ended = ws_close t 1000 why (ws_send t (err_frame (str why)) s)

  is_open-ended : (u : ℕ) → is_open ended u ≡ (if t == u then false else is_open s u)
  unfolding ended
  is_open-ended u =
      is_open-ws_close t 1000 why u (ws_send t (err_frame (str why)) s)
      ∙ ap (λ b. if t == u then false else b) (is_open-ws_send t u (err_frame (str why)) s)

  sent-ended : ended.sent ≡ s.sent ++ (if is_open s t then farewells why (t ∷ []) else [])
  unfolding ended ws_send ws_close
  sent-ended = ground (
    arith,
    append_assoc s.sent (sends t (err_frame (str why)) ∷ []) (closes t 1000 why ∷ []),
    append-nil s.sent,
    is_open-ws_send t t (err_frame (str why)) s,
  )

  open_among-ended :
      (n : ℕ) (us : List ℕ) → n ≤ t → Falls n us → open_among ended us ≡ open_among s us
  open_among-ended n [] h f = refl
  open_among-ended n (u ∷ us) h f =
      ground (arith, is_open-ended u, open_among-ended u us (omega arith) f.1)

sent-end_terms :
    (why : String) (n : ℕ) (ts : List ℕ) (s : Fleet)
    → Falls n ts
    → (end_terms why ts s).sent ≡ s.sent ++ farewells why (open_among s ts)
unfolding end_terms ended
sent-end_terms why n [] s f = sym (append-nil s.sent)
sent-end_terms why n (t ∷ ts) s f =
    let first = if is_open s t then farewells why (t ∷ []) else [] in
    sent-end_terms why t ts (ended t why s) f.1
    ∙ ap (λ us. (ended t why s).sent ++ farewells why us)
        (open_among-ended t why s t ts (omega arith) f.1)
    ∙ ap (λ es. es ++ farewells why (open_among s ts)) (sent-ended t why s)
    ∙ append_assoc s.sent first (farewells why (open_among s ts))
    ∙ ap (λ es. s.sent ++ es) (ground arith)

is_open-end_terms :
    (why : String) (ts : List ℕ) (ws : ℕ) (s : Fleet)
    → elem ws ts ≡ false
    → is_open (end_terms why ts s) ws ≡ is_open s ws
unfolding end_terms ended
is_open-end_terms why [] ws s h = refl
is_open-end_terms why (t ∷ ts) ws s h =
    ground (arith, is_open-end_terms why ts ws (ended t why s), is_open-ended t why s ws)

term_sockets-Falls :
    (s : Fleet) (mid : Option String)
    → Below s.next_id s.sockets
    → Falls s.next_id (term_sockets s mid)
unfolding term_sockets
term_sockets-Falls s mid b = Falls-terms s.next_id mid s.sockets b

-- Dropping an agent sends exactly this, in this order: to each open terminal of the agent's machine
-- an error frame with the reason, followed by its close; then the close of the agent's own socket,
-- if it is open. Sockets have identities of their own, and the agent is no terminal.
pub sent-drop_agent :
    (ws : ℕ) (why : String) (s : Fleet)
    → Below s.next_id s.sockets
    → elem ws (term_sockets s (mid_of (attach s ws))) ≡ false
    → (drop_agent ws why s).sent
      ≡ s.sent
        ++ (farewells why (open_among s (term_sockets s (mid_of (attach s ws))))
            ++ (if is_open s ws then closes ws 1000 why ∷ [] else []))
unfolding drop_agent ws_close serialize
sent-drop_agent ws why s b h =
    let ts = term_sockets s (mid_of (attach s ws)) in
    let left = end_terms why ts s in
    let still : is_open (serialize ws replaced left) ws ≡ is_open s ws =
      is_open-serialize ws ws replaced left ∙ is_open-end_terms why ts ws s h in
    let told = sent-end_terms why s.next_id ts s (term_sockets-Falls s _ b) in
    let said = farewells why (open_among s ts) in
    ground (arith, still, told, append_assoc s.sent said (closes ws 1000 why ∷ []), append-nil said)
