-- ===== src/Fleet/Enrollment/Refusals.antt =====
-- What a first frame that does not enroll its socket does (`webSocketMessage` and `hello` of
-- worker/src/fleet.js).
use popfleet.Base.{
  Bool, not, ◌&&◌, is_some, if◌then◌else◌, ℕ, String, true, false, Option, none, some, str_eq, ◌≡◌,
  refl, ◌∙◌, arith, Bool-cases, ◌⊎◌, inl, inr,
}
use popfleet.Json.{is_null, Json, str, prop, truthy, tag_of}
use popfleet.Dict.{lookup}
use popfleet.Fleet.Runtime.{Runtime}
use popfleet.Fleet.State.{Fleet, pending, err_frame}
use popfleet.Fleet.Sockets.{attach, ws_send, ws_close, is_open}
use popfleet.Fleet.Frames.{
  hello_object, hello, known_id, dispatch, dispatch_if, Raw, Ended, finished, threw, parsed,
  web_socket_message, admit, token_sum_of, e2e_required,
}
use popfleet.Fleet.Core.{core, core-ws_send, core-ws_close}
use popfleet.Fleet.Looks.{is_open-ws_close}

-- A refusal: the socket is closed, and but for that only a frame is sent.
abbrev Refused : ℕ → Fleet → Fleet → Type 0
Refused ws s s' = (core s' ≡ core s) × (is_open s' ws ≡ false)

close-Refused :
    (ws code : ℕ) (why : String) (s s' : Fleet)
    → core s' ≡ core s
    → Refused ws s (ws_close ws code why s')
close-Refused ws code why s s' e =
    (core-ws_close ws code why s' ∙ e, is_open-ws_close ws code why ws s' ∙ ground arith)

admit-Refused :
    (now ws : ℕ) (m : Json) (mid : Option String) (s : Fleet)
    → (mid ≡ none) ⊎ (truthy (prop m "e2e") ≡ false)
    → Refused ws s (admit now ws m mid s)
admit-Refused now ws m none s h = close-Refused ws 1008 "unknown or revoked token" s s refl
admit-Refused now ws m (some mid) s (inl e) = absurd (ground arith)
admit-Refused now ws m (some mid) s (inr e) =
    let told = ws_send ws (err_frame (str e2e_required)) s in
    rw e (
      close-Refused ws 1008 "e2e required" s told
        (core-ws_send ws (err_frame (str e2e_required)) s))

-- The first frame is a v1e hello with a known token.
abbrev pub is_valid : Runtime → Fleet → Json → Bool
is_valid rt s m =
    str_eq (tag_of m) "hello"
    && is_some (known_id (lookup (token_sum_of rt m) s.toks))
    && truthy (prop m "e2e")

admit_if-Refused :
    (now ws : ℕ) (m : Json) (mid : Option String) (s : Fleet)
    → is_some mid && truthy (prop m "e2e") ≡ false
    → Refused ws s (admit now ws m mid s)
admit_if-Refused now ws m none s h = admit-Refused now ws m none s (inl refl)
admit_if-Refused now ws m (some mid) s h = admit-Refused now ws m (some mid) s (inr h)

hello_object-Refused :
    (rt : Runtime) (now ws : ℕ) (m : Json) (s : Fleet)
    → is_valid rt s m ≡ false
    → Refused ws s (hello_object rt now ws m s)
unfolding hello_object
hello_object-Refused rt now ws m s h = elim (Bool-cases (str_eq (tag_of m) "hello")) [
  | inr other ↦ rw other (close-Refused ws 1002 "first frame must be hello" s s refl)
  | inl is_hello ↦ rw is_hello (
      admit_if-Refused now ws m (known_id (lookup (token_sum_of rt m) s.toks)) s (rw is_hello at h))
]

-- How a first frame that does not enroll its socket ends: one that is binary or no JSON is dropped, null
-- makes the handler throw, and any other closes the socket.
abbrev pub refused_open : Option Json → Bool
refused_open none = true
refused_open (some m) = is_null m

abbrev pub refused_end : Option Json → Ended
refused_end none = finished
refused_end (some m) = if is_null m then threw else finished

abbrev pub enrolls : Runtime → Fleet → Option Json → Bool
enrolls rt s none = false
enrolls rt s (some m) = not (is_null m) && is_valid rt s m

refusal :
    (rt : Runtime) (now ws : ℕ) (m : Option Json) (since : ℕ) (s : Fleet)
    → attach s ws ≡ pending since
    → enrolls rt s m ≡ false
    → let r = dispatch_if rt now ws m s in
      (core r.0 ≡ core s)
      × (is_open r.0 ws ≡ (refused_open m && is_open s ws))
      × (r.1 ≡ refused_end m)
unfolding dispatch hello
refusal rt now ws none since s waits h = (refl, refl, refl)
refusal rt now ws (some m) since s waits h = elim (Bool-cases (is_null m)) [
  | inl is_null_frame ↦ rw (waits, dispatch, hello, is_null_frame) (refl, refl, refl)
  | inr object ↦
      let shut = hello_object-Refused rt now ws m s (rw object at h) in
      rw (waits, dispatch, hello, object) (shut.0, shut.1, refl)
]

-- On a socket that waits for its hello, a frame that is no v1e hello with a known token leaves the storage
-- and what is attached to the sockets as it is. The socket is closed after it, except where the frame is
-- binary or no JSON, which is dropped, or null, on which the handler throws: after these it is open if
-- it was.
pub first_frame_refused :
    (rt : Runtime) (now ws since : ℕ) (raw : Raw) (s : Fleet)
    → attach s ws ≡ pending since
    → enrolls rt s (parsed rt raw) ≡ false
    → let r = web_socket_message rt now ws raw s in
      (core r.0 ≡ core s)
      × (is_open r.0 ws ≡ (refused_open (parsed rt raw) && is_open s ws))
      × (r.1 ≡ refused_end (parsed rt raw))
unfolding web_socket_message
first_frame_refused rt now ws since raw s waits h =
    refusal rt now ws (parsed rt raw) since s waits h
