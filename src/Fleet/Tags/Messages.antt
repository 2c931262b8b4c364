-- ===== src/Fleet/Tags/Messages.antt =====
-- `webSocketMessage` and `hello` of worker/src/fleet.js keep tags and attachments in order.
use popfleet.Base.{ℕ, String, true, Option, none, some, str_eq, if-both, ◌≡◌, refl, ◌∙◌}
use popfleet.Json.{Json, str, prop, truthy, is_null, tag_of, or_else}
use popfleet.Dict.{lookup}
use popfleet.Fleet.Runtime.{Runtime, to_text}
use popfleet.Fleet.State.{
  Fleet, Machine, Attachment, blank, pending, agent, term, replaced, err_frame, Frame, out_frame,
  exit_frame, hello_ok_frame,
}
use popfleet.Fleet.Sockets.{
  attach, agent_socket, term_sockets, end_terms, serialize, ws_send, arm_alarm, term_by_sid,
}
use popfleet.Fleet.Frames.{
  Ended, Raw, relay, relay_last, owned, replace_old, touch, enroll, admit, hello_object, known_id,
  token_sum_of, e2e_required, from_agent, from_term, from_term_to, dispatch, dispatch_if, parsed,
  web_socket_message,
}
use popfleet.Fleet.Tags.{Tagged, on_agent, speaks, on_agent-attach, on_agent-agent_socket}
use popfleet.Fleet.Tags.Keeps.{
  Keeps, Keeps-refl, Keeps-then, ws_send-Keeps, ws_close-Keeps, end_terms-Keeps, serialize-Keeps,
}

replace_old-Keeps :
    (mid : String) (old : Option ℕ) (s : Fleet)
    → ((ws : ℕ) → old ≡ some ws → on_agent ws s.sockets ≡ true)
    → Keeps s (replace_old mid old s)
replace_old-Keeps mid none s on = Keeps-refl s
replace_old-Keeps mid (some old) s on =
    let tagged = serialize old replaced s in
    let ts = term_sockets tagged (some mid) in
    Keeps-then (serialize-Keeps old replaced s (on old refl) refl) (
      Keeps-then (end_terms-Keeps "agent reconnected" ts tagged) (
        ws_close-Keeps old 1000 "replaced by a newer connection"
          (end_terms "agent reconnected" ts tagged)))

touch-Keeps :
    (now : ℕ) (m : Json) (mid : String) (machine : Option Machine) (s : Fleet)
    → Keeps s (touch now m mid machine s)
touch-Keeps now m mid none s = Keeps-refl s
touch-Keeps now m mid (some machine) s = record { tagged = λ v. v; sides = λ u. refl }

enroll-Tagged :
    (now ws : ℕ) (m : Json) (mid : String) (s : Fleet)
    → on_agent ws s.sockets ≡ true
    → Tagged s
    → Tagged (enroll now ws m mid s)
unfolding enroll arm_alarm
enroll-Tagged now ws m mid s on v =
    let old = agent_socket s (some mid) in
    let cleared = replace_old mid old s in
    let tagged = serialize ws (agent mid now) cleared in
    let saved = touch now m mid (lookup mid tagged.machines) tagged in
    let first = replace_old-Keeps mid old s (λ u e. on_agent-agent_socket (some mid) u s v e) in
    let whole = Keeps-then first (
      Keeps-then (serialize-Keeps ws (agent mid now) cleared (first.sides ws ∙ on) refl) (
        Keeps-then (touch-Keeps now m mid (lookup mid tagged.machines) tagged)
          (ws_send-Keeps ws (hello_ok_frame mid) saved))) in
    whole.tagged v

module _ (rt : Runtime) (now ws : ℕ) (m : Json) (s : Fleet) (v : Tagged s) where
  admit-Tagged :
      (mid : Option String) → on_agent ws s.sockets ≡ true → Tagged (admit now ws m mid s)
  admit-Tagged none on = (ws_close-Keeps ws 1008 "unknown or revoked token" s).tagged v
  admit-Tagged (some mid) on =
      let refused = ws_send ws (err_frame (str e2e_required)) s in
      if-both Tagged (truthy (prop m "e2e")) (enroll-Tagged now ws m mid s on v) (
        (Keeps-then (ws_send-Keeps ws (err_frame (str e2e_required)) s)
            (ws_close-Keeps ws 1008 "e2e required" refused)).tagged
          v)

  hello_object-Tagged : on_agent ws s.sockets ≡ true → Tagged (hello_object rt now ws m s)
  unfolding hello_object
  hello_object-Tagged on =
      if-both Tagged (str_eq (tag_of m) "hello")
        (admit-Tagged (known_id (lookup (token_sum_of rt m) s.toks)) on)
        ((ws_close-Keeps ws 1002 "first frame must be hello" s).tagged v)

  relay-Tagged : (t : Option ℕ) (f : Frame) → Tagged (relay t f s)
  relay-Tagged none f = v
  relay-Tagged (some t) f = (ws_send-Keeps t f s).tagged v

  relay_last-Tagged : (t : Option ℕ) (f : Frame) (why : String) → Tagged (relay_last t f why s)
  relay_last-Tagged none f why = v
  relay_last-Tagged (some t) f why =
      (Keeps-then (ws_send-Keeps t f s) (ws_close-Keeps t 1000 why (ws_send t f s))).tagged v

  from_agent-Tagged :
      (mid : String) → on_agent ws s.sockets ≡ true → Tagged (from_agent rt now ws mid m s)
  unfolding from_agent
  from_agent-Tagged mid on =
      let t = owned s mid (term_by_sid s (to_text rt (prop m "sid"))) in
      if-both Tagged (str_eq (tag_of m) "hb")
        ((serialize-Keeps ws (agent mid now) s on refl).tagged v)
        (if-both Tagged (str_eq (tag_of m) "out") (relay-Tagged t (out_frame (prop m "data"))) (
          if-both Tagged (str_eq (tag_of m) "exit")
            (relay_last-Tagged t (exit_frame (prop m "code")) "shell exited")
            (if-both Tagged (str_eq (tag_of m) "err")
              (relay_last-Tagged t (err_frame (or_else (prop m "msg") (str "session error")))
                "agent error")
              v)))

  from_term_to-Tagged : (sid : String) (to : Option ℕ) → Tagged (from_term_to sid m to s).0
  unfolding from_term ws_send
  from_term_to-Tagged sid none = v
  from_term_to-Tagged sid (some to) =
      if-both (λ (r : Fleet × Ended). Tagged r.0) (is_null m) v
        (if-both Tagged (str_eq (tag_of m) "in") v
          (if-both Tagged (str_eq (tag_of m) "resize") v v))

  dispatch-Tagged :
      (a : Attachment)
      → (speaks a ≡ true → on_agent ws s.sockets ≡ true)
      → Tagged (dispatch rt now ws a m s).0
  unfolding dispatch
  dispatch-Tagged blank on = v
  dispatch-Tagged replaced on = v
  dispatch-Tagged (pending since) on =
      if-both (λ (r : Fleet × Ended). Tagged r.0) (is_null m) v (hello_object-Tagged (on refl))
  dispatch-Tagged (agent mid seen) on =
      if-both (λ (r : Fleet × Ended). Tagged r.0) (is_null m) v (from_agent-Tagged mid (on refl))
  dispatch-Tagged (term sid mid) on = from_term_to-Tagged sid (agent_socket s (some mid))

dispatch_if-Tagged :
    (rt : Runtime) (now ws : ℕ) (m : Option Json) (s : Fleet)
    → Tagged s
    → Tagged (dispatch_if rt now ws m s).0
dispatch_if-Tagged rt now ws none s v = v
dispatch_if-Tagged rt now ws (some m) s v =
    dispatch-Tagged rt now ws m s v (attach s ws) (on_agent-attach ws s v)

pub web_socket_message-Tagged :
    (rt : Runtime) (now ws : ℕ) (raw : Raw) (s : Fleet)
    → Tagged s
    → Tagged (web_socket_message rt now ws raw s).0
unfolding web_socket_message
web_socket_message-Tagged rt now ws raw s v = dispatch_if-Tagged rt now ws (parsed rt raw) s v
