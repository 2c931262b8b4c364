-- ===== src/Fleet/Grants/Calls.antt =====
-- The calls of worker/src/fleet.js that leave the session keys alone.
use popfleet.Base.{
  ℕ, String, List, [], ◌∷◌, Option, none, some, str_eq, if-both, ◌≡◌, refl, ◌∙◌, Option-cases, inl,
  inr,
}
use popfleet.Json.{Json, str, prop, truthy, is_null, tag_of, or_else}
use popfleet.Dict.{lookup}
use popfleet.Fleet.Runtime.{Runtime, to_text}
use popfleet.Fleet.State.{
  Fleet, Machine, Attachment, blank, pending, agent, term, replaced, err_frame, Frame, out_frame,
  exit_frame,
}
use popfleet.Fleet.Sockets.{
  attach, mid_of, agent_socket, term_sockets, end_terms, drop_agent, serialize, ws_send, ws_close,
  arm_alarm, term_by_sid,
}
use popfleet.Fleet.Api.{drop_if, forget, revoke}
use popfleet.Fleet.Frames.{
  Ended, Raw, relay, relay_last, owned, replace_old, touch, enroll, admit, hello_object, known_id,
  token_sum_of, from_agent, from_term, from_term_to, dispatch, dispatch_if, parsed,
  web_socket_message,
}
use popfleet.Fleet.Lifecycle.{tell_close, save_seen, save_seen_in, reap_kind}

pends-end_terms : (why : String) (ts : List ℕ) (s : Fleet) → (end_terms why ts s).pends ≡ s.pends
unfolding end_terms ws_send ws_close
pends-end_terms why [] s = refl
pends-end_terms why (t ∷ ts) s =
    pends-end_terms why ts (ws_close t 1000 why (ws_send t (err_frame (str why)) s))

pub pends-drop_agent : (ws : ℕ) (why : String) (s : Fleet) → (drop_agent ws why s).pends ≡ s.pends
unfolding drop_agent ws_close serialize
pends-drop_agent ws why s = pends-end_terms why (term_sockets s (mid_of (attach s ws))) s

pends-drop_if : (ws : Option ℕ) (why : String) (s : Fleet) → (drop_if ws why s).pends ≡ s.pends
pends-drop_if none why s = refl
pends-drop_if (some ws) why s = pends-drop_agent ws why s

pends-save_seen : (mid : String) (ws : ℕ) (s : Fleet) → (save_seen mid ws s).pends ≡ s.pends
unfolding save_seen
pends-save_seen mid ws s = elim (Option-cases (lookup mid s.machines)) [
  | inl e ↦ rw (e, save_seen_in) refl
  | inr (m, e) ↦ rw (e, save_seen_in) refl
]

pub pends-reap_kind : (ws : ℕ) (a : Attachment) (s : Fleet) → (reap_kind ws a s).pends ≡ s.pends
unfolding reap_kind ws_send
pends-reap_kind ws blank s = refl
pends-reap_kind ws (pending since) s = refl
pends-reap_kind ws replaced s = refl
pends-reap_kind ws (agent mid seen) s =
    pends-save_seen mid ws (drop_agent ws "agent went offline" s)
    ∙ pends-drop_agent ws "agent went offline" s
pends-reap_kind ws (term sid mid) s = elim (Option-cases (agent_socket s (some mid))) [
  | inl e ↦ rw (e, tell_close) refl
  | inr (to, e) ↦ rw (e, tell_close) refl
]

pub pends-revoke :
    (mid : String) (m : Option Machine) (s : Fleet) → (revoke mid m s).0.pends ≡ s.pends
pends-revoke mid none s = refl
pends-revoke mid (some m) s =
    pends-drop_if (agent_socket (forget mid m s) (some mid)) "machine revoked" (forget mid m s)

pends-replace_old :
    (mid : String) (old : Option ℕ) (s : Fleet) → (replace_old mid old s).pends ≡ s.pends
unfolding serialize ws_close
pends-replace_old mid none s = refl
pends-replace_old mid (some old) s =
    let tagged = serialize old replaced s in
    pends-end_terms "agent reconnected" (term_sockets tagged (some mid)) tagged

pends-touch :
    (now : ℕ) (m : Json) (mid : String) (machine : Option Machine) (s : Fleet)
    → (touch now m mid machine s).pends ≡ s.pends
pends-touch now m mid none s = refl
pends-touch now m mid (some machine) s = refl

pends-enroll :
    (now ws : ℕ) (m : Json) (mid : String) (s : Fleet) → (enroll now ws m mid s).pends ≡ s.pends
unfolding enroll serialize ws_send arm_alarm
pends-enroll now ws m mid s =
    let cleared = replace_old mid (agent_socket s (some mid)) s in
    let tagged = serialize ws (agent mid now) cleared in
    pends-touch now m mid (lookup mid tagged.machines) tagged
    ∙ pends-replace_old mid (agent_socket s (some mid)) s

pends-admit :
    (now ws : ℕ) (m : Json) (mid : Option String) (s : Fleet)
    → (admit now ws m mid s).pends ≡ s.pends
unfolding ws_close ws_send
pends-admit now ws m none s = refl
pends-admit now ws m (some mid) s =
    if-both (λ (r : Fleet). r.pends ≡ s.pends) (truthy (prop m "e2e")) (pends-enroll now ws m mid s)
      refl

pub pends-hello_object :
    (rt : Runtime) (now ws : ℕ) (m : Json) (s : Fleet)
    → (hello_object rt now ws m s).pends ≡ s.pends
unfolding hello_object ws_close
pends-hello_object rt now ws m s =
    if-both (λ (r : Fleet). r.pends ≡ s.pends) (str_eq (tag_of m) "hello")
      (pends-admit now ws m (known_id (lookup (token_sum_of rt m) s.toks)) s) refl

pends-relay_last :
    (t : Option ℕ) (f : Frame) (why : String) (s : Fleet) → (relay_last t f why s).pends ≡ s.pends
unfolding ws_send ws_close
pends-relay_last none f why s = refl
pends-relay_last (some t) f why s = refl

pends-relay : (t : Option ℕ) (f : Frame) (s : Fleet) → (relay t f s).pends ≡ s.pends
unfolding ws_send
pends-relay none f s = refl
pends-relay (some t) f s = refl

pends-from_agent :
    (rt : Runtime) (now ws : ℕ) (mid : String) (m : Json) (s : Fleet)
    → (from_agent rt now ws mid m s).pends ≡ s.pends
unfolding from_agent serialize
pends-from_agent rt now ws mid m s =
    let t = owned s mid (term_by_sid s (to_text rt (prop m "sid"))) in
    let P = λ (r : Fleet). r.pends ≡ s.pends in
    if-both P (str_eq (tag_of m) "hb") refl (
      if-both P (str_eq (tag_of m) "out") (pends-relay t (out_frame (prop m "data")) s) (
        if-both P (str_eq (tag_of m) "exit")
          (pends-relay_last t (exit_frame (prop m "code")) "shell exited" s)
          (if-both P (str_eq (tag_of m) "err")
            (pends-relay_last t (err_frame (or_else (prop m "msg") (str "session error")))
              "agent error" s)
            refl)))

pends-from_term_to :
    (sid : String) (m : Json) (ws : Option ℕ) (s : Fleet)
    → (from_term_to sid m ws s).0.pends ≡ s.pends
unfolding from_term ws_send
pends-from_term_to sid m none s = refl
pends-from_term_to sid m (some ws) s =
    if-both (λ (r : Fleet × Ended). r.0.pends ≡ s.pends) (is_null m) refl
      (if-both (λ (r : Fleet). r.pends ≡ s.pends) (str_eq (tag_of m) "in") refl
        (if-both (λ (r : Fleet). r.pends ≡ s.pends) (str_eq (tag_of m) "resize") refl refl))

pends-dispatch :
    (rt : Runtime) (now ws : ℕ) (a : Attachment) (m : Json) (s : Fleet)
    → (dispatch rt now ws a m s).0.pends ≡ s.pends
unfolding dispatch
pends-dispatch rt now ws blank m s = refl
pends-dispatch rt now ws replaced m s = refl
pends-dispatch rt now ws (pending since) m s =
    if-both (λ (r : Fleet × Ended). r.0.pends ≡ s.pends) (is_null m) refl
      (pends-hello_object rt now ws m s)
pends-dispatch rt now ws (agent mid seen) m s =
    if-both (λ (r : Fleet × Ended). r.0.pends ≡ s.pends) (is_null m) refl
      (pends-from_agent rt now ws mid m s)
pends-dispatch rt now ws (term sid mid) m s = pends-from_term_to sid m (agent_socket s (some mid)) s

pends-dispatch_if :
    (rt : Runtime) (now ws : ℕ) (m : Option Json) (s : Fleet)
    → (dispatch_if rt now ws m s).0.pends ≡ s.pends
pends-dispatch_if rt now ws none s = refl
pends-dispatch_if rt now ws (some m) s = pends-dispatch rt now ws (attach s ws) m s

pub pends-web_socket_message :
    (rt : Runtime) (now ws : ℕ) (raw : Raw) (s : Fleet)
    → (web_socket_message rt now ws raw s).0.pends ≡ s.pends
unfolding web_socket_message
pends-web_socket_message rt now ws raw s = pends-dispatch_if rt now ws (parsed rt raw) s
