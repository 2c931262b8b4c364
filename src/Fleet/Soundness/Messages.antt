-- ===== src/Fleet/Soundness/Messages.antt =====
-- `webSocketMessage` and `hello` of worker/src/fleet.js keep the invariant.
use popfleet.Base.{
  arith, ℕ, String, true, Option, none, some, is_some, ◌≡◌, refl, sym, ap, subst, ◌∙◌, str_eq,
  if-both,
}
use popfleet.Json.{Json, str, prop, is_null, truthy, or_else, tag_of}
use popfleet.Dict.{lookup}
use popfleet.Fleet.Runtime.{Runtime, to_text}
use popfleet.Fleet.State.{
  Fleet, Machine, Attachment, blank, pending, agent, term, replaced, agent_tag, Frame, err_frame,
  hello_ok_frame, in_frame, resize_frame, out_frame, exit_frame,
}
use popfleet.Fleet.Sockets.{
  attach, attachment_of, find_socket, agent_socket, term_sockets, serialize, ws_send, end_terms,
  term_by_sid,
}
use popfleet.Fleet.Frames.{
  Raw, replace_old, greeted_machine, touch, enroll, admit, e2e_required, token_sum_of, hello_object,
  known_id, relay, relay_last, owned, from_agent, from_term, from_term_to, dispatch, dispatch_if,
  parsed, web_socket_message,
}
use popfleet.Fleet.Core.{
  Core, core, bare, with_sockets, core-ws_send, core-ws_close, core-arm_alarm, core-serialize,
  core-end_terms, find_socket-bare, first_with-bare,
}
use popfleet.Fleet.Counts.{agents, opened-modify, agents-refresh, Below-modify}
use popfleet.Fleet.Soundness.{
  IsSound, Keeps, sum_at, install-IsSound, retire-IsSound, put_back-IsSound,
}
use popfleet.Fleet.Soundness.Revocation.{dropped, dropped-gone, sole-le-one}

pub core-replace_old :
    (mid : String) (old : Option ℕ) (s : Fleet)
    → core (replace_old mid old s) ≡ with_sockets (dropped old (bare s.sockets)) (core s)
unfolding dropped
core-replace_old mid none s = refl
core-replace_old mid (some old) s =
    let tagged = serialize old replaced s in
    let ts = term_sockets tagged (some mid) in
    core-ws_close old 1000 "replaced by a newer connection"
      (end_terms "agent reconnected" ts tagged)
    ∙ core-end_terms "agent reconnected" ts tagged
    ∙ core-serialize old replaced s

dropped-IsSound :
    (c : Core) (ws : Option ℕ) → IsSound c → IsSound (with_sockets (dropped ws c.sockets) c)
unfolding dropped
dropped-IsSound c none v = v
dropped-IsSound c (some ws) v = retire-IsSound c ws v

touch-IsSound :
    (now : ℕ) (m : Json) (mid : String) (found : Option Machine) (s : Fleet)
    → lookup mid s.machines ≡ found
    → IsSound (core s)
    → IsSound (core (touch now m mid found s))
touch-IsSound now m mid none s e v = v
touch-IsSound now m mid (some old) s e v =
    put_back-IsSound (core s) mid (greeted_machine now m old) old e refl v

enroll-IsSound :
    (now ws : ℕ) (m : Json) (mid : String) (s : Fleet)
    → is_some (sum_at mid s.machines) ≡ true
    → IsSound (core s)
    → IsSound (core (enroll now ws m mid s))
unfolding enroll
enroll-IsSound now ws m mid s known v =
    let old = agent_socket s (some mid) in
    let cleared = replace_old mid old s in
    let tagged = serialize ws (agent mid now) cleared in
    let is_cleared = core-replace_old mid old s in
    let saved = touch now m mid (lookup mid tagged.machines) tagged in
    subst IsSound
      (sym (
        core-arm_alarm now (ws_send ws (hello_ok_frame mid) saved)
        ∙ core-ws_send ws (hello_ok_frame mid) saved))
      (touch-IsSound now m mid (lookup mid tagged.machines) tagged refl (
        subst IsSound (sym (core-serialize ws (agent mid now) cleared)) (
          install-IsSound (core cleared) ws mid now
            (ap (λ (c : Core). agents mid c.sockets) is_cleared
              ∙ dropped-gone mid old (bare s.sockets) (sole-le-one (core s) mid v)
                  (first_with-bare agent_tag (some mid) s.sockets))
            (ap (λ (c : Core). is_some (sum_at mid c.machines)) is_cleared ∙ known)
            (subst IsSound (sym is_cleared) (dropped-IsSound (core s) old v)))))

admit-IsSound :
    (now ws : ℕ) (m : Json) (sum : String) (mid : Option String) (s : Fleet)
    → ((x : String) → mid ≡ some x → lookup sum s.toks ≡ some x)
    → IsSound (core s)
    → IsSound (core (admit now ws m mid s))
admit-IsSound now ws m sum none s e v =
    subst IsSound (sym (core-ws_close ws 1008 "unknown or revoked token" s)) v
admit-IsSound now ws m sum (some mid) s e v =
    if-both (λ (r : Fleet). IsSound (core r)) (truthy (prop m "e2e"))
      (enroll-IsSound now ws m mid s (rw (v.vouched sum mid (e mid refl))) v)
      (subst IsSound
        (sym (
          core-ws_close ws 1008 "e2e required" (ws_send ws (err_frame (str e2e_required)) s)
          ∙ core-ws_send ws (err_frame (str e2e_required)) s))
        v)

known_id-some : (v : Option String) (x : String) → known_id v ≡ some x → v ≡ some x
known_id-some none x e = e
known_id-some (some mid) x e = ground arith

pub hello_object-IsSound :
    (rt : Runtime) (now ws : ℕ) (m : Json) (s : Fleet)
    → IsSound (core s)
    → IsSound (core (hello_object rt now ws m s))
unfolding hello_object
hello_object-IsSound rt now ws m s v =
    if-both (λ (r : Fleet). IsSound (core r)) (str_eq (tag_of m) "hello")
      (admit-IsSound now ws m (token_sum_of rt m) (known_id (lookup (token_sum_of rt m) s.toks)) s
        (known_id-some (lookup (token_sum_of rt m) s.toks)) v)
      (subst IsSound (sym (core-ws_close ws 1002 "first frame must be hello" s)) v)

core-relay : (t : Option ℕ) (f : Frame) (s : Fleet) → core (relay t f s) ≡ core s
core-relay none f s = refl
core-relay (some t) f s = core-ws_send t f s

core-relay_last :
    (t : Option ℕ) (f : Frame) (why : String) (s : Fleet) → core (relay_last t f why s) ≡ core s
core-relay_last none f why s = refl
core-relay_last (some t) f why s = core-ws_close t 1000 why (ws_send t f s) ∙ core-ws_send t f s

refresh-IsSound :
    (now ws : ℕ) (mid : String) (seen : ℕ) (s : Fleet)
    → attach s ws ≡ agent mid seen
    → IsSound (core s)
    → IsSound (core (serialize ws (agent mid now) s))
unfolding attach
refresh-IsSound now ws mid seen s e v =
    let ks = bare s.sockets in
    let e' : attachment_of (find_socket ws ks) ≡ agent mid seen =
      find_socket-bare ws s.sockets ∙ e in
    subst IsSound (sym (core-serialize ws (agent mid now) s)) (record {
      ids = Below-modify s.next_id ws (agent mid now) ks v.ids;
      sole = λ m. rw (agents-refresh m s.next_id ws now mid seen ks v.ids e') (v.sole m);
      vouched = v.vouched;
      once = λ sid. rw (opened-modify sid ws (agent mid now) ks) (v.once sid);
      unique = v.unique;
    })

from_agent-IsSound :
    (rt : Runtime) (now ws : ℕ) (mid : String) (seen : ℕ) (m : Json) (s : Fleet)
    → attach s ws ≡ agent mid seen
    → IsSound (core s)
    → IsSound (core (from_agent rt now ws mid m s))
unfolding from_agent
from_agent-IsSound rt now ws mid seen m s e v =
    let t = owned s mid (term_by_sid s (to_text rt (prop m "sid"))) in
    let error = err_frame (or_else (prop m "msg") (str "session error")) in
    let exited = exit_frame (prop m "code") in
    let output = out_frame (prop m "data") in
    let P = λ (r : Fleet). IsSound (core r) in
    if-both P (str_eq (tag_of m) "hb") (refresh-IsSound now ws mid seen s e v) (
      if-both P (str_eq (tag_of m) "out") (subst IsSound (sym (core-relay t output s)) v) (
        if-both P (str_eq (tag_of m) "exit")
          (subst IsSound (sym (core-relay_last t exited "shell exited" s)) v)
          (if-both P (str_eq (tag_of m) "err")
            (subst IsSound (sym (core-relay_last t error "agent error" s)) v) v)))

from_term-IsSound :
    (sid : String) (m : Json) (ws : ℕ) (s : Fleet)
    → IsSound (core s)
    → IsSound (core (from_term sid m ws s))
unfolding from_term
from_term-IsSound sid m ws s v =
    let P = λ (r : Fleet). IsSound (core r) in
    if-both P (str_eq (tag_of m) "in")
      (subst IsSound (sym (core-ws_send ws (in_frame sid (prop m "data")) s)) v)
      (if-both P (str_eq (tag_of m) "resize")
        (subst IsSound (sym (core-ws_send ws (resize_frame sid (prop m "c") (prop m "r")) s)) v) v)

from_term_to-IsSound :
    (sid : String) (m : Json) (ws : Option ℕ) (s : Fleet)
    → IsSound (core s)
    → Keeps (from_term_to sid m ws s)
from_term_to-IsSound sid m none s v = v
from_term_to-IsSound sid m (some ws) s v =
    if-both Keeps (is_null m) v (from_term-IsSound sid m ws s v)

dispatch-IsSound :
    (rt : Runtime) (now ws : ℕ) (a : Attachment) (m : Json) (s : Fleet)
    → attach s ws ≡ a
    → IsSound (core s)
    → Keeps (dispatch rt now ws a m s)
unfolding dispatch
dispatch-IsSound rt now ws blank m s e v = v
dispatch-IsSound rt now ws (pending since) m s e v =
    if-both Keeps (is_null m) v (hello_object-IsSound rt now ws m s v)
dispatch-IsSound rt now ws (agent mid seen) m s e v =
    if-both Keeps (is_null m) v (from_agent-IsSound rt now ws mid seen m s e v)
dispatch-IsSound rt now ws (term sid mid) m s e v =
    from_term_to-IsSound sid m (agent_socket s (some mid)) s v
dispatch-IsSound rt now ws replaced m s e v = v

dispatch_if-IsSound :
    (rt : Runtime) (now ws : ℕ) (m : Option Json) (s : Fleet)
    → IsSound (core s)
    → Keeps (dispatch_if rt now ws m s)
dispatch_if-IsSound rt now ws none s v = v
dispatch_if-IsSound rt now ws (some m) s v = dispatch-IsSound rt now ws (attach s ws) m s refl v

pub web_socket_message-IsSound :
    (rt : Runtime) (now ws : ℕ) (raw : Raw) (s : Fleet)
    → IsSound (core s)
    → Keeps (web_socket_message rt now ws raw s)
unfolding web_socket_message
web_socket_message-IsSound rt now ws raw s v = dispatch_if-IsSound rt now ws (parsed rt raw) s v
