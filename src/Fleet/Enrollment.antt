-- ===== src/Fleet/Enrollment.antt =====
-- `hello` of worker/src/fleet.js: who becomes the agent of a machine.

pub mod Refusals
use popfleet.Base.{
  Bool, not, ◌&&◌, is_some, if◌then◌else◌, ℕ, ◌≤◌, String, true, false, List, [], ◌∷◌, Option, none,
  some, str_eq, ◌≡◌, ◌≢◌, refl, sym, ap, subst, ◌∙◌, arith, eq_iff, eq_refl, Bool-cases, ◌↔◌, ◌⊎◌,
  inl, inr,
}
use native.Mathlib.Decide.{ℕ_discrete}
use popfleet.Json.{null, is_null, tag_text, Json, str, prop, truthy, tag_of}
use popfleet.Dict.{lookup}
use popfleet.Fleet.Runtime.{Runtime}
use popfleet.Fleet.State.{
  Fleet, Socket, Machine, Attachment, pending, agent, replaced, agent_tag, err_frame,
}
use popfleet.Fleet.Sockets.{
  attach, find_socket, first_with, get_web_sockets, agent_socket, modify, with_attachment, has_tag,
  mid_of, same, serialize, ws_send, ws_close, arm_alarm, is_open,
}
use popfleet.Fleet.Frames.{
  hello_object, hello, known_id, or_threw, dispatch, dispatch_if, Raw, Ended, finished, threw,
  parsed, web_socket_message, admit, enroll, replace_old, touch, token_sum_of, e2e_required,
}
use popfleet.Fleet.Core.{
  Core, core, bare, bare_socket, core-serialize, core-ws_send, core-ws_close, first_with-bare,
}
use popfleet.Fleet.Counts.{agents, is_agent_of}
use popfleet.Fleet.Looks.{find_socket-modify, is_open-ws_close}
use popfleet.Fleet.Soundness.{IsSound}
use popfleet.Fleet.Soundness.Revocation.{dropped, sole-le-one}
use popfleet.Fleet.Soundness.Messages.{core-replace_old, hello_object-IsSound}

agents-pos :
    (m : String) (ws : ℕ) (k : Socket) (ks : List Socket)
    → find_socket ws ks ≡ some k
    → is_agent_of m k ≡ true
    → 1 ≤ agents m ks
unfolding agents find_socket
agents-pos m ws k [] e h = cc
agents-pos m ws k (j ∷ ks) e h = ground (arith, agents-pos m ws k ks)

-- Where a machine has one agent at most, the lookup finds the one that there is.
first_unique :
    (m : String) (ws : ℕ) (k : Socket) (ks : List Socket)
    → find_socket ws ks ≡ some k
    → is_agent_of m k ≡ true
    → agents m ks ≤ 1
    → first_with (some m) (get_web_sockets agent_tag ks) ≡ some ws
unfolding agents find_socket first_with get_web_sockets is_agent_of
first_unique m ws k [] e h one = cc
first_unique m ws k (j ∷ ks) e h one = ground (arith, first_unique m ws k ks, agents-pos m ws k ks)

find_socket-bare-some :
    (ws : ℕ) (k : Socket) (ks : List Socket)
    → find_socket ws ks ≡ some k
    → find_socket ws (bare ks) ≡ some (bare_socket k)
unfolding find_socket
find_socket-bare-some ws k [] e = cc
find_socket-bare-some ws k (j ∷ ks) e = ground (arith, find_socket-bare-some ws k ks)

sockets-touch :
    (now : ℕ) (m : Json) (mid : String) (found : Option Machine) (s : Fleet)
    → (touch now m mid found s).sockets ≡ s.sockets
sockets-touch now m mid none s = refl
sockets-touch now m mid (some machine) s = refl

sockets-enroll :
    (now ws : ℕ) (m : Json) (mid : String) (s : Fleet)
    → bare (enroll now ws m mid s).sockets
      ≡ modify ws
          (with_attachment (agent mid now))
          (dropped (agent_socket s (some mid)) (bare s.sockets))
unfolding enroll arm_alarm ws_send
sockets-enroll now ws m mid s =
    let cleared = replace_old mid (agent_socket s (some mid)) s in
    let tagged = serialize ws (agent mid now) cleared in
    ap bare (sockets-touch now m mid (lookup mid tagged.machines) tagged)
    ∙ ap (λ (c : Core). c.sockets) (core-serialize ws (agent mid now) cleared)
    ∙ ap (λ (c : Core). modify ws (with_attachment (agent mid now)) c.sockets)
        (core-replace_old mid (agent_socket s (some mid)) s)

-- The tags and the connection of a socket outlive a replacement.
find_socket-dropped :
    (old : Option ℕ) (ws : ℕ) (k : Socket) (ks : List Socket)
    → find_socket ws ks ≡ some k
    → (a : Attachment) × (find_socket ws (dropped old ks) ≡ some (with_attachment a k))
unfolding dropped
find_socket-dropped none ws k ks e = (k.attachment, e)
find_socket-dropped (some u) ws k ks e = elim (ℕ_discrete u ws) [
  | yes same_ws ↦ (
    replaced,
    ground (arith, find_socket-modify u ws (with_attachment replaced) ks (λ (j : Socket). refl)),
  )
  | no other ↦ (
    k.attachment,
    ground (arith, find_socket-modify u ws (with_attachment replaced) ks (λ (j : Socket). refl)),
  )
]

agent-is_agent_of :
    (mid : String) (now : ℕ) (k : Socket)
    → k.connected ≡ true
    → has_tag agent_tag k.tags ≡ true
    → is_agent_of mid (with_attachment (agent mid now) k) ≡ true
unfolding is_agent_of same mid_of
agent-is_agent_of mid now k on tagged = rw (on, tagged) (eq_refl mid)

agent_socket-enroll :
    (now ws : ℕ) (m : Json) (mid : String) (k : Socket) (s : Fleet)
    → IsSound (core (enroll now ws m mid s))
    → find_socket ws s.sockets ≡ some k
    → k.connected ≡ true
    → has_tag agent_tag k.tags ≡ true
    → agent_socket (enroll now ws m mid s) (some mid) ≡ some ws
unfolding agent_socket
agent_socket-enroll now ws m mid k s v found on tagged =
    let ks = bare s.sockets in
    let old = agent_socket s (some mid) in
    let after = (enroll now ws m mid s).sockets in
    let (a, kept) =
      find_socket-dropped old ws (bare_socket k) ks (find_socket-bare-some ws k s.sockets found) in
    let j = with_attachment (agent mid now) (with_attachment a (bare_socket k)) in
    let there : find_socket ws (bare after) ≡ some j =
      ap (find_socket ws) (sockets-enroll now ws m mid s)
      ∙ find_socket-modify ws ws (with_attachment (agent mid now)) (dropped old ks)
          (λ (x : Socket). refl)
      ∙ ground (arith, kept) in
    sym (first_with-bare agent_tag (some mid) after)
    ∙ first_unique mid ws j (bare after) there
        (agent-is_agent_of mid now (with_attachment a (bare_socket k)) on tagged)
        (sole-le-one (core (enroll now ws m mid s)) mid v)

hello_object-enroll :
    (rt : Runtime) (now ws : ℕ) (m : Json) (mid : String) (s : Fleet)
    → tag_of m ≡ "hello"
    → lookup (token_sum_of rt m) s.toks ≡ some mid
    → mid ≢ ""
    → truthy (prop m "e2e") ≡ true
    → hello_object rt now ws m s ≡ enroll now ws m mid s
unfolding hello_object
hello_object-enroll rt now ws m mid s is_hello known named e2e =
    let kept : known_id (some mid) ≡ some mid = ground (arith, eq_iff mid "") in
    rw (is_hello, known, kept, e2e)

tagged-not_null : (m : Json) → tag_of m ≡ "hello" → is_null m ≡ false
unfolding tag_of prop tag_text
tagged-not_null null h = cc h
tagged-not_null _ h = refl

-- In a sound state a hello on a connected agent socket with a known token, which speaks v1e, makes
-- this socket the one agent of the token's machine, whoever was its agent before. The machine's id is
-- not empty.
pub hello_enrolls :
    (rt : Runtime) (now ws : ℕ) (m : Json) (mid : String) (k : Socket) (s : Fleet)
    → IsSound (core s)
    → find_socket ws s.sockets ≡ some k
    → k.connected ≡ true
    → has_tag agent_tag k.tags ≡ true
    → tag_of m ≡ "hello"
    → lookup (token_sum_of rt m) s.toks ≡ some mid
    → mid ≢ ""
    → truthy (prop m "e2e") ≡ true
    → agent_socket (hello rt now ws m s).0 (some mid) ≡ some ws
unfolding hello
hello_enrolls rt now ws m mid k s v found on tagged is_hello known named e2e =
    let runs : hello_object rt now ws m s ≡ enroll now ws m mid s =
      hello_object-enroll rt now ws m mid s is_hello known named e2e in
    rw (tagged-not_null m is_hello) (
      ap (λ (r : Fleet). agent_socket r (some mid)) runs
      ∙ agent_socket-enroll now ws m mid k s
          (subst (λ (r : Fleet). IsSound (core r)) runs (hello_object-IsSound rt now ws m s v))
          found on tagged)
