-- ===== src/Fleet/Journeys.antt =====
-- Several requests and frames of worker/src/fleet.js in a row: enrollment, a session, a heartbeat.
use popfleet.Base.{
  ℕ, ◌+◌, ◌<◌, ◌≤◌, String, true, false, List, [], ◌∷◌, ◌++◌, Option, none, some, ◌==◌,
  if◌then◌else◌, ◌≡◌, ◌≢◌, refl, ap, ◌∙◌, arith, eq_iff, eq_refl,
}
use mathlib.Core.List.{append_assoc}
use popfleet.Json.{Json, str, prop, truthy, is_null, tag_of, or_else}
use popfleet.Dict.{lookup, delete}
use popfleet.Dict.Laws.{lookup-put}
use popfleet.Fleet.Runtime.{Runtime, sha256hex, to_text}
use popfleet.Fleet.State.{
  Fleet, Socket, Pend, Effect, sends, closes, e2e_frame, err_frame, open_frame, agent, agent_tag,
  term_tag, sid_tag, mid_tag, pending, term, dead_ms,
}
use popfleet.Fleet.Sockets.{
  agent_socket, first_with, get_web_sockets, has_tag, find_socket, attach, is_open, ws_send,
  ws_close, accept, arm_alarm, with_attachment, serialize, last_seen_of,
}
use popfleet.Fleet.Api.{body_or_empty, post_tokens}
use popfleet.Fleet.Upgrades.{upgrade_agent, upgrade_term, open_term, open_if, key_fits, tell_agent}
use popfleet.Fleet.Frames.{hello, token_sum_of, text, web_socket_message, dispatch, from_agent}
use popfleet.Fleet.Lifecycle.{alarm}
use popfleet.Fleet.Core.{core}
use popfleet.Fleet.Counts.{Below}
use popfleet.Fleet.Looks.{find_socket-modify, is_open-ws_send}
use popfleet.Fleet.Soundness.{IsSound, sum_at}
use popfleet.Fleet.Soundness.Requests.{post_tokens-IsSound, upgrade_agent-IsSound}
use popfleet.Fleet.Enrollment.{hello_enrolls}
use popfleet.Fleet.Silence.{alarm_drops_silent}

module _ (rt : Runtime) (body : Option Json) (id token : String) (s : Fleet)
    (object : is_null (body_or_empty body) ≡ false) where
  pub next_id-post_tokens : (post_tokens rt body id token s).0.next_id ≡ s.next_id
  unfolding post_tokens
  next_id-post_tokens = rw object refl

  toks-post_tokens : lookup (sha256hex rt token) (post_tokens rt body id token s).0.toks ≡ some id
  unfolding post_tokens
  toks-post_tokens = rw object (
      lookup-put (sha256hex rt token) (sha256hex rt token) id s.toks
      ∙ ground (arith, eq_refl (sha256hex rt token)))

token_sum_of-text :
    (rt : Runtime) (m : Json) (token : String)
    → prop m "token" ≡ some (str token)
    → token ≢ ""
    → token_sum_of rt m ≡ sha256hex rt token
unfolding token_sum_of or_else truthy to_text
token_sum_of-text rt m token e h = rw e (ground (arith, eq_iff token ""))

-- In a sound state, if an agent connects after POST /api/tokens and says a v1e hello with the token
-- of the answer, its socket becomes the agent of the machine that the request made, whose id was new and not empty.
pub new_token_enrolls :
    (rt : Runtime) (now later : ℕ) (body : Option Json) (id token : String) (m : Json) (s : Fleet)
    → IsSound (core s)
    → lookup id s.machines ≡ none
    → id ≢ ""
    → is_null (body_or_empty body) ≡ false
    → tag_of m ≡ "hello"
    → prop m "token" ≡ some (str token)
    → token ≢ ""
    → truthy (prop m "e2e") ≡ true
    → agent_socket
        (hello rt later s.next_id m (upgrade_agent now (post_tokens rt body id token s).0).0).0
        (some id)
      ≡ some s.next_id
unfolding upgrade_agent accept arm_alarm find_socket has_tag sum_at
new_token_enrolls rt now later body id token m s v fresh named object is_hello given full e2e =
    let registered = (post_tokens rt body id token s).0 in
    let ids = next_id-post_tokens rt body id token s object in
    let k : Socket = record {
      id = registered.next_id;
      tags = agent_tag ∷ [];
      attachment = pending now;
      connected = true;
      closed = false;
      auto = none;
    } in
    hello_enrolls rt later s.next_id m id k (upgrade_agent now registered).0
      (upgrade_agent-IsSound now registered
        (post_tokens-IsSound rt body id token s (rw fresh refl) v))
      (ground (arith, ids)) refl refl is_hello
      (ap (λ sum. lookup sum registered.toks) (token_sum_of-text rt m token given full)
        ∙ toks-post_tokens rt body id token s object)
      named e2e

-- What follows the first frame of a terminal: the request to the machine's agent, or the banner.
abbrev pub opening : Fleet → String → Json → Option ℕ → List Effect
opening s sid cmd none =
    sends s.next_id (err_frame (str "agent is offline"))
    ∷ closes s.next_id 1000 "agent is offline"
    ∷ []
opening s sid cmd (some ws) = if is_open s ws then sends ws (open_frame sid cmd) ∷ [] else []

agent_socket-Below :
    (n ws : ℕ) (mid : Option String) (ks : List Socket)
    → Below n ks
    → first_with mid (get_web_sockets agent_tag ks) ≡ some ws
    → ws < n
unfolding first_with get_web_sockets
agent_socket-Below n ws mid [] b h = absurd (ground arith)
agent_socket-Below n ws mid (k ∷ ks) b h = ground (arith, agent_socket-Below k.id ws mid ks b.1)

module _ (sid : String) (p : Pend) (s : Fleet) where
  registered : Fleet
  unfolding accept
  registered =
      accept (term_tag ∷ sid_tag sid ∷ mid_tag p.mid ∷ []) (term sid p.mid)
        (record s { pends = delete sid s.pends })

  is_open-registered :
      (ws : ℕ) → is_open registered ws ≡ (if s.next_id == ws then true else is_open s ws)
  unfolding registered is_open find_socket
  is_open-registered ws = ground arith

  -- After the first frame.
  greeted : Fleet
  unfolding ws_send
  greeted = ws_send s.next_id e2e_frame registered

  is_open-greeted : (ws : ℕ) → is_open greeted ws ≡ (if s.next_id == ws then true else is_open s ws)
  unfolding greeted
  is_open-greeted ws = is_open-ws_send s.next_id ws e2e_frame registered ∙ is_open-registered ws

  sent-greeted : greeted.sent ≡ s.sent ++ sends s.next_id e2e_frame ∷ []
  unfolding greeted ws_send registered
  sent-greeted = ground (arith, is_open-registered s.next_id)

  sent-tell_agent :
      (ws : Option ℕ)
      → Below s.next_id s.sockets
      → agent_socket s (some p.mid) ≡ ws
      → (tell_agent s.next_id sid p.cmd ws greeted).sent
        ≡ s.sent ++ (sends s.next_id e2e_frame ∷ opening s sid p.cmd ws)
  unfolding ws_send ws_close agent_socket
  sent-tell_agent none b e =
      let banner = sends s.next_id (err_frame (str "agent is offline")) in
      let end = closes s.next_id 1000 "agent is offline" in
      ground (
        arith,
        sent-greeted,
        is_open-greeted s.next_id,
        is_open-ws_send s.next_id s.next_id (err_frame (str "agent is offline")) greeted,
        append_assoc s.sent (sends s.next_id e2e_frame ∷ []) (banner ∷ []),
        append_assoc s.sent (sends s.next_id e2e_frame ∷ banner ∷ []) (end ∷ []),
      )
  sent-tell_agent (some ws) b e =
      let lower = agent_socket-Below s.next_id ws (some p.mid) s.sockets b e in
      ground (
        arith,
        sent-greeted,
        is_open-greeted ws,
        append_assoc s.sent (sends s.next_id e2e_frame ∷ []) (sends ws (open_frame sid p.cmd) ∷ []),
      )

-- An accepted terminal upgrade sends exactly this: first the e2e frame to the new socket, then the
-- request to open the session to the machine's agent, if its socket is open, or, if the machine has
-- no agent, the banner that it is offline and a close.
pub sent-upgrade_term :
    (rt : Runtime) (now : ℕ) (sid key : String) (p : Pend) (s : Fleet)
    → Below s.next_id s.sockets
    → lookup sid s.pends ≡ some p
    → key_fits rt now key p ≡ true
    → (upgrade_term rt now sid key s).0.sent
      ≡ s.sent ++ (sends s.next_id e2e_frame ∷ opening s sid p.cmd (agent_socket s (some p.mid)))
unfolding upgrade_term open_term registered greeted agent_socket get_web_sockets has_tag ws_send
sent-upgrade_term rt now sid key p s b found fits =
    rw (found, open_if, fits) (sent-tell_agent sid p s (agent_socket s (some p.mid)) b refl)

-- A heartbeat that the object answers itself keeps a connected agent through an alarm at any time up
-- to 35 seconds after it.
pub heartbeat_keeps_agent :
    (rt : Runtime) (now later ws : ℕ) (raw : String) (m : Json) (k : Socket) (mid : String)
    (seen : ℕ) (s : Fleet)
    → find_socket ws s.sockets ≡ some k
    → k.connected ≡ true
    → k.attachment ≡ agent mid seen
    → rt.parse raw ≡ some m
    → is_null m ≡ false
    → tag_of m ≡ "hb"
    → later ≤ now + dead_ms
    → attach (alarm later (web_socket_message rt now ws (text raw) s).0) ws ≡ agent mid now
unfolding web_socket_message dispatch from_agent attach serialize last_seen_of
heartbeat_keeps_agent rt now later ws raw m k mid seen s found on is_agent parses object is_hb
      soon =
    let after = serialize ws (agent mid now) s in
    let there : find_socket ws after.sockets ≡ some (with_attachment (agent mid now) k) =
      find_socket-modify ws ws (with_attachment (agent mid now)) s.sockets (λ (j : Socket). refl)
      ∙ ground (arith, found) in
    let kept =
      alarm_drops_silent later ws (with_attachment (agent mid now) k) mid now after there on refl in
    rw (parses, found, is_agent, dispatch, object, is_hb) (kept ∙ rw there (ground arith))
