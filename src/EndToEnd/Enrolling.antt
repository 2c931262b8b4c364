-- ===== src/EndToEnd/Enrolling.antt =====
-- From the add button of the panel page, worker/public/index.js, to an enrolled agent: through
-- worker/src/index.js and worker/src/fleet.js.
use Prim.Native.String.{◌++◌ as concat}
use popfleet.Base.{
  ℕ, String, true, false, List, [], ◌∷◌, ◌++◌, Option, none, some, str_eq, if◌then◌else◌, ◌≡◌, ◌≢◌,
  refl, ap, ◌∙◌, arith, inl, inr, Bool-cases,
}
use popfleet.Json.{Json, str, obj, field, end, truthy, prop, is_null, tag_of}
use popfleet.Dict.{lookup}
use popfleet.Routes.{strip, starts_with}
use popfleet.Fleet.Runtime.{Runtime, rand_hex}
use popfleet.Fleet.State.{Fleet, pending}
use popfleet.Fleet.Sockets.{agent_socket, attach, find_socket, accept, arm_alarm}
use popfleet.Fleet.Api.{
  Response, text_response, token_response, machines_response, term_response, no_content, switching,
  threw, post_tokens, body_or_empty,
}
use popfleet.Fleet.Upgrades.{upgrade_agent}
use popfleet.Fleet.Frames.{hello, text, web_socket_message, dispatch, dispatch_if}
use popfleet.Fleet.Events.{Request, Draws, fetch}
use popfleet.Fleet.Core.{core}
use popfleet.Fleet.Soundness.{IsSound}
use popfleet.Fleet.Journeys.{new_token_enrolls, next_id-post_tokens}
use popfleet.Worker
use popfleet.Worker.{Env, or_empty, forwards}
use popfleet.Worker.Gate.{fetch_forwards_iff}
use popfleet.Panel.{
  Surface, Panel, Call, Reply, or_blank, next_answer, answered, admin_token, e2e_key, api,
}
use popfleet.Panel.Actions.{key_if, shown, blocks_of, add_machine}
use popfleet.Panel.Access.{request_of, panel_request_forwards_iff}
use popfleet.EndToEnd.Opening.{connect, handshake}

-- The answer of POST /api/tokens as the panel gets it.
abbrev pub token_of : Response → Option (Reply String)
token_of (text_response status t) = some (record { status = status; body = none })
token_of (token_response t) = some (record { status = 200; body = some t })
token_of (machines_response rows) = some (record { status = 200; body = none })
token_of (term_response url sid) = some (record { status = 200; body = none })
token_of no_content = some (record { status = 204; body = none })
token_of (switching ws) = some (record { status = 101; body = none })
token_of threw = some (record { status = 500; body = none })

-- The name that the user answers, "" for none.
abbrev pub asked_name : Panel → String
asked_name p = or_blank (next_answer p.answers)

abbrev pub name_if : String → Option String
name_if name = if str_eq name "" then none else some name

-- `JSON.stringify({ name })`, parsed.
abbrev pub name_json : Option String → Option Json
name_json none = none
name_json (some name) = some (obj (field "name" (str name) end))

abbrev pub token_call : Panel → Call
token_call p = record {
  verb = "POST";
  path = "/api/tokens";
  authorization = concat "Bearer " p.admin;
  body = name_if (asked_name p);
}

abbrev pub token_request : Panel → Request
token_request p = record {
  method = "POST";
  path = "/api/tokens";
  k = none;
  body = name_json (name_if (asked_name p));
}

abbrev pub key_of : Panel → String
key_of p = if p.e2e then p.stored_key else ""

module _ (sf : Surface) where
  key_if-stored : (p : Panel) → str_eq p.stored_key "" ≡ false → key_if sf p ≡ (key_of p, p)
  unfolding e2e_key
  key_if-stored p stored = elim (Bool-cases p.e2e) [
    | inl e ↦ rw (e, stored) refl
    | inr e ↦ rw e refl
  ]

  add_machine-token :
      (token : String) (p : Panel)
      → str_eq p.admin "" ≡ false
      → str_eq p.stored_key "" ≡ false
      → add_machine sf (token_of (token_response token)) p ≡ record (answered p) {
        calls = p.calls ++ token_call p ∷ [];
        blocks = some (blocks_of sf (key_of p) token);
        dialog = true;
      }
  unfolding add_machine api admin_token
  add_machine-token token p held stored =
      let called = record (answered p) { calls = p.calls ++ token_call p ∷ [] } in
      rw held (ap (shown sf token) (key_if-stored called stored))

module _ (rt : Runtime) (now : ℕ) (d : Draws) (s : Fleet) where
  fetch-tokens :
      (p : Panel)
      → fetch rt now (token_request p) d s
        ≡ post_tokens rt (name_json (name_if (asked_name p))) (rand_hex d.short) (rand_hex d.long) s
  unfolding fetch strip
  fetch-tokens p = refl

  fetch-agent : fetch rt now (connect "/ws/agent" "") d s ≡ upgrade_agent now s
  unfolding fetch
  fetch-agent = refl

name-not_null : (name : Option String) → is_null (body_or_empty (name_json name)) ≡ false
name-not_null none = refl
name-not_null (some name) = refl

-- The first frame of a socket that was just accepted.
attach-upgrade_agent :
    (now ws : ℕ) (s : Fleet) → s.next_id ≡ ws → attach (upgrade_agent now s).0 ws ≡ pending now
unfolding upgrade_agent accept arm_alarm attach find_socket
attach-upgrade_agent now ws s e = ground arith

first_frame :
    (rt : Runtime) (now later ws : ℕ) (raw : String) (m : Json) (s : Fleet)
    → s.next_id ≡ ws
    → rt.parse raw ≡ some m
    → (web_socket_message rt later ws (text raw) (upgrade_agent now s).0).0
      ≡ (hello rt later ws m (upgrade_agent now s).0).0
unfolding web_socket_message dispatch
first_frame rt now later ws raw m s new parses =
    rw (parses, dispatch_if, attach-upgrade_agent now ws s new, dispatch) refl

-- If the panel holds the admin token and a fleet key, then the add button makes one call, which the Worker
-- passes on, and shows the commands with the token of the answer, and with the key on a relay that asks
-- for one; the Worker passes on an agent's WebSocket; and an agent that sends a v1e hello with this
-- token as its first frame is then the agent of the machine that the call made. The state is sound, the
-- machine's id is new, and neither it nor the token is empty.
pub button_enrolls :
    (sf : Surface) (digest : String → List ℕ) (env : Env) (rt : Runtime) (now between later : ℕ)
    (d drawn : Draws) (raw : String) (m : Json) (s : Fleet) (p : Panel)
    → str_eq p.admin "" ≡ false
    → str_eq p.stored_key "" ≡ false
    → or_empty env.admin_token ≢ ""
    → digest p.admin ≡ digest (or_empty env.admin_token)
    → IsSound (core s)
    → lookup (rand_hex d.short) s.machines ≡ none
    → rand_hex d.short ≢ ""
    → rand_hex d.long ≢ ""
    → rt.parse raw ≡ some m
    → tag_of m ≡ "hello"
    → prop m "token" ≡ some (str (rand_hex d.long))
    → truthy (prop m "e2e") ≡ true
    → let made = fetch rt now (token_request p) d s in
      let after = add_machine sf (token_of made.1) p in
      let connected = fetch rt between (connect "/ws/agent" "") drawn made.0 in
      let enrolled = (web_socket_message rt later s.next_id (text raw) connected.0).0 in
      (after.calls ≡ p.calls ++ token_call p ∷ [])
      × (Worker.fetch digest (request_of (token_call p)) env ≡ forwards)
      × (after.blocks ≡ some (blocks_of sf (key_of p) (rand_hex d.long)))
      × (Worker.fetch digest (handshake "/ws/agent") env ≡ forwards)
      × (connected.1 ≡ switching s.next_id)
      × (agent_socket enrolled (some (rand_hex d.short)) ≡ some s.next_id)
unfolding starts_with upgrade_agent post_tokens
button_enrolls sf digest env rt now between later d drawn raw m s p held stored set fits v fresh
      named full parses is_hello given e2e =
    let body = name_json (name_if (asked_name p)) in
    let not_null = name-not_null (name_if (asked_name p)) in
    let id = rand_hex d.short in
    let token = rand_hex d.long in
    let registered = (post_tokens rt body id token s).0 in
    let same_id = next_id-post_tokens rt body id token s not_null in
    let answer : (post_tokens rt body id token s).1 ≡ token_response token = rw not_null refl in
    let panel = add_machine-token sf token p held stored in
    let gate =
      panel_request_forwards_iff {A = String} sf digest env "POST" "/api/tokens"
        (name_if (asked_name p)) none p held refl in
    let agent_is =
      new_token_enrolls rt between later body id token m s v fresh named not_null is_hello given
        full e2e in
    let frame = first_frame rt between later s.next_id raw m registered same_id parses in
    rw (fetch-tokens rt now d s p, answer, panel, fetch-agent rt between drawn registered)
      (
        refl,
        gate.1.1 (set, fits),
        refl,
        (fetch_forwards_iff digest (handshake "/ws/agent") env).1 (inl (refl, refl)),
        ap switching same_id,
        ap (λ (r : Fleet). agent_socket r (some id)) frame ∙ agent_is,
      )
