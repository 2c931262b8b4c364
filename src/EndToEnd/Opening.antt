-- ===== src/EndToEnd/Opening.antt =====
-- From the Terminal button of the panel page, worker/public/index.js, to a terminal's socket: through
-- worker/src/index.js, worker/src/fleet.js and the address of the terminal page, worker/public/term.js.
use Prim.Native.String.{◌++◌ as concat}
use text.Mathlib.TextLemmas.{append_assoc}
use popfleet.Base.{
  ℕ, ◌+◌, ◌<◌, String, true, false, List, [], ◌∷◌, ◌++◌, Option, none, some, is_some, str_eq, ◌≡◌,
  ◌≢◌, refl, ap, ◌∙◌, arith, inl, inr, Option-cases,
}
use popfleet.Json.{Json, str, truthy, prop}
use popfleet.Dict.{lookup}
use popfleet.Routes.{strip, starts_with, match_term}
use popfleet.Routes.Laws.{NoSlash, clash, strip-clash, strip-concat, match_term_iff}
use popfleet.Fleet.Runtime.{Runtime, rand_hex}
use popfleet.Fleet.Runtime.Hex.{to_hex-NoSlash}
use popfleet.Fleet.State.{Fleet, key_ttl_ms}
use popfleet.Fleet.Api.{
  Response, text_response, token_response, machines_response, term_response, no_content, switching,
  threw, post_term,
}
use popfleet.Fleet.Upgrades.{upgrade_term}
use popfleet.Fleet.Events.{Request, Draws, fetch}
use popfleet.Fleet.Keys.{upgrade_term_accepted_iff}
use popfleet.Fleet.Keys.Minting.{session_url, post_term_new}
use popfleet.Terminal.Address.{socket_path, ends_slash, last_segment-concat}
use popfleet.Worker
use popfleet.Worker.{Env, HttpRequest, or_empty, forwards, serves, is_socket_path}
use popfleet.Worker.Gate.{not-literal, fetch_forwards_iff}
use popfleet.Panel.Access.{request_of, panel_request_forwards_iff}
use popfleet.Panel.{Surface, Panel, Call, Reply, admin_token, api}
use popfleet.Panel.Actions.{open_terminal}

-- The answer of POST term as the panel gets it: the URL of the body, if the status is 200.
abbrev pub reply_of : Response → Option (Reply String)
reply_of (text_response status t) = some (record { status = status; body = none })
reply_of (token_response t) = some (record { status = 200; body = none })
reply_of (machines_response rows) = some (record { status = 200; body = none })
reply_of (term_response url sid) = some (record { status = 200; body = some url })
reply_of no_content = some (record { status = 204; body = none })
reply_of (switching ws) = some (record { status = 101; body = none })
reply_of threw = some (record { status = 500; body = none })

abbrev pub term_path : String → String
term_path mid = concat "/api/machines/" (concat mid "/term")

abbrev pub post : String → Request
post path = record { method = "POST"; path = path; k = none; body = none }

abbrev pub connect : String → String → Request
connect path key = record { method = "GET"; path = path; k = some key; body = none }

-- A request that a browser makes by itself.
abbrev pub visit : String → HttpRequest
visit path = record { path = path; upgrade = none; authorization = none }

abbrev pub handshake : String → HttpRequest
handshake path = record { path = path; upgrade = some "websocket"; authorization = none }

starts-concat : (p s : String) → starts_with p (concat p s) ≡ true
unfolding starts_with
starts-concat p s = ap is_some (strip-concat p s)

none-of_starts : (p s : String) → starts_with p s ≡ false → strip p s ≡ none
unfolding starts_with
none-of_starts p s h = elim (Option-cases (strip p s)) [
  | inl e ↦ e
  | inr (r, e) ↦ cc (h, ap is_some e)
]

module _ (rt : Runtime) (now : ℕ) (d : Draws) (s : Fleet) where
  fetch-routed :
      (path mid : String)
      → str_eq path "/ws/agent" ≡ false
      → strip "/ws/term/" path ≡ none
      → str_eq path "/api/tokens" ≡ false
      → str_eq path "/api/machines" ≡ false
      → match_term path ≡ some mid
      → fetch rt now (post path) d s
        ≡ post_term rt now mid none (rand_hex d.short) (rand_hex d.long) s
  unfolding fetch
  fetch-routed path mid no_agent no_socket no_tokens no_list routed =
      rw (no_agent, no_socket, no_tokens, no_list, routed) refl

  fetch-post :
      (mid : String)
      → NoSlash mid
      → mid ≢ ""
      → fetch rt now (post (term_path mid)) d s
        ≡ post_term rt now mid none (rand_hex d.short) (rand_hex d.long) s
  unfolding clash starts_with
  fetch-post mid plain full =
      let path = term_path mid in
      let below = starts-concat "/api/machines/" (concat mid "/term") in
      fetch-routed path mid (not-literal "/api/machines/" path "/ws/agent" refl below)
        (none-of_starts "/ws/term/" path (strip-clash "/api/machines/" "/ws/term/" path refl below))
        (not-literal "/api/machines/" path "/api/tokens" refl below)
        (not-literal "/api/machines/" path "/api/machines" refl below)
        ((match_term_iff path mid).1 (refl, plain, full))

  fetch-connect :
      (sid key : String)
      → fetch rt now (connect (concat "/ws/term/" sid) key) d s ≡ upgrade_term rt now sid key s
  unfolding fetch starts_with
  fetch-connect sid key =
      let path = concat "/ws/term/" sid in
      let no_agent : str_eq path "/ws/agent" ≡ false =
        not-literal "/ws/term/" path "/ws/agent" refl (starts-concat "/ws/term/" sid) in
      rw (no_agent, strip-concat "/ws/term/" sid) refl

-- The button's request.
abbrev pub term_call : String → Panel → Call
term_call mid p = record {
  verb = "POST";
  path = term_path mid;
  authorization = concat "Bearer " p.admin;
  body = none;
}

open_terminal-url :
    (sf : Surface) (mid url : String) (sid : Json) (p : Panel)
    → str_eq p.admin "" ≡ false
    → let q = open_terminal sf mid (reply_of (term_response url sid)) p in
      (q.calls ≡ p.calls ++ term_call mid p ∷ []) × (q.windows ≡ p.windows ++ url ∷ [])
unfolding open_terminal api admin_token
open_terminal-url sf mid url sid p held = rw held (refl, refl)

module _ (digest : String → List ℕ) (env : Env) where
  serves-term :
      (sid : String) → Worker.fetch digest (visit (concat "/term/" sid)) env ≡ serves "/term"
  unfolding Worker.fetch starts_with
  serves-term sid =
      let path = concat "/term/" sid in
      let here = starts-concat "/term/" sid in
      let no_health : str_eq path "/healthz" ≡ false =
        not-literal "/term/" path "/healthz" refl here in
      rw (no_health, strip-concat "/term/" sid) refl

  forwards-socket :
      (sid : String) → Worker.fetch digest (handshake (concat "/ws/term/" sid)) env ≡ forwards
  forwards-socket sid =
      (fetch_forwards_iff digest (handshake (concat "/ws/term/" sid)) env).1
        (inl (ground (arith, starts-concat "/ws/term/" sid), refl))

-- If the panel holds the admin token, then the Terminal button of a registered machine makes one call, which
-- the Worker passes on, and opens the URL of the answer; the Worker serves the terminal page there, and
-- passes on the WebSocket that this page asks for; and the object accepts it within 60 seconds of the
-- call. The machine's id is a path segment, and the browser splits the URL before its query.
pub terminal_opens :
    (sf : Surface) (digest : String → List ℕ) (env : Env) (rt : Runtime)
    (split_url : String → String × String) (now later : ℕ) (mid : String) (d drawn : Draws)
    (s : Fleet) (p : Panel)
    → str_eq p.admin "" ≡ false
    → or_empty env.admin_token ≢ ""
    → digest p.admin ≡ digest (or_empty env.admin_token)
    → NoSlash mid
    → mid ≢ ""
    → is_some (lookup mid s.machines) ≡ true
    → later < now + key_ttl_ms
    → split_url (session_url (rand_hex d.short) (rand_hex d.long))
      ≡ (concat "/term/" (rand_hex d.short), rand_hex d.long)
    → let url = session_url (rand_hex d.short) (rand_hex d.long) in
      let made = fetch rt now (post (term_path mid)) d s in
      let after = open_terminal sf mid (reply_of made.1) p in
      let (pathname, k) = split_url url in
      (after.calls ≡ p.calls ++ term_call mid p ∷ [])
      × (Worker.fetch digest (request_of (term_call mid p)) env ≡ forwards)
      × (after.windows ≡ p.windows ++ url ∷ [])
      × (Worker.fetch digest (visit pathname) env ≡ serves "/term")
      × (Worker.fetch digest (handshake (socket_path pathname)) env ≡ forwards)
      × ((fetch rt later (connect (socket_path pathname) k) drawn made.0).1
          ≡ switching made.0.next_id)
unfolding rand_hex starts_with ends_slash truthy prop
terminal_opens sf digest env rt split_url now later mid d drawn s p held set fits plain full known
      soon splits =
    let sid = rand_hex d.short in
    let key = rand_hex d.long in
    let minted = (post_term rt now mid none sid key s).0 in
    let fresh = post_term_new rt now mid none sid key s known refl refl in
    let opened = open_terminal-url sf mid (session_url sid key) (str sid) p held in
    let rest = concat mid "/term" in
    let below : starts_with "/api/" (term_path mid) ≡ true =
      ap (starts_with "/api/") (append_assoc "/api/" "machines/" rest)
      ∙ starts-concat "/api/" (concat "machines/" rest) in
    let gate =
      panel_request_forwards_iff {A = String} sf digest env "POST" (term_path mid) none none p held
        below in
    let to_sid =
      ap (concat "/ws/term/") (last_segment-concat "/term/" sid refl (to_hex-NoSlash d.short)) in
    let accepted =
      (upgrade_term_accepted_iff rt later sid key minted).1 ((fresh.1 later key).1 (soon, refl)) in
    rw (fetch-post rt now d s mid plain full, splits, fresh.0, to_sid)
      (
        opened.0,
        gate.1.1 (set, fits),
        opened.1,
        serves-term digest env sid,
        forwards-socket digest env sid,
        ap (λ r. r.1) (fetch-connect rt later drawn minted sid key) ∙ accepted,
      )
