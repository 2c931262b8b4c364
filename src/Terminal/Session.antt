-- ===== src/Terminal/Session.antt =====
-- The socket of the terminal page, worker/public/term.js: `init`, `sendResize`, the keystrokes and the
-- events of the page, one by one. The jobs of a chain of promises run in its order, each as one event.
use popfleet.Base.{
  ℕ, String, Bool, true, false, List, [], ◌∷◌, ◌++◌, Option, none, some, if◌then◌else◌,
}
use popfleet.Json.{Json, bool, obj, field, end, prop, truthy, is_null}
use popfleet.Terminal.{
  Browser, Page, SocketState, absent, connecting, opened, closing, PageFrame, input, resize, banner,
  enable_e2e, seal, handle_frame,
}

-- The answer to the probe: `r.ok`, and the body, `none` where it is no JSON.
pub record ConfigReply : Type 0 where
  pub ok : Bool
  pub body : Option Json

abbrev pub no_e2e : Json
no_e2e = obj (field "e2e" (bool false) end)

abbrev pub parsed_config : Option Json → Json
parsed_config none = no_e2e
parsed_config (some cfg) = cfg

-- `fetch("/config.json").then(...).catch(...)`: every failure counts as no end-to-end encryption.
unfoldable pub probed : Option ConfigReply → Json
probed none = no_e2e
probed (some r) = if r.ok then parsed_config r.body else no_e2e

module _ {Key : Type 0} where
  -- `ws && ws.readyState === WebSocket.OPEN`.
  abbrev pub send_if : SocketState → PageFrame → Page Key → Page Key
  send_if opened f p = record p { sent = p.sent ++ f ∷ [] }
  send_if absent f p = p
  send_if connecting f p = p
  send_if closing f p = p

  unfoldable pub send_resize : ℕ → ℕ → Page Key → Page Key
  send_resize cols rows p = send_if p.socket (resize cols rows) p

  -- `ws.onopen`, which only a socket that `init` has made calls.
  abbrev pub socket_opens : SocketState → ℕ → ℕ → Page Key → Page Key
  socket_opens connecting cols rows p = send_resize cols rows (record p { socket = opened })
  socket_opens absent cols rows p = p
  socket_opens opened cols rows p = p
  socket_opens closing cols rows p = p

  -- `ws.onclose`, likewise.
  abbrev pub socket_ends : SocketState → Page Key → Page Key
  socket_ends absent p = p
  socket_ends connecting p = banner "disconnected from broker" false (record p { socket = closing })
  socket_ends opened p = banner "disconnected from broker" false (record p { socket = closing })
  socket_ends closing p = banner "disconnected from broker" false p

  module _ (br : Browser Key) (sid : String) where
    abbrev pub payload_of : Option Key → List ℕ → List ℕ → String
    payload_of none nonce bytes = br.btoa bytes
    payload_of (some k) nonce bytes = seal br sid k nonce bytes

    -- The job of one `term.onData`.
    unfoldable pub on_data : (nonce : List ℕ) → List ℕ → Page Key → Page Key
    unfolding seal
    on_data nonce bytes p = send_if p.socket (input (payload_of p.aead nonce bytes)) p

    abbrev pub connect_if : Page Key × Bool → Page Key
    connect_if (p, true) = record p { socket = connecting }
    connect_if (p, false) = p

    -- `init`, with the answer to its fetch of /config.json, `none` where the fetch fails. On a
    -- configuration that is null, `cfg.e2e` throws, and there is no socket.
    unfoldable pub init : Option ConfigReply → List String → Page Key → Page Key
    unfolding enable_e2e truthy prop probed
    init reply answers p =
        let cfg = probed reply in
        if is_null cfg
        then p
        else connect_if (if truthy (prop cfg "e2e") then enable_e2e br sid answers p else (p, true))

    -- `ws.onmessage`, likewise.
    abbrev pub receives : SocketState → Json → List String → Page Key → Page Key
    receives absent m answers p = p
    receives connecting m answers p = handle_frame br sid m answers p
    receives opened m answers p = handle_frame br sid m answers p
    receives closing m answers p = handle_frame br sid m answers p

    -- A frame arrives with what the user answers if it makes the page ask. A text that is no JSON
    -- throws at once. A key types some bytes; the window's size changes.
    pub data PageEvent : Type 0 where
      opens : (cols rows : ℕ) → PageEvent
      arrives : Json → List String → PageEvent
      types : (nonce : List ℕ) → List ℕ → PageEvent
      resizes : (cols rows : ℕ) → PageEvent
      disconnects : PageEvent

    unfoldable pub page_step : PageEvent → Page Key → Page Key
    unfolding handle_frame banner on_data send_resize
    page_step (opens cols rows) p = socket_opens p.socket cols rows p
    page_step (arrives m answers) p = receives p.socket m answers p
    page_step (types nonce bytes) p = on_data nonce bytes p
    page_step (resizes cols rows) p = send_resize cols rows p
    page_step disconnects p = socket_ends p.socket p

    unfoldable pub page_run : List PageEvent → Page Key → Page Key
    unfolding page_step
    page_run [] p = p
    page_run (e ∷ es) p = page_run es (page_step e p)

-- The page before `init`.
abbrev pub new_page : (Key : Type 0) → (stored : String) → Page Key
new_page Key stored = record {
  shown = none;
  aead = none;
  stored = stored;
  written = [];
  socket = absent;
  sent = [];
}
