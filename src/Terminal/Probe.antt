-- ===== src/Terminal/Probe.antt =====
-- The terminal page, worker/public/term.js, where its fetch of /config.json fails.
use popfleet.Base.{ℕ, String, Bool, true, false, List, [], ◌∷◌, Option, none, some, ◌≡◌, refl}
use popfleet.Json.{Json, prop, truthy}
use popfleet.Terminal.{Browser, input, resize}
use popfleet.Terminal.Session.{
  ConfigReply, no_e2e, probed, init, new_page, on_data, send_resize, opens, types, page_step,
  page_run,
}

-- There is no answer, or its status is not ok, or its body is no JSON.
pub data Fails : Option ConfigReply → Type 0 where
  no_answer : Fails none
  not_ok : (body : Option Json) → Fails (some (record { ok = false; body = body }))
  no_json : (ok : Bool) → Fails (some (record { ok = ok; body = none }))

probed-Fails : (reply : Option ConfigReply) → Fails reply → probed reply ≡ no_e2e
unfolding probed
probed-Fails none no_answer = refl
probed-Fails (some r) (not_ok body) = refl
probed-Fails (some r) (no_json false) = refl
probed-Fails (some r) (no_json true) = refl

-- If the fetch of /config.json fails, then whichever fleet key the page has stored, the socket opens and
-- bytes that are typed before a frame has come are sent as plaintext.
pub failed_probe_sends_plaintext :
    {Key : Type 0} (br : Browser Key) (sid : String) (reply : Option ConfigReply)
    (answers : List String) (stored : String) (cols rows : ℕ) (nonce bytes : List ℕ)
    → Fails reply
    → (page_run br sid
        (opens cols rows ∷ types nonce bytes ∷ [])
        (init br sid reply answers (new_page Key stored))).sent
      ≡ resize cols rows ∷ input (br.btoa bytes) ∷ []
unfolding init page_run page_step on_data send_resize truthy prop
failed_probe_sends_plaintext br sid reply answers stored cols rows nonce bytes fails =
    rw (probed-Fails reply fails) refl
