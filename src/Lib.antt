-- ===== src/Lib.antt =====
-- The popfleet relay, a Cloudflare Worker and the one Durable Object behind it, and its two
-- pages.
--
-- popfleet gives a browser a terminal on a machine of a fleet. An agent on each machine holds a
-- WebSocket to the relay; the panel asks the relay for a one-time key of a session; a browser
-- that shows this key gets a WebSocket too, and the relay passes frames between the two. The
-- Worker (worker/src/index.js) checks the admin secret and decides what reaches the Durable
-- Object (worker/src/fleet.js), which keeps all state: a row per machine, the enrollment tokens,
-- the pending session keys, the alarm, and on each socket its tags and its attachment. The panel
-- page (worker/public/index.js) lists the machines, enrolls and revokes them and opens terminals;
-- the terminal page (worker/public/term.js) seals what is typed, and opens what the agent sealed,
-- under a key that the relay never has.
--
-- Which file models what:
--   Worker         the default export's `fetch` and `adminOK` of worker/src/index.js. Worker/Gate is
--                  about who gets through.
--   Routes         the paths and regular expressions of both files. Routes/Laws is about them.
--   Json, Dict     the values that frames and bodies carry; the maps of `ctx.storage`.
--   Fleet/Runtime  the platform as a parameter, `randHex` and `sha256hex`.
--   Fleet/State    the stored records, tags, attachments, frames, sockets and the whole state.
--   Fleet/Sockets  `agentSocket`, `termSockets`, `termBySid`, `lastSeenOf`, `armAlarm`, `wsSend`,
--                  `attach`, `close`, `dropAgent`.
--   Fleet/Api      the HTTP routes of `Fleet.fetch`.
--   Fleet/Upgrades `upgradeAgent` and `upgradeTerm`.
--   Fleet/Frames   `webSocketMessage` and `hello`.
--   Fleet/Lifecycle `reap`, which `webSocketClose` and `webSocketError` call, and `alarm`.
--   Fleet/Events   `Fleet.fetch` and the events of the runtime; `step` runs one of them.
--   Fleet/Interleaved `upgradeTerm` and POST term in two halves, before and after `await sha256hex`.
--   Terminal       the terminal page, worker/public/term.js: `enableE2E`, `seal`, `unseal`,
--                  `handleFrame`, `banner`; Terminal/Session has `init`, `sendResize`, `onData` and
--                  the events, Terminal/Address the page's sid. Terminal/Banners, Terminal/Sealed
--                  and Terminal/Sending are about what it shows, writes and sends, Terminal/Probe
--                  about a failed fetch of /config.json.
--   EndToEnd       the JSON of the relay's and the page's frames, and the two composed;
--                  EndToEnd/Typing is about all that is typed, EndToEnd/Opening about the way from
--                  the panel's Terminal button to the terminal's socket, EndToEnd/Enrolling about that
--                  from its add button to an enrolled agent.
--   Panel          the panel page, worker/public/index.js: `e2eKey`, `adminToken`, `api`; Panel/Age has
--                  `ago`, Panel/Machines `render`, Panel/Actions `poll`, the buttons and the events.
--                  Panel/Machines/Scan and News are about the toasts, Panel/Privacy about the fleet
--                  key, Panel/Access about its requests at the Worker.
-- The other files under Fleet are proofs. Core drops what the invariant does not look at; Counts
-- counts sockets; Soundness is the invariant and its preservation; Keys is about session keys,
-- Relay about who gets which frame, Farewells about the frames of a teardown, Looks about reading
-- a socket after a call, Sweeps and Silence about what an alarm does, Departures about last-seen
-- times, Enrollment about the first frame of an agent and Enrollment/Refusals about those that do
-- not enroll it, Armed about the alarm being set, Journeys about several requests and frames in a
-- row, Listing and Order about the machine list, Grants the session keys as an abstract service
-- with its calls, Tags about tags and attachments. Base holds what all share, and Tests the runs
-- at concrete inputs.
--
-- How the state is modelled. `Fleet` holds one association list for each key prefix of the
-- storage (machine:, tok:, pend:), the alarm, the sockets with the newest first, which is the
-- order in which `getWebSockets` gives them here, and all sends and closes so far, in order. A
-- socket that the object has closed stays in `getWebSockets` until its connection ends, which is
-- an event of its own. Times are milliseconds in ℕ: where the code subtracts a later time from an
-- earlier one it compares a negative number with a positive bound, and the difference 0 compares
-- the same.
--
-- What is assumed. In `step`, and so in every theorem about reachable states or lists of events, a
-- handler runs as one step at one clock reading. What other requests may do at an `await` inside a handler is
-- modelled in Fleet/Interleaved only, for the two handlers that await a digest between their
-- check of a session key and its use. The random bytes of a request are arguments, and a theorem
-- that needs them to be new says so. SHA-256, JSON.parse, the conversion of numbers to texts and
-- ISO dates are functions of the parameter `Runtime`, of which nothing is assumed. JSON numbers
-- are integers. `sort` with the comparison of the source is an insertion sort by id. All
-- definitions are structural recursions: no fuel is used.
--
-- The pages' functions of the browser are fields of the parameters `Browser` and `Surface`; what
-- a theorem needs of them stands among its hypotheses. Prompts are a list of the user's answers.
-- The jobs of a chain of promises are single events in their order. The answers to the panel's
-- requests are arguments of its events, each of which runs to its end, with the shape that the
-- relay gives them, or none where the request fails; of a machine's id it is assumed that it is
-- no array index and no property of Object.prototype, which the ids that the relay makes, 16
-- hexadecimal digits, never are. A header is delivered as it was set. Milliseconds are whole.
--
-- What is not modelled: the HTML and the DOM but for what is shown, the time after which a toast
-- goes, the terminal's size and the way the panel gets /config.json (what it says is an argument
-- of the event `configures`; the terminal page's `init` has the response, if any, as an argument);
-- internal/panel has the same two scripts; the vendored
-- xterm.js; the Go broker and agent; and the agent scripts in contrib.
pub mod Base
pub mod Dict
pub mod EndToEnd
pub mod Fleet
pub mod Json
pub mod Panel
pub mod Routes
pub mod Terminal
pub mod Tests
pub mod Worker
