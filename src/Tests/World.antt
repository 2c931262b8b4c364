-- ===== src/Tests/World.antt =====
-- A small platform and a few fleets on it.
use Prim.Native.Char.{code}
use Prim.Native.String.{[] as empty_text, ◌∷◌ as cons_text}
use popfleet.Base.{ℕ, String, true, false, List, [], ◌∷◌, Option, none, some, str_eq, if◌then◌else◌}
use popfleet.Json.{pos, Json, null, bool, num, str, obj, end, field}
use popfleet.Fleet.Runtime.{Runtime}
use popfleet.Fleet.State.{
  Fleet, Machine, Socket, Pend, agent_tag, term_tag, sid_tag, mid_tag, agent, term, pending,
}
use popfleet.Fleet.Events.{Event, fetches}

-- Each byte of a text is its code: a digest that tells all short texts apart.
abbrev pub codes : String → List ℕ
codes empty_text = []
codes (cons_text c s) = code c ∷ codes s

abbrev pub hello_json : Json
hello_json = obj (field "t" (str "hello") (field "token" (str "tk") (field "e2e" (bool true) end)))

abbrev pub out_json : Json
out_json = obj (field "t" (str "out") (field "sid" (str "s1") (field "data" (str "eA==") end)))

abbrev pub in_json : Json
in_json = obj (field "t" (str "in") (field "data" (str "bHM=") end))

abbrev pub exit_json : Json
exit_json = obj (field "t" (str "exit") (field "sid" (str "s1") (field "code" (num (pos 3)) end)))

abbrev pub hb_json : Json
hb_json = obj (field "t" (str "hb") (field "n" (num (pos 1)) end))

-- JSON.parse at the few texts that the tests send.
abbrev parse : String → Option Json
parse s =
    if str_eq s "hello"
    then some hello_json
    else (if str_eq s "out"
        then some out_json
        else (if str_eq s "in"
            then some in_json
            else (if str_eq s "exit"
                then some exit_json
                else (if str_eq s "hb"
                    then some hb_json
                    else (if str_eq s "null" then some null else none)))))

abbrev pub platform : Runtime
platform = record { digest = codes; parse = parse; render = λ j. "?"; iso = λ t. "1970" }

-- One registered machine, its agent, a terminal of it, and a session that is still pending.
abbrev pub lab : Machine
lab = record {
  id = "m1";
  name = str "lab1";
  token_sum = "746b";
  last_seen = 1000;
  agent_ver = str "";
}

abbrev pub agent_ws : Socket
agent_ws = record {
  id = 0;
  tags = agent_tag ∷ [];
  attachment = agent "m1" 1000;
  connected = true;
  closed = false;
  auto = some 5000;
}

abbrev pub term_ws : Socket
term_ws = record {
  id = 1;
  tags = term_tag ∷ sid_tag "s1" ∷ mid_tag "m1" ∷ [];
  attachment = term "s1" "m1";
  connected = true;
  closed = false;
  auto = none;
}

abbrev pub waiting_ws : Socket
waiting_ws = record {
  id = 2;
  tags = agent_tag ∷ [];
  attachment = pending 5500;
  connected = true;
  closed = false;
  auto = none;
}

-- The key of `s2` is "k".
abbrev pub waiting : Pend
waiting = record { key_sum = "6b"; mid = "m1"; cmd = str ""; exp = 61_000 }

abbrev pub busy : Fleet
busy = record {
  machines = ("m1", lab) ∷ [];
  toks = ("746b", "m1") ∷ [];
  pends = ("s2", waiting) ∷ [];
  alarm = some 15_000;
  sockets = waiting_ws ∷ term_ws ∷ agent_ws ∷ [];
  next_id = 3;
  sent = [];
}

abbrev pub enrolls : Event
enrolls =
    fetches (record { method = "POST"; path = "/api/tokens"; k = none; body = none })
      (record { short = 1 ∷ []; long = 2 ∷ [] })

abbrev pub asks : Event
asks =
    fetches (record { method = "POST"; path = "/api/machines/01/term"; k = none; body = none })
      (record { short = 3 ∷ []; long = 4 ∷ [] })

abbrev pub upgrades : Event
upgrades =
    fetches (record { method = "GET"; path = "/ws/term/03"; k = some "04"; body = none })
      (record { short = []; long = [] })
