-- ===== src/Fleet/Api.antt =====
-- The HTTP routes of `Fleet.fetch` in worker/src/fleet.js that the Worker has already authenticated.
use Prim.Native.String.{compare, ◌++◌ as concat}
use Prim.Native.Nat.{Ordering}
use popfleet.Base.{
  ℕ, suc, max, ◌+◌, ◌-◌, String, Bool, true, false, ◌&&◌, List, [], ◌∷◌, Option, none, some, str_eq,
  ltb, ◌==◌, is_some, if◌then◌else◌,
}
use popfleet.Json.{Json, str, obj, end, prop, is_null, truthy, or_else}
use popfleet.Dict.{Dict, lookup, put, delete}
use popfleet.Fleet.Runtime.{Runtime, sha256hex, to_text}
use popfleet.Fleet.State.{Fleet, Machine, Pend, Socket, term_tag, offline_ms, key_ttl_ms}
use popfleet.Fleet.Sockets.{
  agent_socket, get_web_sockets, mid_of, last_seen_of, arm_alarm, drop_agent,
}

pub record Row : Type 0 where
  pub id : String
  pub name : Json
  pub online : Bool
  pub last_seen : String
  pub agent_ver : Json
  pub sessions : ℕ

-- The responses, by what they carry; `threw` is a handler that ends by an exception.
pub data Response : Type 0 where
  text_response : (status : ℕ) → String → Response
  token_response : (token : String) → Response
  machines_response : List Row → Response
  term_response : (url : String) → (sid : Json) → Response
  no_content : Response
  switching : (ws : ℕ) → Response
  threw : Response

-- `await request.json().catch(() => ({}))`.
abbrev pub body_or_empty : Option Json → Json
body_or_empty none = obj end
body_or_empty (some b) = b

-- POST /api/tokens; `id` and `token` are the two results of `randHex`.
unfoldable pub post_tokens : Runtime → Option Json → String → String → Fleet → Fleet × Response
unfolding sha256hex
post_tokens rt body id token s =
    let b = body_or_empty body in
    let sum = sha256hex rt token in
    if is_null b then (s, threw) else (
      record s {
        machines =
            put id
              (record {
                id = id;
                name = or_else (prop b "name") (str "");
                token_sum = sum;
                last_seen = 0;
                agent_ver = str "";
              })
              s.machines;
        toks = put sum id s.toks;
      },
      token_response token,
    )

-- `mid` as a property name.
abbrev pub property_name : Option String → String
property_name none = "undefined"
property_name (some mid) = mid

abbrev pub or_none : Option ℕ → ℕ
or_none none = 0
or_none (some n) = n

-- The loop that counts the terminals of each machine.
unfoldable pub tally : List Socket → Dict ℕ → Dict ℕ
unfolding put lookup mid_of
tally [] sessions = sessions
tally (k ∷ ks) sessions =
    let mid = property_name (mid_of k.attachment) in
    tally ks (put mid (suc (or_none (lookup mid sessions))) sessions)

abbrev pub last_of : Fleet → Option ℕ → ℕ
last_of s none = 0
last_of s (some ws) = last_seen_of s ws

unfoldable pub row_of : Runtime → ℕ → Dict ℕ → Fleet → Machine → Row
unfolding agent_socket last_seen_of lookup
row_of rt now sessions s m =
    let ws = agent_socket s (some m.id) in
    let last = max m.last_seen (last_of s ws) in
    record {
      id = m.id;
      name = m.name;
      online = is_some ws && ltb (now - last) offline_ms;
      last_seen = if last == 0 then "" else rt.iso last;
      agent_ver = or_else (some m.agent_ver) (str "");
      sessions = or_none (lookup m.id sessions);
    }

unfoldable pub rows_of : Runtime → ℕ → Dict ℕ → Fleet → Dict Machine → List Row
unfolding row_of
rows_of rt now sessions s [] = []
rows_of rt now sessions s ((k, m) ∷ ms) = row_of rt now sessions s m ∷ rows_of rt now sessions s ms

-- `a.id < b.id`.
abbrev pub text_lt : String → String → Bool
text_lt a b = elim (compare a b) [ Ordering.lt ↦ true | _ ↦ false ]

-- `out.sort(...)`, by insertion.
unfoldable pub insert_row : Row → List Row → List Row
insert_row r [] = r ∷ []
insert_row r (x ∷ xs) = if text_lt r.id x.id then r ∷ x ∷ xs else x ∷ insert_row r xs

unfoldable pub sort_rows : List Row → List Row
unfolding insert_row
sort_rows [] = []
sort_rows (r ∷ rs) = insert_row r (sort_rows rs)

-- GET /api/machines.
unfoldable pub get_machines : Runtime → ℕ → Fleet → Fleet × Response
unfolding sort_rows rows_of tally get_web_sockets
get_machines rt now s =
    let sessions = tally (get_web_sockets term_tag s.sockets) [] in
    (s, machines_response (sort_rows (rows_of rt now sessions s s.machines)))

-- `ctx.storage.put("pend:" + sid, ...)`, the alarm and the answer.
unfoldable pub mint :
    Runtime → ℕ → String → Json → String → Json → String → Fleet → Fleet × Response
unfolding sha256hex arm_alarm
mint rt now mid cmd sid sid_value key s = (
  arm_alarm now (record s {
    pends =
        put sid
          (record { key_sum = sha256hex rt key; mid = mid; cmd = cmd; exp = now + key_ttl_ms })
          s.pends;
  }),
  term_response (concat "/term/" (concat sid (concat "?k=" key))) sid_value,
)

-- A pending session that this machine may attach a command to.
abbrev pub remintable : ℕ → String → Option Pend → Bool
remintable now mid none = false
remintable now mid (some p) =
    if str_eq p.mid mid then (if ltb p.exp now then false else true) else false

-- The session that the call is about: the one in the body, or a new one.
unfoldable pub mint_body : Runtime → ℕ → String → Json → String → String → Fleet → Fleet × Response
unfolding mint lookup truthy prop to_text
mint_body rt now mid b fresh_sid key s =
    let cmd = or_else (prop b "cmd") (str "") in
    let named = to_text rt (prop b "sid") in
    if truthy (prop b "sid")
    then (if remintable now mid (lookup named s.pends)
        then mint rt now mid cmd named (or_else (prop b "sid") (str "")) key s
        else (s, text_response 404 "no such pending session"))
    else mint rt now mid cmd fresh_sid (str fresh_sid) key s

-- POST /api/machines/{mid}/term.
unfoldable pub post_term :
    Runtime → ℕ → String → Option Json → String → String → Fleet → Fleet × Response
unfolding mint_body
post_term rt now mid body fresh_sid key s =
    let b = body_or_empty body in
    if is_some (lookup mid s.machines)
    then (if is_null b then (s, threw) else mint_body rt now mid b fresh_sid key s)
    else (s, text_response 404 "no such machine")

abbrev pub drop_if : Option ℕ → String → Fleet → Fleet
drop_if none why s = s
drop_if (some ws) why s = drop_agent ws why s

abbrev pub forget : String → Machine → Fleet → Fleet
forget mid m s = record s { machines = delete mid s.machines; toks = delete m.token_sum s.toks }

abbrev pub revoke : String → Option Machine → Fleet → Fleet × Response
revoke mid none s = (s, text_response 404 "no such machine")
revoke mid (some m) s =
    let s' = forget mid m s in
    (drop_if (agent_socket s' (some mid)) "machine revoked" s', no_content)

-- DELETE /api/machines/{mid}.
unfoldable pub delete_machine : String → Fleet → Fleet × Response
unfolding lookup delete agent_socket drop_agent
delete_machine mid s = revoke mid (lookup mid s.machines) s
