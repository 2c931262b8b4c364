-- ===== src/Fleet/Interleaved.antt =====
-- `upgradeTerm` of worker/src/fleet.js in two halves, since it waits for a digest in between, and other
-- requests may be served while it does; the second call of POST term waits in the same way.
use popfleet.Base.{
  ℕ, suc, ◌+◌, ◌<◌, String, true, Option, if◌then◌else◌, none, some, ◌≡◌, ◌≢◌, refl, sym, ap, ◌∙◌,
  arith, eq_refl,
}
use popfleet.Json.{Json, str, prop, truthy, or_else}
use popfleet.Dict.{lookup}
use popfleet.Fleet.Runtime.{Runtime, to_text}
use popfleet.Fleet.State.{Fleet, Pend, key_ttl_ms}
use popfleet.Fleet.Sockets.{ws_send, accept, agent_socket, has_tag}
use popfleet.Fleet.Api.{Response, switching, text_response, mint, mint_body, remintable}
use popfleet.Fleet.Upgrades.{key_fits, open_term, open_if, upgrade_term, tell_agent}
use popfleet.Fleet.Core.{Core}
use popfleet.Fleet.Counts.{opened}
use popfleet.Fleet.Soundness.Requests.{core-tell_agent}
use popfleet.Fleet.Soundness.Histories.{opened-bare}
use popfleet.Fleet.Keys.{Opens, greeted, upgrade_term_accepted_iff, opened-upgrade_term}
use popfleet.Fleet.Keys.Minting.{mint-OnlyKey}

-- Up to `await sha256hex(key)`: what is stored of the session.
unfoldable pub begin_upgrade : String → Fleet → Option Pend
unfolding lookup
begin_upgrade sid s = lookup sid s.pends

-- After it.
unfoldable pub end_upgrade : Runtime → ℕ → String → String → Option Pend → Fleet → Fleet × Response
unfolding key_fits open_term
end_upgrade rt now sid key pend s = open_if rt now sid key pend s

-- With nothing in between, the halves are the handler.
upgrade_term-halves :
    (rt : Runtime) (now : ℕ) (sid key : String) (s : Fleet)
    → upgrade_term rt now sid key s ≡ end_upgrade rt now sid key (begin_upgrade sid s) s
unfolding upgrade_term end_upgrade begin_upgrade
upgrade_term-halves rt now sid key s = refl

opened-greeted_suc :
    (sid : String) (p : Pend) (s : Fleet)
    → opened sid (greeted sid p s).sockets ≡ opened sid s.sockets + 1
unfolding opened has_tag ws_send accept
opened-greeted_suc sid p s = ground (arith, eq_refl sid)

opened-tell_agent :
    (sid : String) (p : Pend) (ws : Option ℕ) (s : Fleet)
    → opened sid (tell_agent s.next_id sid p.cmd ws (greeted sid p s)).sockets
      ≡ opened sid s.sockets + 1
opened-tell_agent sid p ws s =
    let told = tell_agent s.next_id sid p.cmd ws (greeted sid p s) in
    sym (opened-bare sid told.sockets)
    ∙ ap (λ (c : Core). opened sid c.sockets)
        (core-tell_agent s.next_id sid p.cmd ws (greeted sid p s))
    ∙ opened-bare sid (greeted sid p s).sockets
    ∙ opened-greeted_suc sid p s

next_id-tell_agent :
    (sid : String) (p : Pend) (ws : Option ℕ) (s : Fleet)
    → (tell_agent s.next_id sid p.cmd ws (greeted sid p s)).next_id ≡ suc s.next_id
unfolding ws_send accept
next_id-tell_agent sid p ws s =
    ap (λ (c : Core). c.next_id) (core-tell_agent s.next_id sid p.cmd ws (greeted sid p s))

module _ (rt : Runtime) (now : ℕ) (sid key : String) (p : Pend) (s : Fleet)
    (fits : key_fits rt now key p ≡ true) where
  end_upgrade_accepts : (end_upgrade rt now sid key (some p) s).1 ≡ switching s.next_id
  unfolding end_upgrade
  end_upgrade_accepts = rw fits refl

  opened-end_upgrade :
      opened sid (end_upgrade rt now sid key (some p) s).0.sockets ≡ opened sid s.sockets + 1
  unfolding end_upgrade
  opened-end_upgrade =
      rw fits (opened-tell_agent sid p (agent_socket (greeted sid p s) (some p.mid)) s)

  next_id-end_upgrade : (end_upgrade rt now sid key (some p) s).0.next_id ≡ suc s.next_id
  unfolding end_upgrade
  next_id-end_upgrade =
      rw fits (next_id-tell_agent sid p (agent_socket (greeted sid p s) (some p.mid)) s)

-- If two upgrades with the right key both read the session before either has gone on, and both go on
-- in time, then both are accepted: two terminals of the session are opened with its one key.
pub key_opens_twice :
    (rt : Runtime) (now later : ℕ) (sid key : String) (p : Pend) (s : Fleet)
    → begin_upgrade sid s ≡ some p
    → key_fits rt now key p ≡ true
    → key_fits rt later key p ≡ true
    → let first = end_upgrade rt now sid key (begin_upgrade sid s) s in
      let second = end_upgrade rt later sid key (begin_upgrade sid s) first.0 in
      (first.1 ≡ switching s.next_id)
      × (second.1 ≡ switching (suc s.next_id))
      × (opened sid second.0.sockets ≡ opened sid s.sockets + 2)
key_opens_twice rt now later sid key p s found early late =
    let first = (end_upgrade rt now sid key (some p) s).0 in
    rw found (
      end_upgrade_accepts rt now sid key p s early,
      end_upgrade_accepts rt later sid key p first late
          ∙ ap switching (next_id-end_upgrade rt now sid key p s early),
      omega (
        arith,
        opened-end_upgrade rt now sid key p s early,
        opened-end_upgrade rt later sid key p first late,
      ),
    )

-- POST term up to its `await sha256hex(key)`: the session it is about, with its value in the answer.
unfoldable pub begin_mint : Runtime → ℕ → String → Json → String → Fleet → Option (String × Json)
unfolding to_text prop truthy or_else lookup
begin_mint rt now mid b fresh_sid s =
    let named = to_text rt (prop b "sid") in
    if truthy (prop b "sid")
    then (if remintable now mid (lookup named s.pends)
        then some (named, or_else (prop b "sid") (str ""))
        else none)
    else some (fresh_sid, str fresh_sid)

-- After it.
unfoldable pub end_mint :
    Runtime → ℕ → String → Json → String → Option (String × Json) → Fleet → Fleet × Response
unfolding mint or_else prop
end_mint rt now mid b key none s = (s, text_response 404 "no such pending session")
end_mint rt now mid b key (some (sid, value)) s =
    mint rt now mid (or_else (prop b "cmd") (str "")) sid value key s

mint_body-halves :
    (rt : Runtime) (now : ℕ) (mid : String) (b : Json) (fresh_sid key : String) (s : Fleet)
    → mint_body rt now mid b fresh_sid key s
      ≡ end_mint rt now mid b key (begin_mint rt now mid b fresh_sid s) s
unfolding mint_body begin_mint end_mint
mint_body-halves rt now mid b fresh_sid key s = ground arith

-- If POST term is about a session that an upgrade opens after the call has found it pending and
-- before the call stores its new key, then the session, although opened, is pending again, and the
-- new key opens it once more.
pub remint_reopens :
    (rt : Runtime) (now mid_time later last : ℕ) (mid : String) (b : Json)
    (fresh_sid sid key new_key : String) (value : Json) (s : Fleet)
    → begin_mint rt now mid b fresh_sid s ≡ some (sid, value)
    → Opens rt mid_time sid key s
    → last < later + key_ttl_ms
    → let consumed = (upgrade_term rt mid_time sid key s).0 in
      let renewed =
        (end_mint rt later mid b new_key (begin_mint rt now mid b fresh_sid s) consumed).0 in
      (opened sid renewed.sockets ≢ 0)
      × ((upgrade_term rt last sid new_key renewed).1 ≡ switching renewed.next_id)
unfolding end_mint mint
remint_reopens rt now mid_time later last mid b fresh_sid sid key new_key value s begun o soon =
    let consumed = (upgrade_term rt mid_time sid key s).0 in
    let cmd = or_else (prop b "cmd") (str "") in
    let renewed = (mint rt later mid cmd sid value new_key consumed).0 in
    rw begun (
      opened-upgrade_term rt mid_time sid key s o,
      (upgrade_term_accepted_iff rt last sid new_key renewed).1
          ((mint-OnlyKey rt later mid cmd sid value new_key consumed last new_key).1 (soon, refl)),
    )
