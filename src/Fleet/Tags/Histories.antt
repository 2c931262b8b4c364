-- ===== src/Fleet/Tags/Histories.antt =====
-- After any history of the events of worker/src/fleet.js, what is attached to a socket fits its tags.
use popfleet.Base.{
  ℕ, String, true, false, ◌&&◌, Option, none, some, is_some, ◌<◌, List, [], ◌∷◌, str_eq, if-both,
  ◌==◌, ◌≡◌, refl, ap, arith, eq_refl, eq_iff, inl, inr, Bool-cases,
}
use popfleet.Json.{Json, str, prop, truthy, is_null}
use popfleet.Dict.{lookup, delete}
use popfleet.Routes.{strip, match_machine, match_term}
use popfleet.Fleet.Runtime.{Runtime, rand_hex, to_text}
use popfleet.Fleet.State.{
  Fleet, Socket, Pend, Tag, agent_tag, term_tag, sid_tag, mid_tag, Attachment, blank, pending,
  agent, replaced, term, e2e_frame, err_frame, open_frame, new_fleet,
}
use popfleet.Fleet.Sockets.{
  accept, arm_alarm, ws_send, agent_socket, attach, find_socket, attachment_of, get_web_sockets,
  has_tag, term_by_sid, first_id,
}
use popfleet.Fleet.Api.{
  Response, get_machines, post_tokens, body_or_empty, mint, mint_body, remintable, post_term,
}
use popfleet.Fleet.Upgrades.{upgrade_agent, upgrade_term, key_fits, open_term, open_if, tell_agent}
use popfleet.Fleet.Events.{
  Request, Draws, fetch_machine, fetch_delete, fetch_term, fetch_upgrade, fetch, or_empty, Event,
  fetches, messages, ends, alarms, heartbeats, disconnects, heard_at, as_gone, step,
}
use popfleet.Fleet.Counts.{Below}
use popfleet.Fleet.Soundness.Histories.{Reach, start, next}
use popfleet.Fleet.Tags.{fits, all_fit, Tagged, is_agent_tags}
use popfleet.Fleet.Tags.Keeps.{Keeps, Keeps-then, modify-Keeps, ws_send-Keeps, ws_close-Keeps}
use popfleet.Fleet.Tags.Lifecycle.{reap-Tagged, alarm-Tagged, delete_machine-Tagged}
use popfleet.Fleet.Tags.Messages.{web_socket_message-Tagged}

abbrev Ends : Fleet × Response → Type 0
Ends r = Tagged r.0

accept-Tagged :
    (tags : List Tag) (a : Attachment) (s : Fleet)
    → fits a tags ≡ true
    → Tagged s
    → Tagged (accept tags a s)
unfolding accept all_fit
accept-Tagged tags a s h v = ground (arith, v.0, v.1, h)

tell_agent-Keeps :
    (server : ℕ) (sid : String) (cmd : Json) (ws : Option ℕ) (s : Fleet)
    → Keeps s (tell_agent server sid cmd ws s)
tell_agent-Keeps server sid cmd none s =
    Keeps-then (ws_send-Keeps server (err_frame (str "agent is offline")) s) (
      ws_close-Keeps server 1000 "agent is offline"
        (ws_send server (err_frame (str "agent is offline")) s))
tell_agent-Keeps server sid cmd (some ws) s = ws_send-Keeps ws (open_frame sid cmd) s

open_term-Tagged : (sid : String) (p : Pend) (s : Fleet) → Tagged s → Ends (open_term sid p s)
unfolding open_term fits
open_term-Tagged sid p s v =
    let taken = record s { pends = delete sid s.pends } in
    let tags = term_tag ∷ sid_tag sid ∷ mid_tag p.mid ∷ [] in
    let registered = accept tags (term sid p.mid) taken in
    let greeted = ws_send s.next_id e2e_frame registered in
    (Keeps-then (ws_send-Keeps s.next_id e2e_frame registered)
        (tell_agent-Keeps s.next_id sid p.cmd (agent_socket greeted (some p.mid)) greeted)).tagged
      (accept-Tagged tags (term sid p.mid) taken (ground (arith, eq_refl sid, eq_refl p.mid)) v)

open_if-Tagged :
    (rt : Runtime) (now : ℕ) (sid key : String) (p : Option Pend) (s : Fleet)
    → Tagged s
    → Ends (open_if rt now sid key p s)
open_if-Tagged rt now sid key none s v = v
open_if-Tagged rt now sid key (some p) s v =
    if-both Ends (key_fits rt now key p) (open_term-Tagged sid p s v) v

mint_body-Tagged :
    (rt : Runtime) (now : ℕ) (mid : String) (b : Json) (sid key : String) (s : Fleet)
    → Tagged s
    → Ends (mint_body rt now mid b sid key s)
unfolding mint_body mint arm_alarm
mint_body-Tagged rt now mid b sid key s v =
    let named = to_text rt (prop b "sid") in
    if-both Ends (truthy (prop b "sid"))
      (if-both Ends (remintable now mid (lookup named s.pends)) v v) v

post_term-Tagged :
    (rt : Runtime) (now : ℕ) (mid : String) (body : Option Json) (sid key : String) (s : Fleet)
    → Tagged s
    → Ends (post_term rt now mid body sid key s)
unfolding post_term
post_term-Tagged rt now mid body sid key s v =
    if-both Ends (is_some (lookup mid s.machines))
      (if-both Ends (is_null (body_or_empty body)) v
        (mint_body-Tagged rt now mid (body_or_empty body) sid key s v))
      v

fetch_delete-Tagged : (r : Request) (s : Fleet) → Tagged s → Ends (fetch_delete r s)
fetch_delete-Tagged r s v = if-both Ends (str_eq r.method "DELETE") (by_id (match_machine r.path)) v
  where
    by_id : (mid : Option String) → Ends (fetch_machine mid s)
    by_id none = v
    by_id (some mid) = delete_machine-Tagged mid s v

module _ (rt : Runtime) (now : ℕ) (r : Request) (d : Draws) (s : Fleet) (v : Tagged s) where
  fetch_term-Tagged : (mid : Option String) → Ends (fetch_term rt now r d mid s)
  fetch_term-Tagged none = fetch_delete-Tagged r s v
  fetch_term-Tagged (some mid) =
      if-both Ends (str_eq r.method "POST")
        (post_term-Tagged rt now mid r.body (rand_hex d.short) (rand_hex d.long) s v)
        (fetch_delete-Tagged r s v)

  fetch_upgrade-Tagged : (sid : Option String) → Ends (fetch_upgrade rt now r d sid s)
  unfolding get_machines upgrade_term post_tokens
  fetch_upgrade-Tagged (some sid) =
      open_if-Tagged rt now sid (or_empty r.k) (lookup sid s.pends) s v
  fetch_upgrade-Tagged none =
      if-both Ends (str_eq r.path "/api/tokens" && str_eq r.method "POST")
        (if-both Ends (is_null (body_or_empty r.body)) v v)
        (if-both Ends (str_eq r.path "/api/machines" && str_eq r.method "GET") v
          (fetch_term-Tagged (match_term r.path)))

  fetch-Tagged : Ends (fetch rt now r d s)
  unfolding fetch upgrade_agent fits arm_alarm
  fetch-Tagged =
      if-both Ends (str_eq r.path "/ws/agent")
        (accept-Tagged (agent_tag ∷ []) (pending now) s refl v)
        (fetch_upgrade-Tagged (strip "/ws/term/" r.path))

step-Tagged : (rt : Runtime) (now : ℕ) (e : Event) (s : Fleet) → Tagged s → Tagged (step rt now e s)
unfolding step
step-Tagged rt now (fetches r d) s v = fetch-Tagged rt now r d s v
step-Tagged rt now (messages ws raw) s v = web_socket_message-Tagged rt now ws raw s v
step-Tagged rt now (ends ws) s v = reap-Tagged ws s v
step-Tagged rt now alarms s v = alarm-Tagged now (record s { alarm = none }) v
step-Tagged rt now (heartbeats ws) s v =
    (modify-Keeps ws (heard_at now) (λ k. refl) (λ k. refl) (λ k. refl) s).tagged v
step-Tagged rt now (disconnects ws) s v =
    (modify-Keeps ws as_gone (λ k. refl) (λ k. refl) (λ k. refl) s).tagged v

history-Tagged : (rt : Runtime) {s : Fleet} → Reach rt s → Tagged s
unfolding new_fleet all_fit
history-Tagged rt start = (tt, refl)
history-Tagged rt (next {s} r now e new) = step-Tagged rt now e s (history-Tagged rt r)

agent_tags-sid :
    (sid : String) (tags : List Tag)
    → is_agent_tags tags ≡ true
    → has_tag (sid_tag sid) tags ≡ false
unfolding has_tag
agent_tags-sid sid (agent_tag ∷ []) h = refl
agent_tags-sid sid tags h = cc h

-- What fits the tags of a session's terminal.
pub IsTermOf : String → Attachment → Type 0
IsTermOf sid a = (mid : String) × (a ≡ term sid mid)

fits-IsTermOf :
    (sid : String) (a : Attachment) (tags : List Tag)
    → fits a tags ≡ true
    → has_tag (sid_tag sid) tags ≡ true
    → IsTermOf sid a
unfolding fits has_tag IsTermOf
fits-IsTermOf sid blank tags h e = cc h
fits-IsTermOf sid (pending since) tags h e = cc (e, agent_tags-sid sid tags h)
fits-IsTermOf sid (agent mid seen) tags h e = cc (e, agent_tags-sid sid tags h)
fits-IsTermOf sid replaced tags h e = cc (e, agent_tags-sid sid tags h)
fits-IsTermOf sid (term other mid) (term_tag ∷ sid_tag t ∷ mid_tag m ∷ []) h e =
    (mid, ap (λ x. term x mid) (ground (arith, eq_iff t other, eq_iff sid t)))
fits-IsTermOf sid (term other mid) tags h e = cc h

first_id-IsTermOf :
    (sid : String) (n t : ℕ) (ks : List Socket)
    → Below n ks
    → all_fit ks ≡ true
    → first_id (get_web_sockets (sid_tag sid) ks) ≡ some t
    → (t < n) × IsTermOf sid (attachment_of (find_socket t ks))
unfolding get_web_sockets all_fit find_socket
first_id-IsTermOf sid n t [] b f h = cc h
first_id-IsTermOf sid n t (k ∷ ks) b f h =
    elim (Bool-cases (k.connected && has_tag (sid_tag sid) k.tags)) [
      | inl here ↦
          let it : (k.id == t) ≡ true = ground arith in
          let at : t < n = ground arith in
          (at, rw it (fits-IsTermOf sid k.attachment k.tags (ground arith) (ground arith)))
      | inr other ↦
          let later = first_id-IsTermOf sid k.id t ks b.1 (ground arith) (ground arith) in
          let not_it : (k.id == t) ≡ false = ground (arith, later.0) in
          (omega (arith, later.0, b.0), rw not_it later.1)
    ]

-- In every reachable state what is attached to a socket fits its tags: an agent's socket waits for its
-- hello, speaks for a machine or is replaced, and a terminal's socket has the session and the machine
-- that it was accepted with; so the socket that is looked up for a session is one of its terminals.
pub Reach-Tagged :
    (rt : Runtime) (s : Fleet)
    → Reach rt s
    → (all_fit s.sockets ≡ true)
      × ((sid : String) (t : ℕ) → term_by_sid s sid ≡ some t → IsTermOf sid (attach s t))
unfolding term_by_sid attach
Reach-Tagged rt s r =
    let v = history-Tagged rt r in
    (v.1, λ sid t h. (first_id-IsTermOf sid s.next_id t s.sockets v.0 v.1 h).1)
