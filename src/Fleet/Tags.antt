-- ===== src/Fleet/Tags.antt =====
-- The tags that worker/src/fleet.js accepts a WebSocket with, which never change, and what it attaches to
-- the socket, which does.
pub mod Keeps
pub mod Lifecycle
pub mod Messages
pub mod Histories
use popfleet.Base.{
  ℕ, ◌<◌, ◌≤◌, String, Bool, true, false, ◌&&◌, List, [], ◌∷◌, Option, none, some, str_eq, ◌==◌,
  if◌then◌else◌, ◌≡◌, refl, sym, ap, ◌∙◌, arith,
}
use popfleet.Json.{str}
use popfleet.Fleet.State.{
  Fleet, Socket, Tag, agent_tag, term_tag, sid_tag, mid_tag, Attachment, blank, pending, agent,
  term, replaced, err_frame, Frame,
}
use popfleet.Fleet.Sockets.{
  attach, find_socket, attachment_of, has_tag, first_with, get_web_sockets, agent_socket, modify,
  with_attachment, as_closed, serialize, ws_send, ws_close, end_terms, drop_agent, term_sockets,
  mid_of,
}
use popfleet.Fleet.Counts.{Below}

abbrev pub is_agent_tags : List Tag → Bool
is_agent_tags (agent_tag ∷ []) = true
is_agent_tags _ = false

abbrev pub is_term_tags : String → String → List Tag → Bool
is_term_tags sid mid (term_tag ∷ sid_tag s ∷ mid_tag m ∷ []) = str_eq s sid && str_eq m mid
is_term_tags sid mid _ = false

-- An agent's socket waits for its hello, speaks for a machine or is replaced; a terminal's socket has the
-- sid and the machine of its tags.
unfoldable pub fits : Attachment → List Tag → Bool
fits blank tags = false
fits (pending since) tags = is_agent_tags tags
fits (agent mid seen) tags = is_agent_tags tags
fits replaced tags = is_agent_tags tags
fits (term sid mid) tags = is_term_tags sid mid tags

unfoldable pub all_fit : List Socket → Bool
unfolding fits
all_fit [] = true
all_fit (k ∷ ks) = fits k.attachment k.tags && all_fit ks

abbrev pub Tagged : Fleet → Type 0
Tagged s = Below s.next_id s.sockets × (all_fit s.sockets ≡ true)

-- What is attached to agents.
abbrev pub speaks : Attachment → Bool
speaks blank = false
speaks (pending since) = true
speaks (agent mid seen) = true
speaks replaced = true
speaks (term sid mid) = false

-- Whether no socket with this identity is a terminal's.
unfoldable pub on_agent : ℕ → List Socket → Bool
on_agent ws [] = true
on_agent ws (k ∷ ks) = (if k.id == ws then is_agent_tags k.tags else true) && on_agent ws ks

fits-speaks :
    (a : Attachment) (tags : List Tag)
    → fits a tags ≡ true
    → speaks a ≡ true
    → is_agent_tags tags ≡ true
unfolding fits
fits-speaks blank tags h e = cc h
fits-speaks (pending since) tags h e = h
fits-speaks (agent mid seen) tags h e = h
fits-speaks replaced tags h e = h
fits-speaks (term sid mid) tags h e = cc e

pub fits-of :
    (a : Attachment) (tags : List Tag)
    → is_agent_tags tags ≡ true
    → speaks a ≡ true
    → fits a tags ≡ true
unfolding fits
fits-of blank tags h e = cc e
fits-of (pending since) tags h e = h
fits-of (agent mid seen) tags h e = h
fits-of replaced tags h e = h
fits-of (term sid mid) tags h e = cc e

on_agent-above : (ws n : ℕ) (ks : List Socket) → Below n ks → n ≤ ws → on_agent ws ks ≡ true
unfolding on_agent
on_agent-above ws n [] b h = refl
on_agent-above ws n (k ∷ ks) b h = ground (arith, on_agent-above ws k.id ks b.1)

on_agent-found :
    (ws n : ℕ) (ks : List Socket)
    → Below n ks
    → all_fit ks ≡ true
    → speaks (attachment_of (find_socket ws ks)) ≡ true
    → on_agent ws ks ≡ true
unfolding on_agent all_fit find_socket
on_agent-found ws n [] b f h = refl
on_agent-found ws n (k ∷ ks) b f h = ground (
  arith,
  on_agent-found ws k.id ks b.1,
  on_agent-above ws k.id ks b.1,
  fits-speaks k.attachment k.tags,
)

pub on_agent-attach :
    (ws : ℕ) (s : Fleet) → Tagged s → speaks (attach s ws) ≡ true → on_agent ws s.sockets ≡ true
unfolding attach
on_agent-attach ws s v h = on_agent-found ws s.next_id s.sockets v.0 v.1 h

-- A socket that is tagged as an agent's is no terminal.
fits-has_tag :
    (a : Attachment) (tags : List Tag)
    → fits a tags ≡ true
    → has_tag agent_tag tags ≡ true
    → is_agent_tags tags ≡ true
unfolding fits has_tag
fits-has_tag blank tags h e = cc h
fits-has_tag (pending since) tags h e = h
fits-has_tag (agent mid seen) tags h e = h
fits-has_tag replaced tags h e = h
fits-has_tag (term sid mid) (term_tag ∷ sid_tag s ∷ mid_tag m ∷ []) h e = cc e
fits-has_tag (term sid mid) tags h e = cc h

first_with-on_agent :
    (mid : Option String) (ws n : ℕ) (ks : List Socket)
    → Below n ks
    → all_fit ks ≡ true
    → first_with mid (get_web_sockets agent_tag ks) ≡ some ws
    → (ws < n) × (on_agent ws ks ≡ true)
unfolding first_with get_web_sockets on_agent all_fit
first_with-on_agent mid ws n [] b f h = cc h
first_with-on_agent mid ws n (k ∷ ks) b f h = ground (
  arith,
  first_with-on_agent mid ws k.id ks b.1,
  on_agent-above ws k.id ks b.1,
  fits-has_tag k.attachment k.tags,
)

pub on_agent-agent_socket :
    (mid : Option String) (ws : ℕ) (s : Fleet)
    → Tagged s
    → agent_socket s mid ≡ some ws
    → on_agent ws s.sockets ≡ true
unfolding agent_socket
on_agent-agent_socket mid ws s v h = (first_with-on_agent mid ws s.next_id s.sockets v.0 v.1 h).1
