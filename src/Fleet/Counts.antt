-- ===== src/Fleet/Counts.antt =====
-- How many sockets of a fleet speak for a machine, and how many are terminals of a session; what
-- tagging one socket anew does to these numbers.
use popfleet.Base.{
  ℕ, ◌+◌, ◌≤◌, ◌<◌, String, Bool, true, false, ◌&&◌, List, [], ◌∷◌, none, some, ◌≡◌, refl, arith,
}
use popfleet.Fleet.State.{Socket, Attachment, agent, replaced, agent_tag, sid_tag}
use popfleet.Fleet.Sockets.{
  first_with, get_web_sockets, mid_of, same, modify, with_attachment, has_tag, find_socket,
  attachment_of,
}

abbrev pub one_if : Bool → ℕ
one_if true = 1
one_if false = 0

-- A connected agent socket that has said hello for the machine `m`.
unfoldable pub is_agent_of : String → Socket → Bool
unfolding same mid_of
is_agent_of m k = k.connected && has_tag agent_tag k.tags && same (mid_of k.attachment) (some m)

unfoldable pub agents : String → List Socket → ℕ
agents m [] = 0
agents m (k ∷ ks) = one_if (is_agent_of m k) + agents m ks

-- The sockets that were ever opened for a session.
unfoldable pub opened : String → List Socket → ℕ
opened sid [] = 0
opened sid (k ∷ ks) = one_if (has_tag (sid_tag sid) k.tags) + opened sid ks

-- Identities fall along the list and stay under the bound.
abbrev pub Below : ℕ → List Socket → Type 0
Below n [] = Unit {0}
Below n (k ∷ ks) = (k.id < n) × Below k.id ks

pub Below-modify :
    (n ws : ℕ) (a : Attachment) (ks : List Socket)
    → Below n ks
    → Below n (modify ws (with_attachment a) ks)
unfolding modify
Below-modify n ws a [] b = tt
Below-modify n ws a (k ∷ ks) b = ground (arith, Below-modify k.id ws a ks b.1)

pub opened-modify :
    (sid : String) (ws : ℕ) (a : Attachment) (ks : List Socket)
    → opened sid (modify ws (with_attachment a) ks) ≡ opened sid ks
unfolding opened modify
opened-modify sid ws a [] = refl
opened-modify sid ws a (k ∷ ks) = ground (arith, opened-modify sid ws a ks)

pub agents-modify_le :
    (m : String) (ws : ℕ) (a : Attachment) (ks : List Socket)
    → same (mid_of a) (some m) ≡ false
    → agents m (modify ws (with_attachment a) ks) ≤ agents m ks
unfolding agents modify is_agent_of
agents-modify_le m ws a [] h = omega arith
agents-modify_le m ws a (k ∷ ks) h = ground (arith, agents-modify_le m ws a ks h)

agents-modify_above :
    (m : String) (n ws : ℕ) (a : Attachment) (ks : List Socket)
    → Below n ks
    → n ≤ ws
    → agents m (modify ws (with_attachment a) ks) ≡ agents m ks
unfolding agents modify
agents-modify_above m n ws a [] b h = refl
agents-modify_above m n ws a (k ∷ ks) b h = ground (arith, agents-modify_above m k.id ws a ks b.1)

pub agents-modify_suc :
    (m : String) (n ws : ℕ) (a : Attachment) (ks : List Socket)
    → Below n ks
    → agents m (modify ws (with_attachment a) ks) ≤ agents m ks + 1
unfolding agents modify
agents-modify_suc m n ws a [] b = omega arith
agents-modify_suc m n ws a (k ∷ ks) b =
    ground (arith, agents-modify_suc m k.id ws a ks b.1, agents-modify_above m k.id ws a ks b.1)

-- The lookup of a machine's agent finds one exactly if there is one, and retiring it leaves one
-- less.
pub agents-first_none :
    (m : String) (ks : List Socket)
    → first_with (some m) (get_web_sockets agent_tag ks) ≡ none
    → agents m ks ≡ 0
unfolding agents first_with get_web_sockets is_agent_of
agents-first_none m [] h = refl
agents-first_none m (k ∷ ks) h = ground (arith, agents-first_none m ks)

pub agents-first_some :
    (m : String) (ws : ℕ) (ks : List Socket)
    → first_with (some m) (get_web_sockets agent_tag ks) ≡ some ws
    → agents m (modify ws (with_attachment replaced) ks) + 1 ≤ agents m ks
unfolding agents first_with get_web_sockets is_agent_of modify
agents-first_some m ws [] h = absurd (ground arith)
agents-first_some m ws (k ∷ ks) h =
    ground (arith, agents-first_some m ws ks, agents-modify_le m ws replaced ks refl)

pub first-none_of_agents :
    (m : String) (ks : List Socket)
    → agents m ks ≡ 0
    → first_with (some m) (get_web_sockets agent_tag ks) ≡ none
unfolding agents first_with get_web_sockets is_agent_of
first-none_of_agents m [] h = refl
first-none_of_agents m (k ∷ ks) h = ground (arith, first-none_of_agents m ks)

-- A heartbeat tags an agent anew for the machine that it speaks for already.
pub agents-refresh :
    (m : String) (n ws now : ℕ) (mid : String) (seen : ℕ) (ks : List Socket)
    → Below n ks
    → attachment_of (find_socket ws ks) ≡ agent mid seen
    → agents m (modify ws (with_attachment (agent mid now)) ks) ≡ agents m ks
unfolding agents modify find_socket is_agent_of same mid_of
agents-refresh m n ws now mid seen [] b h = refl
agents-refresh m n ws now mid seen (k ∷ ks) b h = ground (
  arith,
  agents-refresh m k.id ws now mid seen ks b.1,
  agents-modify_above m k.id ws (agent mid now) ks b.1,
)
