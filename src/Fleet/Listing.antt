-- ===== src/Fleet/Listing.antt =====
-- The machine list of worker/src/fleet.js (GET /api/machines): what its rows say.
use popfleet.Base.{
  ℕ, ◌+◌, String, true, List, [], ◌∷◌, some, is_some, if-both, length, All, Option-cases, inl, inr,
  ◌≡◌, ◌≢◌, ◌∙◌, arith, eq_iff,
}
use popfleet.Dict.{Dict, lookup, put}
use popfleet.Dict.Laws.{lookup-put}
use popfleet.Fleet.Runtime.{Runtime}
use popfleet.Fleet.State.{Fleet, Machine, Socket, term_tag}
use popfleet.Fleet.Sockets.{agent_socket, term_sockets, all_with, get_web_sockets, mid_of, same}
use popfleet.Fleet.Api.{
  Response, machines_response, Row, property_name, or_none, tally, row_of, rows_of, insert_row,
  sort_rows, text_lt, get_machines,
}

-- The count under a machine's name after the loop.
lookup-tally :
    (mid : String) (ks : List Socket) (d : Dict ℕ)
    → mid ≢ "undefined"
    → or_none (lookup mid (tally ks d)) ≡ length (all_with (some mid) ks) + or_none (lookup mid d)
unfolding tally all_with same mid_of
lookup-tally mid [] d h = omega arith
lookup-tally mid (k ∷ ks) d h =
    let name = property_name (mid_of k.attachment) in
    let counted = put name (1 + or_none (lookup name d)) d in
    elim (Option-cases (mid_of k.attachment)) [
      | inl blank ↦ rw blank (
          lookup-tally mid ks _ h
          ∙ ground (
            arith,
            lookup-put "undefined" mid (1 + or_none (lookup "undefined" d)) d,
            eq_iff "undefined" mid,
          ))
      | inr (x, e) ↦ rw e (
          lookup-tally mid ks _ h
          ∙ ground (arith, lookup-put x mid (1 + or_none (lookup x d)) d, eq_iff x mid))
    ]

-- What a row says about a state.
pub record Tells (s : Fleet) (r : Row) : Type 0 where
  pub counts : r.sessions ≡ length (term_sockets s (some r.id))
  pub is_online : r.online ≡ true → is_some (agent_socket s (some r.id)) ≡ true

abbrev pub listed : Response → List Row
listed (machines_response rows) = rows
listed _ = []

abbrev pub Named : String × Machine → Type 0
Named (key, m) = m.id ≢ "undefined"

abbrev sessions_of : Fleet → Dict ℕ
sessions_of s = tally (get_web_sockets term_tag s.sockets) []

row_of-Tells :
    (rt : Runtime) (now : ℕ) (s : Fleet) (m : Machine)
    → m.id ≢ "undefined"
    → Tells s (row_of rt now (sessions_of s) s m)
unfolding row_of term_sockets lookup
row_of-Tells rt now s m h = record {
  counts = lookup-tally m.id (get_web_sockets term_tag s.sockets) [] h ∙ omega arith;
  is_online = λ e. ground arith;
}

rows_of-Tells :
    (rt : Runtime) (now : ℕ) (s : Fleet) (ms : Dict Machine)
    → All Named ms
    → All (Tells s) (rows_of rt now (sessions_of s) s ms)
unfolding rows_of
rows_of-Tells rt now s [] h = tt
rows_of-Tells rt now s ((key, m) ∷ ms) h =
    (row_of-Tells rt now s m h.0, rows_of-Tells rt now s ms h.1)

module _ (P : Row → Type 0) where
  pub insert_row-All : (r : Row) (rs : List Row) → P r → All P rs → All P (insert_row r rs)
  unfolding insert_row
  insert_row-All r [] p h = (p, tt)
  insert_row-All r (x ∷ xs) p h =
      if-both (All P) (text_lt r.id x.id) (p, h) (h.0, insert_row-All r xs p h.1)

  sort_rows-All : (rs : List Row) → All P rs → All P (sort_rows rs)
  unfolding sort_rows
  sort_rows-All [] h = tt
  sort_rows-All (r ∷ rs) h = insert_row-All r (sort_rows rs) h.0 (sort_rows-All rs h.1)

-- Where no machine's id is "undefined", each row of the machine list counts as sessions the connected
-- terminals of its machine, and shows the machine as online only if it has a connected agent.
pub get_machines-Tells :
    (rt : Runtime) (now : ℕ) (s : Fleet)
    → All Named s.machines
    → All (Tells s) (listed (get_machines rt now s).1)
unfolding get_machines
get_machines-Tells rt now s h =
    sort_rows-All (Tells s) (rows_of rt now (sessions_of s) s s.machines)
      (rows_of-Tells rt now s s.machines h)
