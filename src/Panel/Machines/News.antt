-- ===== src/Panel/Machines/News.antt =====
-- Which toasts two lists of machines make (`render` of worker/public/index.js).
use Prim.Native.String.{◌++◌ as concat}
use popfleet.Base.{
  ℕ, String, true, false, List, [], ◌∷◌, ◌++◌, Option, none, some, Bool-cases, inl, inr, ◌↔◌, ◌≡◌,
  refl, sym, ap, subst, ◌∙◌, arith,
}
use mathlib.Core.List.{append-nil}
use popfleet.Dict.{Dict, lookup, put}
use popfleet.Dict.Laws.{Unique, Unique-put}
use popfleet.Fleet.Api.{Row}
use popfleet.Panel.{Surface, Seen, Toast, Panel}
use popfleet.Panel.Machines.Scan.{
  In, In-append, In-left, In-right, scan-joins, scan-leaves, scan-Entry, Entry-scan,
}
use popfleet.Panel.Machines.{label, seen_of, join_toasts, joins, leave_toasts, leaves, news, render}

-- A change between two lists, and the toast that tells it.
pub data Announced (sf : Surface) (known seen : Dict Seen) (t : Toast) : Type 0 where
  enrolled :
      (id : String) (k : Seen)
      → lookup id seen ≡ some k
      → lookup id known ≡ none
      → record { msg = concat (label sf k.name id) " enrolled"; cls = "join" } ≡ t
      → Announced sf known seen t
  came_online :
      (id : String) (k old : Seen)
      → lookup id seen ≡ some k
      → lookup id known ≡ some old
      → k.online ≡ true
      → old.online ≡ false
      → record { msg = concat (label sf k.name id) " is online"; cls = "join" } ≡ t
      → Announced sf known seen t
  went_offline :
      (id : String) (k old : Seen)
      → lookup id seen ≡ some k
      → lookup id known ≡ some old
      → k.online ≡ false
      → old.online ≡ true
      → record { msg = concat (label sf k.name id) " went offline"; cls = "leave" } ≡ t
      → Announced sf known seen t
  removed :
      (id : String) (old : Seen)
      → lookup id known ≡ some old
      → lookup id seen ≡ none
      → record { msg = concat (label sf old.name id) " removed"; cls = "leave" } ≡ t
      → Announced sf known seen t

module _ (sf : Surface) (known seen : Dict Seen) (t : Toast) where
  join-Announced :
      (id : String) (k : Seen) (old : Option Seen)
      → lookup id seen ≡ some k
      → lookup id known ≡ old
      → In t (join_toasts sf id k old)
      → Announced sf known seen t
  join-Announced id k none there before (inl e) = enrolled id k there before e
  join-Announced id k none there before (inr h) = absurd h
  join-Announced id k (some old) there before h = elim (Bool-cases k.online) [
    | inl on ↦ elim (Bool-cases old.online) [
      | inl was ↦ absurd (rw (on, was) at h)
      | inr was_not ↦ elim (rw (on, was_not) at h) [
        | inl e ↦ came_online id k old there before on was_not e
        | inr none_left ↦ absurd none_left
      ]
    ]
    | inr off ↦ elim (Bool-cases old.online) [
      | inl was ↦ elim (rw (off, was) at h) [
        | inl e ↦ went_offline id k old there before off was e
        | inr none_left ↦ absurd none_left
      ]
      | inr was_not ↦ absurd (rw (off, was_not) at h)
    ]
  ]

  leave-Announced :
      (id : String) (old : Seen) (k : Option Seen)
      → lookup id known ≡ some old
      → lookup id seen ≡ k
      → In t (leave_toasts sf id old k)
      → Announced sf known seen t
  leave-Announced id old none before gone (inl e) = removed id old before gone e
  leave-Announced id old none before gone (inr h) = absurd h
  leave-Announced id old (some k) before there h = absurd h

  news-Announced :
      Unique known → Unique seen → In t (news sf (some known) seen) → Announced sf known seen t
  unfolding news
  news-Announced u v h = elim (In-append t (joins sf known seen) (leaves sf seen known) h) [
    | inl join ↦
        let e =
          scan-Entry (join_toasts sf) known seen t v
            (subst (In t) (scan-joins sf known seen) join) in
        join-Announced e.id e.seen (lookup e.id known) e.found refl e.makes
    | inr leave ↦
        let e =
          scan-Entry (leave_toasts sf) seen known t u
            (subst (In t) (scan-leaves sf seen known) leave) in
        leave-Announced e.id e.seen (lookup e.id seen) e.found refl e.makes
  ]

  joined :
      (id : String) (k : Seen)
      → lookup id seen ≡ some k
      → In t (join_toasts sf id k (lookup id known))
      → In t (news sf (some known) seen)
  unfolding news
  joined id k e h = In-left t (joins sf known seen) (leaves sf seen known) (
      subst (In t) (sym (scan-joins sf known seen))
        (Entry-scan (join_toasts sf) known seen t id k e h))

  left :
      (id : String) (old : Seen)
      → lookup id known ≡ some old
      → In t (leave_toasts sf id old (lookup id seen))
      → In t (news sf (some known) seen)
  unfolding news
  left id old e h = In-right t (joins sf known seen) (leaves sf seen known) (
      subst (In t) (sym (scan-leaves sf seen known))
        (Entry-scan (leave_toasts sf) seen known t id old e h))

  Announced-news : Announced sf known seen t → In t (news sf (some known) seen)
  Announced-news (enrolled id k there before e) = joined id k there (rw before (inl e))
  Announced-news (came_online id k old there before on was_not e) =
      joined id k there (rw before (rw (on, was_not) (inl e)))
  Announced-news (went_offline id k old there before off was e) =
      joined id k there (rw before (rw (off, was) (inl e)))
  Announced-news (removed id old before gone e) = left id old before (rw gone (inl e))

seen_of-Unique : (rows : List Row) (seen : Dict Seen) → Unique seen → Unique (seen_of rows seen)
unfolding seen_of
seen_of-Unique [] seen u = u
seen_of-Unique (r ∷ rows) seen u =
    let k : Seen = record { name = r.name; online = r.online } in
    seen_of-Unique rows (put r.id k seen) (Unique-put r.id k seen u)

-- A list of machines after an earlier one adds to the toasts exactly those that tell a change between
-- the two: a machine that is new, that came online, that went offline, or that is gone.
pub render_announces :
    (sf : Surface) (now later : ℕ) (before after : List Row) (p : Panel)
    → let earlier = render sf now before p in
      let added = news sf earlier.known (seen_of after []) in
      ((render sf later after earlier).toasts ≡ earlier.toasts ++ added)
      × ((t : Toast) → In t added ↔ Announced sf (seen_of before []) (seen_of after []) t)
unfolding render
render_announces sf now later before after p =
    let u = seen_of-Unique before [] tt in
    let v = seen_of-Unique after [] tt in
    (
      refl,
      λ t. (
        news-Announced sf (seen_of before []) (seen_of after []) t u v,
        Announced-news sf (seen_of before []) (seen_of after []) t,
      ),
    )

no-Announced : (sf : Surface) (seen : Dict Seen) (t : Toast) → Announced sf seen seen t → ⊥
no-Announced sf seen t (enrolled id k there before e) = cc (there, before)
no-Announced sf seen t (came_online id k old there before on was_not e) = ground arith
no-Announced sf seen t (went_offline id k old there before off was e) = ground arith
no-Announced sf seen t (removed id old before gone e) = cc (before, gone)

no_members : (ts : List Toast) → ((t : Toast) → In t ts → ⊥) → ts ≡ []
no_members [] h = refl
no_members (t ∷ ts) h = absurd (h t (inl refl))

-- The same list of machines again shows no toast.
pub render_again :
    (sf : Surface) (now later : ℕ) (rows : List Row) (p : Panel)
    → (render sf later rows (render sf now rows p)).toasts ≡ (render sf now rows p).toasts
unfolding render
render_again sf now later rows p =
    let seen = seen_of rows [] in
    let u = seen_of-Unique rows [] tt in
    ap (λ ts. (render sf now rows p).toasts ++ ts)
      (no_members (news sf (some seen) seen)
        (λ t h. no-Announced sf seen t (news-Announced sf seen seen t u u h)))
    ∙ append-nil (render sf now rows p).toasts
