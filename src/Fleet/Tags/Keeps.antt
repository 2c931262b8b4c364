-- ===== src/Fleet/Tags/Keeps.antt =====
-- The calls on sockets of worker/src/fleet.js keep tags and attachments in order.
use popfleet.Base.{ℕ, String, true, List, [], ◌∷◌, ◌≡◌, refl, ◌∙◌, arith}
use popfleet.Json.{str}
use popfleet.Fleet.State.{Fleet, Socket, Attachment, replaced, err_frame, Frame}
use popfleet.Fleet.Sockets.{
  attach, modify, with_attachment, as_closed, serialize, ws_send, ws_close, end_terms, drop_agent,
  term_sockets, mid_of,
}
use popfleet.Fleet.Counts.{Below}
use popfleet.Fleet.Tags.{fits, all_fit, Tagged, speaks, on_agent, fits-of}

-- A change of one socket that keeps its identity.
module _ (u : ℕ) (f : Socket → Socket) (id_of : (k : Socket) → (f k).id ≡ k.id) where
  pub Below-modify_any : (n : ℕ) (ks : List Socket) → Below n ks → Below n (modify u f ks)
  unfolding modify
  Below-modify_any n [] b = tt
  Below-modify_any n (k ∷ ks) b = ground (arith, id_of k, Below-modify_any k.id ks b.1)

  on_agent-modify :
      (ws : ℕ) (ks : List Socket)
      → ((k : Socket) → (f k).tags ≡ k.tags)
      → on_agent ws (modify u f ks) ≡ on_agent ws ks
  unfolding on_agent modify
  on_agent-modify ws [] tags_of = refl
  on_agent-modify ws (k ∷ ks) tags_of =
      ground (arith, id_of k, tags_of k, on_agent-modify ws ks tags_of)

all_fit-modify :
    (u : ℕ) (f : Socket → Socket) (ks : List Socket)
    → ((k : Socket) → fits (f k).attachment (f k).tags ≡ fits k.attachment k.tags)
    → all_fit (modify u f ks) ≡ all_fit ks
unfolding all_fit modify
all_fit-modify u f [] h = refl
all_fit-modify u f (k ∷ ks) h = ground (arith, h k, all_fit-modify u f ks h)

all_fit-retag :
    (ws : ℕ) (a : Attachment) (ks : List Socket)
    → on_agent ws ks ≡ true
    → speaks a ≡ true
    → all_fit ks ≡ true
    → all_fit (modify ws (with_attachment a) ks) ≡ true
unfolding all_fit modify on_agent
all_fit-retag ws a [] on e h = refl
all_fit-retag ws a (k ∷ ks) on e h = ground (arith, fits-of a k.tags, all_fit-retag ws a ks)

-- A call that keeps the tags in order and accepts no socket.
pub record Keeps (s s' : Fleet) : Type 0 where
  pub tagged : Tagged s → Tagged s'
  pub sides : (ws : ℕ) → on_agent ws s'.sockets ≡ on_agent ws s.sockets

pub Keeps-then : {s t u : Fleet} → Keeps s t → Keeps t u → Keeps s u
Keeps-then a b = record {
  tagged = λ v. b.tagged (a.tagged v);
  sides = λ ws. b.sides ws ∙ a.sides ws;
}

pub ws_send-Keeps : (ws : ℕ) (f : Frame) (s : Fleet) → Keeps s (ws_send ws f s)
unfolding ws_send
ws_send-Keeps ws f s = record { tagged = λ v. v; sides = λ u. refl }

module _ (u : ℕ) (f : Socket → Socket) (id_of : (k : Socket) → (f k).id ≡ k.id)
    (tags_of : (k : Socket) → (f k).tags ≡ k.tags)
    (same_fit : (k : Socket) → fits (f k).attachment (f k).tags ≡ fits k.attachment k.tags) where
  pub modify-Keeps : (s : Fleet) → Keeps s (record s { sockets = modify u f s.sockets })
  modify-Keeps s = record {
    tagged = λ v. (
      Below-modify_any u f id_of s.next_id s.sockets v.0,
      all_fit-modify u f s.sockets same_fit ∙ v.1,
    );
    sides = λ ws. on_agent-modify u f id_of ws s.sockets tags_of;
  }

pub ws_close-Keeps : (ws code : ℕ) (why : String) (s : Fleet) → Keeps s (ws_close ws code why s)
unfolding ws_close
ws_close-Keeps ws code why s =
    let closed = modify-Keeps ws as_closed (λ k. refl) (λ k. refl) (λ k. refl) s in
    record { tagged = closed.tagged; sides = closed.sides }

pub end_terms-Keeps : (why : String) (ts : List ℕ) (s : Fleet) → Keeps s (end_terms why ts s)
unfolding end_terms
end_terms-Keeps why [] s = record { tagged = λ v. v; sides = λ u. refl }
end_terms-Keeps why (t ∷ ts) s =
    let told = ws_send t (err_frame (str why)) s in
    Keeps-then (ws_send-Keeps t (err_frame (str why)) s) (
      Keeps-then (ws_close-Keeps t 1000 why told)
        (end_terms-Keeps why ts (ws_close t 1000 why told)))

pub serialize-Keeps :
    (ws : ℕ) (a : Attachment) (s : Fleet)
    → on_agent ws s.sockets ≡ true
    → speaks a ≡ true
    → Keeps s (serialize ws a s)
unfolding serialize
serialize-Keeps ws a s on e = record {
  tagged = λ v. (
    Below-modify_any ws (with_attachment a) (λ k. refl) s.next_id s.sockets v.0,
    all_fit-retag ws a s.sockets on e v.1,
  );
  sides = λ u. on_agent-modify ws (with_attachment a) (λ k. refl) u s.sockets (λ k. refl);
}

pub drop_agent-Keeps :
    (ws : ℕ) (why : String) (s : Fleet)
    → on_agent ws s.sockets ≡ true
    → Keeps s (drop_agent ws why s)
unfolding drop_agent
drop_agent-Keeps ws why s on =
    let ts = term_sockets s (mid_of (attach s ws)) in
    let left = end_terms why ts s in
    let ended = end_terms-Keeps why ts s in
    Keeps-then ended (
      Keeps-then (serialize-Keeps ws replaced left (ended.sides ws ∙ on) refl)
        (ws_close-Keeps ws 1000 why (serialize ws replaced left)))

pub Keeps-refl : (s : Fleet) → Keeps s s
Keeps-refl s = record { tagged = λ v. v; sides = λ u. refl }
