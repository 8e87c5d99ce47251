-- ===== src/Downloads/Grows.antt =====
-- connection.c: an IHAVE packet puts chunks that are not found behind those of the connection.
use project_2_congest.Base.{
  ℕ, zero, suc, ◌+◌, ◌≡◌, refl, sym, ap, ◌∙◌, Bool-cases, true, Option, Option-cases, none, some,
  List, [], ◌∷◌, ◌++◌, inl, inr, arith,
}
use mathlib.Core.List.{append_assoc, append-nil}
use project_2_congest.Job.{Chunk, Job, pending, is_not_found, get_chunk}
use project_2_congest.Job.Payload.{hash_at, count_at}
use project_2_congest.Packet.{Packet}
use project_2_congest.Store.{chunk_at}
use project_2_congest.Store.Writes.{weight-set_chunk}
use project_2_congest.Connection.{ChunkRef}
use project_2_congest.Connection.Receiver.{
  Claim, job_at, offer_chunk, offer_found, offer_in, offer_hash, ihave_offers,
  add_chunk_to_receiver_connection, add_ihave_to_receiver_connection,
}
use project_2_congest.Downloads.{occurrences, down, pend}

-- `t` is `s` with `extra` behind the list, whose chunks wait now.
pub record Grows (s t : Claim) : Type 0 where
  pub extra : List ChunkRef
  pub list : t.conn.chunk_list ≡ s.conn.chunk_list ++ extra
  pub down_same : (q : ChunkRef) → down (chunk_at t.jobs q) ≡ down (chunk_at s.jobs q)
  pub pend_more :
      (q : ChunkRef) → pend (chunk_at t.jobs q) ≡ pend (chunk_at s.jobs q) + occurrences q extra

Grows-refl : (s : Claim) → Grows s s
Grows-refl s = record {
  extra = [];
  list = sym (append-nil s.conn.chunk_list);
  down_same = λ q. refl;
  pend_more = λ q. omega arith;
}

pub occurrences-append :
    (q : ChunkRef) (xs ys : List ChunkRef)
    → occurrences q (xs ++ ys) ≡ occurrences q xs + occurrences q ys
occurrences-append q [] ys = omega arith
occurrences-append q (x ∷ xs) ys = omega (arith, occurrences-append q xs ys)

Grows-trans : {s t u : Claim} → Grows s t → Grows t u → Grows s u
Grows-trans {s} {t} {u} g h = record {
  extra = g.extra ++ h.extra;
  list =
      h.list
      ∙ ap (λ (l : List ChunkRef). l ++ h.extra) g.list
      ∙ append_assoc s.conn.chunk_list g.extra h.extra;
  down_same = λ q. h.down_same q ∙ g.down_same q;
  pend_more =
      λ q. omega (arith, h.pend_more q, g.pend_more q, occurrences-append q g.extra h.extra);
}

add_chunk-Grows :
    (s : Claim) (r : ChunkRef) (c : Chunk)
    → chunk_at s.jobs r ≡ some c
    → is_not_found c.status ≡ true
    → Grows s (add_chunk_to_receiver_connection s r c)
unfolding add_chunk_to_receiver_connection
add_chunk-Grows s r c e f = record {
  extra = r ∷ [];
  list = refl;
  down_same =
      λ q. ground (arith, weight-set_chunk down s.jobs r q (record c { status = pending }) c e);
  pend_more =
      λ q. ground (arith, weight-set_chunk pend s.jobs r q (record c { status = pending }) c e);
}

offer_chunk-Grows : (s : Claim) (r : ChunkRef) → Grows s (offer_chunk s r)
unfolding offer_chunk
offer_chunk-Grows s r = elim (Option-cases (chunk_at s.jobs r)) [
  | inl e ↦ rw (e, offer_chunk) (Grows-refl s)
  | inr (c, e) ↦ elim (Bool-cases (is_not_found c.status)) [
    | inl f ↦ rw (e, f, offer_chunk) (add_chunk-Grows s r c e f)
    | inr f ↦ rw (e, f, offer_chunk) (Grows-refl s)
  ]
]

offer_found-Grows : (j : ℕ) (s : Claim) (o : Option ℕ) → Grows s (offer_found j s o)
offer_found-Grows j s none = Grows-refl s
offer_found-Grows j s (some i) = offer_chunk-Grows s (record { job = j; index = i })

offer_in-Grows :
    (j : ℕ) (s : Claim) (hash : List ℕ) (o : Option Job) → Grows s (offer_in j s hash o)
offer_in-Grows j s hash none = Grows-refl s
offer_in-Grows j s hash (some job) = offer_found-Grows j s (get_chunk job hash)

ihave_offers-Grows :
    (j : ℕ) (payload : List ℕ) (n i : ℕ) (s : Claim) → Grows s (ihave_offers j payload n i s)
unfolding ihave_offers offer_hash
ihave_offers-Grows j payload zero i s = Grows-refl s
ihave_offers-Grows j payload (suc n) i s =
    let t = offer_in j s (hash_at payload i) (job_at s.jobs j) in
    Grows-trans (offer_in-Grows j s (hash_at payload i) (job_at s.jobs j))
      (ihave_offers-Grows j payload n (suc i) t)

pub add_ihave-Grows :
    (j : ℕ) (p : Packet) (s : Claim) → Grows s (add_ihave_to_receiver_connection j p s)
unfolding add_ihave_to_receiver_connection
add_ihave-Grows j p s = ihave_offers-Grows j p.payload (count_at p.payload) 0 s
