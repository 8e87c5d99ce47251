-- ===== src/Connection/Cancelling.antt =====
-- connection.c: what `cancel_receiver_connection` leaves of the chunks of a connection.
use mathlib.Core.List.{Memᴰ}
use project_2_congest.Base.{
  ℕ, zero, suc, ◌≡◌, ◌⊎◌, inl, inr, refl, sym, ◌∙◌, subst, ap, Option, Option-cases, none, some,
  List, [], ◌∷◌, get_elem?, set, arith,
}
use project_2_congest.Job.{Job, Chunk, not_found, finished}
use project_2_congest.Store.{Jobs, chunk_at, set_chunk, with_chunk, chunk_of}
use project_2_congest.Connection.{ChunkRef, ReceiverConnection}
use project_2_congest.Connection.Receiver.{
  put_back, put_back_at, cancel_chunks, cancel_receiver_connection,
}

-- A chunk that can be asked for again from its beginning, or that needs no asking.
pub record IsFree (c : Chunk) : Type 0 where
  pub free :
      (c.status ≡ finished)
      ⊎ ((c.status ≡ not_found) × (c.received_seq_num ≡ 0) × (c.received_byte_num ≡ 0))

-- The same, of what a pointer leads to.
abbrev pub AllFree : Option Chunk → Type 0
AllFree none = Unit {0}
AllFree (some c) = IsFree c

put_back-IsFree : (c : Chunk) → IsFree (put_back c)
put_back-IsFree c = ground arith

set_cases :
    {A : Type 0} (xs : List A) (i q : ℕ) (v : A)
    → ((q ≡ i) × (get_elem? (set xs i v) q ≡ some v)) ⊎ (get_elem? (set xs i v) q ≡ get_elem? xs q)
set_cases [] i q v = inr refl
set_cases (x ∷ xs) zero zero v = inl (refl, refl)
set_cases (x ∷ xs) zero (suc q) v = inr refl
set_cases (x ∷ xs) (suc i) zero v = inr refl
set_cases (x ∷ xs) (suc i) (suc q) v = elim (set_cases xs i q v) [
  | inl h ↦ inl (omega (arith, h.0), h.1)
  | inr h ↦ inr h
]

get_elem?-set_at :
    {A : Type 0} (xs : List A) (i : ℕ) (x v : A)
    → get_elem? xs i ≡ some x
    → get_elem? (set xs i v) i ≡ some v
get_elem?-set_at [] i x v e = absurd (ground arith)
get_elem?-set_at (y ∷ xs) zero x v e = refl
get_elem?-set_at (y ∷ xs) (suc i) x v e = get_elem?-set_at xs i x v e

-- A chunk that is written is what the pointers to it lead to; other pointers lead where they did.
slot-AllFree :
    (slot : Option Job) (i q : ℕ) (c : Chunk)
    → IsFree c
    → AllFree (chunk_of (some slot) q)
    → AllFree (chunk_of (some (with_chunk slot i c)) q)
slot-AllFree none i q c f h = h
slot-AllFree (some j) i q c f h = elim (set_cases j.chunks i q c) [
  | inl w ↦ subst AllFree (sym w.1) f
  | inr w ↦ subst AllFree (sym w) h
]

set_chunk-AllFree :
    (jobs : Jobs) (r q : ChunkRef) (c : Chunk)
    → IsFree c
    → AllFree (chunk_at jobs q)
    → AllFree (chunk_at (set_chunk jobs r c) q)
unfolding chunk_at set_chunk
set_chunk-AllFree jobs r q c f h = elim (Option-cases (get_elem? jobs r.job)) [
  | inl e ↦ rw (e, set_chunk) h
  | inr (slot, e) ↦ elim (set_cases jobs r.job q.job (with_chunk slot r.index c)) [
    | inl w ↦
        rw (e, set_chunk)
          (subst (λ o. AllFree (chunk_of o q.index)) (sym w.1)
            (slot-AllFree slot r.index q.index c f
              (subst (λ o. AllFree (chunk_of o q.index)) (ap (get_elem? jobs) w.0 ∙ e) h)))
    | inr w ↦ rw (e, set_chunk) (subst (λ o. AllFree (chunk_of o q.index)) (sym w) h)
  ]
]

slot_self :
    (slot : Option Job) (i : ℕ) (c : Chunk)
    → IsFree c
    → AllFree (chunk_of (some (with_chunk slot i c)) i)
slot_self none i c f = tt
slot_self (some j) i c f = set_self j.chunks i f
  where
    set_self : {c : Chunk} (xs : List Chunk) (i : ℕ) → IsFree c → AllFree (get_elem? (set xs i c) i)
    set_self [] i f = tt
    set_self (x ∷ xs) zero f = f
    set_self (x ∷ xs) (suc i) f = set_self xs i f

set_chunk_self :
    (jobs : Jobs) (r : ChunkRef) (c : Chunk) → IsFree c → AllFree (chunk_at (set_chunk jobs r c) r)
unfolding chunk_at set_chunk
set_chunk_self jobs r c f = elim (Option-cases (get_elem? jobs r.job)) [
  | inl e ↦ rw (e, set_chunk) (subst (λ o. AllFree (chunk_of o r.index)) (sym e) tt)
  | inr (slot, e) ↦
      rw (e, set_chunk)
        (subst (λ o. AllFree (chunk_of o r.index)) (sym (get_elem?-set_at jobs r.job slot _ e))
          (slot_self slot r.index c f))
]

put_back_at-AllFree :
    (jobs : Jobs) (r q : ChunkRef)
    → AllFree (chunk_at jobs q)
    → AllFree (chunk_at (put_back_at jobs r) q)
put_back_at-AllFree jobs r q h = elim (Option-cases (chunk_at jobs r)) [
  | inl e ↦ rw (e, put_back_at) h
  | inr (c, e) ↦ rw (e, put_back_at) (set_chunk-AllFree jobs r q (put_back c) (put_back-IsFree c) h)
]

put_back_at_self : (jobs : Jobs) (r : ChunkRef) → AllFree (chunk_at (put_back_at jobs r) r)
put_back_at_self jobs r = elim (Option-cases (chunk_at jobs r)) [
  | inl e ↦ rw (e, put_back_at) (subst AllFree (sym e) tt)
  | inr (c, e) ↦ rw (e, put_back_at) (set_chunk_self jobs r (put_back c) (put_back-IsFree c))
]

cancel_chunks-keeps :
    (refs : List ChunkRef) (jobs : Jobs) (q : ChunkRef)
    → AllFree (chunk_at jobs q)
    → AllFree (chunk_at (cancel_chunks refs jobs) q)
unfolding cancel_chunks
cancel_chunks-keeps [] jobs q h = h
cancel_chunks-keeps (r ∷ refs) jobs q h =
    cancel_chunks-keeps refs (put_back_at jobs r) q (put_back_at-AllFree jobs r q h)

cancel_chunks-AllFree :
    (refs : List ChunkRef) (jobs : Jobs) (q : ChunkRef)
    → Memᴰ q refs
    → AllFree (chunk_at (cancel_chunks refs jobs) q)
unfolding cancel_chunks
cancel_chunks-AllFree [] jobs q m = elim m [ ]
cancel_chunks-AllFree (r ∷ refs) jobs q (Memᴰ.head e) =
    cancel_chunks-keeps refs (put_back_at jobs r) q
      (subst (λ p. AllFree (chunk_at (put_back_at jobs r) p)) (sym e) (put_back_at_self jobs r))
cancel_chunks-AllFree (r ∷ refs) jobs q (Memᴰ.tail m) =
    cancel_chunks-AllFree refs (put_back_at jobs r) q m

-- After `cancel_receiver_connection` every chunk in the list of the connection is finished, or it is
-- not found and nothing of it counts as received, so that it will be asked for again.
pub cancel_receiver_connection-AllFree :
    (conn : ReceiverConnection) (jobs : Jobs) (q : ChunkRef)
    → Memᴰ q conn.chunk_list
    → AllFree (chunk_at (cancel_receiver_connection conn jobs) q)
unfolding cancel_receiver_connection
cancel_receiver_connection-AllFree conn jobs q m = cancel_chunks-AllFree conn.chunk_list jobs q m
