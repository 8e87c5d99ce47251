-- ===== src/Handshake/Offers.antt =====
-- connection.c: a chunk that is offered in an IHAVE packet and is still missing comes to the list of
-- the connection.
use mathlib.Core.List.{Memᴰ}
use mathlib.Core.List.Memᴰ
use project_2_congest.Base.{
  ℕ, zero, suc, ◌≡◌, ◌⊎◌, refl, sym, ap, ◌∙◌, subst, Bool-cases, true, Option, Option-cases, none,
  some, List, [], ◌∷◌, map, get_elem?, inl, inr, if◌then◌else◌, arith,
}
use project_2_congest.Base.Memory.{same_bytes}
use project_2_congest.Packet.{Packet}
use project_2_congest.Job.{Chunk, Job, is_not_found, find_chunk, get_chunk, pending}
use project_2_congest.Job.Payload.{hash_at, read_hashes, count_at, listed_hashes}
use project_2_congest.Store.{Jobs, chunk_at, same_ref}
use project_2_congest.Store.Writes.{chunk_at-set_chunk, same_ref_iff}
use project_2_congest.Connection.{ChunkRef}
use project_2_congest.Connection.Receiver.{
  Claim, job_at, offer_chunk, offer_found, offer_in, offer_hash, ihave_offers,
  add_chunk_to_receiver_connection, add_ihave_to_receiver_connection,
}
use project_2_congest.Downloads.Steady.{
  Outline, outline, outline_of, outlines, label, get_elem?-outlines, outlines-Survives,
}
use project_2_congest.Downloads.Preserved.{offer_in-keeps}

-- The offers of the hashes, one after the other.
offer_all : ℕ → List (List ℕ) → Claim → Claim
offer_all j [] s = s
offer_all j (h ∷ hs) s = offer_all j hs (offer_hash j s h)

ihave_offers-offer_all :
    (j : ℕ) (payload : List ℕ) (n i : ℕ) (s : Claim)
    → ihave_offers j payload n i s ≡ offer_all j (read_hashes n i payload) s
unfolding ihave_offers read_hashes offer_all
ihave_offers-offer_all j payload zero i s = refl
ihave_offers-offer_all j payload (suc n) i s =
    ihave_offers-offer_all j payload n (suc i) (offer_hash j s (hash_at payload i))

-- `find_chunk`, on what does not change.
find_label : List (ℕ × List ℕ) → ℕ → List ℕ → Option ℕ
find_label [] i hash = none
find_label (l ∷ ls) i hash = if same_bytes hash l.1 then some i else find_label ls (suc i) hash

find_chunk-find_label :
    (cs : List Chunk) (i : ℕ) (hash : List ℕ)
    → find_chunk cs i hash ≡ find_label (map label cs) i hash
unfolding find_chunk find_label
find_chunk-find_label [] i hash = refl
find_chunk-find_label (c ∷ cs) i hash = elim (Bool-cases (same_bytes hash c.hash_binary)) [
  | inl e ↦ rw (e) refl
  | inr e ↦ rw (e) (find_chunk-find_label cs (suc i) hash)
]

outlined :
    (jobs : Jobs) (j : ℕ) (o : Outline)
    → get_elem? (outlines jobs) j ≡ some (some o)
    → (job : Job) × (job_at jobs j ≡ some job) × (outline job ≡ o)
outlined [] j o e = absurd (ground (arith, e))
outlined (none ∷ jobs) zero o e = absurd (ground (arith, e))
outlined (some job ∷ jobs) zero o e = (job, refl, ground (arith, e))
outlined (x ∷ jobs) (suc j) o e = outlined jobs j o e

module _ (r : ChunkRef) where
  -- The chunk at `r` is missing, or it is in the list.
  abbrev Awaits : Claim → Type 0
  Awaits s =
      ((c : Chunk) × (chunk_at s.jobs r ≡ some c) × (is_not_found c.status ≡ true))
      ⊎ Memᴰ r s.conn.chunk_list

  added :
      (s : Claim) (q : ChunkRef) (d : Chunk)
      → chunk_at s.jobs q ≡ some d
      → Awaits s
      → Awaits (add_chunk_to_receiver_connection s q d)
  unfolding add_chunk_to_receiver_connection
  added s q d at (inr m) = inr (Memᴰ.append_left (q ∷ []) m)
  added s q d at (inl (c, here, missing)) = elim (Bool-cases (same_ref q r)) [
    | inl same ↦ inr (Memᴰ.append_right s.conn.chunk_list (Memᴰ.head (sym (same_ref_iff q r same))))
    | inr other ↦
        let wrote = chunk_at-set_chunk s.jobs q r (record d { status = pending }) d at in
        inl (c, ground (arith, wrote, other, here), missing)
  ]

  offer_chunk-Awaits : (s : Claim) (q : ChunkRef) → Awaits s → Awaits (offer_chunk s q)
  unfolding offer_chunk
  offer_chunk-Awaits s q a = elim (Option-cases (chunk_at s.jobs q)) [
    | inl e ↦ rw (e, offer_chunk) a
    | inr (d, e) ↦ elim (Bool-cases (is_not_found d.status)) [
      | inl f ↦ rw (e, f, offer_chunk) (added s q d e a)
      | inr f ↦ rw (e, f, offer_chunk) a
    ]
  ]

  offer_chunk-stays :
      (s : Claim) (q : ChunkRef)
      → Memᴰ r s.conn.chunk_list
      → Memᴰ r (offer_chunk s q).conn.chunk_list
  unfolding offer_chunk add_chunk_to_receiver_connection
  offer_chunk-stays s q m = elim (Option-cases (chunk_at s.jobs q)) [
    | inl e ↦ rw (e, offer_chunk) m
    | inr (d, e) ↦ elim (Bool-cases (is_not_found d.status)) [
      | inl f ↦ rw (e, f, offer_chunk) (Memᴰ.append_left (q ∷ []) m)
      | inr f ↦ rw (e, f, offer_chunk) m
    ]
  ]

  -- The offer of the chunk itself.
  offer_chunk-lists : (s : Claim) → Awaits s → Memᴰ r (offer_chunk s r).conn.chunk_list
  unfolding offer_chunk add_chunk_to_receiver_connection
  offer_chunk-lists s (inr m) = offer_chunk-stays s r m
  offer_chunk-lists s (inl (c, here, missing)) =
      rw (here, missing, offer_chunk) (Memᴰ.append_right s.conn.chunk_list (Memᴰ.head {x = r} refl))

  offer_hash-Awaits : (j : ℕ) (s : Claim) (h : List ℕ) → Awaits s → Awaits (offer_hash j s h)
  unfolding offer_hash
  offer_hash-Awaits j s h a = in_job (job_at s.jobs j)
    where
      found : (o : Option ℕ) → Awaits (offer_found j s o)
      found none = a
      found (some i) = offer_chunk-Awaits s (record { job = j; index = i }) a

      in_job : (o : Option Job) → Awaits (offer_in j s h o)
      in_job none = a
      in_job (some job) = found (get_chunk job h)

  -- The hash `h` names the chunk at `r`, by what does not change.
  abbrev Names : List ℕ → List (Option Outline) → Type 0
  Names h os =
      (o : Outline) × (get_elem? os r.job ≡ some (some o)) × (find_label o.1 0 h ≡ some r.index)

  offer_hash-lists :
      (s : Claim) (h : List ℕ)
      → Names h (outlines s.jobs)
      → Awaits s
      → Memᴰ r (offer_hash r.job s h).conn.chunk_list
  unfolding offer_hash get_chunk
  offer_hash-lists s h n a =
      let (o, at, found) = n in
      let (job, here, same) = outlined s.jobs r.job o at in
      let finds : get_chunk job h ≡ some r.index =
        find_chunk-find_label job.chunks 0 h
        ∙ ap (λ (u : Outline). find_label u.1 0 h) same
        ∙ found in
      rw (here, finds, offer_hash) (offer_chunk-lists s a)

  offer_hash-outlines :
      (j : ℕ) (s : Claim) (h : List ℕ) → outlines (offer_hash j s h).jobs ≡ outlines s.jobs
  unfolding offer_hash
  offer_hash-outlines j s h =
      let os = outlines s.jobs in
      offer_in-keeps (λ jobs. outlines jobs ≡ os) (outlines-Survives os) j s h (job_at s.jobs j)
        refl

  listed :
      (j : ℕ) (s : Claim) (h : List ℕ)
      → Memᴰ r s.conn.chunk_list
      → Memᴰ r (offer_hash j s h).conn.chunk_list
  unfolding offer_hash
  listed j s h m = in_job (job_at s.jobs j)
    where
      found : (o : Option ℕ) → Memᴰ r (offer_found j s o).conn.chunk_list
      found none = m
      found (some i) = offer_chunk-stays s (record { job = j; index = i }) m

      in_job : (o : Option Job) → Memᴰ r (offer_in j s h o).conn.chunk_list
      in_job none = m
      in_job (some job) = found (get_chunk job h)

  stays :
      (j : ℕ) (hs : List (List ℕ)) (s : Claim)
      → Memᴰ r s.conn.chunk_list
      → Memᴰ r (offer_all j hs s).conn.chunk_list
  unfolding offer_all
  stays j [] s m = m
  stays j (h ∷ hs) s m = stays j hs (offer_hash j s h) (listed j s h m)

  offer_all-lists :
      (hs : List (List ℕ)) (s : Claim) (h : List ℕ)
      → Memᴰ h hs
      → Names h (outlines s.jobs)
      → Awaits s
      → Memᴰ r (offer_all r.job hs s).conn.chunk_list
  unfolding offer_all
  offer_all-lists [] s h m n a = elim m [ ]
  offer_all-lists (g ∷ hs) s h (Memᴰ.head e) n a = stays r.job hs (offer_hash r.job s g) (
      subst (λ (k : List ℕ). Memᴰ r (offer_hash r.job s k).conn.chunk_list) e
        (offer_hash-lists s h n a))
  offer_all-lists (g ∷ hs) s h (Memᴰ.tail m) n a =
      offer_all-lists hs (offer_hash r.job s g) h m
        (subst (Names h) (sym (offer_hash-outlines r.job s g)) n) (offer_hash-Awaits r.job s g a)

-- A chunk of the current job that is missing, and that is the first with its hash, comes to the list
-- when an IHAVE packet lists its hash.
pub add_ihave-lists :
    (r : ChunkRef) (packet : Packet) (s : Claim) (job : Job) (c : Chunk)
    → get_elem? s.jobs r.job ≡ some (some job)
    → get_elem? job.chunks r.index ≡ some c
    → get_chunk job c.hash_binary ≡ some r.index
    → is_not_found c.status ≡ true
    → Memᴰ c.hash_binary (listed_hashes packet.payload)
    → Memᴰ r (add_ihave_to_receiver_connection r.job packet s).conn.chunk_list
unfolding add_ihave_to_receiver_connection listed_hashes chunk_at get_chunk
add_ihave-lists r packet s job c at here first missing m =
    let hs = read_hashes (count_at packet.payload) 0 packet.payload in
    let name =
      get_elem?-outlines s.jobs r.job
      ∙ ap (λ o. elim o [ none ↦ none | some slot ↦ some (outline_of slot) ]) at in
    let there : chunk_at s.jobs r ≡ some c = rw (at) here in
    subst (λ (t : Claim). Memᴰ r t.conn.chunk_list)
      (sym (ihave_offers-offer_all r.job packet.payload (count_at packet.payload) 0 s))
      (offer_all-lists r hs s c.hash_binary m
        (outline job, name, sym (find_chunk-find_label job.chunks 0 c.hash_binary) ∙ first)
        (inl (c, there, missing)))
