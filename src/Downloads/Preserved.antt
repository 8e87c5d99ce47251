-- ===== src/Downloads/Preserved.antt =====
-- connection.c: what the operations on receiver connections do to the jobs is to write statuses,
-- counters and data of chunks. Only `save_chunk` makes a chunk a finished one.
use project_2_congest.Base.{
  ℕ, zero, suc, ◌≡◌, refl, subst, Bool-cases, Option, Option-cases, none, some, List, [], ◌∷◌, inl,
  inr, arith,
}
use project_2_congest.Clock.{Timeval}
use project_2_congest.Packet.{Packet}
use project_2_congest.Job.{Chunk, Job, downloading, pending, finished, is_not_found, get_chunk}
use project_2_congest.Job.Payload.{hash_at, count_at}
use project_2_congest.Store.{Jobs, chunk_at, set_chunk}
use project_2_congest.Connection.{ChunkRef, ReceiverConnection}
use project_2_congest.Connection.Receiver.{
  Claim, job_at, offer_chunk, offer_found, offer_in, offer_hash, ihave_offers,
  add_chunk_to_receiver_connection, add_ihave_to_receiver_connection, malloc_receiver_connection,
  start_connection, start_at, put_back, put_back_at, cancel_chunks, cancel_receiver_connection,
  next_chunk, is_downloading, reset_receiver_connection,
}
use project_2_congest.Connection.Kept.{if_listed-HasChunk}
use project_2_congest.Control.{init_receiver_connection}
use project_2_congest.Peer.{Env}
use project_2_congest.Peer.Round.{receivers_timeout}
use project_2_congest.Downloads.Resets.{jobs_after}
use project_2_congest.Downloads.Cancels.{put_back_at-jobs, timeout_cases}

-- `I` survives every write to a chunk that leaves its identity and its hash and does not finish it.
abbrev pub Survives : (Jobs → Type 0) → Type 0
Survives I =
    (jobs : Jobs) (r : ChunkRef) (c d : Chunk)
    → chunk_at jobs r ≡ some d
    → c.id ≡ d.id
    → c.hash_binary ≡ d.hash_binary
    → (c.status ≡ finished → d.status ≡ finished)
    → I jobs
    → I (set_chunk jobs r c)

put_back_lem :
    (c : Chunk)
    → ((put_back c).id ≡ c.id)
      × ((put_back c).hash_binary ≡ c.hash_binary)
      × ((put_back c).status ≡ finished → c.status ≡ finished)
put_back_lem c = (ground arith, ground arith, λ e. ground (arith, e))

module _ (I : Jobs → Type 0) (k : Survives I) where
  offer_chunk-keeps : (s : Claim) (r : ChunkRef) → I s.jobs → I (offer_chunk s r).jobs
  unfolding offer_chunk add_chunk_to_receiver_connection
  offer_chunk-keeps s r a = elim (Option-cases (chunk_at s.jobs r)) [
    | inl e ↦ rw (e, offer_chunk) a
    | inr (c, e) ↦ elim (Bool-cases (is_not_found c.status)) [
      | inl f ↦
          rw (e, f, offer_chunk)
            (k s.jobs r (record c { status = pending }) c e refl refl
              (λ h. absurd (ground (arith, h))) a)
      | inr f ↦ rw (e, f, offer_chunk) a
    ]
  ]

  pub offer_in-keeps :
      (j : ℕ) (s : Claim) (hash : List ℕ) (o : Option Job) → I s.jobs → I (offer_in j s hash o).jobs
  offer_in-keeps j s hash none a = a
  offer_in-keeps j s hash (some job) a = go (get_chunk job hash)
    where
      go : (o : Option ℕ) → I (offer_found j s o).jobs
      go none = a
      go (some i) = offer_chunk-keeps s (record { job = j; index = i }) a

  ihave_offers-keeps :
      (j : ℕ) (payload : List ℕ) (n i : ℕ) (s : Claim)
      → I s.jobs
      → I (ihave_offers j payload n i s).jobs
  unfolding ihave_offers offer_hash
  ihave_offers-keeps j payload zero i s a = a
  ihave_offers-keeps j payload (suc n) i s a =
      ihave_offers-keeps j payload n (suc i) (offer_in j s (hash_at payload i) (job_at s.jobs j))
        (offer_in-keeps j s (hash_at payload i) (job_at s.jobs j) a)

  pub add_ihave-keeps :
      (j : ℕ) (p : Packet) (s : Claim) → I s.jobs → I (add_ihave_to_receiver_connection j p s).jobs
  unfolding add_ihave_to_receiver_connection
  add_ihave-keeps j p s a = ihave_offers-keeps j p.payload (count_at p.payload) 0 s a

  pub malloc_receiver_connection-keeps :
      (j : ℕ) (now : Timeval) (fresh : ReceiverConnection) (jobs : Jobs) (p : Packet)
      (from : Option ℕ) (claim : Claim)
      → malloc_receiver_connection j now fresh jobs p from ≡ some claim
      → I jobs
      → I claim.jobs
  unfolding malloc_receiver_connection init_receiver_connection
  malloc_receiver_connection-keeps j now fresh jobs p from claim f a =
      let opened = record fresh { provider = from; chunk_list = [] } in
      let s : Claim = record { jobs = jobs; conn = init_receiver_connection now opened } in
      let same = (if_listed-HasChunk (add_ihave_to_receiver_connection j p s) claim f).0 in
      subst (λ (t : Claim). I t.jobs) same (add_ihave-keeps j p s a)

  start_at-keeps :
      (blank : List ℕ) (now : Timeval) (s : Claim) (r : ChunkRef)
      → I s.jobs
      → I (start_at blank now s r).claim.jobs
  start_at-keeps blank now s r a = elim (Option-cases (chunk_at s.jobs r)) [
    | inl e ↦ rw (e, start_at) a
    | inr (c, e) ↦
        rw (e, start_at)
          (k s.jobs r (record c { status = downloading }) c e refl refl
            (λ h. absurd (ground (arith, h))) a)
  ]

  pub start_connection-keeps :
      (blank : List ℕ) (now : Timeval) (s : Claim)
      → I s.jobs
      → I (start_connection blank now s).claim.jobs
  unfolding start_connection
  start_connection-keeps blank now s a = go s.conn.chunk_list refl
    where
      go :
          (list : List ChunkRef)
          → s.conn.chunk_list ≡ list
          → I (start_connection blank now s).claim.jobs
      go [] e = rw (e, start_connection) a
      go (r ∷ rest) e = rw (e, start_connection) (start_at-keeps blank now s r a)

  put_back_at-keeps : (jobs : Jobs) (r : ChunkRef) → I jobs → I (put_back_at jobs r)
  put_back_at-keeps jobs r a = elim (Option-cases (chunk_at jobs r)) [
    | inl e ↦ rw (e, put_back_at) a
    | inr (c, e) ↦
        let (id, hash, status) = put_back_lem c in
        rw (put_back_at-jobs jobs r c e) (k jobs r (put_back c) c e id hash status a)
  ]

  cancel_chunks-keeps : (refs : List ChunkRef) (jobs : Jobs) → I jobs → I (cancel_chunks refs jobs)
  unfolding cancel_chunks
  cancel_chunks-keeps [] jobs a = a
  cancel_chunks-keeps (r ∷ rs) jobs a =
      cancel_chunks-keeps rs (put_back_at jobs r) (put_back_at-keeps jobs r a)

  next_chunk-keeps :
      (blank : List ℕ) (now : Timeval) (s : Claim) (rest : List ChunkRef)
      → I s.jobs
      → I (jobs_after (next_chunk blank now s rest))
  next_chunk-keeps blank now s [] a = a
  next_chunk-keeps blank now s (r ∷ rest) a =
      start_connection-keeps blank now
        (record { jobs = s.jobs; conn = record s.conn { chunk_list = r ∷ rest } }) a

  pub reset-keeps :
      (blank : List ℕ) (now : Timeval) (s : Claim) (c : Chunk) (rest : List ChunkRef)
      → I s.jobs
      → I (jobs_after (reset_receiver_connection blank now s c rest))
  unfolding reset_receiver_connection
  reset-keeps blank now s c rest a = elim (Bool-cases (is_downloading c.status)) [
    | inl f ↦ rw (f, reset_receiver_connection) a
    | inr f ↦ rw (f, reset_receiver_connection) (next_chunk-keeps blank now s rest a)
  ]

  pub receivers_timeout-keeps :
      (e : Env) (now : Timeval) (rs : List ReceiverConnection) (jobs : Jobs)
      → I jobs
      → I (receivers_timeout e now rs jobs).jobs
  unfolding receivers_timeout cancel_receiver_connection
  receivers_timeout-keeps e now [] jobs a = a
  receivers_timeout-keeps e now (r ∷ rs) jobs a =
      let s : Claim = record { jobs = jobs; conn = r } in
      elim (timeout_cases e now s) [
        | inl q ↦
            rw (q, receivers_timeout)
              (receivers_timeout-keeps e now rs (cancel_receiver_connection r jobs)
                (cancel_chunks-keeps r.chunk_list jobs a))
        | inr (inl q) ↦
            rw (q, receivers_timeout)
              (receivers_timeout-keeps e now rs (start_connection e.blank now s).claim.jobs
                (start_connection-keeps e.blank now s a))
        | inr (inr q) ↦ rw (q, receivers_timeout) (receivers_timeout-keeps e now rs jobs a)
      ]
