-- ===== src/Downloads/Resets.antt =====
-- connection.c: what becomes of a connection and its list when the first chunk is written or done with.
use project_2_congest.Base.{
  ℕ, ◌+◌, ◌≤◌, ◌≡◌, ◌⊎◌, ap, ◌∙◌, subst, Bool-cases, some, List, [], ◌∷◌, inl, inr, if◌then◌else◌,
  arith,
}
use project_2_congest.Clock.{Timeval}
use project_2_congest.Packet.{Packet}
use project_2_congest.Job.{Chunk, not_found, downloading, finished}
use project_2_congest.Store.{Jobs, chunk_at, set_chunk}
use project_2_congest.Store.Writes.{weight-set_chunk}
use project_2_congest.Connection.{ChunkRef}
use project_2_congest.Connection.Receiver.{
  Platform, Claim, Reset, goes_on, done, save_data_packet, save_chunk, reset_receiver_connection,
  next_chunk, is_downloading,
}
use project_2_congest.Peer.Data.{receive_data}
use project_2_congest.Downloads.{hit, occurrences, at_head, behind, heads, waiters, down, pend}
use project_2_congest.Downloads.Starts.{Balance, start_connection-Balance}

pub receive_data-status :
    (blank : List ℕ) (p : Packet) (c : Chunk) → (receive_data blank p c).chunk.status ≡ c.status
unfolding receive_data save_data_packet
receive_data-status blank p c = ground arith

pub receive_data-same :
    (blank : List ℕ) (p : Packet) (c : Chunk)
    → let d = (receive_data blank p c).chunk in (d.id ≡ c.id) × (d.hash_binary ≡ c.hash_binary)
unfolding receive_data save_data_packet
receive_data-same blank p c = ground arith

-- The identity and the hash of a chunk stay.
pub save_chunk-same :
    (m : Platform) (name : List ℕ) (c : Chunk)
    → let d = (save_chunk m name c).chunk in (d.id ≡ c.id) × (d.hash_binary ≡ c.hash_binary)
unfolding save_chunk
save_chunk-same m name c = ground arith

-- A chunk that is saved stays the one downloaded, or is done with.
save_chunk-status :
    (m : Platform) (name : List ℕ) (c : Chunk)
    → let d = (save_chunk m name c).chunk in
      (d.status ≡ c.status) ⊎ (d.status ≡ finished) ⊎ (d.status ≡ not_found)
unfolding save_chunk
save_chunk-status m name c = ground arith

-- The connection of a `Reset`, if it is still there.
abbrev pub heads_after : ChunkRef → Reset → ℕ
heads_after q (goes_on t) = heads q t.claim.conn
heads_after q (done jobs) = 0

abbrev pub waiters_after : ChunkRef → Reset → ℕ
waiters_after q (goes_on t) = waiters q t.claim.conn
waiters_after q (done jobs) = 0

abbrev pub jobs_after : Reset → Jobs
jobs_after (goes_on t) = t.claim.jobs
jobs_after (done jobs) = jobs

module _ (blank : List ℕ) (now : Timeval) (d p : ChunkRef → ℕ) where
  -- The chunk in front is no longer downloaded.
  next_chunk-Balance :
      (s : Claim) (rest : List ChunkRef)
      → Balance s.jobs d (λ q. p q + occurrences q rest)
      → let r = next_chunk blank now s rest in
        Balance (jobs_after r) (λ q. d q + heads_after q r) (λ q. p q + waiters_after q r)
  next_chunk-Balance s [] b = record {
    downs = λ q. omega (arith, b.downs q);
    pends = λ q. omega (arith, b.pends q);
  }
  next_chunk-Balance s (r ∷ rest) b =
      start_connection-Balance blank now
        (record { jobs = s.jobs; conn = record s.conn { chunk_list = r ∷ rest } }) d p (omega arith)
        b

  pub reset-Balance :
      (s : Claim) (c : Chunk) (r : ChunkRef) (rest : List ChunkRef)
      → s.conn.chunk_list ≡ r ∷ rest
      → Balance s.jobs
          (λ q. d q + (if is_downloading c.status then hit r q else 0))
          (λ q. p q + occurrences q rest)
      → let t = reset_receiver_connection blank now s c rest in
        Balance (jobs_after t) (λ q. d q + heads_after q t) (λ q. p q + waiters_after q t)
  unfolding reset_receiver_connection
  reset-Balance s c r rest e b = elim (Bool-cases (is_downloading c.status)) [
    | inl f ↦
        rw (f, reset_receiver_connection)
          (record {
            downs = λ q. ground (arith, f, b.downs q, ap (at_head q) e);
            pends = λ q. omega (arith, b.pends q, ap (behind q) e);
          })
    | inr f ↦
        rw (f, reset_receiver_connection)
          (next_chunk-Balance s rest
            (record { downs = λ q. ground (arith, f, b.downs q); pends = b.pends }))
  ]

pub down_status : (c : Chunk) → 1 ≤ down (some c) → c.status ≡ downloading
down_status c h = ground arith

pub save_chunk-downloading :
    (m : Platform) (name : List ℕ) (c : Chunk)
    → c.status ≡ downloading
    → let d = (save_chunk m name c).chunk in
      (d.status ≡ downloading) ⊎ (d.status ≡ finished) ⊎ (d.status ≡ not_found)
save_chunk-downloading m name c e = elim (save_chunk-status m name c) [
  | inl h ↦ inl (h ∙ e)
  | inr h ↦ inr h
]

pub after :
    (d p : ChunkRef → ℕ) (t u : Reset)
    → t ≡ u
    → Balance (jobs_after t) (λ q. d q + heads_after q t) (λ q. p q + waiters_after q t)
    → Balance (jobs_after u) (λ q. d q + heads_after q u) (λ q. p q + waiters_after q u)
after d p t u g b =
    subst (λ t. Balance (jobs_after t) (λ q. d q + heads_after q t) (λ q. p q + waiters_after q t))
      g b

-- The chunk at `r` was downloaded, and is written as it was or done with.
pub write-Balance :
    (jobs : Jobs) (r : ChunkRef) (c saved : Chunk) (d p : ChunkRef → ℕ)
    → chunk_at jobs r ≡ some c
    → c.status ≡ downloading
    → (saved.status ≡ downloading) ⊎ (saved.status ≡ finished) ⊎ (saved.status ≡ not_found)
    → Balance jobs (λ q. d q + hit r q) p
    → Balance
        (set_chunk jobs r saved)
        (λ q. d q + (if is_downloading saved.status then hit r q else 0))
        p
write-Balance jobs r c saved d p at is_down end b = record {
  downs = λ q. ground (arith, b.downs q, is_down, weight-set_chunk down jobs r q saved c at);
  pends = λ q. ground (arith, b.pends q, is_down, weight-set_chunk pend jobs r q saved c at);
}
