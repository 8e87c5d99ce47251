-- ===== src/Downloads/Starts.antt =====
-- connection.c: GET for the first chunk of a list makes it the one that is downloaded.
use project_2_congest.Base.{
  ℕ, ◌+◌, ◌≤◌, ◌≡◌, refl, sym, ap, ◌∙◌, length, subst, Option, none, some, List, [], ◌∷◌, arith,
}
use project_2_congest.Clock.{Timeval}
use project_2_congest.Job.{Chunk, ChunkStatus, not_found, downloading, pending, finished}
use project_2_congest.Store.{Jobs, chunk_at, set_chunk}
use project_2_congest.Store.Writes.{weight-set_chunk}
use project_2_congest.Connection.{ChunkRef}
use project_2_congest.Connection.Receiver.{Claim, start_connection}
use project_2_congest.Downloads.{hit, occurrences, at_head, behind, heads, waiters, down, pend}

pub hit_self : (r : ChunkRef) → hit r r ≡ 1
hit_self r = ground arith

-- A pointer that stands in a list as a waiting one leads to a waiting chunk.
pub pending_of : (o : Option Chunk) → 1 ≤ pend o → (c : Chunk) × (o ≡ some c) × (c.status ≡ pending)
pending_of none h = absurd (omega arith)
pending_of (some c) h = (c, refl, status_of c.status h)
  where
    status_of : (s : ChunkStatus) → 1 ≤ pend (some (record c { status = s })) → s ≡ pending
    status_of not_found h = absurd (omega arith)
    status_of downloading h = absurd (omega arith)
    status_of pending h = refl
    status_of finished h = absurd (omega arith)

pub downloading_of :
    (o : Option Chunk) → 1 ≤ down o → (c : Chunk) × (o ≡ some c) × (c.status ≡ downloading)
downloading_of none h = absurd (omega arith)
downloading_of (some c) h = (c, refl, status_of c.status h)
  where
    status_of : (s : ChunkStatus) → 1 ≤ down (some (record c { status = s })) → s ≡ downloading
    status_of not_found h = absurd (omega arith)
    status_of downloading h = refl
    status_of pending h = absurd (omega arith)
    status_of finished h = absurd (omega arith)

-- The chunk at `r` goes from waiting to downloaded, and no other changes.
pub record Begins (jobs jobs' : Jobs) (r : ChunkRef) : Type 0 where
  pub down_more : (q : ChunkRef) → down (chunk_at jobs' q) ≡ down (chunk_at jobs q) + hit r q
  pub pend_less : (q : ChunkRef) → pend (chunk_at jobs' q) + hit r q ≡ pend (chunk_at jobs q)

pub start_connection-jobs :
    (blank : List ℕ) (now : Timeval) (s : Claim) (r : ChunkRef) (rest : List ChunkRef) (c : Chunk)
    → s.conn.chunk_list ≡ r ∷ rest
    → chunk_at s.jobs r ≡ some c
    → (start_connection blank now s).claim.jobs
      ≡ set_chunk s.jobs r (record c { status = downloading })
unfolding start_connection
start_connection-jobs blank now s r rest c e at = ground arith

pub start_connection-Begins :
    (blank : List ℕ) (now : Timeval) (s : Claim) (r : ChunkRef) (rest : List ChunkRef)
    → s.conn.chunk_list ≡ r ∷ rest
    → 1 ≤ pend (chunk_at s.jobs r)
    → Begins s.jobs (start_connection blank now s).claim.jobs r
start_connection-Begins blank now s r rest e h =
    let (c, at, waits) = pending_of (chunk_at s.jobs r) h in
    let c' = record c { status = downloading } in
    subst (λ jobs. Begins s.jobs jobs r) (sym (start_connection-jobs blank now s r rest c e at))
      (record {
        down_more = λ q. ground (arith, waits, weight-set_chunk down s.jobs r q c' c at);
        pend_less = λ q. ground (arith, waits, weight-set_chunk pend s.jobs r q c' c at);
      })

-- What is downloaded and what waits, counted by `d` and by `p`.
pub record Balance (jobs : Jobs) (d p : ChunkRef → ℕ) : Type 0 where
  pub downs : (q : ChunkRef) → d q ≡ down (chunk_at jobs q)
  pub pends : (q : ChunkRef) → p q ≡ pend (chunk_at jobs q)

pub start_connection-list :
    (blank : List ℕ) (now : Timeval) (s : Claim)
    → (start_connection blank now s).claim.conn.chunk_list ≡ s.conn.chunk_list
unfolding start_connection
start_connection-list blank now s = ground arith

-- A list whose chunks all wait, beside what `d` and `p` count.
pub start_connection-Balance :
    (blank : List ℕ) (now : Timeval) (s : Claim) (d p : ChunkRef → ℕ)
    → 1 ≤ length s.conn.chunk_list
    → Balance s.jobs d (λ q. p q + occurrences q s.conn.chunk_list)
    → let t = (start_connection blank now s).claim in
      Balance t.jobs (λ q. d q + heads q t.conn) (λ q. p q + waiters q t.conn)
start_connection-Balance blank now s d p h b = go s.conn.chunk_list refl h
  where
    go :
        (list : List ChunkRef)
        → s.conn.chunk_list ≡ list
        → 1 ≤ length list
        → let t = (start_connection blank now s).claim in
          Balance t.jobs (λ q. d q + heads q t.conn) (λ q. p q + waiters q t.conn)
    go [] e h = absurd (omega arith)
    go (r ∷ rest) e h =
        let t = (start_connection blank now s).claim in
        let waits : 1 ≤ pend (chunk_at s.jobs r) =
          omega (arith, b.pends r, ap (occurrences r) e, hit_self r) in
        let g = start_connection-Begins blank now s r rest e waits in
        let same : t.conn.chunk_list ≡ r ∷ rest = start_connection-list blank now s ∙ e in
        record {
          downs = λ q. omega (arith, b.downs q, g.down_more q, ap (at_head q) same);
          pends = λ q.
              omega (arith, b.pends q, g.pend_less q, ap (behind q) same, ap (occurrences q) e);
        }
