-- ===== src/Downloads/Cancels.antt =====
-- connection.c, control.c: a connection that times out gives its chunks back, and one that asks
-- again keeps them.
use project_2_congest.Base.{
  ℕ, ◌+◌, ◌≤◌, ◌≡◌, ◌⊎◌, refl, sym, ap, subst, some, List, [], ◌∷◌, length, inl, inr, arith,
}
use project_2_congest.Clock.{Timeval}
use project_2_congest.Job.{Chunk, downloading}
use project_2_congest.Store.{Jobs, chunk_at, set_chunk}
use project_2_congest.Store.Writes.{weight-set_chunk}
use project_2_congest.Connection.{ChunkRef, ReceiverConnection}
use project_2_congest.Connection.Receiver.{
  Claim, start_connection, put_back, put_back_at, cancel_chunks, cancel_receiver_connection,
}
use project_2_congest.Connection.Receivers.{Receivers, total_of}
use project_2_congest.Peer.{Env}
use project_2_congest.Peer.Round.{cancelled, kept, receiver_control_by_timeout, receivers_timeout}
use project_2_congest.Downloads.{hit, occurrences, at_head, behind, heads, waiters, down, pend}
use project_2_congest.Downloads.Starts.{
  Balance, start_connection-jobs, start_connection-list, pending_of, downloading_of, hit_self,
}

pub put_back_at-jobs :
    (jobs : Jobs) (r : ChunkRef) (c : Chunk)
    → chunk_at jobs r ≡ some c
    → put_back_at jobs r ≡ set_chunk jobs r (put_back c)
put_back_at-jobs jobs r c e = rw (e, put_back_at) refl

put_back-Balance :
    (jobs : Jobs) (r : ChunkRef) (d p : ChunkRef → ℕ)
    → Balance jobs d (λ q. p q + hit r q)
    → Balance (put_back_at jobs r) d p
put_back-Balance jobs r d p b =
    let (c, at, waits) = pending_of (chunk_at jobs r) (omega (arith, b.pends r, hit_self r)) in
    let c' = put_back c in
    subst (λ j. Balance j d p) (sym (put_back_at-jobs jobs r c at))
      (record {
        downs = λ q. ground (arith, waits, b.downs q, weight-set_chunk down jobs r q c' c at);
        pends = λ q. ground (arith, waits, b.pends q, weight-set_chunk pend jobs r q c' c at);
      })

put_back_head-Balance :
    (jobs : Jobs) (r : ChunkRef) (d p : ChunkRef → ℕ)
    → Balance jobs (λ q. d q + hit r q) p
    → Balance (put_back_at jobs r) d p
put_back_head-Balance jobs r d p b =
    let (c, at, is_down) =
      downloading_of (chunk_at jobs r) (omega (arith, b.downs r, hit_self r)) in
    let c' = put_back c in
    subst (λ j. Balance j d p) (sym (put_back_at-jobs jobs r c at))
      (record {
        downs = λ q. ground (arith, is_down, b.downs q, weight-set_chunk down jobs r q c' c at);
        pends = λ q. ground (arith, is_down, b.pends q, weight-set_chunk pend jobs r q c' c at);
      })

cancel_chunks-Balance :
    (refs : List ChunkRef) (jobs : Jobs) (d p : ChunkRef → ℕ)
    → Balance jobs d (λ q. p q + occurrences q refs)
    → Balance (cancel_chunks refs jobs) d p
unfolding cancel_chunks
cancel_chunks-Balance [] jobs d p b = record {
  downs = b.downs;
  pends = λ q. omega (arith, b.pends q);
}
cancel_chunks-Balance (r ∷ refs) jobs d p b = cancel_chunks-Balance refs (put_back_at jobs r) d p (
    put_back-Balance jobs r d (λ q. p q + occurrences q refs)
      (record { downs = b.downs; pends = λ q. omega (arith, b.pends q) }))

cancel_list-Balance :
    (list : List ChunkRef) (jobs : Jobs) (d p : ChunkRef → ℕ)
    → Balance jobs (λ q. d q + at_head q list) (λ q. p q + behind q list)
    → Balance (cancel_chunks list jobs) d p
unfolding cancel_chunks
cancel_list-Balance [] jobs d p b = record {
  downs = λ q. omega (arith, b.downs q);
  pends = λ q. omega (arith, b.pends q);
}
cancel_list-Balance (r ∷ rest) jobs d p b =
    cancel_chunks-Balance rest (put_back_at jobs r) d p
      (put_back_head-Balance jobs r d (λ q. p q + occurrences q rest) b)

cancelled-Balance :
    (conn : ReceiverConnection) (jobs : Jobs) (d p : ChunkRef → ℕ)
    → Balance jobs (λ q. d q + heads q conn) (λ q. p q + waiters q conn)
    → Balance (cancel_receiver_connection conn jobs) d p
unfolding cancel_receiver_connection
cancelled-Balance conn jobs d p b = cancel_list-Balance conn.chunk_list jobs d p b

-- GET for a chunk that is downloaded already.
restart-Balance :
    (blank : List ℕ) (now : Timeval) (s : Claim) (d p : ChunkRef → ℕ)
    → 1 ≤ length s.conn.chunk_list
    → Balance s.jobs (λ q. d q + heads q s.conn) p
    → let t = (start_connection blank now s).claim in Balance t.jobs (λ q. d q + heads q t.conn) p
restart-Balance blank now s d p h b = go s.conn.chunk_list refl h
  where
    go :
        (list : List ChunkRef)
        → s.conn.chunk_list ≡ list
        → 1 ≤ length list
        → let t = (start_connection blank now s).claim in
          Balance t.jobs (λ q. d q + heads q t.conn) p
    go [] e h = absurd (omega arith)
    go (r ∷ rest) e h =
        let (c, at, is_down) =
          downloading_of (chunk_at s.jobs r)
            (omega (arith, b.downs r, ap (at_head r) e, hit_self r)) in
        let c' = record c { status = downloading } in
        let jobs = start_connection-jobs blank now s r rest c e at in
        let list = start_connection-list blank now s in
        record {
          downs = λ q. ground (
            arith,
            is_down,
            b.downs q,
            ap (at_head q) list,
            ap (λ j. down (chunk_at j q)) jobs,
            weight-set_chunk down s.jobs r q c' c at,
          );
          pends = λ q. ground (
            arith,
            is_down,
            b.pends q,
            ap (λ j. pend (chunk_at j q)) jobs,
            weight-set_chunk pend s.jobs r q c' c at,
          );
        }

module _ (e : Env) (now : Timeval) where
  pub timeout_cases :
      (s : Claim)
      → (receiver_control_by_timeout e now s ≡ cancelled (cancel_receiver_connection s.conn s.jobs))
        ⊎ (receiver_control_by_timeout e now s ≡ kept (start_connection e.blank now s))
        ⊎ (receiver_control_by_timeout e now s ≡ kept (record { claim = s; sent = [] }))
  unfolding receiver_control_by_timeout
  timeout_cases s = ground arith

  -- `d` and `p` count what the other connections have.
  pub receivers_timeout-Balance :
      (bound : ℕ) (rs : List ReceiverConnection) (jobs : Jobs) (d p : ChunkRef → ℕ)
      → Receivers bound rs
      → Balance jobs (λ q. d q + total_of (heads q) rs) (λ q. p q + total_of (waiters q) rs)
      → let t = receivers_timeout e now rs jobs in
        Balance t.jobs
          (λ q. d q + total_of (heads q) t.receivers)
          (λ q. p q + total_of (waiters q) t.receivers)
  unfolding receivers_timeout
  receivers_timeout-Balance bound [] jobs d p h b = b
  receivers_timeout-Balance bound (r ∷ rs) jobs d p h b =
      let s : Claim = record { jobs = jobs; conn = r } in
      let d' : ChunkRef → ℕ = λ q. d q + total_of (heads q) rs in
      let p' : ChunkRef → ℕ = λ q. p q + total_of (waiters q) rs in
      let mine : Balance jobs (λ q. d' q + heads q r) (λ q. p' q + waiters q r) = record {
        downs = λ q. omega (arith, b.downs q);
        pends = λ q. omega (arith, b.pends q);
      } in
      elim (timeout_cases s) [
        | inl q ↦
            rw (q, receivers_timeout)
              (receivers_timeout-Balance bound rs (cancel_receiver_connection r jobs) d p h.2
                (cancelled-Balance r jobs d' p' mine))
        | inr (inl q) ↦
            let t = (start_connection e.blank now s).claim in
            let again = restart-Balance e.blank now s d' (λ q. p' q + waiters q r) h.0.0 mine in
            let list = start_connection-list e.blank now s in
            let rest =
              receivers_timeout-Balance bound rs t.jobs (λ q. d q + heads q t.conn)
                (λ q. p q + waiters q t.conn) h.2
                (record {
                  downs = λ q. omega (arith, again.downs q);
                  pends = λ q. omega (arith, again.pends q, ap (behind q) list);
                }) in
            rw (q, receivers_timeout)
              (record {
                downs = λ q. omega (arith, rest.downs q);
                pends = λ q. omega (arith, rest.pends q);
              })
        | inr (inr q) ↦
            let rest =
              receivers_timeout-Balance bound rs jobs (λ q. d q + heads q r)
                (λ q. p q + waiters q r) h.2
                (record {
                  downs = λ q. omega (arith, b.downs q);
                  pends = λ q. omega (arith, b.pends q);
                }) in
            rw (q, receivers_timeout)
              (record {
                downs = λ q. omega (arith, rest.downs q);
                pends = λ q. omega (arith, rest.pends q);
              })
      ]
