-- ===== src/Downloads/Claimed.antt =====
-- connection.c, peer.c: every chunk that is downloaded or waits stands in one list of one receiver
-- connection, in its place, and no other chunk does. IHAVE packets keep this so.
use project_2_congest.Base.{
  ℕ, ◌+◌, ◌≤◌, ◌≡◌, refl, sym, ap, ◌∙◌, subst, Bool-cases, Option, Option-cases, some, List, [],
  ◌∷◌, ◌++◌, length, leb, inl, inr, arith,
}
use project_2_congest.Clock.{Timeval}
use project_2_congest.Packet.{Packet}
use project_2_congest.Store.{Jobs, chunk_at}
use project_2_congest.Connection.{ChunkRef, ReceiverConnection}
use project_2_congest.Connection.Receiver.{
  Claim, search_receiver_connection, get_receiver_connection_number,
  add_ihave_to_receiver_connection, malloc_receiver_connection,
}
use project_2_congest.Connection.Receivers.{search-HasChunk, total_of, total-store}
use project_2_congest.Connection.Kept.{
  add_ihave-Kept, if_listed-HasChunk, malloc_receiver_connection-HasChunk,
}
use project_2_congest.Control.{init_receiver_connection}
use project_2_congest.Peer.{Peer, Env, on_ihave, ihave_existing, ihave_new}
use project_2_congest.Peer.Invariant.{PeerInv}
use project_2_congest.Downloads.{occurrences, at_head, behind, heads, waiters, down, pend}
use project_2_congest.Downloads.Grows.{Grows, add_ihave-Grows, occurrences-append}
use project_2_congest.Downloads.Starts.{start_connection-Balance}

pub record Claimed (jobs : Jobs) (rs : List ReceiverConnection) : Type 0 where
  pub heads_down : (q : ChunkRef) → total_of (heads q) rs ≡ down (chunk_at jobs q)
  pub waiters_pend : (q : ChunkRef) → total_of (waiters q) rs ≡ pend (chunk_at jobs q)

at_head-append :
    (q : ChunkRef) (xs ys : List ChunkRef) → 1 ≤ length xs → at_head q (xs ++ ys) ≡ at_head q xs
at_head-append q [] ys h = absurd (omega arith)
at_head-append q (x ∷ xs) ys h = refl

behind-append :
    (q : ChunkRef) (xs ys : List ChunkRef)
    → 1 ≤ length xs
    → behind q (xs ++ ys) ≡ behind q xs + occurrences q ys
behind-append q [] ys h = absurd (omega arith)
behind-append q (x ∷ xs) ys h = occurrences-append q xs ys

module _ (e : Env) (now : Timeval) where
  ihave_existing-Claimed :
      (j : ℕ) (packet : Packet) (peer : Option ℕ) (conn : ReceiverConnection) (s : Peer)
      → PeerInv s
      → Claimed s.jobs s.receivers
      → search_receiver_connection s.receivers peer ≡ some conn
      → let t = ihave_existing e now j packet conn s in Claimed t.jobs t.receivers
  unfolding ihave_existing
  ihave_existing-Claimed j packet peer conn s v w f =
      let before : Claim = record { jobs = s.jobs; conn = conn } in
      let after = add_ihave_to_receiver_connection j packet before in
      let g = add_ihave-Grows j packet before in
      let kept = add_ihave-Kept j packet before in
      let h = search-HasChunk s.next_address s.receivers v.receivers peer conn f in
      let sum = λ (k : ReceiverConnection → ℕ).
        total-store s.next_address s.receivers v.receivers k peer conn after.conn f
          kept.same_address in
      record {
        heads_down = λ q. omega (
          arith,
          sum (heads q),
          ap (at_head q) g.list,
          at_head-append q conn.chunk_list g.extra h,
          g.down_same q,
          w.heads_down q,
        );
        waiters_pend = λ q. omega (
          arith,
          sum (waiters q),
          ap (behind q) g.list,
          behind-append q conn.chunk_list g.extra h,
          g.pend_more q,
          w.waiters_pend q,
        );
      }

  malloc_receiver_connection-Grows :
      (j : ℕ) (fresh : ReceiverConnection) (jobs : Jobs) (p : Packet) (from : Option ℕ)
      (claim : Claim)
      → malloc_receiver_connection j now fresh jobs p from ≡ some claim
      → (extra : List ChunkRef) × (claim.conn.chunk_list ≡ extra)
        × ((q : ChunkRef) → down (chunk_at claim.jobs q) ≡ down (chunk_at jobs q))
        × ((q : ChunkRef)
            → pend (chunk_at claim.jobs q) ≡ pend (chunk_at jobs q) + occurrences q extra)
  unfolding malloc_receiver_connection init_receiver_connection
  malloc_receiver_connection-Grows j fresh jobs p from claim f =
      let opened = record fresh { provider = from; chunk_list = [] } in
      let s : Claim = record { jobs = jobs; conn = init_receiver_connection now opened } in
      let same = (if_listed-HasChunk (add_ihave_to_receiver_connection j p s) claim f).0 in
      let g = subst (Grows s) same (add_ihave-Grows j p s) in
      (g.extra, g.list, g.down_same, g.pend_more)

  ihave_new-Claimed :
      (j : ℕ) (packet : Packet) (peer : Option ℕ) (s : Peer)
      → Claimed s.jobs s.receivers
      → let t = ihave_new e now j packet peer s in Claimed t.jobs t.receivers
  unfolding ihave_new
  ihave_new-Claimed j packet peer s w =
      let fresh = record e.fresh_receiver { address = s.next_address } in
      elim (Option-cases (malloc_receiver_connection j now fresh s.jobs packet peer)) [
        | inl q ↦ rw (q, ihave_new) w
        | inr (claim, q) ↦
            let g = malloc_receiver_connection-Grows j fresh s.jobs packet peer claim q in
            let made = malloc_receiver_connection-HasChunk j now fresh s.jobs packet peer claim q in
            let b =
              start_connection-Balance e.blank now claim (λ r. total_of (heads r) s.receivers)
                (λ r. total_of (waiters r) s.receivers) made.2
                (record {
                  downs = λ r. w.heads_down r ∙ sym (g.2 r);
                  pends = λ r. omega (arith, w.waiters_pend r, g.3 r, ap (occurrences r) g.1);
                }) in
            rw (q, ihave_new)
              (record {
                heads_down = λ r. omega (arith, b.downs r);
                waiters_pend = λ r. omega (arith, b.pends r);
              })
      ]

  pub on_ihave-Claimed :
      (packet : Packet) (peer : Option ℕ) (s : Peer)
      → PeerInv s
      → Claimed s.jobs s.receivers
      → let t = on_ihave e now packet peer s in Claimed t.jobs t.receivers
  unfolding on_ihave
  on_ihave-Claimed packet peer s v w = elim (Option-cases s.current_job) [
    | inl q ↦ rw (q, on_ihave) w
    | inr (j, q) ↦ elim (Option-cases (search_receiver_connection s.receivers peer)) [
      | inr (conn, f) ↦ rw (q, f, on_ihave) (ihave_existing-Claimed j packet peer conn s v w f)
      | inl f ↦
          elim (Bool-cases
            (leb s.max_receiver_connection (get_receiver_connection_number s.receivers))) [
              | inl k ↦ rw (q, f, k, on_ihave) w
              | inr k ↦ rw (q, f, k, on_ihave) (ihave_new-Claimed j packet peer s w)
            ]
    ]
  ]
