-- ===== src/Downloads/Taking.antt =====
-- connection.c, peer.c: a DATA packet keeps every chunk in its place. The chunk that it is for may
-- be done with, and then the next one of the list is downloaded.
use project_2_congest.Base.{
  ℕ, ◌+◌, ◌-◌, ◌≡◌, refl, ap, ◌∙◌, Bool-cases, Option, Option-cases, some, List, [], ◌∷◌, ◌++◌, map,
  inl, inr, arith,
}
use project_2_congest.Clock.{Timeval}
use project_2_congest.Packet.{Packet, Sockaddr, send_packet, to_sender}
use project_2_congest.Job.{Chunk}
use project_2_congest.Store.{chunk_at, set_chunk}
use project_2_congest.Connection.{ChunkRef, ReceiverConnection, received_data}
use project_2_congest.Connection.Receiver.{
  Claim, goes_on, done, search_receiver_connection, save_chunk, reset_receiver_connection,
}
use project_2_congest.Connection.Receivers.{
  search-HasChunk, search-le-total, total_of, total-store, total-remove,
}
use project_2_congest.Connection.Kept.{Reset-cases, reset-HasChunk}
use project_2_congest.Peer.{
  Peer, Env, on_data, data_for_chunk, data_for_list, take_data, output_name,
}
use project_2_congest.Peer.Data.{receive_data}
use project_2_congest.Peer.Invariant.{PeerInv}
use project_2_congest.Downloads.{occurrences, at_head, behind, heads, waiters, down}
use project_2_congest.Downloads.Starts.{hit_self}
use project_2_congest.Downloads.Claimed.{Claimed}
use project_2_congest.Downloads.Resets.{
  receive_data-status, reset-Balance, down_status, save_chunk-downloading, after, write-Balance,
}

module _ (e : Env) (now : Timeval) where
  take_data-Claimed :
      (peer : Option ℕ) (conn : ReceiverConnection) (r : ChunkRef) (rest : List ChunkRef)
      (took c : Chunk) (s : Peer)
      → PeerInv s
      → Claimed s.jobs s.receivers
      → search_receiver_connection s.receivers peer ≡ some conn
      → conn.chunk_list ≡ r ∷ rest
      → chunk_at s.jobs r ≡ some c
      → took.status ≡ c.status
      → let t = take_data e now conn r rest took s in Claimed t.jobs t.receivers
  unfolding take_data
  take_data-Claimed peer conn r rest took c s v w f list at same =
      let saved = save_chunk e.platform (output_name s) took in
      let conn' = record conn { last_data_time = now; status = received_data } in
      let claim : Claim = record { jobs = set_chunk s.jobs r saved.chunk; conn = conn' } in
      let t = reset_receiver_connection e.blank now claim saved.chunk rest in
      let below = λ (k : ReceiverConnection → ℕ). search-le-total k s.receivers peer conn f in
      let first = λ (q : ChunkRef). ap (at_head q) list in
      let others = λ (q : ChunkRef). ap (behind q) list in
      let d : ChunkRef → ℕ = λ q. total_of (heads q) s.receivers - heads q conn in
      let p : ChunkRef → ℕ = λ q. total_of (waiters q) s.receivers - waiters q conn in
      let is_down =
        down_status c
          (omega (arith, w.heads_down r, below (heads r), first r, hit_self r, ap down at)) in
      let ends = save_chunk-downloading e.platform (output_name s) took (same ∙ is_down) in
      let wrote =
        write-Balance s.jobs r c saved.chunk d (λ q. p q + occurrences q rest) at is_down ends
          (record {
            downs = λ q. omega (arith, w.heads_down q, below (heads q), first q);
            pends = λ q. omega (arith, w.waiters_pend q, below (waiters q), others q);
          }) in
      let b = reset-Balance e.blank now d p claim saved.chunk r rest list wrote in
      elim (Reset-cases t) [
        | inl (started, g) ↦
            let some_chunk = search-HasChunk s.next_address s.receivers v.receivers peer conn f in
            let kept = reset-HasChunk e.blank now claim saved.chunk rest started g some_chunk in
            let sum = λ (k : ReceiverConnection → ℕ).
              total-store s.next_address s.receivers v.receivers k peer conn started.claim.conn f
                kept.0 in
            let b' = after d p t (goes_on started) g b in
            rw (g, take_data)
              (record {
                heads_down = λ q. omega (arith, b'.downs q, sum (heads q), below (heads q));
                waiters_pend = λ q. omega (arith, b'.pends q, sum (waiters q), below (waiters q));
              })
        | inr (jobs, g) ↦
            let sum = λ (k : ReceiverConnection → ℕ).
              total-remove s.next_address s.receivers v.receivers k peer conn f in
            let b' = after d p t (done jobs) g b in
            rw (g, take_data)
              (record {
                heads_down = λ q. omega (arith, b'.downs q, sum (heads q));
                waiters_pend = λ q. omega (arith, b'.pends q, sum (waiters q));
              })
      ]

  data_for_chunk-Claimed :
      (packet : Packet) (from : Sockaddr) (peer : Option ℕ) (conn : ReceiverConnection)
      (r : ChunkRef) (rest : List ChunkRef) (c : Chunk) (s : Peer)
      → PeerInv s
      → Claimed s.jobs s.receivers
      → search_receiver_connection s.receivers peer ≡ some conn
      → conn.chunk_list ≡ r ∷ rest
      → chunk_at s.jobs r ≡ some c
      → let t = data_for_chunk e now packet from conn r rest c s in Claimed t.jobs t.receivers
  unfolding data_for_chunk
  data_for_chunk-Claimed packet from peer conn r rest c s v w f list at =
      let got = receive_data e.blank packet c in
      let replied = record s {
        sent = s.sent ++ map (λ p. send_packet p (to_sender from)) got.reply;
      } in
      elim (Bool-cases got.took) [
        | inl k ↦
            rw (k, data_for_chunk)
              (take_data-Claimed peer conn r rest got.chunk c replied v w f list at
                (receive_data-status e.blank packet c))
        | inr k ↦ rw (k, data_for_chunk) w
      ]

  data_for_list-Claimed :
      (packet : Packet) (from : Sockaddr) (peer : Option ℕ) (conn : ReceiverConnection)
      (refs : List ChunkRef) (s : Peer)
      → PeerInv s
      → Claimed s.jobs s.receivers
      → search_receiver_connection s.receivers peer ≡ some conn
      → conn.chunk_list ≡ refs
      → let t = data_for_list e now packet from conn refs s in Claimed t.jobs t.receivers
  data_for_list-Claimed packet from peer conn [] s v w f list = w
  data_for_list-Claimed packet from peer conn (r ∷ rest) s v w f list =
      elim (Option-cases (chunk_at s.jobs r)) [
        | inl k ↦ rw (k, data_for_list) w
        | inr (c, k) ↦
            rw (k, data_for_list)
              (data_for_chunk-Claimed packet from peer conn r rest c s v w f list k)
      ]

  pub on_data-Claimed :
      (packet : Packet) (from : Sockaddr) (peer : Option ℕ) (s : Peer)
      → PeerInv s
      → Claimed s.jobs s.receivers
      → let t = on_data e now packet from peer s in Claimed t.jobs t.receivers
  unfolding on_data
  on_data-Claimed packet from peer s v w =
      elim (Option-cases (search_receiver_connection s.receivers peer)) [
        | inl q ↦ rw (q, on_data) w
        | inr (conn, q) ↦
            rw (q, on_data)
              (data_for_list-Claimed packet from peer conn conn.chunk_list s v w q refl)
      ]
