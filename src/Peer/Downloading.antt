-- ===== src/Peer/Downloading.antt =====
-- peer.c: the handlers of IHAVE and DATA packets keep the lists of connections in order.
use project_2_congest.Base.{
  ℕ, ◌<◌, ◌≡◌, ap, ◌∙◌, Option, none, some, List, [], ◌∷◌, length, leb, Option-cases, Bool-cases,
  inl, inr, arith,
}
use project_2_congest.Clock.{Timeval}
use project_2_congest.Packet.{Packet, Sockaddr}
use project_2_congest.Job.{Chunk}
use project_2_congest.Connection.{ReceiverConnection, ChunkRef}
use project_2_congest.Connection.Receiver.{
  search_receiver_connection, get_receiver_connection_number, add_ihave_to_receiver_connection,
  malloc_receiver_connection, Claim,
}
use project_2_congest.Connection.Receivers.{
  number-eq-length, Receivers-cons, search-HasChunk, store-ReceiversFollow, remove-ReceiversFollow,
}
use project_2_congest.Peer.{
  take_data, data_for_chunk, data_for_list, on_data, output_name, Peer, Env, on_ihave,
  ihave_existing, ihave_new,
}
use project_2_congest.Peer.Data.{receive_data}
use project_2_congest.Store.{chunk_at, set_chunk}
use project_2_congest.Connection.Kept.{
  add_ihave-Kept, start_connection-Kept, malloc_receiver_connection-HasChunk, reset-HasChunk,
  Reset-cases,
}
use project_2_congest.Connection.Receiver.{start_connection, save_chunk, reset_receiver_connection}
use project_2_congest.Connection.{received_data}
use project_2_congest.Peer.Invariant.{PeerInv, receivers_follow}

module _ (e : Env) (now : Timeval) where
  ihave_existing-PeerInv :
      (j : ℕ) (packet : Packet) (peer : Option ℕ) (conn : ReceiverConnection) (s : Peer)
      → PeerInv s
      → search_receiver_connection s.receivers peer ≡ some conn
      → PeerInv (ihave_existing e now j packet conn s)
  unfolding ihave_existing
  ihave_existing-PeerInv j packet peer conn s v q =
      let before : Claim = record { jobs = s.jobs; conn = conn } in
      let after = add_ihave_to_receiver_connection j packet before in
      let kept = add_ihave-Kept j packet before in
      let some_chunk = search-HasChunk s.next_address s.receivers v.receivers peer conn q in
      receivers_follow v (
        store-ReceiversFollow s.next_address s.receivers v.receivers peer conn after.conn q
          kept.same_address kept.same_provider (omega (arith, kept.list_grows, some_chunk)))

  ihave_new-PeerInv :
      (j : ℕ) (packet : Packet) (peer : Option ℕ) (s : Peer)
      → PeerInv s
      → search_receiver_connection s.receivers peer ≡ none
      → length s.receivers < s.max_receiver_connection
      → PeerInv (ihave_new e now j packet peer s)
  unfolding ihave_new
  ihave_new-PeerInv j packet peer s v none_yet room =
      let fresh = record e.fresh_receiver { address = s.next_address } in
      elim (Option-cases (malloc_receiver_connection j now fresh s.jobs packet peer)) [
        | inl q ↦ rw (q, ihave_new) v
        | inr (claim, q) ↦
            let made = malloc_receiver_connection-HasChunk j now fresh s.jobs packet peer claim q in
            let kept = start_connection-Kept e.blank now claim in
            let conn = (start_connection e.blank now claim).claim.conn in
            rw (q, ihave_new)
              (record {
                providers = v.providers;
                provider_max = v.provider_max;
                receivers =
                    Receivers-cons s.next_address s.receivers v.receivers conn
                      (omega (arith, kept.list_grows, made.2)) (kept.same_address ∙ made.0)
                      (ap (search_receiver_connection s.receivers) (kept.same_provider ∙ made.1)
                        ∙ none_yet);
                receiver_max = omega (arith, room);
              })
      ]

  pub on_ihave-PeerInv :
      (packet : Packet) (peer : Option ℕ) (s : Peer)
      → PeerInv s
      → PeerInv (on_ihave e now packet peer s)
  unfolding on_ihave
  on_ihave-PeerInv packet peer s v = elim (Option-cases s.current_job) [
    | inl q ↦ rw (q, on_ihave) v
    | inr (j, q) ↦ elim (Option-cases (search_receiver_connection s.receivers peer)) [
      | inr (conn, f) ↦ rw (q, f, on_ihave) (ihave_existing-PeerInv j packet peer conn s v f)
      | inl f ↦
          elim (Bool-cases
            (leb s.max_receiver_connection (get_receiver_connection_number s.receivers))) [
              | inl k ↦ rw (q, f, k, on_ihave) v
              | inr k ↦
                  rw (q, f, k, on_ihave)
                    (ihave_new-PeerInv j packet peer s v f
                      (ground (arith, k, number-eq-length s.receivers)))
            ]
    ]
  ]

  take_data-PeerInv :
      (peer : Option ℕ) (conn : ReceiverConnection) (r : ChunkRef) (rest : List ChunkRef)
      (took : Chunk) (s : Peer)
      → PeerInv s
      → search_receiver_connection s.receivers peer ≡ some conn
      → PeerInv (take_data e now conn r rest took s)
  unfolding take_data
  take_data-PeerInv peer conn r rest took s v q =
      let saved = save_chunk e.platform (output_name s) took in
      let claim : Claim = record {
        jobs = set_chunk s.jobs r saved.chunk;
        conn = record conn { last_data_time = now; status = received_data };
      } in
      let some_chunk = search-HasChunk s.next_address s.receivers v.receivers peer conn q in
      let reset = reset_receiver_connection e.blank now claim saved.chunk rest in
      elim (Reset-cases reset) [
        | inl (started, f) ↦
            let kept = reset-HasChunk e.blank now claim saved.chunk rest started f some_chunk in
            rw (f, take_data)
              (receivers_follow v (
                store-ReceiversFollow s.next_address s.receivers v.receivers peer conn
                  started.claim.conn q kept.0 kept.1 kept.2))
        | inr (jobs, f) ↦
            rw (f, take_data)
              (receivers_follow v
                (remove-ReceiversFollow s.next_address s.receivers v.receivers conn))
      ]

  data_for_chunk-PeerInv :
      (packet : Packet) (from : Sockaddr) (peer : Option ℕ) (conn : ReceiverConnection)
      (r : ChunkRef) (rest : List ChunkRef) (c : Chunk) (s : Peer)
      → PeerInv s
      → search_receiver_connection s.receivers peer ≡ some conn
      → PeerInv (data_for_chunk e now packet from conn r rest c s)
  unfolding data_for_chunk
  data_for_chunk-PeerInv packet from peer conn r rest c s v q =
      elim (Bool-cases (receive_data e.blank packet c).took) [
        | inl f ↦
            rw (f, data_for_chunk)
              (take_data-PeerInv peer conn r rest (receive_data e.blank packet c).chunk _ v q)
        | inr f ↦ rw (f, data_for_chunk) v
      ]

  data_for_list-PeerInv :
      (packet : Packet) (from : Sockaddr) (peer : Option ℕ) (conn : ReceiverConnection)
      (refs : List ChunkRef) (s : Peer)
      → PeerInv s
      → search_receiver_connection s.receivers peer ≡ some conn
      → PeerInv (data_for_list e now packet from conn refs s)
  data_for_list-PeerInv packet from peer conn [] s v q = v
  data_for_list-PeerInv packet from peer conn (r ∷ rest) s v q =
      elim (Option-cases (chunk_at s.jobs r)) [
        | inl f ↦ rw (f, data_for_list) v
        | inr (c, f) ↦
            rw (f, data_for_list) (data_for_chunk-PeerInv packet from peer conn r rest c s v q)
      ]

  pub on_data-PeerInv :
      (packet : Packet) (from : Sockaddr) (peer : Option ℕ) (s : Peer)
      → PeerInv s
      → PeerInv (on_data e now packet from peer s)
  unfolding on_data
  on_data-PeerInv packet from peer s v =
      elim (Option-cases (search_receiver_connection s.receivers peer)) [
        | inl q ↦ rw (q, on_data) v
        | inr (conn, q) ↦
            rw (q, on_data) (data_for_list-PeerInv packet from peer conn conn.chunk_list s v q)
      ]
