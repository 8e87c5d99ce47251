-- ===== src/Uploads/Handlers.antt =====
-- peer.c: the handlers of packets and the end of a round keep what is served in memory.
use project_2_congest.Base.{
  ℕ, ◌≡◌, sym, subst, Bool-cases, Option, Option-cases, List, [], ◌∷◌, leb, ◌==◌, inl, inr, arith,
}
use project_2_congest.Base.Word.{signed32}
use project_2_congest.Clock.{Timeval}
use project_2_congest.Packet.{Packet, Sockaddr, chunk_data_num, hash_size}
use project_2_congest.Base.Memory.{slice}
use project_2_congest.Job.{Chunk}
use project_2_congest.Connection.{ProviderConnection}
use project_2_congest.Connection.Provider.{
  search_provider_connection, get_provider_connection_number, malloc_provider_connection,
}
use project_2_congest.Control.{
  Logged, LogEntry, provider_control_by_ack, provider_control_by_timeout,
}
use project_2_congest.Peer.{
  Peer, Env, on_whohas, on_ihave, ihave_existing, ihave_new, on_get, get_new, on_ack, on_data,
  data_for_chunk, take_data, process_inbound_udp,
}
use project_2_congest.Peer.Dispatch.{process_inbound_udp-keeps}
use project_2_congest.Peer.Round.{
  providers_timeout, all_provider_connection_send_data, chunk_data_of, time_out_all, send_all,
}
use project_2_congest.Uploads.{Own, IsInMemory, AllServe, UploadsInv}
use project_2_congest.Uploads.Loading.{load_chunk-Loads}
use project_2_congest.Uploads.Tables.{
  search-IsInMemory, store-AllServe, remove-AllServe, AllServe-more, ack-chunk, timeout-chunk,
  sending-chunk, malloc-chunk,
}

module _ (e : Env) (now : Timeval) where
  abbrev Inv : Peer → Type 0
  Inv s = UploadsInv e.disk s

  -- The handlers that leave what is served as it was.
  pub untouched :
      (t s : Peer)
      → t.has_chunks ≡ s.has_chunks
      → t.providers ≡ s.providers
      → UploadsInv e.disk s
      → UploadsInv e.disk t
  untouched t s has ps v =
      subst (λ (cs : List Chunk). Own e.disk cs × AllServe cs t.providers) (sym has)
        (v.0, subst (AllServe s.has_chunks) (sym ps) v.1)

  on_ack-UploadsInv :
      (packet : Packet) (peer : Option ℕ) (s : Peer) → Inv s → Inv (on_ack e now packet peer s)
  unfolding on_ack
  on_ack-UploadsInv packet peer s v =
      elim (Option-cases (search_provider_connection s.providers peer)) [
        | inl q ↦ rw (q, on_ack) v
        | inr (conn, q) ↦
            let c : Logged = record { conn = conn; log = s.log } in
            let ack = signed32 packet.header.ack_number in
            let d = provider_control_by_ack s.start_time now c ack in
            let m =
              subst (IsInMemory s.has_chunks) (sym (ack-chunk s.start_time now c ack))
                (search-IsInMemory s.has_chunks s.providers peer conn v.1 q) in
            elim (Bool-cases (d.conn.last_packet_acked == chunk_data_num)) [
              | inl f ↦ rw (q, f, on_ack) (v.0, remove-AllServe s.has_chunks s.providers conn v.1)
              | inr f ↦
                  rw (q, f, on_ack) (v.0, store-AllServe s.has_chunks s.providers d.conn m v.1)
            ]
      ]

  get_new-UploadsInv :
      (packet : Packet) (peer : Option ℕ) (s : Peer) → Inv s → Inv (get_new e now packet peer s)
  unfolding get_new
  get_new-UploadsInv packet peer s v =
      elim (Option-cases (
        malloc_provider_connection e.disk now e.fresh_provider s.has_chunks s.provider_id packet
          peer)) [
            | inl q ↦ rw (q, get_new) v
            | inr ((conn, loaded), q) ↦
                let l =
                  load_chunk-Loads e.disk s.has_chunks v.0 (slice 0 hash_size packet.payload)
                    conn.chunk loaded
                    (malloc-chunk e.disk now e.fresh_provider s.has_chunks s.provider_id packet peer
                      conn loaded q) in
                rw (q, get_new)
                  (l.own, (l.in_memory, AllServe-more s.has_chunks loaded s.providers l.kept v.1))
          ]

  on_get-UploadsInv :
      (packet : Packet) (peer : Option ℕ) (s : Peer) → Inv s → Inv (on_get e now packet peer s)
  unfolding on_get
  on_get-UploadsInv packet peer s v =
      elim (Option-cases (search_provider_connection s.providers peer)) [
        | inr (conn, q) ↦ rw (q, on_get) v
        | inl q ↦
            elim (Bool-cases
              (leb s.max_provider_connection (get_provider_connection_number s.providers))) [
                | inl f ↦ rw (q, f, on_get) v
                | inr f ↦ rw (q, f, on_get) (get_new-UploadsInv packet peer s v)
              ]
      ]

  on_whohas-UploadsInv :
      (packet : Packet) (from : Sockaddr) (s : Peer) → Inv s → Inv (on_whohas e now packet from s)
  unfolding on_whohas
  on_whohas-UploadsInv packet from s v =
      untouched (on_whohas e now packet from s) s (ground arith) (ground arith) v

  on_ihave-UploadsInv :
      (packet : Packet) (peer : Option ℕ) (s : Peer) → Inv s → Inv (on_ihave e now packet peer s)
  unfolding on_ihave ihave_existing ihave_new
  on_ihave-UploadsInv packet peer s v =
      untouched (on_ihave e now packet peer s) s (ground arith) (ground arith) v

  on_data-UploadsInv :
      (packet : Packet) (from : Sockaddr) (peer : Option ℕ) (s : Peer)
      → Inv s
      → Inv (on_data e now packet from peer s)
  unfolding on_data data_for_chunk take_data
  on_data-UploadsInv packet from peer s v =
      untouched (on_data e now packet from peer s) s (ground arith) (ground arith) v

  pub process_inbound_udp-UploadsInv :
      (received : Packet) (from : Sockaddr) (s : Peer)
      → Inv s
      → Inv (process_inbound_udp e now received from s)
  process_inbound_udp-UploadsInv received from s v =
      process_inbound_udp-keeps e now from s Inv
        (record {
          whohas = λ packet. on_whohas-UploadsInv packet from s v;
          ihave = λ packet peer. on_ihave-UploadsInv packet peer s v;
          get = λ packet peer. on_get-UploadsInv packet peer s v;
          arrived = λ packet peer. on_data-UploadsInv packet from peer s v;
          ack = λ packet peer. on_ack-UploadsInv packet peer s v;
          ignored = v;
        })
        received

  timeouts-AllServe :
      (cs : List Chunk) (start_time : Timeval) (ps : List ProviderConnection) (log : List LogEntry)
      → AllServe cs ps
      → AllServe cs (providers_timeout e now start_time ps log).providers
  unfolding providers_timeout
  timeouts-AllServe cs start_time [] log a = tt
  timeouts-AllServe cs start_time (p ∷ ps) log a =
      let c : Logged = record { conn = p; log = log } in
      elim (Option-cases (provider_control_by_timeout start_time now c)) [
        | inl q ↦ rw (q, providers_timeout) (timeouts-AllServe cs start_time ps log a.1)
        | inr (d, q) ↦
            rw (q, providers_timeout)
              (
                subst (IsInMemory cs) (sym (timeout-chunk start_time now c d q)) a.0,
                timeouts-AllServe cs start_time ps d.log a.1,
              )
      ]

  sending-AllServe :
      (cs : List Chunk) (ps : List ProviderConnection)
      → AllServe cs ps
      → AllServe cs (all_provider_connection_send_data e now cs ps).providers
  unfolding all_provider_connection_send_data
  sending-AllServe cs [] a = tt
  sending-AllServe cs (p ∷ ps) a = (
    subst (IsInMemory cs) (sym (sending-chunk e.blank (chunk_data_of cs p) now p)) a.0,
    sending-AllServe cs ps a.1,
  )

  pub send_all-UploadsInv : (s : Peer) → Inv s → Inv (send_all e now (time_out_all e now s))
  send_all-UploadsInv s v = (
    v.0,
    sending-AllServe s.has_chunks (providers_timeout e now s.start_time s.providers s.log).providers
        (timeouts-AllServe s.has_chunks s.start_time s.providers s.log v.1),
  )
