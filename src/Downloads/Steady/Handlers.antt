-- ===== src/Downloads/Steady/Handlers.antt =====
-- peer.c: each handler of a packet, and the timeouts, the sending and the flooding of a round.
use project_2_congest.Base.{
  ℕ, ◌≡◌, refl, sym, ap, ◌∙◌, Bool-cases, Option, Option-cases, some, List, [], ◌∷◌, ◌++◌, map, leb,
  inl, inr, arith,
}
use project_2_congest.Clock.{Timeval}
use project_2_congest.Packet.{Packet, Sockaddr, send_packet, to_sender}
use project_2_congest.Job.{Chunk}
use project_2_congest.Store.{Jobs, chunk_at, set_chunk}
use project_2_congest.Connection.{ChunkRef, ReceiverConnection, received_data}
use project_2_congest.Connection.Receiver.{
  Claim, search_receiver_connection, get_receiver_connection_number, malloc_receiver_connection,
  save_chunk, reset_receiver_connection,
}
use project_2_congest.Connection.Kept.{Reset-cases}
use project_2_congest.Peer.{
  Peer, Env, on_whohas, on_ihave, ihave_existing, ihave_new, on_get, get_new, on_ack, on_data,
  take_data, data_for_chunk, data_for_list, output_name, process_inbound_udp,
}
use project_2_congest.Peer.Data.{receive_data}
use project_2_congest.Peer.Dispatch.{process_inbound_udp-keeps}
use project_2_congest.Peer.Flooding.{flood_whohas}
use project_2_congest.Peer.Round.{time_out_all, send_all}
use project_2_congest.Downloads.Resets.{jobs_after, save_chunk-same, receive_data-same}
use project_2_congest.Downloads.Preserved.{
  add_ihave-keeps, malloc_receiver_connection-keeps, start_connection-keeps, reset-keeps,
  receivers_timeout-keeps,
}
use mathlib.Core.List.{append-nil}
use project_2_congest.Downloads.Steady.{
  Steady, Steady-refl, Steady-same, outlines, outlines-Survives, set_chunk-outlines, quiet,
}

module _ (e : Env) (now : Timeval) where
  on_whohas-Steady :
      (packet : Packet) (from : Sockaddr) (s : Peer) → Steady (on_whohas e now packet from s) s
  unfolding on_whohas
  on_whohas-Steady packet from s =
      quiet (on_whohas e now packet from s) s (ground arith) (ground arith) (ground arith)
        (ground arith)

  on_get-Steady :
      (packet : Packet) (peer : Option ℕ) (s : Peer) → Steady (on_get e now packet peer s) s
  unfolding on_get get_new
  on_get-Steady packet peer s =
      quiet (on_get e now packet peer s) s (ground arith) (ground arith) (ground arith)
        (ground arith)

  on_ack-Steady :
      (packet : Packet) (peer : Option ℕ) (s : Peer) → Steady (on_ack e now packet peer s) s
  unfolding on_ack
  on_ack-Steady packet peer s =
      quiet (on_ack e now packet peer s) s (ground arith) (ground arith) (ground arith)
        (ground arith)

  pub flood_whohas-Steady : (s : Peer) → Steady (flood_whohas e now s) s
  unfolding flood_whohas
  flood_whohas-Steady s =
      quiet (flood_whohas e now s) s (ground arith) (ground arith) (ground arith) (ground arith)

  ihave_new-Steady :
      (j : ℕ) (packet : Packet) (peer : Option ℕ) (s : Peer)
      → Steady (ihave_new e now j packet peer s) s
  unfolding ihave_new
  ihave_new-Steady j packet peer s =
      let fresh = record e.fresh_receiver { address = s.next_address } in
      let o = outlines s.jobs in
      let I = λ (jobs : Jobs). outlines jobs ≡ o in
      elim (Option-cases (malloc_receiver_connection j now fresh s.jobs packet peer)) [
        | inl q ↦ rw (q, ihave_new) (refl, refl, refl, ([], sym (append-nil s.writes)))
        | inr (claim, q) ↦
            rw (q, ihave_new)
              (
                start_connection-keeps I (outlines-Survives o) e.blank now claim (
                    malloc_receiver_connection-keeps I (outlines-Survives o) j now fresh s.jobs
                      packet peer claim q refl),
                refl,
                refl,
                ([], sym (append-nil s.writes)),
              )
      ]

  on_ihave-Steady :
      (packet : Packet) (peer : Option ℕ) (s : Peer) → Steady (on_ihave e now packet peer s) s
  unfolding on_ihave ihave_existing
  on_ihave-Steady packet peer s =
      let o = outlines s.jobs in
      let I = λ (jobs : Jobs). outlines jobs ≡ o in
      let still = Steady-refl s in
      let t = on_ihave e now packet peer s in
      elim (Option-cases s.current_job) [
        | inl q ↦ Steady-same s t s (ground (arith, q)) still
        | inr (j, q) ↦ elim (Option-cases (search_receiver_connection s.receivers peer)) [
          | inr (conn, f) ↦
              Steady-same (ihave_existing e now j packet conn s) t s (ground (arith, q, f)) (
                add_ihave-keeps I (outlines-Survives o) j packet
                    (record { jobs = s.jobs; conn = conn }) refl,
                refl,
                refl,
                ([], sym (append-nil s.writes)),
              )
          | inl f ↦
              elim (Bool-cases
                (leb s.max_receiver_connection (get_receiver_connection_number s.receivers))) [
                  | inl k ↦ Steady-same s t s (ground (arith, q, f, k)) still
                  | inr k ↦
                      Steady-same (ihave_new e now j packet peer s) t s (ground (arith, q, f, k))
                        (ihave_new-Steady j packet peer s)
                ]
        ]
      ]

  take_data-Steady :
      (conn : ReceiverConnection) (r : ChunkRef) (rest : List ChunkRef) (took c : Chunk) (s : Peer)
      → chunk_at s.jobs r ≡ some c
      → took.id ≡ c.id
      → took.hash_binary ≡ c.hash_binary
      → Steady (take_data e now conn r rest took s) s
  unfolding take_data
  take_data-Steady conn r rest took c s at id hash =
      let o = outlines s.jobs in
      let I = λ (jobs : Jobs). outlines jobs ≡ o in
      let saved = save_chunk e.platform (output_name s) took in
      let conn' = record conn { last_data_time = now; status = received_data } in
      let claim : Claim = record { jobs = set_chunk s.jobs r saved.chunk; conn = conn' } in
      let t = reset_receiver_connection e.blank now claim saved.chunk rest in
      let same = save_chunk-same e.platform (output_name s) took in
      let written = set_chunk-outlines s.jobs r saved.chunk c at (same.0 ∙ id) (same.1 ∙ hash) in
      let after = reset-keeps I (outlines-Survives o) e.blank now claim saved.chunk rest written in
      elim (Reset-cases t) [
        | inl (started, g) ↦
            rw (g, take_data)
              (ap (λ u. outlines (jobs_after u)) (sym g) ∙ after, refl, refl, (saved.writes, refl))
        | inr (jobs, g) ↦
            rw (g, take_data)
              (ap (λ u. outlines (jobs_after u)) (sym g) ∙ after, refl, refl, (saved.writes, refl))
      ]

  data_for_chunk-Steady :
      (packet : Packet) (from : Sockaddr) (conn : ReceiverConnection) (r : ChunkRef)
      (rest : List ChunkRef) (c : Chunk) (s : Peer)
      → chunk_at s.jobs r ≡ some c
      → Steady (data_for_chunk e now packet from conn r rest c s) s
  unfolding data_for_chunk
  data_for_chunk-Steady packet from conn r rest c s at =
      let got = receive_data e.blank packet c in
      let replied = record s {
        sent = s.sent ++ map (λ p. send_packet p (to_sender from)) got.reply;
      } in
      let same = receive_data-same e.blank packet c in
      elim (Bool-cases got.took) [
        | inl k ↦
            rw (k, data_for_chunk)
              (take_data-Steady conn r rest got.chunk c replied at same.0 same.1)
        | inr k ↦ rw (k, data_for_chunk) (refl, refl, refl, ([], sym (append-nil s.writes)))
      ]

  data_for_list-Steady :
      (packet : Packet) (from : Sockaddr) (conn : ReceiverConnection) (refs : List ChunkRef)
      (s : Peer)
      → Steady (data_for_list e now packet from conn refs s) s
  data_for_list-Steady packet from conn [] s = Steady-refl s
  data_for_list-Steady packet from conn (r ∷ rest) s = elim (Option-cases (chunk_at s.jobs r)) [
    | inl k ↦
        Steady-same s (data_for_list e now packet from conn (r ∷ rest) s) s (ground (arith, k))
          (Steady-refl s)
    | inr (c, k) ↦ rw (k, data_for_list) (data_for_chunk-Steady packet from conn r rest c s k)
  ]

  on_data-Steady :
      (packet : Packet) (from : Sockaddr) (peer : Option ℕ) (s : Peer)
      → Steady (on_data e now packet from peer s) s
  unfolding on_data
  on_data-Steady packet from peer s =
      elim (Option-cases (search_receiver_connection s.receivers peer)) [
        | inl q ↦
            Steady-same s (on_data e now packet from peer s) s (ground (arith, q)) (Steady-refl s)
        | inr (conn, q) ↦
            Steady-same (data_for_list e now packet from conn conn.chunk_list s)
              (on_data e now packet from peer s) s (ground (arith, q))
              (data_for_list-Steady packet from conn conn.chunk_list s)
      ]

  pub process_inbound_udp-Steady :
      (received : Packet) (from : Sockaddr) (s : Peer)
      → Steady (process_inbound_udp e now received from s) s
  process_inbound_udp-Steady received from s =
      process_inbound_udp-keeps e now from s (λ t. Steady t s)
        (record {
          whohas = λ p. on_whohas-Steady p from s;
          ihave = λ p peer. on_ihave-Steady p peer s;
          get = λ p peer. on_get-Steady p peer s;
          arrived = λ p peer. on_data-Steady p from peer s;
          ack = λ p peer. on_ack-Steady p peer s;
          ignored = Steady-refl s;
        })
        received

  pub time_out_all-Steady : (s : Peer) → Steady (send_all e now (time_out_all e now s)) s
  time_out_all-Steady s =
      let o = outlines s.jobs in
      (
        receivers_timeout-keeps (λ jobs. outlines jobs ≡ o) (outlines-Survives o) e now s.receivers
            s.jobs refl,
        refl,
        refl,
        ([], sym (append-nil s.writes)),
      )
