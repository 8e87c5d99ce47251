-- ===== src/Downloads/Verified/Handlers.antt =====
-- peer.c: the handlers of packets keep what is finished written.
use project_2_congest.Base.{
  ℕ, ◌≡◌, refl, sym, ◌∙◌, subst, Bool-cases, Option, Option-cases, some, List, [], ◌∷◌, ◌++◌, map,
  leb, inl, inr,
}
use project_2_congest.Clock.{Timeval}
use project_2_congest.Packet.{Packet, Sockaddr, send_packet, to_sender}
use project_2_congest.Job.{Chunk}
use project_2_congest.Store.{chunk_at, set_chunk}
use project_2_congest.Connection.{ChunkRef, ReceiverConnection, received_data}
use project_2_congest.Connection.Receiver.{
  Claim, search_receiver_connection, get_receiver_connection_number, malloc_receiver_connection,
  save_chunk, reset_receiver_connection,
}
use project_2_congest.Connection.Kept.{Reset-cases}
use project_2_congest.Peer.{
  Peer, Env, on_whohas, on_ihave, ihave_existing, ihave_new, on_get, on_ack, on_data, take_data,
  data_for_chunk, data_for_list, output_name, process_inbound_udp,
}
use project_2_congest.Peer.Data.{receive_data}
use project_2_congest.Peer.Dispatch.{process_inbound_udp-keeps}
use project_2_congest.Downloads.Resets.{jobs_after, receive_data-status, receive_data-same}
use project_2_congest.Downloads.Packets.{
  SameDownloads, on_whohas-same, flood_whohas-same, on_get-same, on_ack-same,
}
use project_2_congest.Peer.Flooding.{flood_whohas}
use project_2_congest.Peer.Round.{time_out_all, send_all}
use project_2_congest.Downloads.Steady.Handlers.{
  process_inbound_udp-Steady, flood_whohas-Steady, time_out_all-Steady,
}
use project_2_congest.Downloads.Written.{
  IfFinished, AllFinished, set_chunk-AllFinished, AllFinished-Survives,
}
use project_2_congest.Downloads.Preserved.{
  add_ihave-keeps, malloc_receiver_connection-keeps, start_connection-keeps, reset-keeps,
  receivers_timeout-keeps,
}
use project_2_congest.Downloads.Verified.{
  WrittenTo, Verified, Verified-Steady, VerifiedFor, WrittenTo-append, save_chunk-WrittenTo,
}

module _ (e : Env) (now : Timeval) (current : Option ℕ) (name : List ℕ) where
  Verified-subst :
      (s t : Peer)
      → SameDownloads t s
      → VerifiedFor e.platform current name s
      → VerifiedFor e.platform current name t
  Verified-subst s t same v = rw (same.0, same.2) v

  ihave_new-Verified :
      (j : ℕ) (packet : Packet) (peer : Option ℕ) (s : Peer)
      → VerifiedFor e.platform current name s
      → VerifiedFor e.platform current name (ihave_new e now j packet peer s)
  unfolding ihave_new
  ihave_new-Verified j packet peer s v =
      let fresh = record e.fresh_receiver { address = s.next_address } in
      let P = WrittenTo e.platform s.writes current name in
      elim (Option-cases (malloc_receiver_connection j now fresh s.jobs packet peer)) [
        | inl q ↦ rw (q, ihave_new) v
        | inr (claim, q) ↦
            rw (q, ihave_new)
              (start_connection-keeps (AllFinished P) (AllFinished-Survives P) e.blank now claim (
                malloc_receiver_connection-keeps (AllFinished P) (AllFinished-Survives P) j now
                  fresh s.jobs packet peer claim q v))
      ]

  on_ihave-Verified :
      (packet : Packet) (peer : Option ℕ) (s : Peer)
      → VerifiedFor e.platform current name s
      → VerifiedFor e.platform current name (on_ihave e now packet peer s)
  unfolding on_ihave ihave_existing
  on_ihave-Verified packet peer s v =
      let P = WrittenTo e.platform s.writes current name in
      elim (Option-cases s.current_job) [
        | inl q ↦ rw (q, on_ihave) v
        | inr (j, q) ↦ elim (Option-cases (search_receiver_connection s.receivers peer)) [
          | inr (conn, f) ↦
              rw (q, f, on_ihave)
                (add_ihave-keeps (AllFinished P) (AllFinished-Survives P) j packet
                  (record { jobs = s.jobs; conn = conn }) v)
          | inl f ↦
              elim (Bool-cases
                (leb s.max_receiver_connection (get_receiver_connection_number s.receivers))) [
                  | inl k ↦ rw (q, f, k, on_ihave) v
                  | inr k ↦ rw (q, f, k, on_ihave) (ihave_new-Verified j packet peer s v)
                ]
        ]
      ]

  take_data-Verified :
      (conn : ReceiverConnection) (r : ChunkRef) (rest : List ChunkRef) (took c : Chunk) (s : Peer)
      → chunk_at s.jobs r ≡ some c
      → IfFinished (WrittenTo e.platform s.writes current name r) took
      → output_name s ≡ name
      → VerifiedFor e.platform current name s
      → VerifiedFor e.platform current name (take_data e now conn r rest took s)
  unfolding take_data
  take_data-Verified conn r rest took c s at h is_name v =
      let saved = save_chunk e.platform (output_name s) took in
      let P = WrittenTo e.platform (s.writes ++ saved.writes) current name in
      let conn' = record conn { last_data_time = now; status = received_data } in
      let claim : Claim = record { jobs = set_chunk s.jobs r saved.chunk; conn = conn' } in
      let t = reset_receiver_connection e.blank now claim saved.chunk rest in
      let stored : AllFinished P claim.jobs =
        set_chunk-AllFinished P s.jobs r saved.chunk c at
          (save_chunk-WrittenTo e.platform s.writes current name (output_name s) r took is_name h)
          (λ q d a f.
            WrittenTo-append e.platform s.writes saved.writes current name q d.id d.hash_binary
              (v q d a f)) in
      let after =
        reset-keeps (AllFinished P) (AllFinished-Survives P) e.blank now claim saved.chunk rest
          stored in
      elim (Reset-cases t) [
        | inl (started, g) ↦ rw (g, take_data) (subst (λ u. AllFinished P (jobs_after u)) g after)
        | inr (jobs, g) ↦ rw (g, take_data) (subst (λ u. AllFinished P (jobs_after u)) g after)
      ]

  data_for_chunk-Verified :
      (packet : Packet) (from : Sockaddr) (conn : ReceiverConnection) (r : ChunkRef)
      (rest : List ChunkRef) (c : Chunk) (s : Peer)
      → chunk_at s.jobs r ≡ some c
      → output_name s ≡ name
      → VerifiedFor e.platform current name s
      → VerifiedFor e.platform current name (data_for_chunk e now packet from conn r rest c s)
  unfolding data_for_chunk
  data_for_chunk-Verified packet from conn r rest c s at is_name v =
      let got = receive_data e.blank packet c in
      let replied = record s {
        sent = s.sent ++ map (λ p. send_packet p (to_sender from)) got.reply;
      } in
      let same = receive_data-same e.blank packet c in
      let status = receive_data-status e.blank packet c in
      elim (Bool-cases got.took) [
        | inl k ↦
            rw (k, data_for_chunk)
              (take_data-Verified conn r rest got.chunk c replied at
                (λ f. rw (same.0, same.1) (v r c at (sym status ∙ f))) is_name v)
        | inr k ↦ rw (k, data_for_chunk) v
      ]

  data_for_list-Verified :
      (packet : Packet) (from : Sockaddr) (conn : ReceiverConnection) (refs : List ChunkRef)
      (s : Peer)
      → output_name s ≡ name
      → VerifiedFor e.platform current name s
      → VerifiedFor e.platform current name (data_for_list e now packet from conn refs s)
  data_for_list-Verified packet from conn [] s is_name v = v
  data_for_list-Verified packet from conn (r ∷ rest) s is_name v =
      elim (Option-cases (chunk_at s.jobs r)) [
        | inl k ↦ rw (k, data_for_list) v
        | inr (c, k) ↦
            rw (k, data_for_list) (data_for_chunk-Verified packet from conn r rest c s k is_name v)
      ]

  on_data-Verified :
      (packet : Packet) (from : Sockaddr) (peer : Option ℕ) (s : Peer)
      → output_name s ≡ name
      → VerifiedFor e.platform current name s
      → VerifiedFor e.platform current name (on_data e now packet from peer s)
  unfolding on_data
  on_data-Verified packet from peer s is_name v =
      elim (Option-cases (search_receiver_connection s.receivers peer)) [
        | inl q ↦ rw (q, on_data) v
        | inr (conn, q) ↦
            rw (q, on_data) (data_for_list-Verified packet from conn conn.chunk_list s is_name v)
      ]

  process_inbound_udp-VerifiedFor :
      (received : Packet) (from : Sockaddr) (s : Peer)
      → output_name s ≡ name
      → VerifiedFor e.platform current name s
      → VerifiedFor e.platform current name (process_inbound_udp e now received from s)
  process_inbound_udp-VerifiedFor received from s is_name v =
      let same = λ (t : Peer) (q : SameDownloads t s). Verified-subst s t q v in
      process_inbound_udp-keeps e now from s (VerifiedFor e.platform current name)
        (record {
          whohas = λ p. same (on_whohas e now p from s) (on_whohas-same e now p from s);
          ihave = λ p peer. on_ihave-Verified p peer s v;
          get = λ p peer. same (on_get e now p peer s) (on_get-same e now p peer s);
          arrived = λ p peer. on_data-Verified p from peer s is_name v;
          ack = λ p peer. same (on_ack e now p peer s) (on_ack-same e now p peer s);
          ignored = v;
        })
        received

module _ (e : Env) (now : Timeval) where
  pub process_inbound_udp-Verified :
      (received : Packet) (from : Sockaddr) (s : Peer)
      → Verified e.platform s
      → Verified e.platform (process_inbound_udp e now received from s)
  process_inbound_udp-Verified received from s v =
      Verified-Steady e.platform (process_inbound_udp e now received from s) s
        (process_inbound_udp-Steady e now received from s)
        (process_inbound_udp-VerifiedFor e now s.current_job (output_name s) received from s refl v)

  pub flood_whohas-Verified :
      (s : Peer) → Verified e.platform s → Verified e.platform (flood_whohas e now s)
  flood_whohas-Verified s v =
      let t = flood_whohas e now s in
      Verified-Steady e.platform t s (flood_whohas-Steady e now s)
        (Verified-subst e now s.current_job (output_name s) s t (flood_whohas-same e now s) v)

  pub time_out_all-Verified :
      (s : Peer)
      → Verified e.platform s
      → Verified e.platform (send_all e now (time_out_all e now s))
  time_out_all-Verified s v =
      let P = WrittenTo e.platform s.writes s.current_job (output_name s) in
      Verified-Steady e.platform (send_all e now (time_out_all e now s)) s
        (time_out_all-Steady e now s)
        (receivers_timeout-keeps (AllFinished P) (AllFinished-Survives P) e now s.receivers s.jobs
          v)
