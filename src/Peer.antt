-- ===== src/Peer.antt =====
-- peer.h and peer.c: the state of a node, and what one round of its loop does with it.
pub mod Data
pub mod Flooding
pub mod Round
pub mod Invariant
pub mod Serving
pub mod Downloading
pub mod Dispatch
pub mod Rounds
pub mod Loop
pub mod Start
use project_2_congest.Base.{
  ℕ, zero, suc, ◌+◌, Bool, true, false, not, Option, none, some, List, [], ◌∷◌, ◌++◌, get_elem?,
  set, length, map, leb, ltb, ◌==◌, if◌then◌else◌,
}
use project_2_congest.Base.Int.{ℤ, pos, negsuc, ltb_ℤ, ◌==ℤ◌}
use project_2_congest.Base.Word.{signed32}
use project_2_congest.Clock.{Timeval, get_time_diff}
use project_2_congest.Config.{BtPeer, search_bt_peer}
use project_2_congest.Packet.{
  Packet, Datagram, Sockaddr, Target, to_sender, to_peer, send_packet, net_to_host_header,
  validate_packet, get_packet_type, chunk_data_num,
}
use project_2_congest.Job.{
  Chunk, Job, Disk, malloc_all_whohas_packet, malloc_ihave_packet, malloc_new_job,
  get_not_found_chunk_number,
}
use project_2_congest.Store.{Jobs, chunk_at, set_chunk}
use project_2_congest.Connection.{
  ProviderConnection, ReceiverConnection, ReceiverStatus, pending_data, received_data, ChunkRef,
}
use project_2_congest.Connection.Provider.{
  search_provider_connection, get_provider_connection_number, remove_provider_connection,
  store_provider_connection, malloc_provider_connection, send_data_packet, sender_after, data_sent,
}
use project_2_congest.Connection.Receiver.{
  Claim, Started, Platform, Write, Saved, Reset, goes_on, done, search_receiver_connection,
  get_receiver_connection_number, remove_receiver_connection, store_receiver_connection,
  add_ihave_to_receiver_connection, malloc_receiver_connection, start_connection, save_chunk,
  reset_receiver_connection, cancel_receiver_connection, bytes_of,
}
use project_2_congest.Control.{
  Logged, LogEntry, provider_control_by_ack, provider_control_by_timeout, peer_crash_timeout,
  get_timeout,
}
use project_2_congest.Peer.Data.{Reception, receive_data}

-- The globals of peer.h and control.h, with what was sent, logged, written to files and announced.
pub record Peer : Type 0 where
  pub identity : ℕ
  pub peers : List BtPeer
  pub jobs : Jobs
  pub current_job : Option ℕ
  pub has_chunks : List Chunk
  pub max_provider_connection : ℕ
  pub providers : List ProviderConnection
  pub max_receiver_connection : ℕ
  pub receivers : List ReceiverConnection
  pub provider_id : ℕ
  pub next_address : ℕ
  pub start_time : Timeval
  pub log : List LogEntry
  pub sent : List Datagram
  pub writes : List Write
  pub got : List (List ℕ)

-- What the node is given: the machine, its files, and what fresh memory holds.
pub record Env : Type 0 where
  pub platform : Platform
  pub disk : Disk
  pub blank : List ℕ
  pub fresh_provider : ProviderConnection
  pub fresh_receiver : ReceiverConnection

abbrev pub job_of : Jobs → ℕ → Option Job
job_of jobs j = elim (get_elem? jobs j) [ none ↦ none | some slot ↦ slot ]

-- `current_job->output_file_name`.
abbrev pub output_name : Peer → List ℕ
output_name s = elim s.current_job [
  | none ↦ []
  | some j ↦ elim (job_of s.jobs j) [ none ↦ [] | some job ↦ job.output_file_name ]
]

module _ (e : Env) (now : Timeval) where
  open e use {blank}

  unfoldable pub on_whohas : Packet → Sockaddr → Peer → Peer
  on_whohas packet from s = elim (malloc_ihave_packet blank s.has_chunks packet) [
    | none ↦ s
    | some reply ↦ record s { sent = s.sent ++ (send_packet reply (to_sender from) ∷ []) }
  ]

  -- A connection with this peer exists.
  unfoldable pub ihave_existing : ℕ → Packet → ReceiverConnection → Peer → Peer
  ihave_existing j packet conn s =
      let r = add_ihave_to_receiver_connection j packet (record { jobs = s.jobs; conn = conn }) in
      record s { jobs = r.jobs; receivers = store_receiver_connection s.receivers r.conn }

  -- There is room for a new connection.
  unfoldable pub ihave_new : ℕ → Packet → Option ℕ → Peer → Peer
  ihave_new j packet peer s =
      let fresh = record e.fresh_receiver { address = s.next_address } in
      elim (malloc_receiver_connection j now fresh s.jobs packet peer) [
        | none ↦ s
        | some claim ↦
            let started = start_connection blank now claim in
            record s {
              jobs = started.claim.jobs;
              receivers = started.claim.conn ∷ s.receivers;
              next_address = suc s.next_address;
              sent = s.sent ++ started.sent;
            }
      ]

  unfoldable pub on_ihave : Packet → Option ℕ → Peer → Peer
  unfolding ihave_existing ihave_new
  on_ihave packet peer s = elim s.current_job [
    | none ↦ s
    | some j ↦ elim (search_receiver_connection s.receivers peer) [
      | some conn ↦ ihave_existing j packet conn s
      | none ↦
          if leb s.max_receiver_connection (get_receiver_connection_number s.receivers)
          then s
          else ihave_new j packet peer s
    ]
  ]

  -- There is no connection with this peer yet, and room for one.
  unfoldable pub get_new : Packet → Option ℕ → Peer → Peer
  get_new packet peer s =
      elim (malloc_provider_connection e.disk now e.fresh_provider s.has_chunks s.provider_id packet
        peer) [
          | none ↦ s
          | some (conn, loaded) ↦ record s {
            has_chunks = loaded;
            providers = conn ∷ s.providers;
            provider_id = suc s.provider_id;
          }
        ]

  unfoldable pub on_get : Packet → Option ℕ → Peer → Peer
  unfolding get_new
  on_get packet peer s = elim (search_provider_connection s.providers peer) [
    | some conn ↦ s
    | none ↦
        if leb s.max_provider_connection (get_provider_connection_number s.providers)
        then s
        else get_new packet peer s
  ]

  -- The packet that was expected: `r` is the first chunk, `rest` those behind it, and `took` is the
  -- chunk with the data.
  unfoldable pub take_data : ReceiverConnection → ChunkRef → List ChunkRef → Chunk → Peer → Peer
  take_data conn r rest took s =
      let saved = save_chunk e.platform (output_name s) took in
      let conn' = record conn { last_data_time = now; status = received_data } in
      let claim : Claim = record { jobs = set_chunk s.jobs r saved.chunk; conn = conn' } in
      elim (reset_receiver_connection blank now claim saved.chunk rest) [
        | goes_on started ↦ record s {
          jobs = started.claim.jobs;
          receivers = store_receiver_connection s.receivers started.claim.conn;
          sent = s.sent ++ started.sent;
          writes = s.writes ++ saved.writes;
        }
        | done jobs ↦ record s {
          jobs = jobs;
          receivers = remove_receiver_connection s.receivers conn;
          writes = s.writes ++ saved.writes;
        }
      ]

  unfoldable pub data_for_chunk :
      Packet → Sockaddr → ReceiverConnection → ChunkRef → List ChunkRef → Chunk → Peer → Peer
  data_for_chunk packet from conn r rest c s =
      let got = receive_data blank packet c in
      let replied = record s {
        sent = s.sent ++ map (λ p. send_packet p (to_sender from)) got.reply;
      } in
      if got.took then take_data conn r rest got.chunk replied else replied

  abbrev pub data_for_list : Packet → Sockaddr → ReceiverConnection → List ChunkRef → Peer → Peer
  data_for_list packet from conn [] s = s
  data_for_list packet from conn (r ∷ rest) s = elim (chunk_at s.jobs r) [
    | none ↦ s
    | some c ↦ data_for_chunk packet from conn r rest c s
  ]

  unfoldable pub on_data : Packet → Sockaddr → Option ℕ → Peer → Peer
  on_data packet from peer s = elim (search_receiver_connection s.receivers peer) [
    | none ↦ s
    | some conn ↦ data_for_list packet from conn conn.chunk_list s
  ]

  unfoldable pub on_ack : Packet → Option ℕ → Peer → Peer
  on_ack packet peer s = elim (search_provider_connection s.providers peer) [
    | none ↦ s
    | some conn ↦
        let c =
          provider_control_by_ack s.start_time now (record { conn = conn; log = s.log })
            (signed32 packet.header.ack_number) in
        if c.conn.last_packet_acked == chunk_data_num
        then record s { providers = remove_provider_connection s.providers conn; log = c.log }
        else record s { providers = store_provider_connection s.providers c.conn; log = c.log }
  ]

  -- The `switch`, on the type of a valid packet.
  unfoldable pub dispatch : ℤ → Packet → Sockaddr → Option ℕ → Peer → Peer
  dispatch packet_type packet from peer s =
      if packet_type ==ℤ pos 0
      then on_whohas packet from s
      else if packet_type ==ℤ pos 1
      then on_ihave packet peer s
      else if packet_type ==ℤ pos 2
      then on_get packet peer s
      else if packet_type ==ℤ pos 3
      then on_data packet from peer s
      else if packet_type ==ℤ pos 4
      then on_ack packet peer s
      else s

  -- `received` is what stands in the buffer, its header in network order.
  unfoldable pub process_inbound_udp : Packet → Sockaddr → Peer → Peer
  process_inbound_udp received from s =
      let packet = record received { header = net_to_host_header received.header } in
      if ltb_ℤ (validate_packet packet.header) (pos 0)
      then s
      else dispatch (get_packet_type packet.header) packet from (search_bt_peer s.peers 0 from) s
