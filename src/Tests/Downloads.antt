-- ===== src/Tests/Downloads.antt =====
-- peer.c: a node that downloads one chunk.
use mathlib.Core.List.{Memᴰ}
use project_2_congest.Base.{
  ◌*◌, take, sym, ℕ, zero, suc, ◌≡◌, ◌↔◌, refl, Option, none, some, true, List, [], ◌∷◌, get_elem?,
  replicate,
}
use project_2_congest.Base.Memory.{same_bytes}
use project_2_congest.Packet.{Packet, chunk_data_size}
use project_2_congest.Job.{
  Chunk, Job, finished, downloading, pending, get_not_found_chunk_number, count_not_found,
}
use project_2_congest.Store.{chunk_at, chunk_of}
use project_2_congest.Connection.{ReceiverConnection, ChunkRef}
use project_2_congest.Connection.Receiver.{
  Write, get_receiver_connection_number, search_receiver_connection,
}
use project_2_congest.Peer.{Peer, Env}
use project_2_congest.Peer.Flooding.{finish_job}
use project_2_congest.Peer.Loop.{Happening, peer_run, init_connections}
use project_2_congest.Downloads.{down, pend}
use project_2_congest.Downloads.Packets.{ClaimedBy}
use project_2_congest.Downloads.Outcome.{finish_job_iff, peer_run-pointers}
use project_2_congest.Tests.Peers.{zero_time, later, node, env, home, scan}
use project_2_congest.Base.Int.{◌-ℤ◌, ◌+ℤ◌}
use project_2_congest.Base.Memory.{slice}
use project_2_congest.Base.Word.{swap16, swap32}
use project_2_congest.Clock.{get_time_diff}
use project_2_congest.Config.{search_bt_peer}
use project_2_congest.Connection.Receiver.{
  malloc_receiver_connection, add_ihave_to_receiver_connection, ihave_offers, offer_hash,
  offer_chunk, add_chunk_to_receiver_connection, start_connection,
}
use project_2_congest.Control.{init_receiver_connection}
use project_2_congest.Hex.{hex2binary}
use project_2_congest.Job.{malloc_new_job, new_chunk, get_chunk, find_chunk}
use project_2_congest.Job.Payload.{hash_at, count_at}
use project_2_congest.Packet.{validate_packet, get_packet_type, net_to_host_header}
use project_2_congest.Peer.{process_inbound_udp, dispatch, on_ihave, ihave_new}
use project_2_congest.Peer.Flooding.{process_get, flood_whohas}
use project_2_congest.Peer.Loop.{handle_all, handle_user_input}
use project_2_congest.Peer.Round.{round_end, receivers_timeout, receiver_control_by_timeout}
use project_2_congest.Store.{set_chunk}
use project_2_congest.Connection.{pending_data}
use project_2_congest.Job.{malloc_all_whohas_packet}

abbrev hash : List ℕ
hash = replicate 20 0

-- A machine on which SHA-1 is the first 20 bytes.
abbrev machine : Env
machine = record env {
  platform = record {
    shahash = λ bytes. take 20 bytes;
    opens = λ name. true;
    fwrite = λ w. chunk_data_size;
  };
}

abbrev done_chunk : Chunk
done_chunk = record {
  id = 7;
  hash_binary = hash;
  status = finished;
  received_seq_num = 0;
  received_byte_num = 0;
  chunk_data = none;
}

abbrev done_job : Job
done_job = record { output_file_name = b'a' ∷ []; chunks = done_chunk ∷ [] }

abbrev written : Write
written = record { file_name = b'a' ∷ []; offset = 7 * 524288; bytes = hash }

abbrev done_node : Peer
done_node = record node {
  jobs = some done_job ∷ [];
  current_job = some 0;
  providers = [];
  receivers = [];
  writes = written ∷ [];
}

no_weight :
    (w : Option Chunk → ℕ) (j i : ℕ)
    → w none ≡ 0
    → w (some done_chunk) ≡ 0
    → 0 ≡ w (chunk_of (get_elem? (some done_job ∷ []) j) i)
no_weight w zero zero z d = sym d
no_weight w zero (suc i) z d = sym z
no_weight w (suc j) i z d = sym z

done_node-ClaimedBy : ClaimedBy done_node
unfolding chunk_at
done_node-ClaimedBy = record {
  heads_down = λ q. no_weight down q.job q.index refl refl;
  waiters_pend = λ q. no_weight pend q.job q.index refl refl;
}

finish_job_iff_example : ((finish_job machine later done_node).current_job ≡ none) ↔ (
    (get_receiver_connection_number [] ≡ 0)
    × ((i : ℕ) (c : Chunk) → get_elem? done_job.chunks i ≡ some c → c.status ≡ finished))
finish_job_iff_example =
    finish_job_iff machine later done_node 0 done_job done_node-ClaimedBy refl refl

-- An IHAVE packet with the hash of the chunk asked for, its header in network order.
abbrev offer : Packet
offer = record {
  header = record {
    magic_number = 0x513c;
    version_number = 1;
    packet_type = 1;
    header_length = 0x1000;
    packet_length = 0x2800;
    seq_number = 0;
    ack_number = 0;
  };
  payload = 1 ∷ replicate 23 0;
}

abbrev asking : List Happening
asking =
    record {
      now = zero_time;
      inbound = none;
      commands = record { chunk_lines = some (replicate 40 b'0' ∷ []); outf = b'a' ∷ [] } ∷ [];
    }
    ∷ record { now = later; inbound = some (offer, home); commands = [] }
    ∷ []

abbrev asked : Peer
asked = (peer_run env scan asking (init_connections 4 node) zero_time).0

abbrev connection : ReceiverConnection
connection = record {
  address = 1;
  provider = some 0;
  chunk_list = record { job = 0; index = 0 } ∷ [];
  start_time = later;
  last_get_time = later;
  last_data_time = zero_time;
  status = pending_data;
}

found : search_receiver_connection asked.receivers (some 0) ≡ some connection
unfolding peer_run init_connections handle_all handle_user_input process_get malloc_new_job
    new_chunk hex2binary flood_whohas get_receiver_connection_number process_inbound_udp
    validate_packet get_packet_type net_to_host_header swap16 swap32 search_bt_peer dispatch
    on_ihave ihave_new malloc_receiver_connection init_receiver_connection
    add_ihave_to_receiver_connection ihave_offers offer_hash offer_chunk
    add_chunk_to_receiver_connection chunk_at set_chunk start_connection round_end receivers_timeout
    receiver_control_by_timeout get_time_diff finish_job search_receiver_connection hash_at count_at
    slice get_chunk find_chunk same_bytes get_not_found_chunk_number count_not_found ◌-ℤ◌ ◌+ℤ◌
    malloc_all_whohas_packet
found = refl

peer_run-pointers_example :
    ((c : Chunk) × (chunk_at asked.jobs (record { job = 0; index = 0 }) ≡ some c)
      × (c.status ≡ downloading))
    × ((q : ChunkRef)
        → Memᴰ q []
        → (c : Chunk) × (chunk_at asked.jobs q ≡ some c) × (c.status ≡ pending))
peer_run-pointers_example =
    peer_run-pointers env scan 4 node asking zero_time (some 0) connection
      (record { job = 0; index = 0 }) [] refl found refl
