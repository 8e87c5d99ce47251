-- ===== src/Tests/Uploading.antt =====
-- peer.c: a node that is asked for a chunk that it has.
use project_2_congest.Base.{ℕ, some, List, [], ◌∷◌, replicate}
use project_2_congest.Base.Int.{pos}
use project_2_congest.Packet.{Packet, chunk_data_size}
use project_2_congest.Job.{Chunk, new_chunk}
use project_2_congest.Connection.{ProviderConnection, slow_start}
use project_2_congest.Peer.{Peer, Env}
use project_2_congest.Peer.Loop.{Happening, peer_run, init_connections}
use project_2_congest.Tests.Peers.{later, node, env, home}

block : List ℕ
block = replicate chunk_data_size 1

abbrev chunk : Chunk
chunk = record (new_chunk 0 (replicate 20 7)) { chunk_data = some block }

abbrev owner : Peer
owner = record node { has_chunks = chunk ∷ [] }

abbrev machine : Env
machine = record env {
  disk = record {
    master_chunk_file = some (b'f' ∷ []);
    data_file = λ name. some (λ offset. block);
  };
}

-- A GET packet, its header in network order.
abbrev get_packet : Packet
get_packet = record {
  header = record {
    magic_number = 0x513c;
    version_number = 1;
    packet_type = 2;
    header_length = 0x1000;
    packet_length = 0x2400;
    seq_number = 0;
    ack_number = 0;
  };
  payload = replicate 20 7;
}

abbrev happenings : List Happening
happenings = record { now = later; inbound = some (get_packet, home); commands = [] } ∷ []

abbrev after : Peer
after = (peer_run machine (λ line. (0, line)) happenings (init_connections 4 owner) later).0

abbrev connection : ProviderConnection
connection = record {
  receiver = some 0;
  id = 2;
  chunk = 0;
  ssthresh = 64;
  window_size = 1;
  status = slow_start;
  ca_last_increase_time = later;
  rtt = pos 2000;
  rtt_data_sent_time = later;
  rtt_ack_num = pos 1;
  last_acked_received_time = later;
  last_data_send_time = later;
  num_duplicate_ack = 0;
  last_packet_acked = 0;
  last_packet_sent = 1;
}
