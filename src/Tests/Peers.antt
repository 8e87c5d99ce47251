-- ===== src/Tests/Peers.antt =====
-- peer.c: a node with one connection of each kind.
use project_2_congest.Base.{ℕ, none, some, true, List, [], ◌∷◌, arith}
use project_2_congest.Base.Int.{pos}
use project_2_congest.Clock.{Timeval}
use project_2_congest.Packet.{Packet, Sockaddr}
use project_2_congest.Connection.{
  ProviderConnection, ReceiverConnection, slow_start, pending_data, rtt_not_start,
}
use project_2_congest.Peer.{Peer, Env, process_inbound_udp}
use project_2_congest.Peer.Invariant.{PeerInv}
use project_2_congest.Peer.Rounds.{process_inbound_udp-PeerInv}
use project_2_congest.Peer.Loop.{Happening, peer_run, init_connections, peer_run-PeerInv}

abbrev pub zero_time : Timeval
zero_time = record { tv_sec = 0; tv_usec = 0 }

abbrev pub later : Timeval
later = record { tv_sec = 1; tv_usec = 0 }

abbrev provider : ProviderConnection
provider = record {
  receiver = some 0;
  id = 1;
  chunk = 0;
  ssthresh = 64;
  window_size = 1;
  status = slow_start;
  ca_last_increase_time = zero_time;
  rtt = pos 2000;
  rtt_data_sent_time = zero_time;
  rtt_ack_num = rtt_not_start;
  last_acked_received_time = zero_time;
  last_data_send_time = zero_time;
  num_duplicate_ack = 0;
  last_packet_acked = 0;
  last_packet_sent = 1;
}

abbrev receiver : ReceiverConnection
receiver = record {
  address = 0;
  provider = some 0;
  chunk_list = record { job = 0; index = 0 } ∷ [];
  start_time = zero_time;
  last_get_time = zero_time;
  last_data_time = zero_time;
  status = pending_data;
}

abbrev pub node : Peer
node = record {
  identity = 1;
  peers =
      record { id = 2; addr = record { sin_addr = 1; sin_port = 2222 } }
      ∷ record { id = 1; addr = record { sin_addr = 1; sin_port = 1111 } }
      ∷ [];
  jobs = [];
  current_job = none;
  has_chunks = [];
  max_provider_connection = 4;
  providers = provider ∷ [];
  max_receiver_connection = 4;
  receivers = receiver ∷ [];
  provider_id = 2;
  next_address = 1;
  start_time = zero_time;
  log = [];
  sent = [];
  writes = [];
  got = [];
}

node-PeerInv : PeerInv node
node-PeerInv = record {
  providers = ((ground arith, omega arith), tt, tt);
  provider_max = omega arith;
  receivers = ((omega arith, omega arith), tt, tt);
  receiver_max = omega arith;
}

abbrev pub env : Env
env = record {
  platform = record { shahash = λ bytes. []; opens = λ name. true; fwrite = λ w. 0 };
  disk = record { master_chunk_file = none; data_file = λ name. none };
  blank = [];
  fresh_provider = provider;
  fresh_receiver = receiver;
}

abbrev pub home : Sockaddr
home = record { sin_addr = 1; sin_port = 2222 }

-- An acknowledgment of packet 1, its header in network order.
abbrev ack : Packet
ack = record {
  header = record {
    magic_number = 0x513c;
    version_number = 1;
    packet_type = 4;
    header_length = 0x1000;
    packet_length = 0x1000;
    seq_number = 0;
    ack_number = 0x01000000;
  };
  payload = [];
}

process_inbound_udp-PeerInv_example : PeerInv (process_inbound_udp env later ack home node)
process_inbound_udp-PeerInv_example =
    process_inbound_udp-PeerInv env later ack home node node-PeerInv

abbrev pub happenings : List Happening
happenings =
    record {
      now = zero_time;
      inbound = none;
      commands = record { chunk_lines = some ((b'7' ∷ []) ∷ []); outf = b'a' ∷ [] } ∷ [];
    }
    ∷ record { now = later; inbound = some (ack, home); commands = [] }
    ∷ []

abbrev pub scan : List ℕ → ℕ × List ℕ
scan line = (7, line)

peer_run-PeerInv_example :
    PeerInv (peer_run env scan happenings (init_connections 4 node) zero_time).0
peer_run-PeerInv_example = peer_run-PeerInv env scan 4 node happenings zero_time
