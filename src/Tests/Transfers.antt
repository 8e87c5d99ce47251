-- ===== src/Tests/Transfers.antt =====
-- The transfer of one chunk, of 512 packets of zeros.
use project_2_congest.Base.{
  ℕ, zero, suc, ◌*◌, ◌≤◌, ◌≡◌, refl, ap, none, some, List, [], ◌∷◌, length, take, arith,
}
use project_2_congest.Clock.{Timeval, get_time_diff}
use project_2_congest.Connection.{ProviderConnection, slow_start, rtt_not_start}
use project_2_congest.Base.Int.{pos}
use project_2_congest.Job.{Chunk, downloading}
use project_2_congest.Packet.{Sockaddr, chunk_data_size, chunk_data_num}
use project_2_congest.Connection.Receiver.{bytes_of, complete_write}
use project_2_congest.Control.{Logged, provider_control_by_timeout}
use project_2_congest.Transfer.{System, Reach, here, then, time_out, send, send_step}
use project_2_congest.Transfer.Delivery.{opened, received_prefix, finished_delivers}
use project_2_congest.Transfer.Completion.{can_complete}
use project_2_congest.Transfer.Stall.{IsStalled, lost_acks_stall}

zeros : ℕ → List ℕ
zeros zero = []
zeros (suc n) = 0 ∷ zeros n

length-zeros : (n : ℕ) → length (zeros n) ≡ n
unfolding zeros
length-zeros zero = refl
length-zeros (suc n) = ap suc (length-zeros n)

abbrev zero_time : Timeval
zero_time = record { tv_sec = 0; tv_usec = 0 }

abbrev fresh : ProviderConnection
fresh = record {
  receiver = some 0;
  id = 1;
  chunk = 0;
  ssthresh = 64;
  window_size = 1;
  status = slow_start;
  ca_last_increase_time = zero_time;
  rtt = pos 2000;
  rtt_data_sent_time = zero_time;
  rtt_ack_num = rtt_not_start;
  last_acked_received_time = zero_time;
  last_data_send_time = zero_time;
  num_duplicate_ack = 0;
  last_packet_acked = 0;
  last_packet_sent = 0;
}

abbrev wanted : Chunk
wanted = record {
  id = 0;
  hash_binary = [];
  status = downloading;
  received_seq_num = 0;
  received_byte_num = 0;
  chunk_data = none;
}

abbrev home : Sockaddr
home = record { sin_addr = 1; sin_port = 1 }

abbrev chunk_zeros : List ℕ
chunk_zeros = zeros chunk_data_size

size : length chunk_zeros ≡ chunk_data_size
size = length-zeros chunk_data_size

start : System
unfolding opened
start = opened zero_time fresh [] wanted

completed :
    (t : System) × Reach [] chunk_zeros zero_time home start t
    × (t.sender.conn.last_packet_acked ≡ chunk_data_num)
unfolding start
completed = can_complete [] chunk_zeros size zero_time home zero_time fresh [] wanted start here

can_complete_example :
    (t : System) × Reach [] chunk_zeros zero_time home start t
    × (t.sender.conn.last_packet_acked ≡ chunk_data_num)
unfolding start
can_complete_example =
    can_complete [] chunk_zeros size zero_time home zero_time fresh [] wanted start here

received_prefix_example :
    (take completed.0.receiver.received_byte_num (bytes_of completed.0.receiver.chunk_data)
      ≡ take completed.0.receiver.received_byte_num chunk_zeros)
    × (completed.0.receiver.received_byte_num ≡ completed.0.receiver.received_seq_num * 1024)
    × (completed.0.sender.conn.last_packet_acked ≤ completed.0.receiver.received_seq_num)
unfolding start
received_prefix_example =
    received_prefix [] chunk_zeros size zero_time zero_time home fresh [] wanted completed.0
      completed.1

finished_delivers_example :
    (completed.0.receiver.received_byte_num ≡ chunk_data_size)
    × ((complete_write [] completed.0.receiver).bytes ≡ chunk_zeros)
unfolding start
finished_delivers_example =
    finished_delivers [] chunk_zeros size zero_time zero_time home fresh [] wanted completed.0
      completed.1 [] completed.2

-- Packet 1 was sent and received, and its acknowledgment is lost.
abbrev stalled : System
stalled = record {
  sender = record { conn = record fresh { last_packet_sent = 1 }; log = [] };
  receiver = record wanted {
    received_seq_num = 1;
    received_byte_num = 1024;
    chunk_data = some (take 1024 chunk_zeros);
  };
  data_net = [];
  ack_net = [];
}

stalled-IsStalled : IsStalled [] chunk_zeros 0 1 stalled
stalled-IsStalled = record {
  sender_inv = ground arith;
  received = refl;
  seq_le = omega arith;
  acked = refl;
  sent_le = omega arith;
  window_le = omega arith;
  old_data = λ d m. elim m [ ];
  no_acks = refl;
}

abbrev later : Timeval
later = record { tv_sec = 1; tv_usec = 0 }

-- The sender times out and sends packet 1 again.
abbrev resends : Logged
resends = record {
  conn = record fresh { last_packet_acked = 0; last_packet_sent = 0; ssthresh = 2 };
  log = [];
}

timed_out : provider_control_by_timeout zero_time later stalled.sender ≡ some resends
unfolding provider_control_by_timeout get_time_diff
timed_out = refl

abbrev resent : System
resent = send_step [] chunk_zeros zero_time home later (record stalled { sender = resends })

lost_acks_stall_example :
    (resent.ack_net ≡ [])
    × (resent.sender.conn.last_packet_acked ≡ 0)
    × (resent.receiver.received_seq_num ≡ 1)
lost_acks_stall_example =
    lost_acks_stall [] chunk_zeros size zero_time home 0 1 stalled-IsStalled
      (then (then here (time_out later resends timed_out)) (send later))
