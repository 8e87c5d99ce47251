-- ===== src/Tests/Requests.antt =====
-- job.c and connection.c: a GET packet for the second of two chunks, and a connection cancelled.
use mathlib.Core.List.{Memᴰ}
use project_2_congest.Job.{downloading, pending}
use project_2_congest.Store.{Jobs, chunk_at}
use project_2_congest.Connection.{ReceiverConnection, received_data}
use project_2_congest.Connection.Receiver.{cancel_receiver_connection}
use project_2_congest.Connection.Cancelling.{AllFree, cancel_receiver_connection-AllFree}
use project_2_congest.Base.{ℕ, refl, some, none, List, [], ◌∷◌}
use project_2_congest.Base.Int.{pos}
use project_2_congest.Clock.{Timeval}
use project_2_congest.Job.{Chunk, Disk, not_found, find_chunk}
use project_2_congest.Connection.{ProviderConnection, slow_start, rtt_not_start}
use project_2_congest.Transfer.Requests.{IsFirst, find_chunk-IsFirst}

abbrev hash_of : ℕ → List ℕ
hash_of n = 0 ∷ 1 ∷ 2 ∷ 3 ∷ 4 ∷ 5 ∷ 6 ∷ 7 ∷ 8 ∷ 9 ∷ 0 ∷ 1 ∷ 2 ∷ 3 ∷ 4 ∷ 5 ∷ 6 ∷ 7 ∷ 8 ∷ n ∷ []

abbrev owned_chunk : ℕ → Chunk
owned_chunk n = record {
  id = n;
  hash_binary = hash_of n;
  status = not_found;
  received_seq_num = 0;
  received_byte_num = 0;
  chunk_data = some (n ∷ []);
}

abbrev owned : List Chunk
owned = owned_chunk 4 ∷ owned_chunk 5 ∷ []

find_chunk-IsFirst_example : IsFirst (hash_of 5) owned 0 (find_chunk owned 0 (hash_of 5))
find_chunk-IsFirst_example = find_chunk-IsFirst owned 0 (hash_of 5)

abbrev now : Timeval
now = record { tv_sec = 3; tv_usec = 0 }

abbrev memory : ProviderConnection
memory = record {
  receiver = none;
  id = 0;
  chunk = 0;
  ssthresh = 0;
  window_size = 0;
  status = slow_start;
  ca_last_increase_time = now;
  rtt = pos 0;
  rtt_data_sent_time = now;
  rtt_ack_num = rtt_not_start;
  last_acked_received_time = now;
  last_data_send_time = now;
  num_duplicate_ack = 7;
  last_packet_acked = 7;
  last_packet_sent = 7;
}

abbrev disk : Disk
disk = record { master_chunk_file = none; data_file = λ name. none }

-- One chunk of the job is half received, and the other waits.
abbrev jobs : Jobs
jobs =
    some (record {
      output_file_name = [];
      chunks =
          record (owned_chunk 4) {
            status = downloading;
            received_seq_num = 256;
            received_byte_num = 262144;
          }
          ∷ record (owned_chunk 5) { status = pending }
          ∷ [];
    })
    ∷ []

abbrev cancelled_connection : ReceiverConnection
cancelled_connection = record {
  address = 0;
  provider = some 0;
  chunk_list = record { job = 0; index = 1 } ∷ record { job = 0; index = 0 } ∷ [];
  start_time = now;
  last_get_time = now;
  last_data_time = now;
  status = received_data;
}

cancel_receiver_connection-AllFree_example : AllFree (
    chunk_at (cancel_receiver_connection cancelled_connection jobs) (record { job = 0; index = 0 }))
cancel_receiver_connection-AllFree_example =
    cancel_receiver_connection-AllFree cancelled_connection jobs (record { job = 0; index = 0 })
      (Memᴰ.tail (Memᴰ.head refl))
