-- ===== src/Connection.antt =====
-- connection.h: the two kinds of connection. The pointers of the source are, in the model:
-- a `bt_peer_t *` the position in the list of peers (`none` is NULL), and a `struct chunk_s *` of a
-- provider the position in the chunks that this node has. The links `next` are those of a list.
pub mod Provider
pub mod Sending
pub mod Receiver
pub mod Table
pub mod Providers
pub mod Receivers
pub mod Kept
pub mod Saving
pub mod Cancelling
use project_2_congest.Base.{ℕ, Option, List}
use project_2_congest.Base.Int.{ℤ, negsuc}
use project_2_congest.Clock.{Timeval}

pub data ProviderStatus : Type 0 where
  slow_start congestion_avoidance : ProviderStatus

pub data ReceiverStatus : Type 0 where
  pending_data received_data : ReceiverStatus

abbrev pub rtt_not_start : ℤ
rtt_not_start = negsuc 0

-- `struct provider_connection_s`. A counter that starts at 0 or 1 and is only raised, halved or
-- set to an earlier one is a natural number; what is compared with the network or the clock is an
-- integer.
pub record ProviderConnection : Type 0 where
  pub receiver : Option ℕ
  pub id : ℕ
  pub chunk : ℕ
  pub ssthresh : ℕ
  pub window_size : ℕ
  pub status : ProviderStatus
  pub ca_last_increase_time : Timeval
  pub rtt : ℤ
  pub rtt_data_sent_time : Timeval
  pub rtt_ack_num : ℤ
  pub last_acked_received_time : Timeval
  pub last_data_send_time : Timeval
  pub num_duplicate_ack : ℕ
  pub last_packet_acked : ℕ
  pub last_packet_sent : ℕ

-- A `struct chunk_s *` into the chunks of a job: the job's place among the jobs allocated so far,
-- and the index in its array.
pub record ChunkRef : Type 0 where
  pub job : ℕ
  pub index : ℕ

-- `struct receiver_connection_s`. `address` is the pointer to the record itself, and the list of
-- chunk nodes is a list.
pub record ReceiverConnection : Type 0 where
  pub address : ℕ
  pub provider : Option ℕ
  pub chunk_list : List ChunkRef
  pub start_time : Timeval
  pub last_get_time : Timeval
  pub last_data_time : Timeval
  pub status : ReceiverStatus
