-- ===== src/Control/Invariant.antt =====
-- control.c: what holds of a provider connection between two events.
use project_2_congest.Base.{ℕ, ◌+◌, ◌≤◌, ◌<◌, ◌≡◌, some, leb, if◌then◌else◌, arith}
use project_2_congest.Base.Int.{ℤ}
use project_2_congest.Clock.{Timeval}
use project_2_congest.Packet.{chunk_data_num}
use project_2_congest.Connection.{
  ProviderConnection, ProviderStatus, slow_start, congestion_avoidance,
}
use project_2_congest.Control.{
  Logged, duplicate_ack_num, init_provider_connection, set_rtt, duplicate_ack, window_ack,
  connection_scale_down, reset_sender_buffer, provider_control_by_ack, provider_control_by_timeout,
}

-- The phase that a window and a threshold put the connection in.
abbrev pub phase : ℕ → ℕ → ProviderStatus
phase window threshold = if leb threshold window then congestion_avoidance else slow_start

-- The window: no more packets are sent than it allows or the chunk has, and it is never wider than
-- one more than the packets acknowledged. The status is the phase, and fewer than three
-- acknowledgments of one packet were counted.
pub record Inv (p : ProviderConnection) : Type 0 where
  pub acked_le_sent : p.last_packet_acked ≤ p.last_packet_sent
  pub sent_le_chunk : p.last_packet_sent ≤ chunk_data_num
  pub in_window : p.last_packet_sent ≤ p.last_packet_acked + p.window_size
  pub window_pos : 1 ≤ p.window_size
  pub window_le : p.window_size ≤ p.last_packet_acked + 1
  pub threshold_ge : 2 ≤ p.ssthresh
  pub status_phase : p.status ≡ phase p.window_size p.ssthresh
  pub duplicates_lt : p.num_duplicate_ack < duplicate_ack_num

-- A provider connection that is initialised with nothing sent and nothing acknowledged satisfies the
-- invariant of the window.
pub init_provider_connection-Inv :
    (now : Timeval) (p : ProviderConnection)
    → p.last_packet_acked ≡ 0
    → p.last_packet_sent ≡ 0
    → Inv (init_provider_connection now p)
unfolding init_provider_connection
init_provider_connection-Inv now p a s = ground arith

module _ (start_time now : Timeval) where
  set_rtt-Inv : (c : Logged) (ack : ℤ) → Inv c.conn → Inv (set_rtt start_time now c ack).conn
  unfolding set_rtt
  set_rtt-Inv c ack v = ground arith

  duplicate_ack-Inv : (c : Logged) → Inv c.conn → Inv (duplicate_ack start_time now c).conn
  unfolding duplicate_ack
  duplicate_ack-Inv c v = ground arith

  window_ack-Inv :
      (c : Logged) (n : ℕ)
      → Inv c.conn
      → c.last_packet_acked < n
      → n ≤ c.last_packet_sent
      → Inv (window_ack start_time now c n).conn
  unfolding window_ack
  window_ack-Inv c n v lo hi = ground arith

  timeout_loss-Inv :
      (c : Logged)
      → Inv c.conn
      → Inv (reset_sender_buffer (connection_scale_down start_time now c)).conn
  unfolding connection_scale_down reset_sender_buffer
  timeout_loss-Inv c v = ground arith

  -- If a connection satisfies the invariant of the window, it does so after an acknowledgment of any
  -- number, whether that is ignored, a duplicate, a loss or progress.
  pub provider_control_by_ack-Inv :
      (c : Logged) (ack : ℤ) → Inv c.conn → Inv (provider_control_by_ack start_time now c ack).conn
  unfolding provider_control_by_ack
  provider_control_by_ack-Inv c ack v = ground arith

  -- If a connection satisfies the invariant of the window and the check for timeouts does not
  -- release it, it satisfies the invariant after the check.
  pub provider_control_by_timeout-Inv :
      (c d : Logged)
      → Inv c.conn
      → provider_control_by_timeout start_time now c ≡ some d
      → Inv d.conn
  unfolding provider_control_by_timeout
  provider_control_by_timeout-Inv c d v e = ground arith
