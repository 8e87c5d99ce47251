-- ===== src/Control.antt =====
-- control.h and control.c: congestion control of a provider connection.
pub mod Invariant
pub mod Acks
pub mod Refinement
pub mod Timeouts
use project_2_congest.Base.{
  ℕ, ◌+◌, ◌/◌, not, Option, none, some, List, [], ◌∷◌, ◌++◌, leb, ltb, if◌then◌else◌,
}
use project_2_congest.Base.Int.{ℤ, pos, pos_part, ◌+ℤ◌, ltb_ℤ, ◌==ℤ◌, div_ℤ}
use project_2_congest.Clock.{Timeval, get_time_diff}
use project_2_congest.Connection.{
  ProviderConnection, slow_start, congestion_avoidance, ReceiverConnection, pending_data,
  rtt_not_start,
}

abbrev pub default_rtt_ms : ℕ
default_rtt_ms = 2000

abbrev pub peer_crash_timeout : ℕ
peer_crash_timeout = 10000

abbrev pub get_timeout : ℕ
get_timeout = 4000

abbrev pub ack_timeout : ℕ
ack_timeout = 500

abbrev pub slow_start_init_window_size : ℕ
slow_start_init_window_size = 1

abbrev pub default_slow_start_threshold : ℕ
default_slow_start_threshold = 64

abbrev pub duplicate_ack_num : ℕ
duplicate_ack_num = 3

-- A line of the window log.
pub record LogEntry : Type 0 where
  pub id : ℕ
  pub time_elapsed : ℤ
  pub window_size : ℕ

-- A connection, and the lines that were written to the log, in order.
pub record Logged : Type 0 where
  pub conn : ProviderConnection
  pub open conn use *
  pub log : List LogEntry

unfoldable pub init_provider_connection : Timeval → ProviderConnection → ProviderConnection
init_provider_connection now p = record p {
  ssthresh = default_slow_start_threshold;
  window_size = slow_start_init_window_size;
  status = slow_start;
  ca_last_increase_time = now;
  rtt = pos default_rtt_ms;
  rtt_ack_num = rtt_not_start;
  last_acked_received_time = now;
  last_data_send_time = now;
  num_duplicate_ack = 0;
}

unfoldable pub init_receiver_connection : Timeval → ReceiverConnection → ReceiverConnection
init_receiver_connection now r = record r { start_time = now; status = pending_data }

-- `t` is the change of some fields of the connection.
abbrev on_conn : Logged → (ProviderConnection → ProviderConnection) → Logged
on_conn c t = record c { conn = t c.conn }

unfoldable pub reset_sender_buffer : Logged → Logged
reset_sender_buffer c = on_conn c (λ p. record p { last_packet_sent = p.last_packet_acked })

unfoldable pub change_connection_status : Logged → Logged
change_connection_status c = on_conn c (λ p. record p {
  status = if leb p.ssthresh p.window_size then congestion_avoidance else slow_start;
})

-- The clock is read once in a handler, as `now`; `start_time` is the global of control.h.
module _ (start_time now : Timeval) where
  unfoldable pub change_window_size_to : Logged → ℕ → Logged
  change_window_size_to c new_size = record c {
    conn = record c.conn { window_size = new_size };
    log =
        c.log
        ++ (record {
          id = c.id;
          time_elapsed = get_time_diff start_time now;
          window_size = new_size;
        }
            ∷ []);
  }

  unfoldable pub slow_start_increase : Logged → Logged
  unfolding change_window_size_to change_connection_status
  slow_start_increase c = change_connection_status (change_window_size_to c (1 + c.window_size))

  unfoldable pub congestion_control_increase : Logged → Logged
  unfolding change_window_size_to
  congestion_control_increase c =
      if ltb_ℤ c.rtt (get_time_diff c.ca_last_increase_time now)
      then on_conn (change_window_size_to c (1 + c.window_size))
          (λ p. record p { ca_last_increase_time = now })
      else c

  -- The new threshold after a loss.
  abbrev half_window : Logged → ℕ
  half_window c = if ltb 2 (c.window_size / 2) then c.window_size / 2 else 2

  unfoldable pub slow_start_decrease : Logged → Logged
  unfolding change_connection_status
  slow_start_decrease c =
      change_connection_status (on_conn c (λ p. record p { ssthresh = half_window c }))

  unfoldable pub congestion_control_decrease : Logged → Logged
  unfolding change_window_size_to change_connection_status
  congestion_control_decrease c =
      let c' = on_conn c (λ p. record p { ssthresh = half_window c }) in
      change_connection_status (change_window_size_to c' slow_start_init_window_size)

  unfoldable pub connection_scale_up : Logged → Logged
  unfolding slow_start_increase congestion_control_increase
  connection_scale_up c = elim c.status [
    | slow_start ↦ slow_start_increase c
    | congestion_avoidance ↦ congestion_control_increase c
  ]

  unfoldable pub connection_scale_down : Logged → Logged
  unfolding slow_start_decrease congestion_control_decrease
  connection_scale_down c = elim c.status [
    | slow_start ↦ slow_start_decrease c
    | congestion_avoidance ↦ congestion_control_decrease c
  ]

  unfoldable pub set_rtt : Logged → ℤ → Logged
  set_rtt c ack_num =
      if c.rtt_ack_num ==ℤ rtt_not_start
      then c
      else if not (c.rtt_ack_num ==ℤ ack_num)
      then c
      else on_conn c (λ p. record p {
        rtt = div_ℤ (p.rtt +ℤ get_time_diff p.rtt_data_sent_time now) 2;
        rtt_ack_num = rtt_not_start;
      })

  -- The branch of `provider_control_by_ack` for the acknowledgment that came last.
  unfoldable pub duplicate_ack : Logged → Logged
  unfolding connection_scale_down reset_sender_buffer
  duplicate_ack c =
      let n = 1 + c.num_duplicate_ack in
      if leb duplicate_ack_num n
      then reset_sender_buffer
          (connection_scale_down (on_conn c (λ p. record p { num_duplicate_ack = 0 })))
      else on_conn c (λ p. record p { num_duplicate_ack = n })

  -- Its branch for an acknowledgment inside the window.
  unfoldable pub window_ack : Logged → ℕ → Logged
  unfolding connection_scale_up
  window_ack c ack_number =
      connection_scale_up
        (on_conn c (λ p. record p { num_duplicate_ack = 1; last_packet_acked = ack_number }))

  abbrev touch_ack_time : Logged → Logged
  touch_ack_time c = on_conn c (λ p. record p { last_acked_received_time = now })

  unfoldable pub provider_control_by_ack : Logged → ℤ → Logged
  unfolding set_rtt duplicate_ack window_ack
  provider_control_by_ack c₀ ack_number =
      let c = set_rtt c₀ ack_number in
      if ltb_ℤ ack_number (pos c.last_packet_acked)
      then c
      else if ltb_ℤ (pos c.last_packet_sent) ack_number
      then c
      else if ack_number ==ℤ pos c.last_packet_acked
      then touch_ack_time (duplicate_ack c)
      else touch_ack_time (window_ack c (pos_part ack_number))

  -- `none`: the connection is finished, by `finish_provider_connection`.
  unfoldable pub provider_control_by_timeout : Logged → Option Logged
  unfolding connection_scale_down reset_sender_buffer
  provider_control_by_timeout c =
      if ltb_ℤ (pos peer_crash_timeout) (get_time_diff c.last_acked_received_time now)
      then none
      else if ltb_ℤ (pos ack_timeout) (get_time_diff c.last_acked_received_time now)
      then (if ltb_ℤ (pos ack_timeout) (get_time_diff c.last_data_send_time now)
          then some (reset_sender_buffer (connection_scale_down c))
          else some c)
      else some c
