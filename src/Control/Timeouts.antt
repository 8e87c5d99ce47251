-- ===== src/Control/Timeouts.antt =====
-- control.c: what the check for timeouts does to a provider connection, on every branch.
use project_2_congest.Base.{◌/◌, ◌≡◌, ◌⊎◌, true, false, Option, none, some, max, arith}
use project_2_congest.Base.Int.{ℤ, pos, ltb_ℤ}
use project_2_congest.Clock.{Timeval, get_time_diff}
use project_2_congest.Control.{Logged, provider_control_by_timeout}

-- `silence` and `idle` are the milliseconds since the last acknowledgment and the last packet sent.
pub data IsTimeout (c : Logged) (silence idle : ℤ) : Option Logged → Type 0 where
  released : ltb_ℤ (pos 10000) silence ≡ true → IsTimeout c silence idle none
  stays :
      ltb_ℤ (pos 10000) silence ≡ false
      → (ltb_ℤ (pos 500) silence ≡ false) ⊎ (ltb_ℤ (pos 500) idle ≡ false)
      → IsTimeout c silence idle (some c)
  resends :
      {d : Logged}
      → ltb_ℤ (pos 10000) silence ≡ false
      → ltb_ℤ (pos 500) silence ≡ true
      → ltb_ℤ (pos 500) idle ≡ true
      → d.last_packet_acked ≡ c.last_packet_acked
      → d.last_packet_sent ≡ c.last_packet_acked
      → d.ssthresh ≡ max 2 (c.window_size / 2)
      → d.last_acked_received_time ≡ c.last_acked_received_time
      → IsTimeout c silence idle (some d)

-- The check for timeouts releases the connection if no acknowledgment came for more than 10
-- seconds. Otherwise, if none came for more than half a second and nothing was sent for as long,
-- all that is not acknowledged is to be sent again and the threshold is half the window, and at
-- least 2; and if not, nothing changes.
pub provider_control_by_timeout-IsTimeout :
    (start_time now : Timeval) (c : Logged)
    → IsTimeout c
        (get_time_diff c.last_acked_received_time now)
        (get_time_diff c.last_data_send_time now)
        (provider_control_by_timeout start_time now c)
unfolding provider_control_by_timeout
provider_control_by_timeout-IsTimeout start_time now c = grind (arith, released, stays, resends)
