-- ===== src/Control/Refinement.antt =====
-- control.c against the textbook window: additive increase, and the two answers to a loss.
use project_2_congest.Base.{ℕ, ◌+◌, ◌/◌, ◌≡◌, Bool, ltb, if◌then◌else◌, max, arith}
use project_2_congest.Base.Int.{ltb_ℤ}
use project_2_congest.Clock.{Timeval, get_time_diff}
use project_2_congest.Connection.{ProviderConnection}
use project_2_congest.Control.{Logged, connection_scale_up, connection_scale_down}
use project_2_congest.Control.Invariant.{Inv}

-- The abstract state: the phase is no part of it.
pub record Window : Type 0 where
  pub size : ℕ
  pub threshold : ℕ

abbrev pub view : ProviderConnection → Window
view p = record { size = p.window_size; threshold = p.ssthresh }

-- One more packet for each acknowledgment below the threshold, and for each round trip above.
abbrev pub increase : Bool → Window → Window
increase round_trip_passed w =
    if ltb w.size w.threshold
    then record w { size = w.size + 1 }
    else if round_trip_passed
    then record w { size = w.size + 1 }
    else w

-- The threshold falls to half the window; the window starts again only above the old threshold.
abbrev pub decrease : Window → Window
decrease w = record {
  size = if ltb w.size w.threshold then w.size else 1;
  threshold = max 2 (w.size / 2);
}

module _ (start_time now : Timeval) (c : Logged) (v : Inv c.conn) where
  -- In a connection that satisfies the invariant, `connection_scale_up` is the textbook increase on
  -- the window and the threshold: one packet more below the threshold, and from the threshold on one
  -- packet more if a round trip time has passed since the last increase.
  pub connection_scale_up-refines :
      view (connection_scale_up start_time now c).conn
      ≡ increase (ltb_ℤ c.rtt (get_time_diff c.ca_last_increase_time now)) (view c.conn)
  unfolding connection_scale_up
  connection_scale_up-refines = ground (arith, v.status_phase)

  -- In a connection that satisfies the invariant, `connection_scale_down` sets the threshold to half
  -- the window, and at least 2; it sets the window to 1 if it had reached the old threshold, and
  -- leaves it as it is if it had not.
  pub connection_scale_down-refines :
      view (connection_scale_down start_time now c).conn ≡ decrease (view c.conn)
  unfolding connection_scale_down
  connection_scale_down-refines = ground (arith, v.status_phase)
