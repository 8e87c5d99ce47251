-- ===== src/Tests/Controls.antt =====
-- control.c: a connection that was just opened, and what follows.
use project_2_congest.Control.Timeouts.{IsTimeout, provider_control_by_timeout-IsTimeout}
use project_2_congest.Base.{ℕ, ◌≡◌, refl, some, List, [], ◌∷◌, arith}
use project_2_congest.Base.Int.{pos}
use project_2_congest.Clock.{Timeval, get_time_diff}
use project_2_congest.Connection.{
  ProviderConnection, slow_start, congestion_avoidance, rtt_not_start,
}
use project_2_congest.Control.{
  Logged, provider_control_by_ack, provider_control_by_timeout, connection_scale_up,
  connection_scale_down,
}
use project_2_congest.Control.Acks.{
  repeat_ack, ack_each, fast_retransmit, slow_start_grows, Resends,
}
use project_2_congest.Control.Invariant.{Inv, provider_control_by_ack-Inv}
use project_2_congest.Control.Refinement.{
  view, connection_scale_up-refines, connection_scale_down-refines,
}

abbrev zero_time : Timeval
zero_time = record { tv_sec = 0; tv_usec = 0 }

abbrev later : Timeval
later = record { tv_sec = 1; tv_usec = 0 }

-- Four packets in flight behind ten that were acknowledged.
abbrev busy : ProviderConnection
busy = record {
  receiver = some 0;
  id = 1;
  chunk = 0;
  ssthresh = 64;
  window_size = 8;
  status = slow_start;
  ca_last_increase_time = zero_time;
  rtt = pos 2000;
  rtt_data_sent_time = zero_time;
  rtt_ack_num = rtt_not_start;
  last_acked_received_time = zero_time;
  last_data_send_time = zero_time;
  num_duplicate_ack = 1;
  last_packet_acked = 10;
  last_packet_sent = 14;
}

abbrev busy_logged : Logged
busy_logged = record { conn = busy; log = [] }

busy-Inv : Inv busy
busy-Inv = ground arith

-- A second passes: longer than ACK_TIMEOUT, shorter than PEER_CRASH_TIMEOUT.
one_second : get_time_diff zero_time later ≡ pos 1000
unfolding get_time_diff
one_second = refl

-- A loss in slow start leaves the window as it is.
slow_start_loss : (connection_scale_down zero_time later busy_logged).conn.window_size ≡ 8
unfolding connection_scale_down
slow_start_loss = refl

provider_control_by_ack-Inv_example :
    Inv (provider_control_by_ack zero_time later busy_logged (pos 12)).conn
provider_control_by_ack-Inv_example =
    provider_control_by_ack-Inv zero_time later busy_logged (pos 12) busy-Inv

timed_out : Logged
unfolding connection_scale_down
timed_out = record {
  conn = record busy { ssthresh = 4; status = congestion_avoidance; last_packet_sent = 10 };
  log = [];
}

connection_scale_up-refines_example :
    view (connection_scale_up zero_time later busy_logged).conn
    ≡ record { size = 9; threshold = 64 }
unfolding get_time_diff
connection_scale_up-refines_example =
    connection_scale_up-refines zero_time later busy_logged busy-Inv

connection_scale_down-refines_example :
    view (connection_scale_down zero_time later busy_logged).conn
    ≡ record { size = 8; threshold = 4 }
connection_scale_down-refines_example =
    connection_scale_down-refines zero_time later busy_logged busy-Inv

fast_retransmit_example :
    Resends zero_time later busy (repeat_ack zero_time later 2 (pos 10) busy_logged).conn
fast_retransmit_example = fast_retransmit zero_time later 1 busy_logged 10 busy-Inv refl refl

slow_start_grows_example :
    ((ack_each zero_time later 4 10 busy_logged).conn.window_size ≡ 12)
    × ((ack_each zero_time later 4 10 busy_logged).conn.last_packet_acked ≡ 14)
slow_start_grows_example =
    slow_start_grows zero_time later 4 busy_logged 10 busy-Inv refl (omega arith) (omega arith)

abbrev sample_data : List ℕ
sample_data = 1 ∷ 2 ∷ 3 ∷ []

provider_control_by_timeout-IsTimeout_example :
    IsTimeout busy_logged
      (get_time_diff busy_logged.last_acked_received_time later)
      (get_time_diff busy_logged.last_data_send_time later)
      (provider_control_by_timeout zero_time later busy_logged)
provider_control_by_timeout-IsTimeout_example =
    provider_control_by_timeout-IsTimeout zero_time later busy_logged
