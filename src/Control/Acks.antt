-- ===== src/Control/Acks.antt =====
-- control.c: what an acknowledgment does, by its number and the ones before it.
use project_2_congest.Base.{ℕ, zero, suc, ◌+◌, ◌/◌, ◌≤◌, ◌<◌, ◌≡◌, max, arith}
use project_2_congest.Base.Int.{ℤ, pos}
use project_2_congest.Clock.{Timeval}
use project_2_congest.Connection.{ProviderConnection}
use project_2_congest.Control.{Logged, provider_control_by_ack, duplicate_ack_num}
use project_2_congest.Control.Invariant.{Inv, provider_control_by_ack-Inv}

module _ (start_time now : Timeval) where
  -- A run of `n` acknowledgments of the same packet.
  pub repeat_ack : ℕ → ℤ → Logged → Logged
  repeat_ack zero ack c = c
  repeat_ack (suc n) ack c = repeat_ack n ack (provider_control_by_ack start_time now c ack)

  -- Acknowledgments of `n` packets in turn, the first of them `a + 1`.
  pub ack_each : ℕ → ℕ → Logged → Logged
  ack_each zero a c = c
  ack_each (suc n) a c = ack_each n (suc a) (provider_control_by_ack start_time now c (pos (suc a)))

  -- What an ignored acknowledgment leaves as it was.
  pub record SameWindow (p q : ProviderConnection) : Type 0 where
    pub window : p.window_size ≡ q.window_size
    pub threshold : p.ssthresh ≡ q.ssthresh
    pub acked : p.last_packet_acked ≡ q.last_packet_acked
    pub sent : p.last_packet_sent ≡ q.last_packet_sent
    pub duplicates : p.num_duplicate_ack ≡ q.num_duplicate_ack
    pub heard : p.last_acked_received_time ≡ q.last_acked_received_time

  -- How the connection stands after duplicates that did not count as a loss.
  pub record Waits (c d : ProviderConnection) (n : ℕ) : Type 0 where
    pub counted : d.num_duplicate_ack ≡ c.num_duplicate_ack + n
    pub acked : d.last_packet_acked ≡ c.last_packet_acked
    pub sent : d.last_packet_sent ≡ c.last_packet_sent
    pub window : d.window_size ≡ c.window_size
    pub threshold : d.ssthresh ≡ c.ssthresh

  -- How it stands after a loss: everything unacknowledged is to be sent again.
  pub record Resends (c d : ProviderConnection) : Type 0 where
    pub counted : d.num_duplicate_ack ≡ 0
    pub acked : d.last_packet_acked ≡ c.last_packet_acked
    pub sent : d.last_packet_sent ≡ c.last_packet_acked
    pub threshold : d.ssthresh ≡ max 2 (c.window_size / 2)

  one_duplicate :
      (c : Logged) (a : ℕ)
      → Inv c.conn
      → c.last_packet_acked ≡ a
      → c.num_duplicate_ack + 1 < duplicate_ack_num
      → Waits c.conn (provider_control_by_ack start_time now c (pos a)).conn 1
  unfolding provider_control_by_ack
  one_duplicate c a v e h = ground arith

  last_duplicate :
      (c : Logged) (a : ℕ)
      → Inv c.conn
      → c.last_packet_acked ≡ a
      → c.num_duplicate_ack + 1 ≡ duplicate_ack_num
      → Resends c.conn (provider_control_by_ack start_time now c (pos a)).conn
  unfolding provider_control_by_ack
  last_duplicate c a v e h = ground arith

  -- In a connection that satisfies the invariant, repeated acknowledgments of the last packet
  -- acknowledged are counted and leave the window, the threshold and what is sent and acknowledged
  -- as they are, as long as the count stays below three.
  few_duplicates :
      (n : ℕ) (c : Logged) (a : ℕ)
      → Inv c.conn
      → c.last_packet_acked ≡ a
      → c.num_duplicate_ack + n < duplicate_ack_num
      → Waits c.conn (repeat_ack n (pos a) c).conn n
  unfolding repeat_ack
  few_duplicates zero c a v e h = ground arith
  few_duplicates (suc n) c a v e h =
      let c' = provider_control_by_ack start_time now c (pos a) in
      let one = one_duplicate c a v e (omega arith) in
      let v' = provider_control_by_ack-Inv start_time now c (pos a) v in
      let more = few_duplicates n c' a v' (omega arith) (omega arith) in omega (arith, one, more)

  -- In a connection that satisfies the invariant, the repeated acknowledgment that brings the count
  -- to three is taken for a loss: all that is not acknowledged is to be sent again, the threshold is
  -- half the window and at least 2, and the count is 0.
  pub fast_retransmit :
      (n : ℕ) (c : Logged) (a : ℕ)
      → Inv c.conn
      → c.last_packet_acked ≡ a
      → c.num_duplicate_ack + suc n ≡ duplicate_ack_num
      → Resends c.conn (repeat_ack (suc n) (pos a) c).conn
  unfolding repeat_ack
  fast_retransmit zero c a v e h = last_duplicate c a v e (omega arith)
  fast_retransmit (suc n) c a v e h =
      let c' = provider_control_by_ack start_time now c (pos a) in
      let one = one_duplicate c a v e (omega arith) in
      let v' = provider_control_by_ack-Inv start_time now c (pos a) v in
      let more = fast_retransmit n c' a v' (omega arith) (omega arith) in omega (arith, one, more)

  one_packet :
      (c : Logged) (a : ℕ)
      → Inv c.conn
      → c.last_packet_acked ≡ a
      → a < c.last_packet_sent
      → c.window_size < c.ssthresh
      → let d = (provider_control_by_ack start_time now c (pos (suc a))).conn in
        (d.window_size ≡ c.window_size + 1)
        × (d.last_packet_acked ≡ suc a)
        × (d.last_packet_sent ≡ c.last_packet_sent)
        × (d.ssthresh ≡ c.ssthresh)
  unfolding provider_control_by_ack
  one_packet c a v e h k = ground arith

  -- In a connection that satisfies the invariant, `n` sent packets that are acknowledged in turn open
  -- the window by `n`, if that does not take it past the threshold.
  pub slow_start_grows :
      (n : ℕ) (c : Logged) (a : ℕ)
      → Inv c.conn
      → c.last_packet_acked ≡ a
      → a + n ≤ c.last_packet_sent
      → c.window_size + n ≤ c.ssthresh
      → let d = (ack_each n a c).conn in
        (d.window_size ≡ c.window_size + n) × (d.last_packet_acked ≡ a + n)
  unfolding ack_each
  slow_start_grows zero c a v e h k = ground arith
  slow_start_grows (suc n) c a v e h k =
      let c' = provider_control_by_ack start_time now c (pos (suc a)) in
      let one = one_packet c a v e (omega arith) (omega arith) in
      let v' = provider_control_by_ack-Inv start_time now c (pos (suc a)) v in
      let more = slow_start_grows n c' (suc a) v' one.1 (omega arith) (omega arith) in
      omega (arith, one, more)
