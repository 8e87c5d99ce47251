-- ===== src/Transfer/Completion.antt =====
-- The transfer of one chunk can always be completed.
use project_2_congest.Base.{
  ℕ, zero, suc, ◌+◌, ◌-◌, ◌<◌, ◌≡◌, refl, ap, ◌∙◌, List, [], length, inl, inr, arith,
}
use project_2_congest.Base.Int.{pos, pos_part}
use project_2_congest.Clock.{Timeval}
use project_2_congest.Packet.{
  Target, to_sender, Sockaddr, send_packet, chunk_data_num, chunk_data_size,
}
use project_2_congest.Job.{Chunk, malloc_ack_packet}
use project_2_congest.Connection.{ProviderConnection}
use project_2_congest.Connection.Provider.{
  nth_data_packet, send_data_packet, sender_after, after_send,
}
use project_2_congest.Connection.Receiver.{save_data_packet}
use project_2_congest.Control.{Logged, LogEntry, provider_control_by_ack}
use project_2_congest.Control.Invariant.{Inv}
use project_2_congest.Peer.Data.{receive_data}
use project_2_congest.Transfer.Arrival.{arrive, ack-arrives, data-arrives}
use project_2_congest.Transfer.Receiving.{receive-expected, compare_cases}
use project_2_congest.Transfer.Invariant.{SystemInv, Step-SystemInv}
use project_2_congest.Transfer.Progress.{Live, Step-Live}
use project_2_congest.Transfer.Delivery.{opened, opened-SystemInv}
use project_2_congest.Transfer.{
  System, Step, send, deliver_data, deliver_ack, send_step, data_step, ack_step, Reach, here, then,
}

module _ (blank chunk_data : List ℕ) (size : length chunk_data ≡ chunk_data_size)
    (start_time : Timeval) (from : Sockaddr) where
  abbrev acked : System → ℕ
  acked s = s.sender.conn.last_packet_acked

  abbrev sent : System → ℕ
  sent s = s.sender.conn.last_packet_sent

  Reach-trans :
      {s t u : System}
      → Reach blank chunk_data start_time from s t
      → Reach blank chunk_data start_time from t u
      → Reach blank chunk_data start_time from s u
  Reach-trans r here = r
  Reach-trans r (then q st) = then (Reach-trans r q) st

  pub record IsGood (s : System) : Type 0 where
    pub inv : SystemInv blank chunk_data s
    pub live : Live blank chunk_data from s

  Step-IsGood : {s t : System} → Step blank chunk_data start_time from s t → IsGood s → IsGood t
  Step-IsGood st g = record {
    inv = Step-SystemInv blank chunk_data size start_time from st g.inv;
    live = Step-Live blank chunk_data size start_time from st g.inv g.live;
  }

  pub Reach-IsGood :
      {s t : System} → IsGood s → Reach blank chunk_data start_time from s t → IsGood t
  Reach-IsGood g here = g
  Reach-IsGood g (then r st) = Step-IsGood st (Reach-IsGood g r)

  -- A state that can be reached, where `n` packets are acknowledged.
  abbrev Onward : System → ℕ → Type 0
  Onward s n = (t : System) × Reach blank chunk_data start_time from s t × IsGood t × (acked t ≡ n)

  next_ack :
      (now : Timeval) (c : Logged) (n : ℕ)
      → c.conn.last_packet_acked ≡ n
      → n < c.conn.last_packet_sent
      → (provider_control_by_ack start_time now c (pos (n + 1))).conn.last_packet_acked ≡ n + 1
  unfolding provider_control_by_ack
  next_ack now c n e h = ground arith

  -- The next packet was sent and received: its acknowledgment can arrive.
  by_ack :
      (now : Timeval) (s : System) (n : ℕ)
      → IsGood s
      → acked s ≡ n
      → n < sent s
      → n < s.receiver.received_seq_num
      → Onward s (n + 1)
  unfolding ack_step
  by_ack now s n g e lt got =
      let d = send_packet (malloc_ack_packet blank (n + 1)) (to_sender from) in
      let st : Step blank chunk_data start_time from s
          (ack_step blank chunk_data start_time from now d [] s) =
        deliver_ack now d [] (g.live.acks_all (n + 1) (omega arith) (omega arith)) in
      let number =
        ack-arrives blank (to_sender from) [] (n + 1) (omega (arith, g.inv.received.seq_le)) in
      (_, then here st, Step-IsGood st g, rw number (next_ack now s.sender n e lt))

  expected_number :
      (c : Chunk) (n : ℕ) (to : Target)
      → n < chunk_data_num
      → n ≡ c.received_seq_num
      → (receive_data blank
          (arrive (send_packet (nth_data_packet blank chunk_data (n + 1)) to) [])
          c).chunk.received_seq_num
        ≡ n + 1
  unfolding save_data_packet
  expected_number c n to lt e =
      let p = arrive (send_packet (nth_data_packet blank chunk_data (n + 1)) to) [] in
      let seq = (data-arrives blank to [] chunk_data size (n + 1) (omega arith)).0 in
      rw (receive-expected blank chunk_data size c p n seq e) (ap pos_part seq)

  -- The next packet was sent: it can arrive.
  by_data :
      (now : Timeval) (s : System) (n : ℕ) → IsGood s → acked s ≡ n → n < sent s → Onward s (n + 1)
  unfolding data_step
  by_data now s n g e lt = elim (compare_cases n s.receiver.received_seq_num) [
    | inl got ↦ by_ack now s n g e lt got
    | inr (inr ahead) ↦ absurd (omega (arith, g.inv.acked_le))
    | inr (inl same) ↦
        let below : n < chunk_data_num = omega (arith, g.inv.sender_inv.sent_le_chunk) in
        let m = g.live.data_all n (omega arith) lt in
        let d = send_packet (nth_data_packet blank chunk_data (n + 1)) m.0 in
        let st : Step blank chunk_data start_time from s
            (data_step blank chunk_data start_time from d [] s) =
          deliver_data d [] m.1 (omega (arith, g.inv.received.byte_num)) in
        let more =
          by_ack now _ n (Step-IsGood st g) e lt
            (omega (arith, expected_number s.receiver n m.0 below same)) in
        (more.0, Reach-trans (then here st) more.1, more.2, more.3)
  ]

  next_sent :
      (now : Timeval) (p : ProviderConnection)
      → Inv p
      → p.last_packet_acked ≡ p.last_packet_sent
      → p.last_packet_sent < chunk_data_num
      → let q = sender_after p (send_data_packet blank now chunk_data p) in
        (q.last_packet_acked ≡ p.last_packet_acked) × (q.last_packet_sent ≡ p.last_packet_sent + 1)
  unfolding send_data_packet after_send
  next_sent now p v e lt = ground arith

  -- One more packet can be acknowledged.
  one_more :
      (now : Timeval) (s : System) (n : ℕ)
      → IsGood s
      → acked s ≡ n
      → n < chunk_data_num
      → Onward s (n + 1)
  unfolding send_step
  one_more now s n g e lt = elim (compare_cases n (sent s)) [
    | inl some_sent ↦ by_data now s n g e some_sent
    | inr (inr ahead) ↦ absurd (omega (arith, g.inv.sender_inv.acked_le_sent))
    | inr (inl none_sent) ↦
        let st : Step blank chunk_data start_time from s
            (send_step blank chunk_data start_time from now s) =
          send now in
        let moved = next_sent now s.sender.conn g.inv.sender_inv (omega arith) (omega arith) in
        let more = by_data now _ n (Step-IsGood st g) (moved.0 ∙ e) (omega (arith, moved.1)) in
        (more.0, Reach-trans (then here st) more.1, more.2, more.3)
  ]

  pub all_acked :
      (now : Timeval) (k : ℕ) (s : System) (n : ℕ)
      → IsGood s
      → acked s ≡ n
      → n + k ≡ chunk_data_num
      → Onward s chunk_data_num
  all_acked now zero s n g e h = (s, here, g, omega arith)
  all_acked now (suc k) s n g e h =
      let one = one_more now s n g e (omega arith) in
      let rest = all_acked now k one.0 (n + 1) one.2 one.3 (omega arith) in
      (rest.0, Reach-trans one.1 rest.1, rest.2, rest.3)

  module _ (now : Timeval) (fresh : ProviderConnection) (log : List LogEntry) (c : Chunk) where
    pub opened-IsGood : IsGood (opened now fresh log c)
    unfolding opened
    opened-IsGood = record {
      inv = opened-SystemInv blank chunk_data now fresh log c;
      live = record {
        data_all = λ n lo hi. absurd (omega arith);
        acks_all = λ n lo hi. absurd (omega arith);
      };
    }

    -- From every state that a transfer of a chunk of 512 KB reaches, steps of both ends and of the
    -- network, which may still deliver any packet sent so far, lead on to a state in which all 512
    -- packets are acknowledged.
    pub can_complete :
        (s : System)
        → Reach blank chunk_data start_time from (opened now fresh log c) s
        → (t : System) × Reach blank chunk_data start_time from s t
          × (t.sender.conn.last_packet_acked ≡ chunk_data_num)
    can_complete s r =
        let g = Reach-IsGood opened-IsGood r in
        let done =
          all_acked now (chunk_data_num - acked s) s (acked s) g refl
            (omega (arith, g.inv.sender_inv.acked_le_sent, g.inv.sender_inv.sent_le_chunk)) in
        (done.0, done.1, done.3)
