-- ===== src/Transfer/Progress.antt =====
-- The transfer of one chunk: the two ends never come to a state from which the chunk cannot be
-- completed, as long as the network may still deliver what was sent.
use mathlib.Core.List.{Memᴰ}
use project_2_congest.Base.{
  ℕ, ◌+◌, ◌≤◌, ◌<◌, ◌≡◌, sym, ap, ◌∙◌, some, List, [], ◌∷◌, ◌++◌, length, ◌⊎◌, inl, inr, arith,
}
use project_2_congest.Base.Int.{ℤ, pos, pos_part}
use project_2_congest.Base.Word.{signed32}
use project_2_congest.Clock.{Timeval}
use project_2_congest.Packet.{
  Packet, Datagram, Target, to_peer, to_sender, Sockaddr, send_packet, chunk_data_num,
  chunk_data_size,
}
use project_2_congest.Job.{Chunk, malloc_ack_packet}
use project_2_congest.Connection.{ProviderConnection}
use project_2_congest.Connection.Provider.{
  nth_data_packet, sender_after, data_sent, Sending, sends, window_full, window_error, all_sent,
  after_send,
}
use project_2_congest.Connection.Sending.{Sent, next, send_data_packet-Sent}
use project_2_congest.Connection.Receiver.{save_data_packet}
use project_2_congest.Control.{Logged, provider_control_by_ack, provider_control_by_timeout}
use project_2_congest.Control.Invariant.{Inv}
use project_2_congest.Peer.Data.{receive_data}
use project_2_congest.Transfer.Arrival.{arrive, data-arrives}
use project_2_congest.Transfer.Receiving.{
  IsData, numbered, compare_cases, receive-old, receive-expected, receive-early,
}
use project_2_congest.Transfer.Invariant.{SystemInv}
use project_2_congest.Transfer.{
  System, Step, send, deliver_data, deliver_ack, time_out, send_step, data_step, ack_step, replies,
}

mem-append_left : {A : Type 0} {a : A} (xs ys : List A) → Memᴰ a xs → Memᴰ a (xs ++ ys)
mem-append_left [] ys m = elim m [ ]
mem-append_left (x ∷ xs) ys (Memᴰ.head e) = Memᴰ.head e
mem-append_left (x ∷ xs) ys (Memᴰ.tail m) = Memᴰ.tail (mem-append_left xs ys m)

mem-append_right : {A : Type 0} {a : A} (xs ys : List A) → Memᴰ a ys → Memᴰ a (xs ++ ys)
mem-append_right [] ys m = m
mem-append_right (x ∷ xs) ys m = Memᴰ.tail (mem-append_right xs ys m)

module _ (blank chunk_data : List ℕ) (from : Sockaddr) where
  -- The packet number `n + 1` was sent.
  abbrev WasSent : ℕ → List Datagram → Type 0
  WasSent n net =
      (to : Target) × Memᴰ (send_packet (nth_data_packet blank chunk_data (n + 1)) to) net

  -- Every packet in flight and every acknowledgment may still arrive.
  pub record Live (s : System) : Type 0 where
    pub data_all :
        (n : ℕ)
        → s.sender.conn.last_packet_acked ≤ n
        → n < s.sender.conn.last_packet_sent
        → WasSent n s.data_net
    pub acks_all :
        (n : ℕ)
        → 1 ≤ n
        → n ≤ s.receiver.received_seq_num
        → Memᴰ (send_packet (malloc_ack_packet blank n) (to_sender from)) s.ack_net

module _ (blank chunk_data : List ℕ) (size : length chunk_data ≡ chunk_data_size)
    (start_time : Timeval) (from : Sockaddr) where
  -- A call of `send_data_packet` adds the packet that it counts as sent.
  Sent-Live :
      (now : Timeval) (p : ProviderConnection) (r : Sending) (net : List Datagram)
      → Sent blank chunk_data now p r
      → ((n : ℕ)
          → p.last_packet_acked ≤ n
          → n < p.last_packet_sent
          → WasSent blank chunk_data from n net)
      → (n : ℕ) → (sender_after p r).last_packet_acked ≤ n
      → n < (sender_after p r).last_packet_sent
      → WasSent blank chunk_data from n (data_sent p r ++ net)
  unfolding after_send
  Sent-Live now p window_full net s h n lo hi = h n lo hi
  Sent-Live now p window_error net s h n lo hi = h n lo hi
  Sent-Live now p all_sent net s h n lo hi = h n lo hi
  Sent-Live now p (sends packet q) net (next room fits e eq) h n lo hi =
      let counts : (q.last_packet_acked ≡ p.last_packet_acked)
          × (q.last_packet_sent ≡ p.last_packet_sent + 1) =
        rw eq (ground arith) in
      elim (compare_cases n p.last_packet_sent) [
        | inl old ↦ let m = h n (omega arith) old in (m.0, Memᴰ.tail m.1)
        | inr (inl now_sent) ↦ (
          to_peer p.receiver,
          Memᴰ.head (
              ap (λ k. send_packet k (to_peer p.receiver))
                (ap (λ k. nth_data_packet blank chunk_data (k + 1)) now_sent ∙ sym e)),
        )
        | inr (inr later) ↦ absurd (omega arith)
      ]

  send_step-Live :
      (now : Timeval) (s : System)
      → SystemInv blank chunk_data s
      → Live blank chunk_data from s
      → Live blank chunk_data from (send_step blank chunk_data start_time from now s)
  unfolding send_step
  send_step-Live now s v l = record {
    data_all =
        Sent-Live now s.sender.conn _ s.data_net
          (send_data_packet-Sent blank chunk_data now s.sender.conn v.sender_inv) l.data_all;
    acks_all = l.acks_all;
  }

  -- The number of a chunk after it took packet `n + 1`, and the reply to it.
  expected_ack :
      (c : Chunk) (p : Packet) (n : ℕ)
      → signed32 p.header.seq_number ≡ pos (n + 1)
      → n ≡ c.received_seq_num
      → (k : ℕ) → k ≤ (save_data_packet p c).received_seq_num
      → (k ≤ c.received_seq_num)
        ⊎ Memᴰ
            (send_packet (malloc_ack_packet blank k) (to_sender from))
            (send_packet (malloc_ack_packet blank (1 + c.received_seq_num)) (to_sender from) ∷ [])
  unfolding save_data_packet
  expected_ack c p n seq same k h =
      let number : pos_part (signed32 p.header.seq_number) ≡ n + 1 = ap pos_part seq in
      elim (compare_cases k (1 + c.received_seq_num)) [
        | inl old ↦ inl (omega arith)
        | inr (inl new) ↦
            inr (Memᴰ.head (ap (λ j. send_packet (malloc_ack_packet blank j) (to_sender from)) new))
        | inr (inr later) ↦ absurd (omega (arith, number))
      ]

  -- What a reception adds to the acknowledgments.
  reception_acks :
      (c : Chunk) (n : ℕ) (to : Target) (stale : List ℕ)
      → n < chunk_data_num
      → let r =
          receive_data blank
            (arrive (send_packet (nth_data_packet blank chunk_data (n + 1)) to) stale)
            c in
        (k : ℕ)
        → k ≤ r.chunk.received_seq_num
        → (k ≤ c.received_seq_num)
          ⊎ Memᴰ
              (send_packet (malloc_ack_packet blank k) (to_sender from))
              (replies blank chunk_data start_time from r)
  reception_acks c n to stale lt =
      let p = arrive (send_packet (nth_data_packet blank chunk_data (n + 1)) to) stale in
      let seq = (data-arrives blank to stale chunk_data size (n + 1) lt').0 in
      elim (compare_cases n c.received_seq_num) [
        | inl old ↦ rw (receive-old blank chunk_data size c p n seq old) (λ k h. inl h)
        | inr (inl same) ↦
            rw (receive-expected blank chunk_data size c p n seq same) (expected_ack c p n seq same)
        | inr (inr early) ↦ rw (receive-early blank chunk_data size c p n seq early) (λ k h. inl h)
      ]
    where
      lt' : n + 1 ≤ chunk_data_num
      lt' = omega arith

  data_step-Live :
      (s : System) (d : Datagram) (stale : List ℕ)
      → IsData blank chunk_data chunk_data_num d
      → Live blank chunk_data from s
      → Live blank chunk_data from (data_step blank chunk_data start_time from d stale s)
  unfolding data_step
  data_step-Live s d stale (numbered n to lt e) l = rw e (record {
    data_all = l.data_all;
    acks_all = λ k lo hi. elim (reception_acks s.receiver n to stale lt k hi) [
      | inl old ↦ mem-append_right _ s.ack_net (l.acks_all k lo old)
      | inr new ↦ mem-append_left _ s.ack_net new
    ];
  })

  -- An acknowledgment or a timeout leaves no packet in flight that was not in flight before.
  abbrev Narrows : Logged → Logged → Type 0
  Narrows c d =
      (c.conn.last_packet_acked ≤ d.conn.last_packet_acked)
      × (d.conn.last_packet_sent ≤ c.conn.last_packet_sent)

  ack-Narrows :
      (now : Timeval) (c : Logged) (ack : ℤ)
      → Inv c.conn
      → Narrows c (provider_control_by_ack start_time now c ack)
  unfolding provider_control_by_ack
  ack-Narrows now c ack v = ground arith

  timeout-Narrows :
      (now : Timeval) (c d : Logged)
      → Inv c.conn
      → provider_control_by_timeout start_time now c ≡ some d
      → Narrows c d
  unfolding provider_control_by_timeout
  timeout-Narrows now c d v e = ground arith

  Narrows-Live :
      (s : System) (d : Logged)
      → Narrows s.sender d
      → Live blank chunk_data from s
      → Live blank chunk_data from (record s { sender = d })
  Narrows-Live s d w l = record {
    data_all = λ n lo hi. l.data_all n (omega arith) (omega arith);
    acks_all = l.acks_all;
  }

  pub Step-Live :
      {s t : System}
      → Step blank chunk_data start_time from s t
      → SystemInv blank chunk_data s
      → Live blank chunk_data from s
      → Live blank chunk_data from t
  unfolding ack_step
  Step-Live {s} (send now) v l = send_step-Live now s v l
  Step-Live {s} (deliver_data d stale m h) v l = data_step-Live s d stale (v.data_ok d m) l
  Step-Live {s} (deliver_ack now d stale m) v l =
      Narrows-Live s _ (ack-Narrows now s.sender _ v.sender_inv) l
  Step-Live {s} (time_out now c e) v l =
      Narrows-Live s c (timeout-Narrows now s.sender c v.sender_inv e) l
