-- ===== src/Transfer/Stall.antt =====
-- peer.c answers no packet that is older than the one it expects. So the loss of acknowledgments
-- alone can stop a transfer.
use mathlib.Core.List.{Memᴰ}
use project_2_congest.Base.{
  ℕ, ◌+◌, ◌≤◌, ◌≡◌, refl, ap, subst, ◌∙◌, some, List, [], ◌∷◌, length, inl, inr, arith,
}
use project_2_congest.Clock.{Timeval}
use project_2_congest.Packet.{
  Datagram, to_peer, Sockaddr, send_packet, chunk_data_num, chunk_data_size,
}
use project_2_congest.Connection.{ProviderConnection}
use project_2_congest.Connection.Provider.{
  nth_data_packet, send_data_packet, sender_after, data_sent, Sending, sends, window_full,
  window_error, all_sent, after_send,
}
use project_2_congest.Connection.Sending.{Sent, next, send_data_packet-Inv, send_data_packet-Sent}
use project_2_congest.Control.{Logged, provider_control_by_timeout}
use project_2_congest.Control.Invariant.{Inv, provider_control_by_timeout-Inv}
use project_2_congest.Transfer.Arrival.{arrive, data-arrives}
use project_2_congest.Transfer.Receiving.{IsData, numbered, receive-old}
use project_2_congest.Transfer.Invariant.{mem-append_cases}
use project_2_congest.Transfer.{
  System, Step, send, deliver_data, deliver_ack, time_out, send_step, data_step, Reach, here, then,
}

no_member : {d : Datagram} → Memᴰ d [] → ⊥
no_member m = elim m [ ]

module _ (blank chunk_data : List ℕ) where
  -- Every acknowledgment was lost, and the window holds only packets that the receiver has.
  pub record IsStalled (a r : ℕ) (s : System) : Type 0 where
    pub sender_inv : Inv s.sender.conn
    pub received : s.receiver.received_seq_num ≡ r
    pub seq_le : r ≤ chunk_data_num
    pub acked : s.sender.conn.last_packet_acked ≡ a
    pub sent_le : s.sender.conn.last_packet_sent ≤ r
    pub window_le : s.sender.conn.last_packet_acked + s.sender.conn.window_size ≤ r
    pub old_data : (d : Datagram) → Memᴰ d s.data_net → IsData blank chunk_data r d
    pub no_acks : s.ack_net ≡ []

  module _ (size : length chunk_data ≡ chunk_data_size) (start_time : Timeval) (from : Sockaddr)
      (a r : ℕ) where
    Sent-old :
        (now : Timeval) (p : ProviderConnection) (k : Sending)
        → Sent blank chunk_data now p k
        → p.last_packet_acked + p.window_size ≤ r
        → p.last_packet_sent ≤ r
        → ((d : Datagram) → Memᴰ d (data_sent p k) → IsData blank chunk_data r d)
          × ((sender_after p k).last_packet_sent ≤ r)
          × ((sender_after p k).last_packet_acked ≡ p.last_packet_acked)
          × ((sender_after p k).window_size ≡ p.window_size)
    unfolding after_send
    Sent-old now p window_full s w le = (λ d m. elim m [ ], le, refl, refl)
    Sent-old now p window_error s w le = (λ d m. elim m [ ], le, refl, refl)
    Sent-old now p all_sent s w le = (λ d m. elim m [ ], le, refl, refl)
    Sent-old now p (sends packet q) (next room fits e eq) w le =
        (λ d m. one d m, rw eq (ground arith), rw eq (ground arith), rw eq (ground arith))
      where
        one :
            (d : Datagram)
            → Memᴰ d (send_packet packet (to_peer p.receiver) ∷ [])
            → IsData blank chunk_data r d
        one d (Memᴰ.head h) =
            numbered p.last_packet_sent (to_peer p.receiver) (omega arith)
              (h ∙ ap (λ k. send_packet k (to_peer p.receiver)) e)
        one d (Memᴰ.tail m) = elim m [ ]

    send-IsStalled :
        (now : Timeval) (s : System)
        → IsStalled a r s
        → IsStalled a r (send_step blank chunk_data start_time from now s)
    unfolding send_step
    send-IsStalled now s v =
        let p = s.sender.conn in
        let k = send_data_packet blank now chunk_data p in
        let o =
          Sent-old now p k (send_data_packet-Sent blank chunk_data now p v.sender_inv) v.window_le
            v.sent_le in
        record {
          sender_inv = send_data_packet-Inv blank chunk_data now p v.sender_inv;
          received = v.received;
          seq_le = v.seq_le;
          acked = o.2 ∙ v.acked;
          sent_le = o.1;
          window_le = omega (arith, o.2, o.3, v.window_le);
          old_data = λ d m. elim (mem-append_cases (data_sent p k) s.data_net m) [
            | inl new ↦ o.0 d new
            | inr old ↦ v.old_data d old
          ];
          no_acks = v.no_acks;
        }

    data-IsStalled :
        (s : System) (d : Datagram) (stale : List ℕ)
        → IsStalled a r s
        → IsData blank chunk_data r d
        → IsStalled a r (data_step blank chunk_data start_time from d stale s)
    unfolding data_step
    data-IsStalled s d stale v (numbered n to lt e) =
        let p = arrive (send_packet (nth_data_packet blank chunk_data (n + 1)) to) stale in
        let seq =
          (data-arrives blank to stale chunk_data size (n + 1) (omega (arith, v.seq_le))).0 in
        rw (e, receive-old blank chunk_data size s.receiver p n seq (omega (arith, v.received))) v

    timeout-shrinks :
        (now : Timeval) (c d : Logged)
        → Inv c.conn
        → provider_control_by_timeout start_time now c ≡ some d
        → (d.conn.last_packet_acked ≡ c.conn.last_packet_acked)
          × (d.conn.last_packet_sent ≤ c.conn.last_packet_sent)
          × (d.conn.window_size ≤ c.conn.window_size)
    unfolding provider_control_by_timeout
    timeout-shrinks now c d v e = ground arith

    Step-IsStalled :
        {s t : System}
        → Step blank chunk_data start_time from s t
        → IsStalled a r s
        → IsStalled a r t
    Step-IsStalled {s} (send now) v = send-IsStalled now s v
    Step-IsStalled {s} (deliver_data d stale m h) v = data-IsStalled s d stale v (v.old_data d m)
    Step-IsStalled {s} (deliver_ack now d stale m) v =
        absurd (no_member (subst (Memᴰ d) v.no_acks m))
    Step-IsStalled {s} (time_out now c e) v =
        let w = timeout-shrinks now s.sender c v.sender_inv e in
        record {
          sender_inv = provider_control_by_timeout-Inv start_time now s.sender c v.sender_inv e;
          received = v.received;
          seq_le = v.seq_le;
          acked = w.0 ∙ v.acked;
          sent_le = omega (arith, w.1, v.sent_le);
          window_le = omega (arith, w.0, w.2, v.window_le);
          old_data = v.old_data;
          no_acks = v.no_acks;
        }

    -- In a stalled state, that is where no acknowledgment is left in the network, the sender has
    -- `a` packets acknowledged and the receiver has `r` of them, and the window reaches no further
    -- than `r`, no step of either end, timeouts that send the packets again included, ever makes the
    -- receiver acknowledge anything or moves the sender or the receiver on.
    pub lost_acks_stall :
        {s t : System}
        → IsStalled a r s
        → Reach blank chunk_data start_time from s t
        → (t.ack_net ≡ [])
          × (t.sender.conn.last_packet_acked ≡ a)
          × (t.receiver.received_seq_num ≡ r)
    lost_acks_stall v path = let w = stays v path in (w.no_acks, w.acked, w.received)
      where
        stays :
            {s t : System}
            → IsStalled a r s
            → Reach blank chunk_data start_time from s t
            → IsStalled a r t
        stays v here = v
        stays v (then q st) = Step-IsStalled st (stays v q)
