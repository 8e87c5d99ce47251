-- ===== src/Transfer/Invariant.antt =====
-- The transfer of one chunk: what holds after any steps.
use mathlib.Core.List.{Memᴰ}
use project_2_congest.Base.{
  ℕ, ◌≤◌, ◌≡◌, ap, ◌∙◌, some, List, [], ◌∷◌, ◌++◌, length, ◌⊎◌, inl, inr, arith,
}
use project_2_congest.Base.Int.{pos}
use project_2_congest.Base.Word.{signed32}
use project_2_congest.Clock.{Timeval}
use project_2_congest.Packet.{
  Datagram, to_peer, Sockaddr, send_packet, chunk_data_num, chunk_data_size,
}
use project_2_congest.Connection.{ProviderConnection}
use project_2_congest.Connection.Provider.{
  send_data_packet, sender_after, data_sent, Sending, sends, window_full, window_error, all_sent,
  after_send,
}
use project_2_congest.Connection.Sending.{Sent, next, send_data_packet-Inv, send_data_packet-Sent}
use project_2_congest.Control.{Logged, provider_control_by_ack, provider_control_by_timeout}
use project_2_congest.Control.Invariant.{
  Inv, provider_control_by_ack-Inv, provider_control_by_timeout-Inv,
}
use project_2_congest.Peer.Data.{Reception}
use project_2_congest.Transfer.Arrival.{arrive, ack-arrives}
use project_2_congest.Transfer.Receiving.{
  IsData, numbered, IsAck, acks, HasPrefix, IsAck-mono, GoodReception, reception_good,
}
use project_2_congest.Transfer.{
  System, Step, send, deliver_data, deliver_ack, time_out, send_step, data_step, ack_step, Reach,
  here, then, after_reception,
}

pub mem-append_cases :
    {A : Type 0} {a : A} (xs ys : List A) → Memᴰ a (xs ++ ys) → Memᴰ a xs ⊎ Memᴰ a ys
mem-append_cases [] ys m = inr m
mem-append_cases (x ∷ xs) ys (Memᴰ.head e) = inl (Memᴰ.head e)
mem-append_cases (x ∷ xs) ys (Memᴰ.tail m) = elim (mem-append_cases xs ys m) [
  | inl l ↦ inl (Memᴰ.tail l)
  | inr r ↦ inr r
]

module _ (blank chunk_data : List ℕ) where
  pub record SystemInv (s : System) : Type 0 where
    pub sender_inv : Inv s.sender.conn
    pub received : HasPrefix blank chunk_data s.receiver
    pub acked_le : s.sender.conn.last_packet_acked ≤ s.receiver.received_seq_num
    pub data_ok : (d : Datagram) → Memᴰ d s.data_net → IsData blank chunk_data chunk_data_num d
    pub acks_ok :
        (d : Datagram) → Memᴰ d s.ack_net → IsAck blank chunk_data s.receiver.received_seq_num d

module _ (blank chunk_data : List ℕ) (size : length chunk_data ≡ chunk_data_size)
    (start_time : Timeval) (from : Sockaddr) where
  after_reception-SystemInv :
      (s : System) (r : Reception)
      → SystemInv blank chunk_data s
      → GoodReception blank chunk_data size start_time from s.receiver r
      → SystemInv blank chunk_data (after_reception blank chunk_data start_time from s r)
  after_reception-SystemInv s r v g = record {
    sender_inv = v.sender_inv;
    received = g.chunk_ok;
    acked_le = omega (arith, v.acked_le, g.grows);
    data_ok = v.data_ok;
    acks_ok = λ d m. elim (mem-append_cases _ s.ack_net m) [
      | inl new ↦ g.replies_ok d new
      | inr old ↦ IsAck-mono g.grows (v.acks_ok d old)
    ];
  }

  data_step-SystemInv :
      (s : System) (d : Datagram) (stale : List ℕ)
      → SystemInv blank chunk_data s
      → IsData blank chunk_data chunk_data_num d
      → SystemInv blank chunk_data (data_step blank chunk_data start_time from d stale s)
  unfolding data_step
  data_step-SystemInv s d stale v (numbered n to lt e) = rw e (
      after_reception-SystemInv s _ v
        (reception_good blank chunk_data size start_time from s.receiver n to stale v.received lt))

  -- What one call of `send_data_packet` puts on the network.
  Sent-IsData :
      (now : Timeval) (p : ProviderConnection) (r : Sending)
      → Inv p
      → Sent blank chunk_data now p r
      → (d : Datagram) → Memᴰ d (data_sent p r)
      → IsData blank chunk_data chunk_data_num d
  Sent-IsData now p window_full v s d m = elim m [ ]
  Sent-IsData now p window_error v s d m = elim m [ ]
  Sent-IsData now p all_sent v s d m = elim m [ ]
  Sent-IsData now p (sends packet q) v (next room fits e eq) d (Memᴰ.head h) =
      numbered p.last_packet_sent (to_peer p.receiver) (omega arith)
        (h ∙ ap (λ k. send_packet k (to_peer p.receiver)) e)
  Sent-IsData now p (sends packet q) v (next room fits e eq) d (Memᴰ.tail m) = elim m [ ]

  sender_after-acked :
      (now : Timeval) (p : ProviderConnection)
      → (sender_after p (send_data_packet blank now chunk_data p)).last_packet_acked
        ≡ p.last_packet_acked
  unfolding send_data_packet after_send
  sender_after-acked now p = ground arith

  send_step-SystemInv :
      (now : Timeval) (s : System)
      → SystemInv blank chunk_data s
      → SystemInv blank chunk_data (send_step blank chunk_data start_time from now s)
  unfolding send_step
  send_step-SystemInv now s v =
      let p = s.sender.conn in
      let r = send_data_packet blank now chunk_data p in
      record {
        sender_inv = send_data_packet-Inv blank chunk_data now p v.sender_inv;
        received = v.received;
        acked_le = omega (arith, sender_after-acked now p, v.acked_le);
        data_ok = λ d m. elim (mem-append_cases (data_sent p r) s.data_net m) [
          | inl new ↦
              Sent-IsData now p r v.sender_inv
                (send_data_packet-Sent blank chunk_data now p v.sender_inv) d new
          | inr old ↦ v.data_ok d old
        ];
        acks_ok = v.acks_ok;
      }

  -- An acknowledgment moves the sender to its number at most.
  ack-acked :
      (now : Timeval) (c : Logged) (n hi : ℕ)
      → n ≤ hi
      → c.conn.last_packet_acked ≤ hi
      → (provider_control_by_ack start_time now c (pos n)).conn.last_packet_acked ≤ hi
  unfolding provider_control_by_ack
  ack-acked now c n hi h k = ground arith

  ack_step-SystemInv :
      (now : Timeval) (s : System) (d : Datagram) (stale : List ℕ)
      → SystemInv blank chunk_data s
      → IsAck blank chunk_data s.receiver.received_seq_num d
      → SystemInv blank chunk_data (ack_step blank chunk_data start_time from now d stale s)
  unfolding ack_step
  ack_step-SystemInv now s d stale v (acks n to le e) =
      let number : signed32 (arrive d stale).header.ack_number ≡ pos n =
        ap (λ k. signed32 (arrive k stale).header.ack_number) e
        ∙ ack-arrives blank to stale n (omega (arith, v.received.seq_le)) in
      record {
        sender_inv = provider_control_by_ack-Inv start_time now s.sender _ v.sender_inv;
        received = v.received;
        acked_le = rw number (ack-acked now s.sender n _ le v.acked_le);
        data_ok = v.data_ok;
        acks_ok = v.acks_ok;
      }

  timeout-acked :
      (now : Timeval) (c d : Logged)
      → provider_control_by_timeout start_time now c ≡ some d
      → d.conn.last_packet_acked ≡ c.conn.last_packet_acked
  unfolding provider_control_by_timeout
  timeout-acked now c d e = ground arith

  pub Step-SystemInv :
      {s t : System}
      → Step blank chunk_data start_time from s t
      → SystemInv blank chunk_data s
      → SystemInv blank chunk_data t
  Step-SystemInv {s} (send now) v = send_step-SystemInv now s v
  Step-SystemInv {s} (deliver_data d stale m h) v = data_step-SystemInv s d stale v (v.data_ok d m)
  Step-SystemInv {s} (deliver_ack now d stale m) v =
      ack_step-SystemInv now s d stale v (v.acks_ok d m)
  Step-SystemInv {s} (time_out now c e) v = record {
    sender_inv = provider_control_by_timeout-Inv start_time now s.sender c v.sender_inv e;
    received = v.received;
    acked_le = omega (arith, timeout-acked now s.sender c e, v.acked_le);
    data_ok = v.data_ok;
    acks_ok = v.acks_ok;
  }

  -- What holds of both ends and of the packets between them is kept by every run of the transfer.
  pub Reach-SystemInv :
      {s t : System}
      → SystemInv blank chunk_data s
      → Reach blank chunk_data start_time from s t
      → SystemInv blank chunk_data t
  Reach-SystemInv v here = v
  Reach-SystemInv v (then r st) = Step-SystemInv st (Reach-SystemInv v r)
