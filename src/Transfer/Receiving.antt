-- ===== src/Transfer/Receiving.antt =====
-- The transfer of one chunk: what the receiver does with a packet of the chunk.
use mathlib.Core.List.{Memᴰ}
use project_2_congest.Base.{
  true, false, ◌⊎◌, inl, inr, ℕ, ◌+◌, ◌*◌, ◌≤◌, ◌<◌, ◌≡◌, sym, ap, ap₂, ◌∙◌, List, [], ◌∷◌, ◌++◌,
  map, length, take, drop, take-append-take-drop, length-take, length-drop, arith,
}
use project_2_congest.Base.Int.{pos, pos_part}
use project_2_congest.Base.Word.{signed32}
use project_2_congest.Base.Memory.{take-memcpy, le-length-memcpy}
use project_2_congest.Clock.{Timeval}
use project_2_congest.Packet.{
  Packet, Datagram, Target, to_sender, Sockaddr, send_packet, chunk_data_num, chunk_data_size,
  data_packet_payload_size,
}
use project_2_congest.Job.{Chunk, malloc_ack_packet}
use project_2_congest.Connection.Provider.{nth_data_packet}
use project_2_congest.Connection.Receiver.{save_data_packet, data_size, bytes_of}
use project_2_congest.Peer.Data.{Reception, receive_data}
use project_2_congest.Transfer.Arrival.{arrive, data-arrives, payload-arrives}

module _ (blank chunk_data : List ℕ) where
  -- A datagram that holds a packet of the chunk, up to number `hi`.
  pub data IsData (hi : ℕ) (d : Datagram) : Type 0 where
    numbered :
        (n : ℕ) (to : Target)
        → n < hi
        → d ≡ send_packet (nth_data_packet blank chunk_data (n + 1)) to
        → IsData hi d

  -- A datagram that acknowledges a packet up to number `hi`.
  pub data IsAck (hi : ℕ) (d : Datagram) : Type 0 where
    acks :
        (n : ℕ) (to : Target) → n ≤ hi → d ≡ send_packet (malloc_ack_packet blank n) to → IsAck hi d

  -- The receiver has the first `received_seq_num` packets, byte for byte.
  pub record HasPrefix (c : Chunk) : Type 0 where
    pub seq_le : c.received_seq_num ≤ chunk_data_num
    pub byte_num : c.received_byte_num ≡ c.received_seq_num * data_packet_payload_size
    pub written : c.received_byte_num ≤ length (bytes_of c.chunk_data)
    pub prefix :
        take c.received_byte_num (bytes_of c.chunk_data) ≡ take c.received_byte_num chunk_data

  module _ (size : length chunk_data ≡ chunk_data_size) where
    -- The next packet, where it is expected, makes the prefix longer by one packet.
    pub save_data_packet-HasPrefix :
        (c : Chunk) (p : Packet) (n : ℕ)
        → HasPrefix c
        → c.received_seq_num ≡ n
        → n < chunk_data_num
        → signed32 p.header.seq_number ≡ pos (n + 1)
        → data_size p ≡ data_packet_payload_size
        → take data_packet_payload_size p.payload
          ≡ take data_packet_payload_size (drop (n * data_packet_payload_size) chunk_data)
        → HasPrefix (save_data_packet p c) × ((save_data_packet p c).received_seq_num ≡ n + 1)
    unfolding save_data_packet
    save_data_packet-HasPrefix c p n v e lt seq len bytes =
        let at = c.received_byte_num in
        let src = take (data_size p) p.payload in
        let old = bytes_of c.chunk_data in
        let src_eq : src ≡ take data_packet_payload_size (drop at chunk_data) =
          rw (len, v.byte_num, e) bytes in
        let src_size : length src ≡ data_packet_payload_size =
          ap length src_eq
          ∙ omega (
            arith,
            length-take data_packet_payload_size (drop at chunk_data),
            length-drop at chunk_data,
            v.byte_num,
            size,
          ) in
        let number : pos_part (signed32 p.header.seq_number) ≡ n + 1 = ap pos_part seq in
        (
          record {
            seq_le = omega (arith, number);
            byte_num = omega (arith, number, len, v.byte_num);
            written = omega (arith, le-length-memcpy old src at v.written, src_size, len);
            prefix =
                take-memcpy old src at (at + data_size p) v.written (omega (arith, src_size, len))
                ∙ ap₂ ◌++◌ v.prefix src_eq
                ∙ take-append-take-drop at data_packet_payload_size chunk_data
                ∙ ap (λ (k : ℕ). take (at + k) chunk_data) (sym len);
          },
          number,
        )

    -- What the receiver does with the packet number `n + 1`, by what it has.
    pub receive-old :
        (c : Chunk) (p : Packet) (n : ℕ)
        → signed32 p.header.seq_number ≡ pos (n + 1)
        → n < c.received_seq_num
        → receive_data blank p c ≡ record { chunk = c; reply = []; took = false }
    unfolding receive_data
    receive-old c p n e h = rw (e, receive_data) (ground arith)

    pub receive-expected :
        (c : Chunk) (p : Packet) (n : ℕ)
        → signed32 p.header.seq_number ≡ pos (n + 1)
        → n ≡ c.received_seq_num
        → receive_data blank p c ≡ record {
          chunk = save_data_packet p c;
          reply = malloc_ack_packet blank (1 + c.received_seq_num) ∷ [];
          took = true;
        }
    unfolding receive_data
    receive-expected c p n e h = rw (e, receive_data) (ground arith)

    pub receive-early :
        (c : Chunk) (p : Packet) (n : ℕ)
        → signed32 p.header.seq_number ≡ pos (n + 1)
        → c.received_seq_num < n
        → receive_data blank p c ≡ record {
          chunk = c;
          reply = malloc_ack_packet blank c.received_seq_num ∷ [];
          took = false;
        }
    unfolding receive_data
    receive-early c p n e h = rw (e, receive_data) (ground arith)

pub compare_cases : (a b : ℕ) → (a < b) ⊎ (a ≡ b) ⊎ (b < a)
compare_cases a b = grind arith

pub IsAck-mono :
    {blank chunk_data : List ℕ} {hi hi' : ℕ} {d : Datagram}
    → hi ≤ hi'
    → IsAck blank chunk_data hi d
    → IsAck blank chunk_data hi' d
IsAck-mono le (acks n to h e) = acks n to (omega arith) e

module _ (blank chunk_data : List ℕ) (size : length chunk_data ≡ chunk_data_size)
    (start_time : Timeval) (from : Sockaddr) where
  abbrev pub back : Packet → Datagram
  back p = send_packet p (to_sender from)

  -- What a reception may do to a chunk.
  pub record GoodReception (c : Chunk) (r : Reception) : Type 0 where
    pub chunk_ok : HasPrefix blank chunk_data r.chunk
    pub grows : c.received_seq_num ≤ r.chunk.received_seq_num
    pub replies_ok :
        (d : Datagram)
        → Memᴰ d (map back r.reply)
        → IsAck blank chunk_data r.chunk.received_seq_num d

  one_reply :
      (n hi : ℕ)
      → n ≤ hi
      → (d : Datagram) → Memᴰ d (map back (malloc_ack_packet blank n ∷ []))
      → IsAck blank chunk_data hi d
  one_reply n hi le d (Memᴰ.head e) = acks n (to_sender from) le e
  one_reply n hi le d (Memᴰ.tail m) = elim m [ ]

  no_reply : (hi : ℕ) (d : Datagram) → Memᴰ d (map back []) → IsAck blank chunk_data hi d
  no_reply hi d m = elim m [ ]

  pub reception_good :
      (c : Chunk) (n : ℕ) (to : Target) (stale : List ℕ)
      → HasPrefix blank chunk_data c
      → n < chunk_data_num
      → GoodReception c (
          receive_data blank
            (arrive (send_packet (nth_data_packet blank chunk_data (n + 1)) to) stale)
            c)
  reception_good c n to stale v lt = elim (compare_cases n c.received_seq_num) [
    | inl old ↦
        rw (receive-old blank chunk_data size c p n seq old)
          (record { chunk_ok = v; grows = omega arith; replies_ok = no_reply _ })
    | inr (inl same) ↦
        let next =
          save_data_packet-HasPrefix blank chunk_data size c p n v (sym same) lt seq len bytes in
        rw (receive-expected blank chunk_data size c p n seq same) (record {
          chunk_ok = next.0;
          grows = omega (arith, next.1);
          replies_ok = one_reply _ _ (omega (arith, next.1));
        })
    | inr (inr early) ↦
        rw (receive-early blank chunk_data size c p n seq early)
          (record { chunk_ok = v; grows = omega arith; replies_ok = one_reply _ _ (omega arith) })
  ]
    where
      p : Packet
      p = arrive (send_packet (nth_data_packet blank chunk_data (n + 1)) to) stale

      seq : signed32 p.header.seq_number ≡ pos (n + 1)
      seq = (data-arrives blank to stale chunk_data size (n + 1) (omega arith)).0

      len : data_size p ≡ data_packet_payload_size
      len = (data-arrives blank to stale chunk_data size (n + 1) (omega arith)).1

      bytes :
          take data_packet_payload_size p.payload
          ≡ take data_packet_payload_size (drop (n * data_packet_payload_size) chunk_data)
      bytes = payload-arrives blank to stale chunk_data size n lt
