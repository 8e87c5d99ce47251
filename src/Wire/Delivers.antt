-- ===== src/Wire/Delivers.antt =====
-- packet.c, spiffy.c and peer.c: a packet that was sent comes out of the buffer of the node that
-- receives it.
use mathlib.Core.List.{append_assoc}
use project_2_congest.Base.{
  ℕ, zero, suc, ◌+◌, ◌-◌, ◌%◌, ◌^◌, ◌≤◌, ◌<◌, ◌≡◌, refl, ap, ap₂, ◌∙◌, true, false, List, [], ◌∷◌,
  ◌++◌, length, take, length-take, length-append, arith,
}
use project_2_congest.Base.Int.{pos}
use project_2_congest.Base.Memory.{slice}
use project_2_congest.Base.Word.{swap16, swap32}
use project_2_congest.Clock.{Timeval}
use project_2_congest.Packet.{
  Header, Packet, Sockaddr, Target, send_packet, host_to_net_header, header_size, max_packet_length,
}
use project_2_congest.Packet.Laws.{IsHeader}
use project_2_congest.Spiffy.{Spiffy, number, spiffy_recvfrom, spiffy_frame}
use project_2_congest.Spiffy.Delivers.{spiffy-receives, int_back, short_back}
use project_2_congest.Peer.{Peer, Env, process_inbound_udp}
use project_2_congest.Wire.{
  header_memory, sent_bytes, send_frame, packet_of, process_inbound_datagram,
}

-- A packet as it is made for a message of its length, which the buffer has room for.
pub record IsPacket (p : Packet) : Type 0 where
  pub header : IsHeader p.header
  pub whole : header_size ≤ p.header.packet_length
  pub fits : p.header.packet_length ≤ max_packet_length
  pub filled : p.header.packet_length ≤ header_size + length p.payload

-- What the buffer holds of a packet, with `stale` behind it.
abbrev pub in_buffer : Packet → Target → List ℕ → Packet
in_buffer p to stale =
    let packet = (send_packet p to).packet in record packet { payload = packet.payload ++ stale }

net_header : (h : Header) → IsHeader h → IsHeader (host_to_net_header h)
unfolding host_to_net_header swap16 swap32
net_header h w = record {
  magic_lt = omega arith;
  version_lt = w.version_lt;
  type_lt = w.type_lt;
  header_length_lt = omega arith;
  packet_length_lt = omega arith;
  seq_lt = omega arith;
  ack_lt = omega arith;
}

take-append_more :
    (xs ys : List ℕ) (n m : ℕ) → n ≡ length xs + m → take n (xs ++ ys) ≡ xs ++ take m ys
take-append_more [] ys n m e = let same : n ≡ m = omega (arith, e) in ap (λ (k : ℕ). take k ys) same
take-append_more (x ∷ xs) ys zero m e = absurd (omega (arith, e))
take-append_more (x ∷ xs) ys (suc n) m e =
    ap (◌∷◌ x) (take-append_more xs ys n m (omega (arith, e)))

length-header_memory : (h : Header) → length (header_memory h) ≡ 16
unfolding header_memory
length-header_memory h = refl

byte_back : (n : ℕ) → n < 2 ^ 8 → number (n % 256 ∷ []) ≡ n
byte_back n h = omega (arith, h)

-- The buffer is read as it was laid out.
packet_of-header_memory :
    (h : Header) (rest : List ℕ)
    → IsHeader h
    → packet_of (header_memory h ++ rest) ≡ record { header = h; payload = rest }
unfolding packet_of header_memory slice
packet_of-header_memory h rest w =
    rw
      (
        short_back h.magic_number w.magic_lt,
        byte_back h.version_number w.version_lt,
        byte_back h.packet_type w.type_lt,
        short_back h.header_length w.header_length_lt,
        short_back h.packet_length w.packet_length_lt,
        int_back h.seq_number w.seq_lt,
        int_back h.ack_number w.ack_lt,
      )
      refl

cut_lem :
    (p : Packet)
    → IsPacket p
    → sent_bytes p
      ≡ header_memory (host_to_net_header p.header)
        ++ take (p.header.packet_length - header_size) p.payload
unfolding sent_bytes
cut_lem p w =
    let h = host_to_net_header p.header in
    take-append_more (header_memory h) p.payload p.header.packet_length
      (p.header.packet_length - header_size) (omega (arith, length-header_memory h, w.whole))

-- A packet that was sent, with the bytes `stale` behind it, is taken for what send_packet made of it,
-- with `stale` behind its payload.
pub packet_of-sent_bytes :
    (p : Packet) (to : Target) (stale : List ℕ)
    → IsPacket p
    → packet_of (sent_bytes p ++ stale) ≡ in_buffer p to stale
unfolding send_packet
packet_of-sent_bytes p to stale w =
    let h = host_to_net_header p.header in
    let n = p.header.packet_length - header_size in
    ap (λ bs. packet_of (bs ++ stale)) (cut_lem p w)
    ∙ ap packet_of (append_assoc (header_memory h) (take n p.payload) stale)
    ∙ packet_of-header_memory h (take n p.payload ++ stale) (net_header p.header w.header)

pub length-sent_bytes : (p : Packet) → IsPacket p → length (sent_bytes p) ≡ p.header.packet_length
length-sent_bytes p w =
    let h = host_to_net_header p.header in
    let n = p.header.packet_length - header_size in
    omega (
      arith,
      ap (λ (bs : List ℕ). length bs) (cut_lem p w),
      length-append (header_memory h) (take n p.payload),
      length-header_memory h,
      length-take n p.payload,
      w.whole,
      w.filled,
    )

module _ (e : Env) (now : Timeval) (sender receiver : Spiffy) (p : Packet) (w : IsPacket p) where
  -- If two nodes use a router, which hands a datagram on as it came, and the first has an address of
  -- 32 bits and a port of 16: a packet that is as long as its header says, with at least the header
  -- and at most as many bytes as the buffer has, goes to the router when it is sent, and the other
  -- node handles it as the packet that send_packet made of it, with what the network left in the
  -- memory behind it, from the address of the node that sent it.
  pub send_frame-delivers :
      (to from router_addr : Sockaddr) (t : Target) (stale buf : List ℕ) (s : Peer)
      → sender.enabled ≡ true
      → receiver.enabled ≡ true
      → sender.own_addr < 2 ^ 32
      → sender.own_port < 2 ^ 16
      → let frame = send_frame sender p to in
        (frame.target ≡ sender.router)
        × (process_inbound_datagram e now receiver buf from
              (record {
                from = router_addr;
                buffer = frame.bytes ++ stale;
                ret_val = pos (length frame.bytes);
              })
              s
            ≡ process_inbound_udp e now
                (in_buffer p t (take (max_packet_length - p.header.packet_length) stale))
                (record { sin_addr = sender.own_addr; sin_port = sender.own_port })
                s)
  unfolding process_inbound_datagram send_frame
  send_frame-delivers to from router_addr t stale buf s on on' addr port =
      let msg = sent_bytes p in
      let left = max_packet_length - p.header.packet_length in
      let r =
        spiffy-receives sender receiver max_packet_length msg stale buf to from router_addr on on'
          addr port in
      let rest : take max_packet_length (msg ++ stale) ≡ msg ++ take left stale =
        take-append_more msg stale max_packet_length left
          (omega (arith, length-sent_bytes p w, w.fits)) in
      (
        r.0,
        ap₂ (λ bs (a : Sockaddr). process_inbound_udp e now (packet_of bs) a s) (r.2 ∙ rest) r.1
            ∙ ap
                (λ (q : Packet).
                  process_inbound_udp e now q
                    (record { sin_addr = sender.own_addr; sin_port = sender.own_port }) s)
                (packet_of-sent_bytes p t (take left stale) w),
      )

  -- Without a router a packet goes to its target itself, and is handled the same way, from the
  -- address that `recvfrom` gives.
  pub send_frame-plain :
      (to from sender_addr : Sockaddr) (t : Target) (stale buf : List ℕ) (s : Peer)
      → sender.enabled ≡ false
      → receiver.enabled ≡ false
      → let frame = send_frame sender p to in
        (frame.target ≡ to)
        × (process_inbound_datagram e now receiver buf from
              (record {
                from = sender_addr;
                buffer = frame.bytes ++ stale;
                ret_val = pos (length frame.bytes);
              })
              s
            ≡ process_inbound_udp e now (in_buffer p t stale) sender_addr s)
  unfolding process_inbound_datagram send_frame spiffy_frame spiffy_recvfrom
  send_frame-plain to from sender_addr t stale buf s off off' =
      rw (off, off', spiffy_frame, spiffy_recvfrom)
        (
          refl,
          ap (λ (q : Packet). process_inbound_udp e now q sender_addr s)
              (packet_of-sent_bytes p t stale w),
        )
