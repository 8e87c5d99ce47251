-- ===== src/Transfer/Arrival.antt =====
-- packet.c and connection.c: how a packet that was sent looks where it arrives.
use project_2_congest.Base.{
  ℕ, ◌+◌, ◌-◌, ◌*◌, ◌≤◌, ◌<◌, ◌≡◌, ap, ◌∙◌, List, ◌++◌, length, take, drop, length-take,
  length-drop, take-append, arith,
}
use project_2_congest.Base.Int.{pos, ◌-ℤ◌}
use project_2_congest.Base.Word.{signed32}
use project_2_congest.Base.Memory.{memcpy}
use project_2_congest.Packet.{
  Packet, Datagram, Target, send_packet, net_to_host_header, make_header, header_size,
  chunk_data_num, chunk_data_size, data_packet_payload_size, type_data, type_ack,
}
use project_2_congest.Packet.Laws.{net_to_host-host_to_net, IsHeader}
use project_2_congest.Job.{malloc_data_packet, malloc_ack_packet}
use project_2_congest.Connection.Provider.{nth_data_packet}
use project_2_congest.Connection.Receiver.{data_size}

-- `stale` is what the buffer held behind the bytes that came in.
unfoldable pub arrive : Datagram → List ℕ → Packet
arrive d stale = record {
  header = net_to_host_header d.packet.header;
  payload = d.packet.payload ++ stale;
}

data_size_of_header :
    (n : ℕ) (p : Packet)
    → p.header ≡ make_header type_data (header_size + data_packet_payload_size) n 0
    → data_size p ≡ data_packet_payload_size
unfolding data_size make_header ◌-ℤ◌
data_size_of_header n p e = ground arith

module _ (blank : List ℕ) (to : Target) (stale : List ℕ) where
  -- An acknowledgment arrives with its number.
  pub ack-arrives :
      (n : ℕ)
      → n ≤ chunk_data_num
      → signed32 (arrive (send_packet (malloc_ack_packet blank n) to) stale).header.ack_number
        ≡ pos n
  unfolding arrive send_packet malloc_ack_packet
  ack-arrives n h =
      let wide : IsHeader (make_header type_ack header_size 0 n) =
        unfold make_header in omega arith in
      rw (net_to_host-host_to_net (make_header type_ack header_size 0 n) wide)
        (unfold make_header in ground arith)

  module _ (chunk_data : List ℕ) (size : length chunk_data ≡ chunk_data_size) where
    abbrev pub data_packet : ℕ → Packet
    data_packet n = arrive (send_packet (nth_data_packet blank chunk_data n) to) stale

    data_header :
        (n : ℕ)
        → n ≤ chunk_data_num
        → (data_packet n).header
          ≡ make_header type_data (header_size + data_packet_payload_size) n 0
    unfolding arrive send_packet malloc_data_packet
    data_header n h =
        net_to_host-host_to_net (make_header type_data (header_size + data_packet_payload_size) n 0)
          (unfold make_header in omega arith)

    pub data-arrives :
        (n : ℕ)
        → n ≤ chunk_data_num
        → (signed32 (data_packet n).header.seq_number ≡ pos n)
          × (data_size (data_packet n) ≡ data_packet_payload_size)
    data-arrives n h = (
      rw (data_header n h) (unfold make_header in ground arith),
      data_size_of_header n (data_packet n) (data_header n h),
    )

    -- The bytes of the packet number `n + 1`.
    pub payload-arrives :
        (n : ℕ)
        → n < chunk_data_num
        → take data_packet_payload_size (data_packet (n + 1)).payload
          ≡ take data_packet_payload_size (drop (n * data_packet_payload_size) chunk_data)
    unfolding arrive send_packet malloc_data_packet make_header memcpy
    payload-arrives n h =
        let src =
          take data_packet_payload_size
            (drop ((n + 1 - 1) * data_packet_payload_size) chunk_data) in
        let len : data_packet_payload_size ≡ length src = omega (
          arith,
          length-take data_packet_payload_size
              (drop ((n + 1 - 1) * data_packet_payload_size) chunk_data),
          length-drop ((n + 1 - 1) * data_packet_payload_size) chunk_data,
        ) in
        let e : n + 1 - 1 ≡ n = omega arith in
        ap (λ bs. take data_packet_payload_size (bs ++ stale))
          (take-append src (drop (0 + length src) blank) data_packet_payload_size len)
        ∙ take-append src stale data_packet_payload_size len
        ∙ ap
            (λ (k : ℕ).
              take data_packet_payload_size (drop (k * data_packet_payload_size) chunk_data))
            e
