-- ===== src/Wire.antt =====
-- packet.h, packet.c and peer.c: packets as the bytes that go to a socket and come from one. A field
-- stands in memory with its low byte first.
pub mod Delivers
use project_2_congest.Base.{ℕ, ◌+◌, ◌%◌, ◌++◌, List, [], ◌∷◌, take, drop}
use project_2_congest.Base.Memory.{slice}
use project_2_congest.Clock.{Timeval}
use project_2_congest.Packet.{
  Header, Packet, Sockaddr, host_to_net_header, header_size, max_packet_length,
}
use project_2_congest.Spiffy.{
  Spiffy, Frame, Received, short_bytes, int_bytes, number, spiffy_frame, spiffy_recvfrom,
}
use project_2_congest.Peer.{Peer, Env, process_inbound_udp}

-- `struct header_s` in memory.
unfoldable pub header_memory : Header → List ℕ
header_memory h =
    short_bytes h.magic_number
    ++ (h.version_number % 256
        ∷ h.packet_type % 256
        ∷ (short_bytes h.header_length
            ++ (short_bytes h.packet_length ++ (int_bytes h.seq_number ++ int_bytes h.ack_number))))

-- The message that `send_packet` gives to `spiffy_sendto`.
unfoldable pub sent_bytes : Packet → List ℕ
unfolding header_memory
sent_bytes packet =
    take packet.header.packet_length
      (header_memory (host_to_net_header packet.header) ++ packet.payload)

-- The call of `sendto` for a packet that goes to the address `to`.
unfoldable pub send_frame : Spiffy → Packet → Sockaddr → Frame
unfolding sent_bytes
send_frame s packet to = spiffy_frame s (sent_bytes packet) to

-- The buffer, taken for a `struct network_packet_s`.
unfoldable pub packet_of : List ℕ → Packet
packet_of buf = record {
  header = record {
    magic_number = number (slice 0 2 buf);
    version_number = number (slice 2 1 buf);
    packet_type = number (slice 3 1 buf);
    header_length = number (slice 4 2 buf);
    packet_length = number (slice 6 2 buf);
    seq_number = number (slice 8 4 buf);
    ack_number = number (slice 12 4 buf);
  };
  payload = drop header_size buf;
}

-- All of `process_inbound_udp`, the call of `spiffy_recvfrom` included, whose value it does not look
-- at: `buf` and `from` are what stands in its variables before, and `got` is as in `spiffy_recvfrom`.
unfoldable pub process_inbound_datagram :
    Env → Timeval → Spiffy → List ℕ → Sockaddr → Received → Peer → Peer
unfolding packet_of
process_inbound_datagram e now spiffy buf from got s =
    let received = spiffy_recvfrom spiffy max_packet_length buf from got in
    process_inbound_udp e now (packet_of received.buffer) received.from s
