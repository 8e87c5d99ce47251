-- ===== src/Tests/Programs.antt =====
-- peer.c: a DATA packet by way of the router, and a node from its start on, on whose standard input
-- a GET command is typed.
use project_2_congest.Base.{
  ℕ, ◌≡◌, ◌-◌, ◌++◌, refl, true, none, some, List, [], ◌∷◌, length, take, replicate, arith,
}
use project_2_congest.Base.Int.{ℤ, pos}
use project_2_congest.Packet.{Packet, to_sender, type_data}
use project_2_congest.Spiffy.{Frame}
use project_2_congest.Job.{new_chunk}
use project_2_congest.Peer.{process_inbound_udp}
use project_2_congest.Wire.{send_frame, process_inbound_datagram}
use project_2_congest.Wire.Delivers.{IsPacket, in_buffer, send_frame-delivers}
use project_2_congest.Program.{Libc, Start, Turn, Running}
use project_2_congest.Tests.Configs.{digit, bits_or, scan, resolve, files, options}
use project_2_congest.Tests.Routed.{router, first_node, second_node, second_addr, nobody}
use project_2_congest.Tests.Peers.{zero_time, later, node, env}

abbrev data_packet : Packet
data_packet = record {
  header = record {
    magic_number = 15441;
    version_number = 1;
    packet_type = type_data;
    header_length = 16;
    packet_length = 19;
    seq_number = 1;
    ack_number = 0;
  };
  payload = 1 ∷ 2 ∷ 3 ∷ 0 ∷ [];
}

data_packet-IsPacket : IsPacket data_packet
data_packet-IsPacket = record {
  header = omega arith;
  whole = omega arith;
  fits = omega arith;
  filled = omega arith;
}

abbrev frame : Frame
frame = send_frame first_node data_packet second_addr

send_frame-delivers_example :
    (frame.target ≡ router)
    × (process_inbound_datagram env later second_node [] nobody
          (record {
            from = router;
            buffer = frame.bytes ++ (7 ∷ 7 ∷ []);
            ret_val = pos (length frame.bytes);
          })
          node
        ≡ process_inbound_udp env later
            (in_buffer data_packet (to_sender second_addr) (take (1500 - 19) (7 ∷ 7 ∷ [])))
            (record { sin_addr = 0x0100007f; sin_port = 0xae08 })
            node)
send_frame-delivers_example =
    send_frame-delivers env later first_node second_node data_packet data_packet-IsPacket
      second_addr nobody router (to_sender second_addr) (7 ∷ 7 ∷ []) [] node refl refl (omega arith)
      (omega arith)

-- A line with a command has a letter, the name of a chunk file and the name `a`.
abbrev scan_get : List ℕ → ℤ × List ℕ × List ℕ
scan_get [] = (pos 0, [], [])
scan_get (letter ∷ name) = (pos 2, name, b'a' ∷ [])

abbrev scan_job : List ℕ → ℕ × List ℕ
scan_job line = (digit line, replicate 40 b'0')

abbrev libc : Libc
libc = record {
  bits_or = bits_or;
  atoi = digit;
  inet_aton = resolve;
  gethostbyname = resolve;
  scan_peer = scan;
  scan_job = scan_job;
  scan_get = scan_get;
  files = files;
}

abbrev start : Start
start = record {
  options = options;
  spiffy_router = some (b'r' ∷ b':' ∷ b'1' ∷ []);
  socket_opened = true;
  bound = true;
  now = zero_time;
  fresh = λ i. new_chunk 0 [];
}

-- The command comes in two parts, and between them a packet from the router.
abbrev turns : List Turn
turns =
    record { now = zero_time; datagram = none; input = some (b'G' ∷ []) }
    ∷ record {
      now = later;
      datagram = some (record {
        buf = [];
        from = nobody;
        got = record { from = router; buffer = frame.bytes; ret_val = pos (length frame.bytes) };
      });
      input = none;
    }
    ∷ record { now = later; datagram = none; input = some (b'c' ∷ b'\n' ∷ []) }
    ∷ []

-- A node whose buffer is full, with a line that has no end.
abbrev full_node : Running
full_node = record {
  node = node;
  spiffy = first_node;
  userbuf = record { buf = replicate 8190 b'G'; cur = 8190 };
  last_flood_whohas_time = zero_time;
}
