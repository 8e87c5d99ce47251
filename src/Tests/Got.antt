-- ===== src/Tests/Got.antt =====
-- peer.c: a node that asks for a file of three bytes and gets it.
use project_2_congest.Base.{
  ℕ, zero, suc, none, some, true, List, [], ◌∷◌, ◌++◌, replicate, if◌then◌else◌,
}
use project_2_congest.Base.Memory.{same_bytes}
use project_2_congest.Base.Word.{swap16, swap32}
use project_2_congest.Packet.{Packet, chunk_data_size}
use project_2_congest.Peer.{Peer, Env}
use project_2_congest.Peer.Loop.{Command, Happening, peer_run, init_connections}
use project_2_congest.Tests.Peers.{zero_time, later, node, env, home}

abbrev file : List ℕ
file = 1 ∷ 2 ∷ 3 ∷ []

abbrev machine : Env
machine = record env {
  platform = record {
    shahash = λ bytes. if same_bytes bytes file then replicate 20 0 else replicate 20 1;
    opens = λ name. true;
    fwrite = λ w. chunk_data_size;
  };
}

-- A line that starts with the number.
abbrev print : ℕ × List ℕ → List ℕ
print line = line.0 ∷ line.1

abbrev scan_line : List ℕ → ℕ × List ℕ
scan_line [] = (0, [])
scan_line (x ∷ xs) = (x, xs)

abbrev packet : ℕ → ℕ → ℕ → List ℕ → Packet
packet packet_type packet_length seq_number payload = record {
  header = record {
    magic_number = 0x513c;
    version_number = 1;
    packet_type = packet_type;
    header_length = 0x1000;
    packet_length = swap16 packet_length;
    seq_number = swap32 seq_number;
    ack_number = 0;
  };
  payload = payload;
}

abbrev heard : Packet → Happening
heard p = record { now = later; inbound = some (p, home); commands = [] }

-- DATA packets of 1500 bytes. What stands in a buffer behind the bytes of the file is left out.
abbrev data_from : ℕ → ℕ → List Happening
data_from zero seq_number = []
data_from (suc n) seq_number = heard (packet 3 1500 seq_number []) ∷ data_from n (suc seq_number)

abbrev command : Command
command = record { chunk_lines = some ((0 ∷ replicate 40 b'0') ∷ []); outf = b'a' ∷ [] }

-- GET, an IHAVE packet with the hash, and 354 DATA packets, which make 512 KB.
abbrev rounds : List Happening
rounds =
    record { now = zero_time; inbound = none; commands = command ∷ [] }
    ∷ heard (packet 1 40 0 (1 ∷ replicate 23 0))
    ∷ heard (packet 3 1500 1 file)
    ∷ (data_from 352 2 ++ (heard (packet 3 452 354 []) ∷ []))

abbrev after : Peer
after = (peer_run machine scan_line rounds (init_connections 4 node) zero_time).0
