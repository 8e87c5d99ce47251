-- ===== src/Packet.antt =====
-- packet.h and packet.c: the header, its validation, its byte order on the network, and sending.
-- A field of the header is the bit pattern of its `short`, `char` or `int`.
pub mod Laws
use project_2_congest.Base.{
  ℕ, ◌+◌, ◌-◌, ◌*◌, ◌%◌, ◌^◌, ◌<◌, Bool, not, Option, ◌||◌, List, take, ltb, ◌==◌, if◌then◌else◌,
}
use project_2_congest.Base.Int.{ℤ, pos, negsuc, ltb_ℤ, ◌==ℤ◌}
use project_2_congest.Base.Word.{signed8, signed16, swap16, swap32}

abbrev pub magic_number_value : ℕ
magic_number_value = 15441

abbrev pub version_number_value : ℕ
version_number_value = 1

abbrev pub type_whohas : ℕ
type_whohas = 0

abbrev pub type_ihave : ℕ
type_ihave = 1

abbrev pub type_get : ℕ
type_get = 2

abbrev pub type_data : ℕ
type_data = 3

abbrev pub type_ack : ℕ
type_ack = 4

abbrev pub type_denied : ℕ
type_denied = 5

abbrev pub max_packet_length : ℕ
max_packet_length = 1500

abbrev pub header_size : ℕ
header_size = 16

abbrev pub max_payload_length : ℕ
max_payload_length = max_packet_length - header_size

abbrev pub max_hash_list_num : ℕ
max_hash_list_num = 74

abbrev pub alignment_byte_num : ℕ
alignment_byte_num = 4

-- HASH_CHUNK_SIZE and SHA1_HASH_SIZE.
abbrev pub hash_size : ℕ
hash_size = 20

abbrev pub data_packet_payload_size : ℕ
data_packet_payload_size = 1024

abbrev pub chunk_data_num : ℕ
chunk_data_num = 512

abbrev pub chunk_data_size : ℕ
chunk_data_size = 512 * 1024

-- `struct header_s`.
pub record Header : Type 0 where
  pub magic_number : ℕ
  pub version_number : ℕ
  pub packet_type : ℕ
  pub header_length : ℕ
  pub packet_length : ℕ
  pub seq_number : ℕ
  pub ack_number : ℕ

-- `struct network_packet_s`.
pub record Packet : Type 0 where
  pub header : Header
  pub payload : List ℕ

-- The header that every packet of this node starts from; the fields wrap at their width.
unfoldable pub make_header : ℕ → ℕ → ℕ → ℕ → Header
make_header packet_type packet_length seq ack = record {
  magic_number = magic_number_value;
  version_number = version_number_value;
  packet_type = packet_type;
  header_length = header_size;
  packet_length = packet_length % 2 ^ 16;
  seq_number = seq % 2 ^ 32;
  ack_number = ack % 2 ^ 32;
}

unfoldable pub get_packet_type : Header → ℤ
get_packet_type h = signed8 h.packet_type

unfoldable pub validate_packet : Header → ℤ
validate_packet h =
    if not (signed16 h.magic_number ==ℤ pos magic_number_value)
    then negsuc 0
    else if not (signed8 h.version_number ==ℤ pos version_number_value)
    then negsuc 0
    else if ltb_ℤ (signed8 h.packet_type) (pos 0) || ltb_ℤ (pos 5) (signed8 h.packet_type)
    then negsuc 0
    else pos 1

unfoldable pub host_to_net_header : Header → Header
host_to_net_header h = record h {
  magic_number = swap16 h.magic_number;
  header_length = swap16 h.header_length;
  packet_length = swap16 h.packet_length;
  seq_number = swap32 h.seq_number;
  ack_number = swap32 h.ack_number;
}

unfoldable pub net_to_host_header : Header → Header
net_to_host_header h = record h {
  magic_number = swap16 h.magic_number;
  header_length = swap16 h.header_length;
  packet_length = swap16 h.packet_length;
  seq_number = swap32 h.seq_number;
  ack_number = swap32 h.ack_number;
}

-- `struct sockaddr_in`.
pub record Sockaddr : Type 0 where
  pub sin_addr : ℕ
  pub sin_port : ℕ

-- Where a packet goes: to the address that a packet came from, or to that of a peer, whose pointer
-- is its place in the list of peers (`none` is NULL).
pub data Target : Type 0 where
  to_sender : Sockaddr → Target
  to_peer : Option ℕ → Target

-- What goes to the socket: the header in network order, and the payload cut at the packet's length.
pub record Datagram : Type 0 where
  pub packet : Packet
  pub to : Target

unfoldable pub send_packet : Packet → Target → Datagram
send_packet p to = record {
  packet = record {
    header = host_to_net_header p.header;
    payload = take (p.header.packet_length - header_size) p.payload;
  };
  to = to;
}
