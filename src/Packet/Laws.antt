-- ===== src/Packet/Laws.antt =====
-- packet.c: the byte order round trip, and the packets that validation lets through.
use project_2_congest.Base.{ℕ, ◌^◌, ◌≤◌, ◌<◌, ◌≡◌, ◌↔◌, refl, arith}
use project_2_congest.Base.Int.{pos}
use project_2_congest.Base.Word.{swap16-swap16, swap32-swap32}
use project_2_congest.Packet.{
  Header, validate_packet, host_to_net_header, net_to_host_header, magic_number_value,
  version_number_value, make_header,
}

-- The fields are as wide as their types.
pub record IsHeader (h : Header) : Type 0 where
  pub magic_lt : h.magic_number < 2 ^ 16
  pub version_lt : h.version_number < 2 ^ 8
  pub type_lt : h.packet_type < 2 ^ 8
  pub header_length_lt : h.header_length < 2 ^ 16
  pub packet_length_lt : h.packet_length < 2 ^ 16
  pub seq_lt : h.seq_number < 2 ^ 32
  pub ack_lt : h.ack_number < 2 ^ 32

-- A header whose fields are as wide as their types is read back as it was after it was put into
-- network order.
pub net_to_host-host_to_net :
    (h : Header) → IsHeader h → net_to_host_header (host_to_net_header h) ≡ h
unfolding net_to_host_header host_to_net_header
net_to_host-host_to_net h w = ground (
  arith,
  swap16-swap16 h.magic_number,
  swap16-swap16 h.header_length,
  swap16-swap16 h.packet_length,
  swap32-swap32 h.seq_number,
  swap32-swap32 h.ack_number,
)

-- A header whose fields are as wide as their types is valid exactly if it has the magic number, the
-- version and one of the six types.
pub validate_packet_iff :
    (h : Header)
    → IsHeader h
    → (validate_packet h ≡ pos 1) ↔ (
        (h.magic_number ≡ magic_number_value)
        × (h.version_number ≡ version_number_value)
        × (h.packet_type ≤ 5))
unfolding validate_packet
validate_packet_iff h w = ground arith

-- A header that this node makes, of a type up to 5, is valid once it has gone into network order and
-- back.
validate_packet-make_header :
    (packet_type len seq ack : ℕ)
    → packet_type ≤ 5
    → validate_packet
        (net_to_host_header (host_to_net_header (make_header packet_type len seq ack)))
      ≡ pos 1
validate_packet-make_header packet_type len seq ack h =
    let made = make_header packet_type len seq ack in
    let wide : IsHeader made = unfold make_header in omega arith in
    rw (net_to_host-host_to_net made wide)
      ((validate_packet_iff made wide).1 (unfold make_header in (refl, refl, h)))
