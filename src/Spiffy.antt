-- ===== src/Spiffy.antt =====
-- spiffy.h and spiffy.c: datagrams by way of a router, which stands between the nodes when the
-- environment names one. A datagram then starts with a header of 16 bytes, its fields as they stand
-- in the memory of a machine that puts the low byte first.
pub mod Delivers
use project_2_congest.Base.{
  ◌^◌, ℕ, zero, suc, ◌+◌, ◌-◌, ◌*◌, ◌/◌, ◌%◌, Bool, true, false, not, Option, none, some, List, [],
  ◌∷◌, ◌++◌, length, take, drop, if◌then◌else◌,
}
use project_2_congest.Base.Int.{ℤ, pos, negsuc, ltb_ℤ, ◌-ℤ◌}
use project_2_congest.Base.Memory.{slice}
use project_2_congest.Base.Word.{swap16, swap32}
use project_2_congest.Input.{strchr, c_string}
use project_2_congest.Packet.{Sockaddr}

-- `spiffy_header`; every field is a bit pattern.
pub record SpiffyHeader : Type 0 where
  pub id : ℕ
  pub src_addr : ℕ
  pub dest_addr : ℕ
  pub src_port : ℕ
  pub dest_port : ℕ

abbrev pub spiffy_header_size : ℕ
spiffy_header_size = 16

-- The globals. `enabled` is `giSpiffyEnabled`.
pub record Spiffy : Type 0 where
  pub enabled : Bool
  pub node_id : ℕ
  pub own_addr : ℕ
  pub own_port : ℕ
  pub router : Sockaddr

-- `atoi` gives the bit pattern of an `int`, and `inet_aton` an address if the text is one; `name` is
-- the value of SPIFFY_ROUTER. `addr` is the address of the node.
module _ (atoi : List ℕ → ℕ) (inet_aton : List ℕ → Option ℕ) where
  abbrev pub with_router : List ℕ → Option ℕ → ℕ → Sockaddr → Spiffy → Spiffy × ℤ
  with_router name none node_id addr s = (s, negsuc 0)
  with_router name (some k) node_id addr s =
      let port = swap16 (atoi (c_string (drop (suc k) name)) % 2 ^ 16) in
      let ported = record s { router = record s.router { sin_port = port } } in
      elim (inet_aton (take k name)) [
        | none ↦ (ported, negsuc 0)
        | some router_addr ↦ (
          record {
            enabled = true;
            node_id = node_id;
            own_addr = addr.sin_addr;
            own_port = addr.sin_port;
            router = record { sin_addr = router_addr; sin_port = port };
          },
          pos 0,
        )
      ]

  unfoldable pub spiffy_init : Option (List ℕ) → ℕ → Sockaddr → Spiffy → Spiffy × ℤ
  unfolding strchr
  spiffy_init none node_id addr s = (s, pos 1)
  spiffy_init (some name) node_id addr s = with_router name (strchr b':' name) node_id addr s

-- A short and an int in memory.
abbrev pub short_bytes : ℕ → List ℕ
short_bytes n = n % 256 ∷ n / 256 % 256 ∷ []

abbrev pub int_bytes : ℕ → List ℕ
int_bytes n = n % 256 ∷ n / 256 % 256 ∷ n / 65536 % 256 ∷ n / 16777216 % 256 ∷ []

unfoldable pub header_bytes : SpiffyHeader → List ℕ
header_bytes h =
    int_bytes h.id
    ++ (int_bytes h.src_addr
        ++ (int_bytes h.dest_addr ++ (short_bytes h.src_port ++ short_bytes h.dest_port)))

-- The number whose bytes these are.
abbrev pub number : List ℕ → ℕ
number [] = 0
number (b ∷ bs) = b + 256 * number bs

unfoldable pub read_header : List ℕ → SpiffyHeader
read_header bytes = record {
  id = number (slice 0 4 bytes);
  src_addr = number (slice 4 4 bytes);
  dest_addr = number (slice 8 4 bytes);
  src_port = number (slice 12 2 bytes);
  dest_port = number (slice 14 2 bytes);
}

-- What `sendto` is called with.
pub record Frame : Type 0 where
  pub target : Sockaddr
  pub bytes : List ℕ

-- The call of `sendto`, for an address of the family AF_INET, where `malloc` gives the memory.
unfoldable pub spiffy_frame : Spiffy → List ℕ → Sockaddr → Frame
spiffy_frame s msg to = if not s.enabled then record { target = to; bytes = msg } else record {
  target = s.router;
  bytes =
      header_bytes (record {
        id = swap32 s.node_id;
        src_addr = s.own_addr;
        dest_addr = to.sin_addr;
        src_port = s.own_port;
        dest_port = to.sin_port;
      })
      ++ msg;
}

-- `ret_val` is what `sendto` returns.
unfoldable pub spiffy_sendto : Spiffy → ℤ → ℤ
spiffy_sendto s ret_val =
    if not s.enabled
    then ret_val
    else if ltb_ℤ (pos 0) ret_val
    then ret_val -ℤ pos spiffy_header_size
    else ret_val

-- The address, the buffer and the value that `spiffy_recvfrom` leaves.
pub record Received : Type 0 where
  pub from : Sockaddr
  pub buffer : List ℕ
  pub ret_val : ℤ

-- The header goes, and says where the datagram came from.
unfoldable pub without_header : ℕ → Received → Received
unfolding read_header
without_header size got =
    let header = read_header got.buffer in
    record {
      from = record { sin_addr = header.src_addr; sin_port = header.src_port };
      buffer = slice spiffy_header_size size got.buffer;
      ret_val = got.ret_val -ℤ pos spiffy_header_size;
    }

-- `buffer` and `from` are what stands there before the call, and `size` the size of the buffer.
-- `recvfrom` gives the address of the node that sent the datagram or of the router, the memory that
-- it wrote to, and its value; without a router it writes to `buffer` itself.
unfoldable pub spiffy_recvfrom : Spiffy → ℕ → List ℕ → Sockaddr → Received → Received
unfolding without_header
spiffy_recvfrom s size buffer from got =
    if not s.enabled
    then got
    else if ltb_ℤ (pos 0) got.ret_val
    then without_header size got
    else record { from = from; buffer = buffer; ret_val = got.ret_val }
