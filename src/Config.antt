-- ===== src/Config.antt =====
-- bt_parse.h and bt_parse.c: the peers that a node knows.
pub mod Options
pub mod Ready
use project_2_congest.Base.{
  ℕ, suc, ◌%◌, ◌^◌, Option, none, some, List, [], ◌∷◌, ◌==◌, if◌then◌else◌,
}
use project_2_congest.Base.Word.{swap16}
use project_2_congest.Packet.{Sockaddr}

-- `bt_peer_t`. The id is the bit pattern of a `short`.
pub record BtPeer : Type 0 where
  pub id : ℕ
  pub addr : Sockaddr

-- The pointer to the first peer with the port of an address, which is its place from `i` on.
unfoldable pub search_bt_peer : List BtPeer → ℕ → Sockaddr → Option ℕ
search_bt_peer [] i from = none
search_bt_peer (p ∷ ps) i from =
    if p.addr.sin_port == from.sin_port then some i else search_bt_peer ps (suc i) from

unfoldable pub bt_peer_info : List BtPeer → ℕ → Option BtPeer
bt_peer_info [] peer_id = none
bt_peer_info (p ∷ ps) peer_id = if p.id == peer_id then some p else bt_peer_info ps peer_id

-- A line of the list of peers, as `sscanf` reads it.
pub record PeerLine : Type 0 where
  pub nodeid : ℕ
  pub hostname : List ℕ
  pub port : ℕ

abbrev starts_comment : List ℕ → project_2_congest.Base.Bool
starts_comment [] = project_2_congest.Base.false
starts_comment (c ∷ cs) = c == b'#'

-- `scan` is `sscanf`, `none` if it reads nothing; `resolve` is `gethostbyname`. The result is
-- `none` where an assertion of the source fails.
module _ (scan : List ℕ → Option PeerLine) (resolve : List ℕ → Option ℕ) where
  abbrev make_peer : PeerLine → ℕ → BtPeer
  make_peer l address = record {
    id = l.nodeid % 2 ^ 16;
    addr = record { sin_addr = address; sin_port = swap16 (l.port % 2 ^ 16) };
  }

  unfoldable pub read_peer : List ℕ → Option BtPeer
  read_peer line = elim (scan line) [
    | none ↦ none
    | some l ↦ elim (resolve l.hostname) [ none ↦ none | some a ↦ some (make_peer l a) ]
  ]

  unfoldable pub bt_parse_peer_list : List (List ℕ) → List BtPeer → Option (List BtPeer)
  bt_parse_peer_list [] peers = some peers
  bt_parse_peer_list (line ∷ lines) peers =
      if starts_comment line
      then bt_parse_peer_list lines peers
      else elim (read_peer line) [ none ↦ none | some p ↦ bt_parse_peer_list lines (p ∷ peers) ]
