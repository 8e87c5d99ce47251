-- ===== src/Tests/Configs.antt =====
-- bt_parse.c: a node that is the second of two peers.
use project_2_congest.Base.{ℕ, ◌+◌, ◌-◌, ◌≡◌, refl, Option, some, List, [], ◌∷◌}
use project_2_congest.Base.Memory.{same_bytes}
use project_2_congest.Base.Word.{swap16}
use project_2_congest.Config.{PeerLine, bt_parse_peer_list, read_peer, bt_peer_info}
use project_2_congest.Config.Options.{
  BtConfig, Opt, ready, bt_init, set_debug, parse_option, parse_options, check_config,
  bt_parse_command_line,
}
use project_2_congest.Config.Ready.{SetBy, IsReady, bt_parse_command_line-IsReady}

-- `atoi` of a text of one digit, and a `|` of numbers without a common bit.
abbrev pub digit : List ℕ → ℕ
digit [] = 0
digit (c ∷ cs) = c - b'0'

abbrev pub bits_or : ℕ → ℕ → ℕ
bits_or a b = a + b

abbrev pub scan : List ℕ → Option PeerLine
scan line = some (record { nodeid = digit line; hostname = []; port = 2222 })

abbrev pub resolve : List ℕ → Option ℕ
resolve name = some 1

abbrev pub files : List ℕ → Option (List (List ℕ))
files name = some ((b'#' ∷ []) ∷ (b'1' ∷ []) ∷ (b'2' ∷ []) ∷ [])

abbrev option : ℕ → ℕ → Opt
option letter arg = record { letter = letter; optarg = arg ∷ [] }

abbrev pub options : List Opt
options =
    option b'c' b'h'
    ∷ option b'f' b'm'
    ∷ option b'i' b'1'
    ∷ option b'm' b'4'
    ∷ option b'i' b'2'
    ∷ option b'd' b'3'
    ∷ []

abbrev pub configuration : BtConfig
configuration = record {
  chunk_file = b'm' ∷ [];
  has_chunk_file = b'h' ∷ [];
  output_file = b'o' ∷ b'u' ∷ b't' ∷ b'p' ∷ b'u' ∷ b't' ∷ b'.' ∷ b'd' ∷ b'a' ∷ b't' ∷ [];
  peer_list_file = b'n' ∷ b'o' ∷ b'd' ∷ b'e' ∷ b's' ∷ b'.' ∷ b'm' ∷ b'a' ∷ b'p' ∷ [];
  max_conn = 4;
  identity = 2;
  myport = 2222;
  peers =
      record { id = 2; addr = record { sin_addr = 1; sin_port = 0xae08 } }
      ∷ record { id = 1; addr = record { sin_addr = 1; sin_port = 0xae08 } }
      ∷ [];
  debug = 3;
}

pub starts :
    bt_parse_command_line bits_or digit scan resolve files options bt_init ≡ ready configuration
unfolding bt_parse_command_line parse_options parse_option set_debug check_config bt_init
    bt_parse_peer_list read_peer bt_peer_info swap16 same_bytes
starts = refl

bt_parse_command_line-IsReady_example :
    SetBy bits_or digit options bt_init configuration
    × IsReady bits_or digit scan resolve files bt_init configuration
bt_parse_command_line-IsReady_example =
    bt_parse_command_line-IsReady bits_or digit scan resolve files options bt_init configuration
      starts
