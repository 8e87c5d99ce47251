-- ===== src/Config/Options.antt =====
-- bt_parse.h, bt_parse.c and debug.c: the configuration, from the options of the command line.
use project_2_congest.Base.{
  ℕ, ◌%◌, ◌^◌, ◌&&◌, ◌||◌, Option, none, some, List, [], ◌∷◌, length, leb, ◌==◌, if◌then◌else◌,
}
use project_2_congest.Base.Int.{ℤ, pos, negsuc}
use project_2_congest.Base.Memory.{same_bytes}
use project_2_congest.Base.Word.{swap16}
use project_2_congest.Config.{BtPeer, PeerLine, bt_peer_info, bt_parse_peer_list}

-- `bt_config_t`, with the global `debug`. Integers are bit patterns, `identity` that of a `short`.
-- The arrays of characters are taken to be long enough for what `strcpy` writes to them.
pub record BtConfig : Type 0 where
  pub chunk_file : List ℕ
  pub has_chunk_file : List ℕ
  pub output_file : List ℕ
  pub peer_list_file : List ℕ
  pub max_conn : ℕ
  pub identity : ℕ
  pub myport : ℕ
  pub peers : List BtPeer
  pub debug : ℕ

unfoldable pub bt_init : BtConfig
bt_init = record {
  chunk_file = [];
  has_chunk_file = [];
  output_file = b'o' ∷ b'u' ∷ b't' ∷ b'p' ∷ b'u' ∷ b't' ∷ b'.' ∷ b'd' ∷ b'a' ∷ b't' ∷ [];
  peer_list_file = b'n' ∷ b'o' ∷ b'd' ∷ b'e' ∷ b's' ∷ b'.' ∷ b'm' ∷ b'a' ∷ b'p' ∷ [];
  max_conn = 0;
  identity = 0;
  myport = 0;
  peers = [];
  debug = 0;
}

-- What `getopt` returns: a letter, and `optarg`.
pub record Opt : Type 0 where
  pub letter : ℕ
  pub optarg : List ℕ

-- The program ends with a status, or by an assertion that fails, or it has a configuration.
pub data Parsed : Type 0 where
  exits : ℤ → Parsed
  aborts : Parsed
  ready : BtConfig → Parsed

-- The bits of two numbers, combined by `|`, and `atoi`, as a bit pattern of 32 bits.
module _ (bits_or : ℕ → ℕ → ℕ) (atoi : List ℕ → ℕ) where
  -- `none` is -1, and otherwise the value that `debug` has.
  unfoldable pub set_debug : List ℕ → ℕ → Option ℕ
  set_debug [] debug = none
  set_debug (c ∷ cs) debug =
      if (c == b'?') || same_bytes (c ∷ cs) (b'l' ∷ b'i' ∷ b's' ∷ b't' ∷ [])
      then none
      else some (if leb b'0' c && leb c b'9' then bits_or debug (atoi (c ∷ cs)) else debug)

  -- The `switch`.
  unfoldable pub parse_option : Opt → BtConfig → Parsed
  parse_option o config =
      if o.letter == b'h'
      then exits (pos 0)
      else if o.letter == b'd'
      then elim (set_debug o.optarg config.debug) [
        | none ↦ exits (negsuc 0)
        | some debug ↦ ready (record config { debug = debug })
      ]
      else if o.letter == b'p'
      then ready (record config { peer_list_file = o.optarg })
      else if o.letter == b'c'
      then ready (record config { has_chunk_file = o.optarg })
      else if o.letter == b'f'
      then ready (record config { chunk_file = o.optarg })
      else if o.letter == b'm'
      then ready (record config { max_conn = atoi o.optarg })
      else if o.letter == b'i'
      then ready (record config { identity = atoi o.optarg % 2 ^ 16 })
      else exits (negsuc 0)

  -- The loop over the options.
  unfoldable pub parse_options : List Opt → BtConfig → Parsed
  parse_options [] config = ready config
  parse_options (o ∷ os) config = elim (parse_option o config) [
    | exits status ↦ exits status
    | aborts ↦ aborts
    | ready next ↦ parse_options os next
  ]

  -- `scan` and `resolve` are those of `bt_parse_peer_list`; `files` are the lines of a file, `none` if
  -- it cannot be opened.
  module _ (scan : List ℕ → Option PeerLine) (resolve : List ℕ → Option ℕ)
      (files : List ℕ → Option (List (List ℕ))) where
    -- The peers, as `bt_parse_peer_list` adds them.
    abbrev pub listed_peers : BtConfig → Option (List BtPeer)
    listed_peers config = elim (files config.peer_list_file) [
      | none ↦ none
      | some lines ↦ bt_parse_peer_list scan resolve lines config.peers
    ]

    abbrev pub with_own_port : BtConfig → BtPeer → Parsed
    with_own_port config p =
        if (length config.chunk_file == 0) || (length config.has_chunk_file == 0)
        then aborts
        else ready (record config { myport = swap16 p.addr.sin_port })

    -- What follows the loop.
    unfoldable pub check_config : BtConfig → Parsed
    check_config config = elim (listed_peers config) [
      | none ↦ aborts
      | some peers ↦
          if config.identity == 0
          then exits (negsuc 0)
          else elim (bt_peer_info peers config.identity) [
            | none ↦ exits (negsuc 0)
            | some p ↦ with_own_port (record config { peers = peers }) p
          ]
    ]

    unfoldable pub bt_parse_command_line : List Opt → BtConfig → Parsed
    unfolding check_config parse_options
    bt_parse_command_line os config = elim (parse_options os config) [
      | exits status ↦ exits status
      | aborts ↦ aborts
      | ready parsed ↦ check_config parsed
    ]
