-- ===== src/Program.antt =====
-- peer.c: the whole program, from `main` on, as what the system gives it drives it.
pub mod Exits
pub mod Rounds
pub mod Runs
use project_2_congest.Base.{
  ℕ, ◌-◌, ◌+◌, ◌%◌, ◌^◌, Bool, true, false, not, Option, none, some, List, [], ◌∷◌, map, ltb,
  if◌then◌else◌,
}
use project_2_congest.Base.Int.{ℤ, pos, negsuc, pos_part, ◌==ℤ◌}
use project_2_congest.Base.Word.{signed32, swap16}
use project_2_congest.Clock.{Timeval}
use project_2_congest.Config.{PeerLine}
use project_2_congest.Config.Options.{
  BtConfig, Opt, exits, aborts, ready, bt_init, bt_parse_command_line,
}
use project_2_congest.Input.{UserIobuf, userbuf_size, create_userbuf, process_user_input}
use project_2_congest.Packet.{Sockaddr}
use project_2_congest.Job.{Chunk}
use project_2_congest.Spiffy.{Spiffy, Received, spiffy_init}
use project_2_congest.Peer.{Peer, Env}
use project_2_congest.Peer.Loop.{Command, init_connections, handle_all}
use project_2_congest.Peer.Round.{round_end}
use project_2_congest.Peer.Start.{init_has_chunks}
use project_2_congest.Wire.{process_inbound_datagram}

-- The functions of the C library, and the text files, which stay as they are: `scan_peer`, `scan_job`
-- and `scan_get` are `sscanf` with the formats for a line of the peer list, of a chunk file and of
-- standard input; the last gives its value and what it leaves in the two arrays.
pub record Libc : Type 0 where
  pub bits_or : ℕ → ℕ → ℕ
  pub atoi : List ℕ → ℕ
  pub inet_aton : List ℕ → Option ℕ
  pub gethostbyname : List ℕ → Option ℕ
  pub scan_peer : List ℕ → Option PeerLine
  pub scan_job : List ℕ → ℕ × List ℕ
  pub scan_get : List ℕ → ℤ × List ℕ × List ℕ
  pub files : List ℕ → Option (List (List ℕ))

-- What the system gives to a program that starts. `fresh` is what the memory for the chunks holds.
pub record Start : Type 0 where
  pub options : List Opt
  pub spiffy_router : Option (List ℕ)
  pub socket_opened : Bool
  pub bound : Bool
  pub now : Timeval
  pub fresh : ℕ → Chunk

-- A datagram that is ready: what stands in the variables of `process_inbound_udp` before, and what
-- `recvfrom` gives.
pub record Inbound : Type 0 where
  pub buf : List ℕ
  pub from : Sockaddr
  pub got : Received

-- What `select` finds in a round: a datagram, and what stands ready on standard input.
pub record Turn : Type 0 where
  pub now : Timeval
  pub datagram : Option Inbound
  pub input : Option (List ℕ)

-- The globals, and the variables of `peer_run`.
pub record Running : Type 0 where
  pub node : Peer
  pub spiffy : Spiffy
  pub userbuf : UserIobuf
  pub last_flood_whohas_time : Timeval

-- `crashed`: an assertion fails, or a file is read that could not be opened.
pub data Ran : Type 0 where
  exited : ℤ → Ran
  crashed : Ran
  running : Running → Ran

-- The globals of spiffy.c.
abbrev pub no_spiffy : Spiffy
no_spiffy = record {
  enabled = false;
  node_id = 0;
  own_addr = 0;
  own_port = 0;
  router = record { sin_addr = 0; sin_port = 0 };
}

abbrev localhost : List ℕ
localhost = b'1' ∷ b'2' ∷ b'7' ∷ b'.' ∷ b'0' ∷ b'.' ∷ b'0' ∷ b'.' ∷ b'1' ∷ []

-- A `short`, as a `long` of which the low 32 bits are sent.
abbrev sign_extended : ℕ → ℕ
sign_extended w = if ltb w (2 ^ 15) then w else w + (2 ^ 32 - 2 ^ 16)

-- What `handle_user_input` makes of a line.
unfoldable pub command_of : Libc → List ℕ → Command
command_of c line =
    let (fields, chunkf, outf) = c.scan_get line in
    record { chunk_lines = c.files chunkf; outf = if fields ==ℤ pos 0 then [] else outf }

unfoldable pub hear : Env → Timeval → Spiffy → Option Inbound → Peer → Peer
hear e now spiffy none s = s
hear e now spiffy (some i) s = process_inbound_datagram e now spiffy i.buf i.from i.got s

module _ (c : Libc) where
  -- The address that the socket is bound to.
  abbrev pub own_address : BtConfig → Sockaddr
  own_address config = record {
    sin_addr = elim (c.inet_aton localhost) [ none ↦ 0 | some a ↦ a ];
    sin_port = swap16 (config.myport % 2 ^ 16);
  }

  -- The globals before `init_connections`, `lines` being those of the file of the chunks that the
  -- node has.
  abbrev pub first_node : BtConfig → Start → List (List ℕ) → Peer
  first_node config start lines = record {
    identity = config.identity;
    peers = config.peers;
    jobs = [];
    current_job = none;
    has_chunks = init_has_chunks c.scan_job start.fresh 0 lines;
    max_provider_connection = 0;
    providers = [];
    max_receiver_connection = 0;
    receivers = [];
    provider_id = 1;
    next_address = 0;
    start_time = start.now;
    log = [];
    sent = [];
    writes = [];
    got = [];
  }

  -- What `peer_run` does before its loop.
  abbrev pub first_running : BtConfig → Start → List (List ℕ) → Running
  first_running config start lines = record {
    node = init_connections (pos_part (signed32 config.max_conn)) (first_node config start lines);
    spiffy =
        (spiffy_init c.atoi c.inet_aton start.spiffy_router (sign_extended config.identity)
          (own_address config) no_spiffy).0;
    userbuf = create_userbuf userbuf_size;
    last_flood_whohas_time = start.now;
  }

module _ (e : Env) (c : Libc) where
  -- `none` is `exit`.
  unfoldable pub read_input :
      Timeval → Option (List ℕ) → UserIobuf → Peer → Option (UserIobuf × Peer)
  unfolding command_of
  read_input now none b s = some (b, s)
  read_input now (some bytes) b s = elim (process_user_input userbuf_size bytes b) [
    | none ↦ none
    | some h ↦ some (h.userbuf, handle_all e c.scan_job now (map (command_of c) h.lines) s)
  ]

  -- One round of the loop of `peer_run`.
  unfoldable pub round : Turn → Running → Option Running
  unfolding hear read_input
  round t r = elim (read_input t.now t.input r.userbuf (hear e t.now r.spiffy t.datagram r.node)) [
    | none ↦ none
    | some (b, s) ↦
        let next = round_end e t.now s r.last_flood_whohas_time in
        some (record r { node = next.0; userbuf = b; last_flood_whohas_time = next.1 })
  ]

  unfoldable pub rounds : List Turn → Running → Ran
  unfolding round
  rounds [] r = running r
  rounds (t ∷ ts) r = elim (round t r) [ none ↦ exited (negsuc 0) | some next ↦ rounds ts next ]

  -- `peer_run`, for as many rounds as there are in the list.
  unfoldable pub run : BtConfig → Start → List Turn → Ran
  unfolding rounds
  run config start ts =
      if not start.socket_opened
      then exited (negsuc 0)
      else if not start.bound
      then exited (negsuc 0)
      else elim (c.files config.has_chunk_file) [
        | none ↦ crashed
        | some lines ↦ rounds ts (first_running c config start lines)
      ]

  unfoldable pub main : Start → List Turn → Ran
  unfolding run
  main start ts =
      elim (bt_parse_command_line c.bits_or c.atoi c.scan_peer c.gethostbyname c.files start.options
        bt_init) [
          | exits status ↦ exited status
          | aborts ↦ crashed
          | ready config ↦ run config start ts
        ]
