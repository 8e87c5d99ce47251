-- ===== src/Config/Ready.antt =====
-- bt_parse.c: what a configuration satisfies with which the node starts.
use project_2_congest.Base.{
  ℕ, ◌%◌, ◌^◌, ◌≡◌, ◌≢◌, ◌⊎◌, refl, sym, ap, subst, ◌≤◌, ◌∙◌, Bool, ◌||◌, true, false, Bool-cases,
  Option, Option-cases, none, some, List, [], ◌∷◌, length, ◌==◌, inl, inr, if◌then◌else◌, arith,
}
use project_2_congest.Base.Word.{swap16}
use project_2_congest.Config.{BtPeer, PeerLine, bt_peer_info, bt_parse_peer_list}
use project_2_congest.Config.Options.{
  BtConfig, Opt, Parsed, exits, aborts, ready, parse_option, parse_options, check_config,
  bt_parse_command_line,
}

-- The argument of the last option with a letter, if there is one.
abbrev pub last_arg : ℕ → List Opt → Option (List ℕ)
last_arg letter [] = none
last_arg letter (o ∷ os) = elim (last_arg letter os) [
  | some arg ↦ some arg
  | none ↦ if o.letter == letter then some o.optarg else none
]

-- The value of an option, or what there was before.
abbrev pub given {ℓ} : {A : Type ℓ} → (List ℕ → A) → A → Option (List ℕ) → A
given f before none = before
given f before (some arg) = f arg

given-last_arg {ℓ} :
    {A : Type ℓ} (f : List ℕ → A) (before : A) (letter : ℕ) (o : Opt) (os : List Opt)
    → given f (if o.letter == letter then f o.optarg else before) (last_arg letter os)
      ≡ given f before (last_arg letter (o ∷ os))
given-last_arg f before letter o os = elim (Option-cases (last_arg letter os)) [
  | inr (arg, e) ↦ rw (e) refl
  | inl e ↦ elim (Bool-cases (o.letter == letter)) [
    | inl k ↦ rw (e, k) refl
    | inr k ↦ rw (e, k) refl
  ]
]

abbrev pub text : List ℕ → List ℕ
text arg = arg

behind {ℓ} :
    {A : Type ℓ} (f : List ℕ → A) (before : A) {next : A} (letter : ℕ) (o : Opt) (os : List Opt)
    → next ≡ (if o.letter == letter then f o.optarg else before)
    → given f next (last_arg letter os) ≡ given f before (last_arg letter (o ∷ os))
behind f before letter o os e =
    ap (λ v. given f v (last_arg letter os)) e ∙ given-last_arg f before letter o os

ready_inj : (c d : BtConfig) → ready c ≡ ready d → c ≡ d
ready_inj c d e = ap (λ (r : Parsed). elim r [ exits s ↦ c | aborts ↦ c | ready x ↦ x ]) e

abbrev is_ready : Parsed → Bool
is_ready (ready c) = true
is_ready _ = false

Parsed-cases : (r : Parsed) → (is_ready r ≡ false) ⊎ ((c : BtConfig) × (r ≡ ready c))
Parsed-cases (exits s) = inl refl
Parsed-cases aborts = inl refl
Parsed-cases (ready c) = inr (c, refl)

module _ (bits_or : ℕ → ℕ → ℕ) (atoi : List ℕ → ℕ) where
  abbrev pub short_of : List ℕ → ℕ
  short_of arg = atoi arg % 2 ^ 16

  -- `parsed` is `start` with what the options say.
  pub record SetBy (os : List Opt) (start parsed : BtConfig) : Type 0 where
    pub chunk : parsed.chunk_file ≡ given text start.chunk_file (last_arg b'f' os)
    pub has_chunk : parsed.has_chunk_file ≡ given text start.has_chunk_file (last_arg b'c' os)
    pub peer_list : parsed.peer_list_file ≡ given text start.peer_list_file (last_arg b'p' os)
    pub most : parsed.max_conn ≡ given atoi start.max_conn (last_arg b'm' os)
    pub own : parsed.identity ≡ given short_of start.identity (last_arg b'i' os)

  step_lem :
      (o : Opt) (start parsed : BtConfig)
      → parse_option bits_or atoi o start ≡ ready parsed
      → (parsed.chunk_file ≡ (if o.letter == b'f' then o.optarg else start.chunk_file))
        × (parsed.has_chunk_file ≡ (if o.letter == b'c' then o.optarg else start.has_chunk_file))
        × (parsed.peer_list_file ≡ (if o.letter == b'p' then o.optarg else start.peer_list_file))
        × (parsed.max_conn ≡ (if o.letter == b'm' then atoi o.optarg else start.max_conn))
        × (parsed.identity ≡ (if o.letter == b'i' then atoi o.optarg % 2 ^ 16 else start.identity))
        × (parsed.peers ≡ start.peers)
  unfolding parse_option
  step_lem o start parsed e = ground (arith, e)

  stopped_lem :
      (o : Opt) (os : List Opt) (start parsed : BtConfig)
      → is_ready (parse_option bits_or atoi o start) ≡ false
      → parse_options bits_or atoi (o ∷ os) start ≡ ready parsed
      → ⊥
  unfolding parse_options
  stopped_lem o os start parsed s e = ground (arith, s, e)

  next_lem :
      (o : Opt) (os : List Opt) (start next : BtConfig)
      → parse_option bits_or atoi o start ≡ ready next
      → parse_options bits_or atoi (o ∷ os) start ≡ parse_options bits_or atoi os next
  unfolding parse_options
  next_lem o os start next e = rw (e, parse_options) refl

  parse_options-SetBy :
      (os : List Opt) (start parsed : BtConfig)
      → parse_options bits_or atoi os start ≡ ready parsed
      → SetBy os start parsed × (parsed.peers ≡ start.peers)
  unfolding parse_options
  parse_options-SetBy [] start parsed e =
      subst (λ c. SetBy [] start c × (c.peers ≡ start.peers)) (ready_inj start parsed e)
        (record { chunk = refl; has_chunk = refl; peer_list = refl; most = refl; own = refl }, refl)
  parse_options-SetBy (o ∷ os) start parsed e =
      elim (Parsed-cases (parse_option bits_or atoi o start)) [
        | inl stopped ↦ absurd (stopped_lem o os start parsed stopped e)
        | inr (next, went_on) ↦
            let s = step_lem o start next went_on in
            let rest : parse_options bits_or atoi os next ≡ ready parsed =
              sym (next_lem o os start next went_on) ∙ e in
            let i = parse_options-SetBy os next parsed rest in
            (
              record {
                chunk = i.0.chunk ∙ behind text start.chunk_file b'f' o os s.0;
                has_chunk = i.0.has_chunk ∙ behind text start.has_chunk_file b'c' o os s.1;
                peer_list = i.0.peer_list ∙ behind text start.peer_list_file b'p' o os s.2;
                most = i.0.most ∙ behind atoi start.max_conn b'm' o os s.3;
                own = i.0.own ∙ behind short_of start.identity b'i' o os s.4;
              },
              i.1 ∙ s.5,
            )
      ]

  module _ (scan : List ℕ → Option PeerLine) (resolve : List ℕ → Option ℕ)
      (files : List ℕ → Option (List (List ℕ))) where
    -- The configuration has the names of both chunk files, the peers of the file that it names are
    -- read, its identity is not 0 and that of one of them, and its port is that one's.
    pub record IsReady (start parsed : BtConfig) : Type 0 where
      pub chunk_named : 1 ≤ length parsed.chunk_file
      pub has_chunk_named : 1 ≤ length parsed.has_chunk_file
      pub lines : List (List ℕ)
      pub opened : files parsed.peer_list_file ≡ some lines
      pub read : bt_parse_peer_list scan resolve lines start.peers ≡ some parsed.peers
      pub not_zero : parsed.identity ≢ 0
      pub own_peer : BtPeer
      pub found : bt_peer_info parsed.peers parsed.identity ≡ some own_peer
      pub port : parsed.myport ≡ swap16 own_peer.addr.sin_port

    check_config-IsReady :
        (start parsed : BtConfig)
        → check_config bits_or atoi scan resolve files start ≡ ready parsed
        → IsReady start parsed
    unfolding check_config
    check_config-IsReady start parsed e = elim (Option-cases (files start.peer_list_file)) [
      | inl a ↦ absurd (ground (arith, a, e))
      | inr (lines, a) ↦ elim (Option-cases (bt_parse_peer_list scan resolve lines start.peers)) [
        | inl b ↦ absurd (ground (arith, a, b, e))
        | inr (peers, b) ↦ elim (Bool-cases (start.identity == 0)) [
          | inl c ↦ absurd (ground (arith, a, b, c, e))
          | inr c ↦ elim (Option-cases (bt_peer_info peers start.identity)) [
            | inl d ↦ absurd (ground (arith, a, b, c, d, e))
            | inr (p, d) ↦
                elim (Bool-cases
                  ((length start.chunk_file == 0) || (length start.has_chunk_file == 0))) [
                    | inl k ↦ absurd (ground (arith, a, b, c, d, k, e))
                    | inr k ↦
                        let result : record start { peers = peers; myport = swap16 p.addr.sin_port }
                            ≡ parsed =
                          ground (arith, a, b, c, d, k, e) in
                        subst (IsReady start) result (record {
                          chunk_named = ground (arith, k);
                          has_chunk_named = ground (arith, k);
                          lines = lines;
                          opened = a;
                          read = b;
                          not_zero = λ z. absurd (ground (arith, c, z));
                          own_peer = p;
                          found = d;
                          port = refl;
                        })
                  ]
          ]
        ]
      ]
    ]

    check_config-same :
        (start parsed : BtConfig)
        → check_config bits_or atoi scan resolve files start ≡ ready parsed
        → (parsed.chunk_file ≡ start.chunk_file)
          × (parsed.has_chunk_file ≡ start.has_chunk_file)
          × (parsed.peer_list_file ≡ start.peer_list_file)
          × (parsed.max_conn ≡ start.max_conn)
          × (parsed.identity ≡ start.identity)
    unfolding check_config
    check_config-same start parsed e = ground (arith, e)

    -- If the command line leaves a configuration at all: the file names, the number of connections
    -- and the identity, as a short, are those of the last option that gives each, and without one
    -- as they were; both chunk files are named, the peers are read from the file that is named,
    -- the identity is not 0 and that of one of them, and the port is that peer's in the order of
    -- the machine.
    pub bt_parse_command_line-IsReady :
        (os : List Opt) (start parsed : BtConfig)
        → bt_parse_command_line bits_or atoi scan resolve files os start ≡ ready parsed
        → SetBy os start parsed × IsReady start parsed
    unfolding bt_parse_command_line
    bt_parse_command_line-IsReady os start parsed e =
        elim (Parsed-cases (parse_options bits_or atoi os start)) [
          | inl stopped ↦ absurd (ground (arith, stopped, e))
          | inr (mid, q) ↦
              let checked : check_config bits_or atoi scan resolve files mid ≡ ready parsed =
                sym (rw (q, bt_parse_command_line) refl) ∙ e in
              let (set_by, known) = parse_options-SetBy os start mid q in
              let same = check_config-same mid parsed checked in
              let r = check_config-IsReady mid parsed checked in
              (
                record {
                  chunk = same.0 ∙ set_by.chunk;
                  has_chunk = same.1 ∙ set_by.has_chunk;
                  peer_list = same.2 ∙ set_by.peer_list;
                  most = same.3 ∙ set_by.most;
                  own = same.4 ∙ set_by.own;
                },
                record {
                  chunk_named = r.chunk_named;
                  has_chunk_named = r.has_chunk_named;
                  lines = r.lines;
                  opened = r.opened;
                  read = ap (bt_parse_peer_list scan resolve r.lines) (sym known) ∙ r.read;
                  not_zero = r.not_zero;
                  own_peer = r.own_peer;
                  found = r.found;
                  port = r.port;
                },
              )
        ]
