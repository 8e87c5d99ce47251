-- ===== src/Program/Rounds.antt =====
-- peer.c: the rounds of the program are rounds of the loop, with the packets and the commands that
-- the datagrams and the lines stand for.
use project_2_congest.Base.{
  ℕ, ◌≡◌, refl, sym, ap, ◌∙◌, Option, Option-cases, none, some, List, [], ◌∷◌, ◌++◌, map, inl, inr,
  arith,
}
use project_2_congest.Input.{UserIobuf, Handled, userbuf_size, process_user_input, process_all}
use project_2_congest.Packet.{Packet, Sockaddr, max_packet_length}
use project_2_congest.Spiffy.{Spiffy, spiffy_recvfrom}
use project_2_congest.Peer.{Peer, Env}
use project_2_congest.Peer.Loop.{Command, Happening, receive, handle_all, peer_run}
use project_2_congest.Peer.Round.{round_end}
use project_2_congest.Wire.{packet_of, process_inbound_datagram}
use project_2_congest.Program.{
  Libc, Inbound, Turn, Running, running, command_of, hear, read_input, round, rounds,
}
use project_2_congest.Downloads.Asked.{all_commands}

-- What is read from standard input, call by call.
abbrev pub inputs : List Turn → List (List ℕ)
inputs [] = []
inputs (t ∷ ts) = elim t.input [ none ↦ inputs ts | some bytes ↦ bytes ∷ inputs ts ]

-- The packet that a datagram is taken for, and where it comes from.
abbrev packet_in : Spiffy → Option Inbound → Option (Packet × Sockaddr)
packet_in spiffy none = none
packet_in spiffy (some i) =
    let received = spiffy_recvfrom spiffy max_packet_length i.buf i.from i.got in
    some (packet_of received.buffer, received.from)

map-append :
    (f : List ℕ → Command) (xs ys : List (List ℕ)) → map f (xs ++ ys) ≡ map f xs ++ map f ys
map-append f [] ys = refl
map-append f (x ∷ xs) ys = ap (λ cs. f x ∷ cs) (map-append f xs ys)

module _ (e : Env) (c : Libc) where
  -- The rounds `ts` lead from `r` to a state, as the loop does with some happenings, whose commands
  -- are those of the lines that were handed over.
  pub record RanAs (ts : List Turn) (r : Running) (h : Handled) : Type 0 where
    pub last : Running
    pub hs : List Happening
    pub ran : rounds e c ts r ≡ running last
    pub same :
        peer_run e c.scan_job hs r.node r.last_flood_whohas_time
        ≡ (last.node, last.last_flood_whohas_time)
    pub asked : all_commands hs ≡ map (command_of c) h.lines

  hear-receive :
      (t : Turn) (spiffy : Spiffy) (s : Peer)
      → hear e t.now spiffy t.datagram s
        ≡ receive e c.scan_job t.now (packet_in spiffy t.datagram) s
  unfolding hear process_inbound_datagram
  hear-receive t spiffy s = go t.datagram
    where
      go :
          (o : Option Inbound)
          → hear e t.now spiffy o s ≡ receive e c.scan_job t.now (packet_in spiffy o) s
      go none = refl
      go (some i) = refl

  -- What a round amounts to.
  abbrev happening : Turn → Running → List (List ℕ) → Happening
  happening t r lines = record {
    now = t.now;
    inbound = packet_in r.spiffy t.datagram;
    commands = map (command_of c) lines;
  }

  abbrev pub after_round : Turn → Running → List (List ℕ) → UserIobuf → Running
  after_round t r lines b =
      let s =
        handle_all e c.scan_job t.now (map (command_of c) lines)
          (receive e c.scan_job t.now (packet_in r.spiffy t.datagram) r.node) in
      let next = round_end e t.now s r.last_flood_whohas_time in
      record r { node = next.0; userbuf = b; last_flood_whohas_time = next.1 }

  pub round_nothing :
      (t : Turn) (r : Running)
      → t.input ≡ none
      → round e c t r ≡ some (after_round t r [] r.userbuf)
  unfolding round read_input handle_all
  round_nothing t r q = rw (q, hear-receive t r.spiffy r.node, round) refl

  pub round_reads :
      (t : Turn) (r : Running) (bytes : List ℕ) (h : Handled)
      → t.input ≡ some bytes
      → process_user_input userbuf_size bytes r.userbuf ≡ some h
      → round e c t r ≡ some (after_round t r h.lines h.userbuf)
  unfolding round read_input
  round_reads t r bytes h q f = rw (q, f, hear-receive t r.spiffy r.node, round) refl

  more :
      (t : Turn) (ts : List Turn) (r : Running) (lines : List (List ℕ)) (b : UserIobuf)
      (h all : Handled)
      → round e c t r ≡ some (after_round t r lines b)
      → all.lines ≡ lines ++ h.lines
      → RanAs ts (after_round t r lines b) h
      → RanAs (t ∷ ts) r all
  unfolding rounds peer_run
  more t ts r lines b h all first together next = record {
    last = next.last;
    hs = happening t r lines ∷ next.hs;
    ran = rw (first, rounds) next.ran;
    same = next.same;
    asked =
        ap (λ cs. map (command_of c) lines ++ cs) next.asked
        ∙ sym (map-append (command_of c) lines h.lines)
        ∙ ap (map (command_of c)) (sym together);
  }

  -- If no call of process_user_input exits, the program goes on through all rounds.
  pub rounds-peer_run :
      (ts : List Turn) (r : Running) (h : Handled)
      → process_all userbuf_size (inputs ts) r.userbuf ≡ some h
      → RanAs ts r h
  unfolding rounds peer_run process_all
  rounds-peer_run [] r h e = record {
    last = r;
    hs = [];
    ran = refl;
    same = refl;
    asked = ground (arith, e);
  }
  rounds-peer_run (t ∷ ts) r h e = elim (Option-cases t.input) [
    | inl q ↦
        let left : process_all userbuf_size (inputs ts) r.userbuf ≡ some h = ground (arith, q, e) in
        more t ts r [] r.userbuf h h (round_nothing t r q) refl
          (rounds-peer_run ts (after_round t r [] r.userbuf) h left)
    | inr (bytes, q) ↦ elim (Option-cases (process_user_input userbuf_size bytes r.userbuf)) [
      | inl f ↦ absurd (ground (arith, q, f, e))
      | inr (one, f) ↦ elim (Option-cases (process_all userbuf_size (inputs ts) one.userbuf)) [
        | inl g ↦ absurd (ground (arith, q, f, g, e))
        | inr (rest, g) ↦
            let all : h.lines ≡ one.lines ++ rest.lines = ground (arith, q, f, g, e) in
            more t ts r one.lines one.userbuf rest h (round_reads t r bytes one q f) all
              (rounds-peer_run ts (after_round t r one.lines one.userbuf) rest g)
      ]
    ]
  ]
