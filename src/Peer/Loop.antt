-- ===== src/Peer/Loop.antt =====
-- peer.c: the loop of `peer_run`, from `init_connections` on.
use project_2_congest.Base.{
  length, ◌⊎◌, ℕ, ◌≡◌, refl, sym, subst, Option, none, some, List, [], ◌∷◌, ◌++◌, Option-cases, inl,
  inr, arith,
}
use project_2_congest.Clock.{Timeval}
use project_2_congest.Packet.{Packet, Sockaddr}
use project_2_congest.Job.{malloc_new_job}
use project_2_congest.Peer.{Peer, Env, process_inbound_udp}
use project_2_congest.Peer.Flooding.{process_get}
use project_2_congest.Peer.Round.{round_end}
use project_2_congest.Peer.Invariant.{PeerInv, ListsInv}
use project_2_congest.Peer.Rounds.{
  process_inbound_udp-PeerInv, round_end-PeerInv, flood_whohas-same,
}

-- `max_conn` is that of the configuration.
unfoldable pub init_connections : ℕ → Peer → Peer
init_connections max_conn s = record s {
  max_provider_connection = max_conn;
  providers = [];
  max_receiver_connection = max_conn;
  receivers = [];
}

-- A line of input as `sscanf` reads it: the lines of the chunk file, `none` if it cannot be opened,
-- and the name of the output file, which is empty if the line is no GET command with two names.
pub record Command : Type 0 where
  pub chunk_lines : Option (List (List ℕ))
  pub outf : List ℕ

-- What happens in one round of the loop: the datagram that was read, if any, and the lines.
pub record Happening : Type 0 where
  pub now : Timeval
  pub inbound : Option (Packet × Sockaddr)
  pub commands : List Command

pub list_cases : (xs : List ℕ) → (xs ≡ []) ⊎ ((x : ℕ) × (ys : List ℕ) × (xs ≡ x ∷ ys))
list_cases [] = inl refl
list_cases (x ∷ ys) = inr (x, ys, refl)

-- `scan` is that of `malloc_new_job`.
module _ (e : Env) (scan : List ℕ → ℕ × List ℕ) where
  unfoldable pub handle_user_input : Timeval → Command → Peer → Peer
  handle_user_input now c s = elim c.outf [
    | [] ↦ s
    | x ∷ xs ↦ process_get e now scan c.chunk_lines (x ∷ xs) s
  ]

  unfoldable pub handle_all : Timeval → List Command → Peer → Peer
  handle_all now [] s = s
  handle_all now (c ∷ cs) s = handle_all now cs (handle_user_input now c s)

  abbrev pub receive : Timeval → Option (Packet × Sockaddr) → Peer → Peer
  receive now none s = s
  receive now (some (received, from)) s = process_inbound_udp e now received from s

  -- The loop, for as many rounds as there are in the list, with the time of the last flood.
  unfoldable pub peer_run : List Happening → Peer → Timeval → Peer × Timeval
  peer_run [] s last_flood_whohas_time = (s, last_flood_whohas_time)
  peer_run (h ∷ hs) s last_flood_whohas_time =
      let next =
        round_end e h.now (handle_all h.now h.commands (receive h.now h.inbound s))
          last_flood_whohas_time in
      peer_run hs next.0 next.1

  pub process_get-PeerInv :
      (now : Timeval) (lines : Option (List (List ℕ))) (outf : List ℕ) (s : Peer)
      → PeerInv s
      → PeerInv (process_get e now scan lines outf s)
  unfolding process_get
  process_get-PeerInv now lines outf s v = elim (Option-cases (malloc_new_job scan lines outf)) [
    | inl q ↦ rw (q, process_get) v
    | inr (job, q) ↦
        let started = record s {
          jobs = s.jobs ++ (some job ∷ []);
          current_job = some (length s.jobs);
        } in
        rw (q, process_get) (subst ListsInv (sym (flood_whohas-same e now started)) v)
  ]

  handle_user_input-PeerInv :
      (now : Timeval) (c : Command) (s : Peer) → PeerInv s → PeerInv (handle_user_input now c s)
  unfolding handle_user_input
  handle_user_input-PeerInv now c s v = elim (list_cases c.outf) [
    | inl q ↦ rw (q, handle_user_input) v
    | inr (x, xs, q) ↦
        rw (q, handle_user_input) (process_get-PeerInv now c.chunk_lines (x ∷ xs) s v)
  ]

  handle_all-PeerInv :
      (now : Timeval) (cs : List Command) (s : Peer) → PeerInv s → PeerInv (handle_all now cs s)
  unfolding handle_all
  handle_all-PeerInv now [] s v = v
  handle_all-PeerInv now (c ∷ cs) s v =
      handle_all-PeerInv now cs (handle_user_input now c s) (handle_user_input-PeerInv now c s v)

  receive-PeerInv :
      (now : Timeval) (o : Option (Packet × Sockaddr)) (s : Peer)
      → PeerInv s
      → PeerInv (receive now o s)
  receive-PeerInv now none s v = v
  receive-PeerInv now (some (received, from)) s v =
      process_inbound_udp-PeerInv e now received from s v

  peer_run-keeps :
      (hs : List Happening) (s : Peer) (last : Timeval) → PeerInv s → PeerInv (peer_run hs s last).0
  unfolding peer_run
  peer_run-keeps [] s last v = v
  peer_run-keeps (h ∷ hs) s last v =
      let heard = receive h.now h.inbound s in
      let asked = handle_all h.now h.commands heard in
      let next = round_end e h.now asked last in
      peer_run-keeps hs next.0 next.1 (
        round_end-PeerInv e h.now asked last
          (handle_all-PeerInv h.now h.commands heard (receive-PeerInv h.now h.inbound s v)))

  -- Whatever packets come from whatever addresses and whatever is asked for, after any number of
  -- rounds of the loop from freshly initialised connections each provider connection has a window
  -- that satisfies its invariant, each receiver connection has a chunk in its list, no two
  -- connections of a kind have the same peer or the same identity, and there are at most `max_conn`
  -- of each kind.
  pub peer_run-PeerInv :
      (max_conn : ℕ) (s : Peer) (hs : List Happening) (last_flood_whohas_time : Timeval)
      → PeerInv (peer_run hs (init_connections max_conn s) last_flood_whohas_time).0
  unfolding init_connections
  peer_run-PeerInv max_conn s hs last =
      peer_run-keeps hs (init_connections max_conn s) last (record {
        providers = tt;
        provider_max = omega arith;
        receivers = tt;
        receiver_max = omega arith;
      })
