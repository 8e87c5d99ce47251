-- ===== src/Downloads/Loop.antt =====
-- peer.c: the downloads along the loop of `peer_run`.
use project_2_congest.Base.{ℕ, ◌≡◌, sym, ap, Option, none, some, List, [], ◌∷◌, inl, inr, arith}
use project_2_congest.Clock.{Timeval}
use project_2_congest.Packet.{Packet, Sockaddr}
use project_2_congest.Store.{Jobs, chunk_at}
use project_2_congest.Peer.{Peer, Env}
use project_2_congest.Peer.Flooding.{process_get}
use project_2_congest.Peer.Round.{round_end}
use project_2_congest.Peer.Invariant.{PeerInv}
use project_2_congest.Peer.Rounds.{process_inbound_udp-PeerInv, round_end-PeerInv}
use project_2_congest.Peer.Loop.{
  Command, Happening, init_connections, handle_user_input, handle_all, receive, peer_run,
  list_cases, process_get-PeerInv,
}
use project_2_congest.Downloads.{down, pend}
use project_2_congest.Connection.Receiver.{Platform}
use project_2_congest.Downloads.Packets.{ClaimedBy, process_inbound_udp-Claimed}
use project_2_congest.Downloads.Verified.{Verified}
use project_2_congest.Downloads.Verified.Handlers.{process_inbound_udp-Verified}
use project_2_congest.Downloads.NewJob.{process_get-Claimed, process_get-Verified}
use project_2_congest.Downloads.Finish.{round_end-Claimed, round_end-Verified}

-- The lists of a node are in order and claim the chunks of its jobs, and what is finished is written.
pub record DownloadsInv (m : Platform) (s : Peer) : Type 0 where
  pub in_order : PeerInv s
  pub claimed : ClaimedBy s
  pub verified : Verified m s

module _ (e : Env) (scan : List ℕ → ℕ × List ℕ) where
  process_get-DownloadsInv :
      (now : Timeval) (lines : Option (List (List ℕ))) (outf : List ℕ) (s : Peer)
      → DownloadsInv e.platform s
      → DownloadsInv e.platform (process_get e now scan lines outf s)
  process_get-DownloadsInv now lines outf s v = record {
    in_order = process_get-PeerInv e scan now lines outf s v.in_order;
    claimed = process_get-Claimed e scan now lines outf s v.claimed;
    verified = process_get-Verified e scan now lines outf s v.verified;
  }

  pub handle_all-DownloadsInv :
      (now : Timeval) (cs : List Command) (s : Peer)
      → DownloadsInv e.platform s
      → DownloadsInv e.platform (handle_all e scan now cs s)
  unfolding handle_all handle_user_input
  handle_all-DownloadsInv now [] s v = v
  handle_all-DownloadsInv now (c ∷ cs) s v = elim (list_cases c.outf) [
    | inl q ↦ rw (q, handle_user_input) (handle_all-DownloadsInv now cs s v)
    | inr (x, xs, q) ↦
        rw (q, handle_user_input)
          (handle_all-DownloadsInv now cs (process_get e now scan c.chunk_lines (x ∷ xs) s)
            (process_get-DownloadsInv now c.chunk_lines (x ∷ xs) s v))
  ]

  pub receive-DownloadsInv :
      (now : Timeval) (o : Option (Packet × Sockaddr)) (s : Peer)
      → DownloadsInv e.platform s
      → DownloadsInv e.platform (receive e scan now o s)
  receive-DownloadsInv now none s v = v
  receive-DownloadsInv now (some (received, from)) s v = record {
    in_order = process_inbound_udp-PeerInv e now received from s v.in_order;
    claimed = process_inbound_udp-Claimed e now received from s v.in_order v.claimed;
    verified = process_inbound_udp-Verified e now received from s v.verified;
  }

  pub round_end-DownloadsInv :
      (now : Timeval) (s : Peer) (last_flood_whohas_time : Timeval)
      → DownloadsInv e.platform s
      → DownloadsInv e.platform (round_end e now s last_flood_whohas_time).0
  round_end-DownloadsInv now s last v = record {
    in_order = round_end-PeerInv e now s last v.in_order;
    claimed = round_end-Claimed e now s last v.in_order v.claimed;
    verified = round_end-Verified e now s last v.verified;
  }

  peer_run-keeps :
      (hs : List Happening) (s : Peer) (last : Timeval)
      → DownloadsInv e.platform s
      → DownloadsInv e.platform (peer_run e scan hs s last).0
  unfolding peer_run
  peer_run-keeps [] s last v = v
  peer_run-keeps (h ∷ hs) s last v =
      let heard = receive e scan h.now h.inbound s in
      let asked = handle_all e scan h.now h.commands heard in
      let w =
        handle_all-DownloadsInv h.now h.commands heard (receive-DownloadsInv h.now h.inbound s v) in
      let next = round_end e h.now asked last in
      peer_run-keeps hs next.0 next.1 (round_end-DownloadsInv h.now asked last w)

  pub peer_run-DownloadsInv :
      (max_conn : ℕ) (s : Peer) (hs : List Happening) (last_flood_whohas_time : Timeval)
      → s.jobs ≡ []
      → DownloadsInv e.platform
          (peer_run e scan hs (init_connections max_conn s) last_flood_whohas_time).0
  unfolding init_connections chunk_at
  peer_run-DownloadsInv max_conn s hs last z =
      peer_run-keeps hs (init_connections max_conn s) last (record {
        in_order = record {
          providers = tt;
          provider_max = omega arith;
          receivers = tt;
          receiver_max = omega arith;
        };
        claimed = record {
          heads_down = λ q. ap (λ (j : Jobs). down (chunk_at j q)) (sym z);
          waiters_pend = λ q. ap (λ (j : Jobs). pend (chunk_at j q)) (sym z);
        };
        verified = λ q c here f. absurd (ground (arith, z, here));
      })
