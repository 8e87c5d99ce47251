-- ===== src/Downloads/Packets.antt =====
-- peer.c: the handlers of packets and the chunks that the lists claim.
use project_2_congest.Base.{ℕ, ◌≡◌, Option, arith}
use project_2_congest.Clock.{Timeval}
use project_2_congest.Packet.{Packet, Sockaddr}
use project_2_congest.Peer.{Peer, Env, on_whohas, on_get, get_new, on_ack, process_inbound_udp}
use project_2_congest.Peer.Flooding.{flood_whohas}
use project_2_congest.Peer.Dispatch.{process_inbound_udp-keeps}
use project_2_congest.Peer.Invariant.{PeerInv}
use project_2_congest.Downloads.Claimed.{Claimed, on_ihave-Claimed}
use project_2_congest.Downloads.Taking.{on_data-Claimed}

-- The lists of a node claim the chunks of its jobs.
abbrev pub ClaimedBy : Peer → Type 0
ClaimedBy s = Claimed s.jobs s.receivers

-- Nothing that downloads depend on differs.
abbrev pub SameDownloads : Peer → Peer → Type 0
SameDownloads t s = (t.jobs ≡ s.jobs) × (t.receivers ≡ s.receivers) × (t.writes ≡ s.writes)

pub Claimed-subst : (s t : Peer) → SameDownloads t s → ClaimedBy s → ClaimedBy t
Claimed-subst s t e w = record {
  heads_down = λ q. rw (e.0, e.1) (w.heads_down q);
  waiters_pend = λ q. rw (e.0, e.1) (w.waiters_pend q);
}

module _ (e : Env) (now : Timeval) where
  pub on_whohas-same :
      (packet : Packet) (from : Sockaddr) (s : Peer)
      → SameDownloads (on_whohas e now packet from s) s
  unfolding on_whohas
  on_whohas-same packet from s = ground arith

  pub on_get-same :
      (packet : Packet) (peer : Option ℕ) (s : Peer) → SameDownloads (on_get e now packet peer s) s
  unfolding on_get get_new
  on_get-same packet peer s = ground arith

  pub on_ack-same :
      (packet : Packet) (peer : Option ℕ) (s : Peer) → SameDownloads (on_ack e now packet peer s) s
  unfolding on_ack
  on_ack-same packet peer s = ground arith

  pub flood_whohas-same : (s : Peer) → SameDownloads (flood_whohas e now s) s
  unfolding flood_whohas
  flood_whohas-same s = ground arith

  pub flood_whohas-Claimed : (s : Peer) → ClaimedBy s → ClaimedBy (flood_whohas e now s)
  flood_whohas-Claimed s w = Claimed-subst s (flood_whohas e now s) (flood_whohas-same s) w

  pub process_inbound_udp-Claimed :
      (received : Packet) (from : Sockaddr) (s : Peer)
      → PeerInv s
      → ClaimedBy s
      → ClaimedBy (process_inbound_udp e now received from s)
  process_inbound_udp-Claimed received from s v w =
      process_inbound_udp-keeps e now from s ClaimedBy
        (record {
          whohas = λ p. Claimed-subst s (on_whohas e now p from s) (on_whohas-same p from s) w;
          ihave = λ p peer. on_ihave-Claimed e now p peer s v w;
          get = λ p peer. Claimed-subst s (on_get e now p peer s) (on_get-same p peer s) w;
          arrived = λ p peer. on_data-Claimed e now p from peer s v w;
          ack = λ p peer. Claimed-subst s (on_ack e now p peer s) (on_ack-same p peer s) w;
          ignored = w;
        })
        received
