-- ===== src/Downloads/Got.antt =====
-- peer.c: what it means that `peer_run` announces a file.
use project_2_congest.Base.{ℕ, List}
use project_2_congest.Peer.{Peer, Env}
use project_2_congest.Peer.Loop.{Command}
use project_2_congest.Downloads.Verified.{Verified}
use project_2_congest.Downloads.Packets.{ClaimedBy}
use project_2_congest.Downloads.Announced.{Announced}

module _ (e : Env) (scan : List ℕ → ℕ × List ℕ) where
  abbrev Kept : List Command → Peer → Type 0
  Kept cs s = ClaimedBy s × Verified e.platform s × Announced e scan cs s
