-- ===== src/Uploads/Served.antt =====
-- peer.c: what a node serves, along the loop of `peer_run`.
use project_2_congest.Base.{ℕ, List}
use project_2_congest.Packet.{Packet}
use project_2_congest.Peer.{Peer, Env}
use project_2_congest.Uploads.{UploadsInv}

module _ (e : Env) (scan : List ℕ → ℕ × List ℕ) where
  abbrev Inv : Peer → Type 0
  Inv s = UploadsInv e.disk s
