-- ===== src/Program/Runs.antt =====
-- peer.c: the program, from `main` to what it announces.
use project_2_congest.Base.{List}
use project_2_congest.Peer.{Peer}
