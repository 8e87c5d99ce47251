-- ===== src/Downloads.antt =====
-- job.h, connection.h: which receiver connection waits for which chunk. The status of a chunk says
-- how often pointers to it stand in the lists of the connections.
pub mod Grows
pub mod Starts
pub mod Claimed
pub mod Resets
pub mod Taking
pub mod Cancels
pub mod Packets
pub mod Preserved
pub mod Steady
pub mod Written
pub mod Verified
pub mod Finish
pub mod NewJob
pub mod Asked
pub mod Loop
pub mod Outcome
pub mod Announced
pub mod Got
pub mod Described
use project_2_congest.Base.{ℕ, ◌+◌, ◌≡◌, Option, none, some, List, [], ◌∷◌, if◌then◌else◌}
use project_2_congest.Job.{Chunk, ChunkStatus, not_found, downloading, pending, finished}
use project_2_congest.Store.{Jobs, chunk_at, same_ref}
use project_2_congest.Connection.{ChunkRef, ReceiverConnection}

abbrev pub hit : ChunkRef → ChunkRef → ℕ
hit r q = if same_ref r q then 1 else 0

-- How often `q` stands in a list.
abbrev pub occurrences : ChunkRef → List ChunkRef → ℕ
occurrences q [] = 0
occurrences q (r ∷ rs) = hit r q + occurrences q rs

-- How often it stands first, and behind the first.
abbrev pub at_head : ChunkRef → List ChunkRef → ℕ
at_head q [] = 0
at_head q (r ∷ rs) = hit r q

abbrev pub behind : ChunkRef → List ChunkRef → ℕ
behind q [] = 0
behind q (r ∷ rs) = occurrences q rs

abbrev pub heads : ChunkRef → ReceiverConnection → ℕ
heads q conn = at_head q conn.chunk_list

abbrev pub waiters : ChunkRef → ReceiverConnection → ℕ
waiters q conn = behind q conn.chunk_list

abbrev status_weight : ℕ → ℕ → ChunkStatus → ℕ
status_weight d p not_found = 0
status_weight d p downloading = d
status_weight d p pending = p
status_weight d p finished = 0

-- 1 for a chunk that is downloaded, and 1 for one that waits; a freed chunk is neither.
abbrev pub down : Option Chunk → ℕ
down none = 0
down (some c) = status_weight 1 0 c.status

abbrev pub pend : Option Chunk → ℕ
pend none = 0
pend (some c) = status_weight 0 1 c.status
