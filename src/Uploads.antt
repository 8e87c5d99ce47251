-- ===== src/Uploads.antt =====
-- job.c, connection.c and peer.c together: the chunks that a node serves.
pub mod Loading
pub mod Tables
pub mod Handlers
pub mod Served
use project_2_congest.Base.{ℕ, ◌≡◌, some, List, [], ◌∷◌, get_elem?}
use project_2_congest.Job.{Chunk, Disk, read_chunk_data}
use project_2_congest.Connection.{ProviderConnection}
use project_2_congest.Peer.{Peer}

-- What is in memory of a chunk is what its file holds.
abbrev pub Own : Disk → List Chunk → Type 0
Own disk cs =
    (k : ℕ) (c : Chunk) (bytes : List ℕ)
    → get_elem? cs k ≡ some c
    → c.chunk_data ≡ some bytes
    → read_chunk_data disk c.id ≡ some bytes

-- The data of the chunk at place `k` is in memory.
abbrev pub IsInMemory : List Chunk → ℕ → Type 0
IsInMemory cs k =
    (c : Chunk) × (bytes : List ℕ) × (get_elem? cs k ≡ some c) × (c.chunk_data ≡ some bytes)

abbrev pub AllServe : List Chunk → List ProviderConnection → Type 0
AllServe cs [] = Unit {0}
AllServe cs (p ∷ ps) = IsInMemory cs p.chunk × AllServe cs ps

abbrev pub UploadsInv : Disk → Peer → Type 0
UploadsInv disk s = Own disk s.has_chunks × AllServe s.has_chunks s.providers
