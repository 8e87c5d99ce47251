-- ===== src/Store.antt =====
-- The memory that chunk pointers lead to: the jobs allocated so far. A job stands in its place for
-- good; one that was freed leaves `none`. Where the source would read through a pointer that leads
-- nowhere the model does nothing.
pub mod Writes
use project_2_congest.Base.{ℕ, Bool, ◌&&◌, Option, none, some, List, get_elem?, set, ◌==◌}
use project_2_congest.Job.{Job, Chunk}
use project_2_congest.Connection.{ChunkRef}

abbrev pub Jobs : Type 0
Jobs = List (Option Job)

abbrev pub chunk_of : Option (Option Job) → ℕ → Option Chunk
chunk_of none i = none
chunk_of (some none) i = none
chunk_of (some (some j)) i = get_elem? j.chunks i

-- `*r`.
unfoldable pub chunk_at : Jobs → ChunkRef → Option Chunk
chunk_at jobs r = chunk_of (get_elem? jobs r.job) r.index

abbrev pub with_chunk : Option Job → ℕ → Chunk → Option Job
with_chunk none i c = none
with_chunk (some j) i c = some (record j { chunks = set j.chunks i c })

-- `*r = c`.
unfoldable pub set_chunk : Jobs → ChunkRef → Chunk → Jobs
set_chunk jobs r c = elim (get_elem? jobs r.job) [
  | none ↦ jobs
  | some slot ↦ set jobs r.job (with_chunk slot r.index c)
]

abbrev pub same_ref : ChunkRef → ChunkRef → Bool
same_ref a b = a.job == b.job && a.index == b.index
