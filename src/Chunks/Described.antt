-- ===== src/Chunks/Described.antt =====
-- make_chunks.c and job.c: a job that is made of the lines that make_chunks printed for a file.
use project_2_congest.Base.{ℕ, ◌*◌, ◌≡◌, Option, none, some, List, length, take}
use project_2_congest.Hex.{AllBytes, hex2binary}
use project_2_congest.Packet.{hash_size}
use project_2_congest.Job.{Chunk, Job, new_chunk}

-- A hash as SHA-1 makes it.
abbrev pub IsHash : List ℕ → Type 0
IsHash hash = AllBytes hash × (length hash ≡ 20)

abbrev numbered : ℕ → Option (List ℕ) → Option Chunk
numbered i none = none
numbered i (some hash) = some (new_chunk i hash)

module _ (print : ℕ × List ℕ → List ℕ) (scan : List ℕ → ℕ × List ℕ)
    (reads : (i : ℕ) (text : List ℕ) → scan (print (i, text)) ≡ (i, text)) where
  -- What `malloc_new_job` makes of a line.
  abbrev read_chunk : List ℕ → Chunk
  read_chunk line =
      let (id, text) = scan line in new_chunk id (hex2binary (take (hash_size * 2) text))
