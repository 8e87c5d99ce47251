-- ===== src/Peer/Start.antt =====
-- peer.c: the chunks that a node has when it starts.
use project_2_congest.Base.{
  ℕ, zero, suc, ◌*◌, ◌≡◌, refl, Option, none, some, List, [], ◌∷◌, take, map, get_elem?,
}
use project_2_congest.Hex.{hex2binary}
use project_2_congest.Packet.{hash_size}
use project_2_congest.Job.{Chunk, Job, new_chunk, malloc_new_job}

-- `scan` is that of `malloc_new_job`, and `fresh` is what the memory that `malloc` gave holds: the
-- status and the counters of a chunk stay as they are there. `count` is the number of lines read.
module _ (scan : List ℕ → ℕ × List ℕ) (fresh : ℕ → Chunk) where
  unfoldable pub init_has_chunks : ℕ → List (List ℕ) → List Chunk
  init_has_chunks count [] = []
  init_has_chunks count (line ∷ lines) =
      let (id, text) = scan line in
      record (fresh count) {
        id = id;
        hash_binary = hex2binary (take (hash_size * 2) text);
        chunk_data = none;
      }
      ∷ init_has_chunks (suc count) lines

  abbrev pub id_and_hash : Option Chunk → Option (ℕ × List ℕ)
  id_and_hash none = none
  id_and_hash (some c) = some (c.id, c.hash_binary)

  abbrev read_line : List ℕ → Chunk
  read_line line =
      let (id, text) = scan line in new_chunk id (hex2binary (take (hash_size * 2) text))

  owned_lem :
      (lines : List (List ℕ)) (count i : ℕ)
      → id_and_hash (get_elem? (init_has_chunks count lines) i)
        ≡ id_and_hash (get_elem? (map read_line lines) i)
  unfolding init_has_chunks new_chunk
  owned_lem [] count i = refl
  owned_lem (line ∷ lines) count zero = refl
  owned_lem (line ∷ lines) count (suc i) = owned_lem lines (suc count) i

  -- The chunks that a node has are, with their hashes, those that a job made of the same file asks
  -- for.
  pub init_has_chunks-malloc_new_job :
      (lines : List (List ℕ)) (name : List ℕ)
      → (job : Job) × (malloc_new_job scan (some lines) name ≡ some job)
        × ((i : ℕ)
            → id_and_hash (get_elem? (init_has_chunks 0 lines) i)
              ≡ id_and_hash (get_elem? job.chunks i))
  unfolding malloc_new_job
  init_has_chunks-malloc_new_job lines name = (
    record { output_file_name = take 128 name; chunks = map read_line lines },
    refl,
    λ i. owned_lem lines 0 i,
  )
