-- ===== src/Transfer/Requests.antt =====
-- job.c and connection.c: the GET packet that starts a connection opens one for the same chunk.
use project_2_congest.Base.{
  ℕ, suc, ◌≡◌, ◌≢◌, ◌⊎◌, sym, true, false, Bool-cases, Option, none, some, List, [], ◌∷◌, get_elem?,
  inl, inr, arith,
}
use project_2_congest.Base.Memory.{same_bytes, same_bytes_refl, eq_of_same_bytes}
use project_2_congest.Job.{read_chunk_data, Chunk, Disk, find_chunk}

differs : (xs ys : List ℕ) → same_bytes xs ys ≡ false → ys ≢ xs
differs xs ys e q = let t : same_bytes xs ys ≡ true = rw q (same_bytes_refl xs) in ground arith

-- `o` is the place, counted from `i`, of the first chunk with the hash.
pub data IsFirst (hash : List ℕ) : List Chunk → ℕ → Option ℕ → Type 0 where
  nowhere : {i : ℕ} → IsFirst hash [] i none
  here :
      {c : Chunk} {cs : List Chunk} {i : ℕ}
      → c.hash_binary ≡ hash
      → IsFirst hash (c ∷ cs) i (some i)
  later :
      {c : Chunk} {cs : List Chunk} {i : ℕ} {o : Option ℕ}
      → c.hash_binary ≢ hash
      → IsFirst hash cs (suc i) o
      → IsFirst hash (c ∷ cs) i o

-- The search that `get_chunk` and `seach_owned_chunk` make gives the place of the first chunk with
-- the hash, and nothing exactly if no chunk has it.
pub find_chunk-IsFirst :
    (cs : List Chunk) (i : ℕ) (hash : List ℕ) → IsFirst hash cs i (find_chunk cs i hash)
unfolding find_chunk
find_chunk-IsFirst [] i hash = nowhere
find_chunk-IsFirst (c ∷ cs) i hash = elim (Bool-cases (same_bytes hash c.hash_binary)) [
  | inl e ↦ rw e (here (sym (eq_of_same_bytes hash c.hash_binary e)))
  | inr e ↦ rw e (later (λ q. differs hash c.hash_binary e q) (find_chunk-IsFirst cs (suc i) hash))
]

-- The data of the chunk is in memory, or it can be read from its file.
abbrev pub IsLoaded : Disk → Chunk → List ℕ → Type 0
IsLoaded disk d bytes =
    (d.chunk_data ≡ some bytes) ⊎ ((d.chunk_data ≡ none) × (read_chunk_data disk d.id ≡ some bytes))

abbrev pub chunk_data_at : List Chunk → ℕ → Option (List ℕ)
chunk_data_at cs k = elim (get_elem? cs k) [ none ↦ none | some c ↦ c.chunk_data ]
