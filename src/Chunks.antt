-- ===== src/Chunks.antt =====
-- chunk.c, chunk.h and make_chunks.c: the hashes of the chunks of a file, and the lines that are
-- printed of them. `shahash` is the function of chunk.c, which calls SHA-1.
pub mod Hashes
pub mod Described
use project_2_congest.Base.{
  ℕ, zero, suc, ◌+◌, ◌*◌, ◌/◌, ◌%◌, Option, none, some, List, [], ◌∷◌, length, take, drop, ◌==◌,
  if◌then◌else◌,
}
use project_2_congest.Base.Int.{ℤ, pos, negsuc}
use project_2_congest.Hex.{binary2hex}

abbrev pub bt_chunk_size : ℕ
bt_chunk_size = 524288

-- The `while` loop, for at most so many rounds; `bytes` are those of the file that are not read yet.
unfoldable pub make_chunks : (List ℕ → List ℕ) → ℕ → List ℕ → List (List ℕ)
make_chunks shahash zero bytes = []
make_chunks shahash (suc n) bytes =
    let buffer = take bt_chunk_size bytes in
    let rest = make_chunks shahash n (drop bt_chunk_size bytes) in
    if length buffer == 0 then [] else shahash buffer ∷ rest

-- `ceil` of the exact quotient; `none` is a file that `stat` does not find.
unfoldable pub get_numchunks : Option ℕ → ℤ
get_numchunks none = negsuc 0
get_numchunks (some st_size) =
    pos (st_size / bt_chunk_size + (if st_size % bt_chunk_size == 0 then 0 else 1))

-- What the loop of `main` prints, from number `i` on: a number and a text in each line.
unfoldable pub printed_lines : ℕ → List (List ℕ) → List (ℕ × List ℕ)
printed_lines i [] = []
printed_lines i (hash ∷ hashes) = (i, binary2hex hash) ∷ printed_lines (suc i) hashes
