-- ===== src/Tests/Files.antt =====
-- chunk.c, make_chunks.c: a file of three bytes.
use project_2_congest.Base.{ℕ, ◌≡◌, some, List, [], ◌∷◌, length, map, replicate, get_elem?, arith}
use project_2_congest.Base.Int.{pos}
use project_2_congest.Job.{Job}
use project_2_congest.Chunks.{make_chunks, get_numchunks, printed_lines}
use project_2_congest.Chunks.Hashes.{expected, make_chunks-hashes}

abbrev zeros : ℕ → List ℕ
zeros n = replicate n 0

abbrev no_hash : List ℕ → List ℕ
no_hash bytes = zeros 20

abbrev file : List ℕ
file = 1 ∷ 2 ∷ 3 ∷ []

make_chunks-hashes_example :
    (get_numchunks (some 3) ≡ pos (length (make_chunks no_hash 3 file)))
    × ((i : ℕ) → get_elem? (make_chunks no_hash 3 file) i ≡ expected no_hash file i)
make_chunks-hashes_example = make_chunks-hashes no_hash 3 file (omega arith)

-- A line that starts with the number.
abbrev print : ℕ × List ℕ → List ℕ
print line = line.0 ∷ line.1

abbrev scan_line : List ℕ → ℕ × List ℕ
scan_line [] = (0, [])
scan_line (x ∷ xs) = (x, xs)

abbrev printed : List (List ℕ)
printed = map print (printed_lines 0 (make_chunks no_hash 3 file))
