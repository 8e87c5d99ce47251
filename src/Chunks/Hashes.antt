-- ===== src/Chunks/Hashes.antt =====
-- chunk.c, make_chunks.c: how many hashes there are, and of what.
use project_2_congest.Base.{
  ◌⊎◌, ℕ, zero, suc, ◌+◌, ◌-◌, ◌*◌, ◌/◌, ◌%◌, ◌≤◌, ◌≡◌, refl, sym, ap, ◌∙◌, Bool, true, false,
  Option, none, some, List, [], ◌∷◌, length, take, drop, get_elem?, ltb, ◌==◌, length-take,
  length-drop, inl, inr, if◌then◌else◌, arith,
}
use project_2_congest.Base.Int.{pos}
use project_2_congest.Base.Memory.{slice}
use project_2_congest.Chunks.{bt_chunk_size, make_chunks, get_numchunks}

nothing : List ℕ
nothing = []

drop_nil : (n : ℕ) → drop n nothing ≡ nothing
unfolding nothing
drop_nil zero = refl
drop_nil (suc n) = refl

drop_add : (m n : ℕ) (xs : List ℕ) → drop n (drop m xs) ≡ drop (m + n) xs
unfolding nothing
drop_add zero n xs = let same : n ≡ 0 + n = omega arith in ap (λ (k : ℕ). drop k xs) same
drop_add (suc m) n [] = drop_nil n ∙ sym (drop_nil (suc m + n))
drop_add (suc m) n (x ∷ xs) = rw (Prim.Native.Nat.add.suc m n) (drop_add m n xs)

-- The bytes of chunk `i`.
abbrev pub chunk_bytes : List ℕ → ℕ → List ℕ
chunk_bytes bytes i = slice (i * bt_chunk_size) bt_chunk_size bytes

chunk_bytes-drop :
    (bytes : List ℕ) (i : ℕ) → chunk_bytes (drop bt_chunk_size bytes) i ≡ chunk_bytes bytes (suc i)
unfolding slice
chunk_bytes-drop bytes i =
    let next : bt_chunk_size + i * bt_chunk_size ≡ suc i * bt_chunk_size = omega arith in
    ap (take bt_chunk_size)
      (drop_add bt_chunk_size (i * bt_chunk_size) bytes ∙ ap (λ (k : ℕ). drop k bytes) next)

take_some :
    (size : ℕ) (bytes : List ℕ)
    → 1 ≤ size
    → 1 ≤ length bytes
    → (length (take size bytes) == 0) ≡ false
take_some size bytes h k = ground (arith, h, k, length-take size bytes)

-- A round of the loop.
round_lem :
    (shahash : List ℕ → List ℕ) (n : ℕ) (bytes : List ℕ)
    → 1 ≤ length bytes
    → make_chunks shahash (suc n) bytes
      ≡ shahash (chunk_bytes bytes 0) ∷ make_chunks shahash n (drop bt_chunk_size bytes)
unfolding make_chunks slice
round_lem shahash n bytes h = rw (take_some bt_chunk_size bytes (omega arith) h) refl

end_lem : (shahash : List ℕ → List ℕ) (n : ℕ) → make_chunks shahash n [] ≡ []
unfolding make_chunks
end_lem shahash zero = refl
end_lem shahash (suc n) = refl

hashes_of : ℕ → ℕ
hashes_of n = n / bt_chunk_size + (if n % bt_chunk_size == 0 then 0 else 1)

hashes_of-next : (n : ℕ) → 1 ≤ n → hashes_of n ≡ suc (hashes_of (n - bt_chunk_size))
unfolding hashes_of
hashes_of-next n h = ground arith

length_cases : (bytes : List ℕ) → (bytes ≡ nothing) ⊎ (1 ≤ length bytes)
unfolding nothing
length_cases [] = inl refl
length_cases (x ∷ xs) = inr (omega arith)

length_lem :
    (shahash : List ℕ → List ℕ) (n : ℕ) (bytes : List ℕ)
    → length bytes ≤ n
    → length (make_chunks shahash n bytes) ≡ hashes_of (length bytes)
unfolding make_chunks nothing hashes_of
length_lem shahash zero bytes h = elim (length_cases bytes) [
  | inl e ↦ rw (e) refl
  | inr some_left ↦ absurd (omega (arith, some_left, h))
]
length_lem shahash (suc n) bytes h = elim (length_cases bytes) [
  | inl e ↦ rw (e) refl
  | inr some_left ↦
      let left = length-drop bt_chunk_size bytes in
      ap length (round_lem shahash n bytes some_left)
      ∙ ap suc (length_lem shahash n (drop bt_chunk_size bytes) (omega (arith, left, h, some_left)))
      ∙ ap (λ (k : ℕ). suc (hashes_of k)) left
      ∙ sym (hashes_of-next (length bytes) some_left)
]

-- What `make_chunks` has at place `i`.
abbrev pub expected : (List ℕ → List ℕ) → List ℕ → ℕ → Option (List ℕ)
expected shahash bytes i =
    if ltb (i * bt_chunk_size) (length bytes) then some (shahash (chunk_bytes bytes i)) else none

expected-nothing : (shahash : List ℕ → List ℕ) (i : ℕ) → none ≡ expected shahash nothing i
unfolding nothing
expected-nothing shahash i = ground arith

ltb_lem : (a b s c d : ℕ) → d ≡ b - s → c ≡ s + a → ltb a d ≡ ltb c b
ltb_lem a b s c d e f = ground (arith, e, f)

expected-drop :
    (shahash : List ℕ → List ℕ) (bytes : List ℕ) (i : ℕ)
    → expected shahash (drop bt_chunk_size bytes) i ≡ expected shahash bytes (suc i)
expected-drop shahash bytes i =
    let left = length-drop bt_chunk_size bytes in
    let here : ltb (i * bt_chunk_size) (length (drop bt_chunk_size bytes))
        ≡ ltb (suc i * bt_chunk_size) (length bytes) =
      ltb_lem (i * bt_chunk_size) (length bytes) bt_chunk_size (suc i * bt_chunk_size)
        (length (drop bt_chunk_size bytes)) left (omega arith) in
    rw (here, chunk_bytes-drop bytes i) refl

get_nothing :
    (shahash : List ℕ → List ℕ) (n i : ℕ)
    → get_elem? (make_chunks shahash n nothing) i ≡ expected shahash nothing i
unfolding nothing
get_nothing shahash n i =
    ap (λ (l : List (List ℕ)). get_elem? l i) (end_lem shahash n) ∙ expected-nothing shahash i

first_lem : (n : ℕ) → 1 ≤ n → ltb (0 * bt_chunk_size) n ≡ true
first_lem n h = ground (arith, h)

get_lem :
    (shahash : List ℕ → List ℕ) (n : ℕ) (bytes : List ℕ) (i : ℕ)
    → length bytes ≤ n
    → get_elem? (make_chunks shahash n bytes) i ≡ expected shahash bytes i
get_lem shahash zero bytes i h = elim (length_cases bytes) [
  | inl e ↦ rw (e) (get_nothing shahash 0 i)
  | inr some_left ↦ absurd (omega (arith, some_left, h))
]
get_lem shahash (suc n) bytes zero h = elim (length_cases bytes) [
  | inl e ↦ rw (e) (get_nothing shahash (suc n) 0)
  | inr some_left ↦
      ap (λ (l : List (List ℕ)). get_elem? l 0) (round_lem shahash n bytes some_left)
      ∙ ap (λ (b : Bool). if b then some (shahash (chunk_bytes bytes 0)) else none)
          (sym (first_lem (length bytes) some_left))
]
get_lem shahash (suc n) bytes (suc i) h = elim (length_cases bytes) [
  | inl e ↦ rw (e) (get_nothing shahash (suc n) (suc i))
  | inr some_left ↦
      let left = length-drop bt_chunk_size bytes in
      ap (λ (l : List (List ℕ)). get_elem? l (suc i)) (round_lem shahash n bytes some_left)
      ∙ get_lem shahash n (drop bt_chunk_size bytes) i (omega (arith, left, h, some_left))
      ∙ expected-drop shahash bytes i
]

-- The loop of make_chunks, given at least as many rounds as the file has bytes, makes as many
-- hashes as get_numchunks says, and hash number i is that of the bytes from i times the size of a
-- chunk on, up to the size of a chunk or the end of the file.
pub make_chunks-hashes :
    (shahash : List ℕ → List ℕ) (n : ℕ) (bytes : List ℕ)
    → length bytes ≤ n
    → (get_numchunks (some (length bytes)) ≡ pos (length (make_chunks shahash n bytes)))
      × ((i : ℕ) → get_elem? (make_chunks shahash n bytes) i ≡ expected shahash bytes i)
unfolding get_numchunks hashes_of
make_chunks-hashes shahash n bytes h =
    (ap pos (sym (length_lem shahash n bytes h)), λ i. get_lem shahash n bytes i h)
