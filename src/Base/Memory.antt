-- ===== src/Base/Memory.antt =====
-- Byte arrays, and the functions of <string.h> on them.
use project_2_congest.Base.{
  ℕ, zero, suc, ◌+◌, ◌≤◌, ◌≡◌, refl, ap, ◌∙◌, Bool, true, false, ◌&&◌, List, [], ◌∷◌, ◌++◌, take,
  drop, length, length-take, length-drop, length-append, take-append, drop-append, ◌==◌, arith,
}

-- `memcpy(dst + at, src, length src)`.
unfoldable pub memcpy : List ℕ → ℕ → List ℕ → List ℕ
memcpy dst at src = take at dst ++ (src ++ drop (at + length src) dst)

-- The `n` bytes from `at` on.
unfoldable pub slice : ℕ → ℕ → List ℕ → List ℕ
slice at n bytes = take n (drop at bytes)

-- `memcmp(a, b, n) == 0` for two arrays of one size.
unfoldable pub same_bytes : List ℕ → List ℕ → Bool
same_bytes [] [] = true
same_bytes (x ∷ xs) (y ∷ ys) = x == y && same_bytes xs ys
same_bytes _ _ = false

pub same_bytes_refl : (xs : List ℕ) → same_bytes xs xs ≡ true
unfolding same_bytes
same_bytes_refl [] = refl
same_bytes_refl (x ∷ xs) = ground (arith, same_bytes_refl xs)

pub eq_of_same_bytes : (xs ys : List ℕ) → same_bytes xs ys ≡ true → xs ≡ ys
unfolding same_bytes
eq_of_same_bytes [] [] h = refl
eq_of_same_bytes [] (y ∷ ys) h = cc
eq_of_same_bytes (x ∷ xs) [] h = cc
eq_of_same_bytes (x ∷ xs) (y ∷ ys) h = ground (arith, eq_of_same_bytes xs ys)

pub length-memcpy :
    (dst src : List ℕ) (at : ℕ)
    → at + length src ≤ length dst
    → length (memcpy dst at src) ≡ length dst
unfolding memcpy
length-memcpy dst src at h = omega (
  arith,
  length-append (take at dst) (src ++ drop (at + length src) dst),
  length-append src (drop (at + length src) dst),
  length-take at dst,
  length-drop (at + length src) dst,
)

-- What was copied is read back.
pub slice-memcpy_self :
    (dst src : List ℕ) (at n : ℕ)
    → at ≤ length dst
    → n ≡ length src
    → slice at n (memcpy dst at src) ≡ src
unfolding memcpy slice
slice-memcpy_self dst src at n h e =
    ap (take n) (drop-append (take at dst) _ at (omega (arith, length-take at dst)))
    ∙ take-append src _ n e

take-take-append :
    (xs ys : List ℕ) (n m : ℕ) → n ≤ m → m ≤ length xs → take n (take m xs ++ ys) ≡ take n xs
take-take-append xs ys zero m h k = refl
take-take-append xs ys (suc n) zero h k = absurd (omega arith)
take-take-append [] ys (suc n) (suc m) h k = absurd (omega arith)
take-take-append (x ∷ xs) ys (suc n) (suc m) h k =
    ap (◌∷◌ x) (take-take-append xs ys n m (omega arith) (omega arith))

-- Bytes before a cut are as they were.
pub slice-take :
    (xs ys : List ℕ) (from n m : ℕ)
    → from + n ≤ m
    → m ≤ length xs
    → slice from n (take m xs ++ ys) ≡ slice from n xs
unfolding slice
slice-take xs ys zero n m h k = take-take-append xs ys n m (omega arith) k
slice-take xs ys (suc from) n zero h k = absurd (omega arith)
slice-take [] ys (suc from) n (suc m) h k = absurd (omega arith)
slice-take (x ∷ xs) ys (suc from) n (suc m) h k =
    slice-take xs ys from n m (omega arith) (omega arith)

-- Bytes before the copied ones are as they were.
pub slice-memcpy_before :
    (dst src : List ℕ) (from n at : ℕ)
    → from + n ≤ at
    → at ≤ length dst
    → slice from n (memcpy dst at src) ≡ slice from n dst
unfolding memcpy slice
slice-memcpy_before dst src zero n at h k = take-take-append dst _ n at (omega arith) k
slice-memcpy_before dst src (suc from) n zero h k = absurd (omega arith)
slice-memcpy_before [] src (suc from) n (suc at) h k = absurd (omega arith)
slice-memcpy_before (x ∷ dst) src (suc from) n (suc at) h k =
    rw (Prim.Native.Nat.add.suc at (length src))
      (slice-memcpy_before dst src from n at (omega arith) (omega arith))

-- What was before the copied bytes, and those.
pub take-memcpy :
    (dst src : List ℕ) (at n : ℕ)
    → at ≤ length dst
    → n ≡ at + length src
    → take n (memcpy dst at src) ≡ take at dst ++ src
unfolding memcpy
take-memcpy dst src zero n h e = take-append src _ n (omega arith)
take-memcpy [] src (suc at) n h e = absurd (omega arith)
take-memcpy (x ∷ dst) src (suc at) zero h e = absurd (omega arith)
take-memcpy (x ∷ dst) src (suc at) (suc n) h e =
    rw (Prim.Native.Nat.add.suc at (length src))
      (ap (◌∷◌ x) (take-memcpy dst src at n (omega arith) (omega arith)))

-- The copied bytes fit the block afterwards.
pub le-length-memcpy :
    (dst src : List ℕ) (at : ℕ) → at ≤ length dst → at + length src ≤ length (memcpy dst at src)
unfolding memcpy
le-length-memcpy dst src at h = omega (
  arith,
  length-append (take at dst) (src ++ drop (at + length src) dst),
  length-append src (drop (at + length src) dst),
  length-take at dst,
)
