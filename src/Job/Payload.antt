-- ===== src/Job/Payload.antt =====
-- The payload of WHOHAS and IHAVE packets: a count in the first byte, and from the fourth byte on
-- the hashes one after the other.
use project_2_congest.Base.{
  ℕ, zero, suc, ◌+◌, ◌*◌, ◌%◌, ◌≤◌, ◌<◌, ◌≡◌, refl, sym, ap₂, ◌∙◌, List, [], ◌∷◌, length,
  length-set, set, if◌then◌else◌, arith,
}
use project_2_congest.Base.Int.{pos, pos_part, ltb_ℤ}
use project_2_congest.Base.Word.{signed8}
use project_2_congest.Base.Memory.{
  memcpy, slice, length-memcpy, slice-memcpy_self, slice-memcpy_before,
}
use project_2_congest.Packet.{alignment_byte_num, hash_size, max_hash_list_num}

abbrev pub hash_place : ℕ → ℕ
hash_place i = alignment_byte_num + i * hash_size

unfoldable pub hash_at : List ℕ → ℕ → List ℕ
hash_at payload i = slice (hash_place i) hash_size payload

unfoldable pub write_hash : List ℕ → ℕ → List ℕ → List ℕ
write_hash payload i hash = memcpy payload (hash_place i) hash

abbrev pub first_byte : List ℕ → ℕ
first_byte [] = 0
first_byte (b ∷ bs) = b

-- The count that a receiver reads: a `char`, cut at the maximum; a loop to it runs no round if it
-- is negative.
unfoldable pub count_at : List ℕ → ℕ
count_at payload =
    let n = signed8 (first_byte payload) in
    if ltb_ℤ (pos max_hash_list_num) n then max_hash_list_num else pos_part n

unfoldable pub set_count : List ℕ → ℕ → List ℕ
set_count payload n = set payload 0 (n % 256)

-- The hashes from place `i` on, `n` of them.
unfoldable pub read_hashes : ℕ → ℕ → List ℕ → List (List ℕ)
unfolding hash_at
read_hashes zero i payload = []
read_hashes (suc n) i payload = hash_at payload i ∷ read_hashes n (suc i) payload

-- The hashes that a receiver of the packet goes through.
unfoldable pub listed_hashes : List ℕ → List (List ℕ)
listed_hashes payload = read_hashes (count_at payload) 0 payload

unfoldable pub write_hashes : ℕ → List (List ℕ) → List ℕ → List ℕ
write_hashes i [] payload = payload
write_hashes i (h ∷ hs) payload = write_hashes (suc i) hs (write_hash payload i h)

abbrev pub AllHashes : List (List ℕ) → Type 0
AllHashes [] = Unit {0}
AllHashes (h ∷ hs) = (length h ≡ hash_size) × AllHashes hs

-- Room for the hashes up to place `n`.
abbrev pub Room : ℕ → List ℕ → Type 0
Room n payload = hash_place n ≤ length payload

length-write_hash :
    (payload h : List ℕ) (i : ℕ)
    → length h ≡ hash_size
    → Room (suc i) payload
    → length (write_hash payload i h) ≡ length payload
unfolding write_hash
length-write_hash payload h i e r = length-memcpy payload h (hash_place i) (omega arith)

pub length-write_hashes :
    (hs : List (List ℕ)) (i : ℕ) (payload : List ℕ)
    → AllHashes hs
    → Room (i + length hs) payload
    → length (write_hashes i hs payload) ≡ length payload
unfolding write_hashes
length-write_hashes [] i payload a r = refl
length-write_hashes (h ∷ hs) i payload a r =
    let same = length-write_hash payload h i a.0 (omega arith) in
    length-write_hashes hs (suc i) (write_hash payload i h) a.1 (omega arith) ∙ same

-- Writing from place `i` on keeps the hash before it.
hash_at-write_hashes :
    (hs : List (List ℕ)) (i j : ℕ) (payload : List ℕ)
    → AllHashes hs
    → j < i
    → Room (i + length hs) payload
    → hash_at (write_hashes i hs payload) j ≡ hash_at payload j
unfolding write_hashes
hash_at-write_hashes [] i j payload a lt r = refl
hash_at-write_hashes (h ∷ hs) i j payload a lt r =
    let same = length-write_hash payload h i a.0 (omega arith) in
    hash_at-write_hashes hs (suc i) j (write_hash payload i h) a.1 (omega arith) (omega arith)
    ∙ kept
  where
    kept : hash_at (write_hash payload i h) j ≡ hash_at payload j
    kept =
        unfold hash_at write_hash in
        slice-memcpy_before payload h (hash_place j) hash_size (hash_place i) (omega arith)
          (omega arith)

-- What was written is read back.
pub read_hashes-write_hashes :
    (hs : List (List ℕ)) (i n : ℕ) (payload : List ℕ)
    → AllHashes hs
    → Room (i + length hs) payload
    → n ≡ length hs
    → read_hashes n i (write_hashes i hs payload) ≡ hs
unfolding read_hashes write_hashes
read_hashes-write_hashes [] i zero payload a r e = refl
read_hashes-write_hashes [] i (suc n) payload a r e = absurd (omega arith)
read_hashes-write_hashes (h ∷ hs) i zero payload a r e = absurd (omega arith)
read_hashes-write_hashes (h ∷ hs) i (suc n) payload a r e =
    let same = length-write_hash payload h i a.0 (omega arith) in
    ap₂ ◌∷◌
      (hash_at-write_hashes hs (suc i) i (write_hash payload i h) a.1 (omega arith) (omega arith)
        ∙ self)
      (read_hashes-write_hashes hs (suc i) n (write_hash payload i h) a.1 (omega arith)
        (omega arith))
  where
    self : hash_at (write_hash payload i h) i ≡ h
    self =
        unfold hash_at write_hash in
        slice-memcpy_self payload h (hash_place i) hash_size (omega arith) (sym a.0)

slice-set_first :
    (payload : List ℕ) (from n v : ℕ)
    → 0 < from
    → slice from n (set payload 0 v) ≡ slice from n payload
unfolding slice
slice-set_first payload zero n v h = absurd (omega arith)
slice-set_first [] (suc from) n v h = refl
slice-set_first (x ∷ payload) (suc from) n v h = refl

-- Setting the count keeps the hashes.
pub read_hashes-set_count :
    (n i : ℕ) (payload : List ℕ) (k : ℕ)
    → read_hashes n i (set_count payload k) ≡ read_hashes n i payload
unfolding read_hashes hash_at set_count
read_hashes-set_count zero i payload k = refl
read_hashes-set_count (suc n) i payload k =
    ap₂ ◌∷◌ (slice-set_first payload (hash_place i) hash_size (k % 256) (omega arith))
      (read_hashes-set_count n (suc i) payload k)

-- A count up to the maximum is read as it was set.
pub count_at-set_count :
    (payload : List ℕ) (n : ℕ)
    → n ≤ max_hash_list_num
    → 0 < length payload
    → count_at (set_count payload n) ≡ n
unfolding count_at set_count
count_at-set_count [] n h r = absurd (omega arith)
count_at-set_count (x ∷ payload) n h r = ground arith

pub length-set_count : (payload : List ℕ) (n : ℕ) → length (set_count payload n) ≡ length payload
unfolding set_count
length-set_count payload n = length-set payload 0 (n % 256)

pub count_at-le : (payload : List ℕ) → count_at payload ≤ max_hash_list_num
unfolding count_at
count_at-le payload = ground arith

pub count_at_same : (p q : List ℕ) → first_byte p ≡ first_byte q → count_at p ≡ count_at q
unfolding count_at
count_at_same p q e = rw e

first_byte-write_hash :
    (payload h : List ℕ) (i : ℕ)
    → 0 < length payload
    → first_byte (write_hash payload i h) ≡ first_byte payload
unfolding write_hash memcpy
first_byte-write_hash [] h i r = absurd (omega arith)
first_byte-write_hash (x ∷ payload) h i r =
    let e : hash_place i ≡ suc (3 + i * hash_size) = omega arith in rw e refl

-- Writing hashes keeps the count.
pub count_at-write_hashes :
    (hs : List (List ℕ)) (i : ℕ) (payload : List ℕ)
    → AllHashes hs
    → 0 < length payload
    → Room (i + length hs) payload
    → count_at (write_hashes i hs payload) ≡ count_at payload
unfolding write_hashes
count_at-write_hashes [] i payload a p r = refl
count_at-write_hashes (h ∷ hs) i payload a p r =
    let same = length-write_hash payload h i a.0 (omega arith) in
    count_at-write_hashes hs (suc i) (write_hash payload i h) a.1 (omega arith) (omega arith)
    ∙ count_at_same (write_hash payload i h) payload (first_byte-write_hash payload h i p)
