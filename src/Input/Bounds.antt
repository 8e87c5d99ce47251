-- ===== src/Input/Bounds.antt =====
-- input_buffer.c: the loop ends, and all that is read and moved lies in the block, whatever comes.
use project_2_congest.Base.{
  ℕ, zero, suc, ◌+◌, ◌-◌, ◌≤◌, ◌<◌, ◌≡◌, ◌⊎◌, refl, sym, ap, ◌∙◌, true, Bool-cases, Option-cases,
  none, some, List, [], ◌∷◌, ◌++◌, length, take, drop, set, get_elem?, leb, ◌==◌, length-set,
  length-take, length-drop, get_elem?-set_self, get_elem?-set_ne, inl, inr, arith, ==_iff,
}
use project_2_congest.Base.Memory.{memcpy, slice, length-memcpy}
use project_2_congest.Input.{
  UserIobuf, Handled, newline, strchr, shift, handle_lines, read_into, process_user_input,
}
use project_2_congest.Input.Lines.{zero_free}
use project_2_congest.Input.Loop.{Holds, handle_lines-Done, memcpy_front}

-- The block of `size + 1` bytes, the last of them 0.
pub record InBlock (size : ℕ) (b : UserIobuf) : Type 0 where
  pub block : length b.buf ≡ suc size
  pub last : get_elem? b.buf size ≡ some 0

get_elem?-front :
    (src dst : List ℕ) (i : ℕ)
    → length src ≤ i
    → i < length dst
    → get_elem? (src ++ drop (length src) dst) i ≡ get_elem? dst i
get_elem?-front [] dst i h k = refl
get_elem?-front (s ∷ src) [] i h k = absurd (omega arith)
get_elem?-front (s ∷ src) (x ∷ dst) zero h k = absurd (omega arith)
get_elem?-front (s ∷ src) (x ∷ dst) (suc i) h k =
    get_elem?-front src dst i (omega arith) (omega arith)

-- Bytes behind the copied ones are as they were.
get_elem?-memcpy :
    (dst src : List ℕ) (at i : ℕ)
    → at + length src ≤ i
    → i < length dst
    → get_elem? (memcpy dst at src) i ≡ get_elem? dst i
unfolding memcpy
get_elem?-memcpy dst src zero i h k =
    ap (λ (t : List ℕ). get_elem? t i) (memcpy_front dst src)
    ∙ get_elem?-front src dst i (omega arith) k
get_elem?-memcpy [] src (suc at) i h k = absurd (omega arith)
get_elem?-memcpy (x ∷ dst) src (suc at) zero h k = absurd (omega arith)
get_elem?-memcpy (x ∷ dst) src (suc at) (suc i) h k =
    rw (Prim.Native.Nat.add.suc at (length src))
      (get_elem?-memcpy dst src at i (omega arith) (omega arith))

-- What stands before the first zero.
first_zero :
    (xs : List ℕ) (i : ℕ)
    → get_elem? xs i ≡ some 0
    → (text : List ℕ) × (junk : List ℕ) × (xs ≡ text ++ (0 ∷ junk))
      × (zero_free text ≡ true)
      × (length text ≤ i)
first_zero [] i e = absurd (ground arith)
first_zero (x ∷ xs) zero e = ([], xs, ground (arith, e), refl, omega arith)
first_zero (x ∷ xs) (suc i) e = elim (Bool-cases (x == 0)) [
  | inl z ↦ ([], xs, ap (λ (y : ℕ). y ∷ xs) ((==_iff _ _).0 z), refl, omega arith)
  | inr z ↦
      let (text, junk, parts, free, short) = first_zero xs i e in
      (x ∷ text, junk, ap (◌∷◌ x) parts, ground (arith, z, free), omega (arith, short))
]

module _ (size : ℕ) where
  shift-InBlock :
      (k : ℕ) (b : UserIobuf) → InBlock size b → InBlock size (shift size k (set b.buf k 0) b.cur)
  unfolding shift slice
  shift-InBlock k b v =
      let cut = set b.buf k 0 in
      let whole : length cut ≡ suc size = length-set b.buf k 0 ∙ v.block in
      let copied = slice (suc k) (size - k) cut in
      let short : length copied ≤ size =
        omega (arith, length-take (size - k) (drop (suc k) cut), length-drop (suc k) cut) in
      record {
        block = length-memcpy cut copied 0 (omega (arith, short, whole)) ∙ whole;
        last =
            get_elem?-memcpy cut copied 0 size (omega (arith, short)) (omega (arith, whole))
            ∙ zero_there;
      }
    where
      zero_there : get_elem? (set b.buf k 0) size ≡ some 0
      zero_there = elim (Bool-cases (k == size)) [
        | inl e ↦
            let same : k ≡ size = (==_iff _ _).0 e in
            ap (get_elem? (set b.buf k 0)) (sym same)
            ∙ get_elem?-set_self b.buf k 0 (omega (arith, same, v.block))
        | inr e ↦ get_elem?-set_ne b.buf k size 0 (λ h. absurd (ground (arith, e, h))) ∙ v.last
      ]

  handle_lines-InBlock :
      (n : ℕ) (b : UserIobuf) → InBlock size b → InBlock size (handle_lines size n b).userbuf
  unfolding handle_lines
  handle_lines-InBlock zero b v = v
  handle_lines-InBlock (suc n) b v = elim (Option-cases (strchr newline b.buf)) [
    | inl e ↦ rw (e, handle_lines) v
    | inr (k, e) ↦
        rw (e, handle_lines)
          (handle_lines-InBlock n (shift size k (set b.buf k 0) b.cur) (shift-InBlock k b v))
  ]

  -- Whatever the buffer holds, as long as it has its length and its last byte is 0: after at most
  -- as many rounds as it has bytes the loop has ended, since no newline is left before the first
  -- zero; the buffer has its length, and its last byte is 0.
  pub handle_lines-ends :
      (b : UserIobuf)
      → InBlock size b
      → (strchr newline (handle_lines size (suc size) b).userbuf.buf ≡ none)
        × InBlock size (handle_lines size (suc size) b).userbuf
  handle_lines-ends b v =
      let (text, junk, parts, free, short) = first_zero b.buf size v.last in
      let held : Holds size text b = record {
        junk = junk;
        bytes = parts;
        free = free;
        block = v.block;
      } in
      (
        (handle_lines-Done size (suc size) text b held (omega (arith, short))).no_more,
        handle_lines-InBlock (suc size) b v,
      )

  -- Whatever stands ready to be read and whatever the buffer holds, as long as it has its length
  -- and its last byte is 0: a call exits, and then cur is at least size - 1, or it returns; then
  -- the bytes that it read lie before the last byte of the buffer, which has its length and ends
  -- with 0 as before, and no newline is left before the first zero.
  pub process_user_input-InBlock :
      (arrived : List ℕ) (b : UserIobuf)
      → InBlock size b
      → ((process_user_input size arrived b ≡ none) × (size - 1 ≤ b.cur))
        ⊎ ((h : Handled) × (process_user_input size arrived b ≡ some h)
            × (b.cur + length (take (size - b.cur) arrived) ≤ size)
            × InBlock size h.userbuf
            × (strchr newline h.userbuf.buf ≡ none))
  unfolding process_user_input read_into
  process_user_input-InBlock arrived b v = elim (Bool-cases (leb (size - 1) b.cur)) [
    | inl full ↦ inl (rw (full, process_user_input) refl, ground (arith, full))
    | inr open_yet ↦
        let bytes = take (size - b.cur) arrived in
        let room : b.cur + length bytes ≤ size =
          ground (arith, open_yet, length-take (size - b.cur) arrived) in
        let v' : InBlock size (read_into bytes b) = record {
          block = length-memcpy b.buf bytes b.cur (omega (arith, room, v.block)) ∙ v.block;
          last = get_elem?-memcpy b.buf bytes b.cur size room (omega (arith, v.block)) ∙ v.last;
        } in
        let e = handle_lines-ends (read_into bytes b) v' in
        inr (
          handle_lines size (suc size) (read_into bytes b),
          rw (open_yet, process_user_input) refl,
          room,
          e.1,
          e.0,
        )
  ]
