-- ===== src/Input/Loop.antt =====
-- input_buffer.c: the loop hands over the lines of the string in the buffer, and leaves the rest.
use project_2_congest.Base.{
  ℕ, zero, suc, ◌+◌, ◌-◌, ◌^◌, ◌≤◌, ◌<◌, ◌≡◌, refl, sym, ap, ap₂, ◌∙◌, subst, Bool, true, ◌&&◌,
  none, some, List, [], ◌∷◌, ◌++◌, length, set, take, drop, ◌==◌, length-append, length-set, arith,
}
use mathlib.Core.List.{append_assoc}
use project_2_congest.Base.Memory.{memcpy, slice, length-memcpy}
use project_2_congest.Input.{UserIobuf, Handled, newline, strchr, c_string, shift, handle_lines}
use project_2_congest.Input.Lines.{
  split, zero_free, Line, no_line, line, search, set-append, c_string-append,
}

-- The buffer holds the string `text`.
pub record Holds (size : ℕ) (text : List ℕ) (b : UserIobuf) : Type 0 where
  pub junk : List ℕ
  pub bytes : b.buf ≡ text ++ (0 ∷ junk)
  pub free : zero_free text ≡ true
  pub block : length b.buf ≡ suc size

abbrev pub all_zero : List ℕ → Bool
all_zero [] = true
all_zero (x ∷ xs) = x == 0 && all_zero xs

pub all_zero-append :
    (xs ys : List ℕ) → all_zero xs ≡ true → all_zero ys ≡ true → all_zero (xs ++ ys) ≡ true
all_zero-append [] ys a b = b
all_zero-append (x ∷ xs) ys a b = ground (arith, a, all_zero-append xs ys (ground (arith, a)) b)

-- What stands far enough behind is zero.
pub all_zero-drop :
    (xs ys : List ℕ) (n : ℕ)
    → length xs ≤ n
    → all_zero ys ≡ true
    → all_zero (drop n (xs ++ ys)) ≡ true
all_zero-drop [] ys zero h a = a
all_zero-drop [] [] (suc n) h a = refl
all_zero-drop [] (y ∷ ys) (suc n) h a = all_zero-drop [] ys n (omega arith) (ground (arith, a))
all_zero-drop (x ∷ xs) ys zero h a = absurd (omega arith)
all_zero-drop (x ∷ xs) ys (suc n) h a = all_zero-drop xs ys n (omega arith) a

pub take_all : (xs : List ℕ) (n : ℕ) → length xs ≤ n → take n xs ≡ xs
take_all [] zero h = refl
take_all [] (suc n) h = refl
take_all (x ∷ xs) zero h = absurd (omega arith)
take_all (x ∷ xs) (suc n) h = ap (◌∷◌ x) (take_all xs n (omega arith))

drop_past : (xs ys : List ℕ) (x : ℕ) → drop (suc (length xs)) (xs ++ (x ∷ ys)) ≡ ys
drop_past [] ys x = refl
drop_past (z ∷ xs) ys x = drop_past xs ys x

pub memcpy_front : (dst src : List ℕ) → memcpy dst 0 src ≡ src ++ drop (length src) dst
unfolding memcpy
memcpy_front dst src =
    let same : 0 + length src ≡ length src = omega arith in ap (λ (n : ℕ). src ++ drop n dst) same

module _ (size : ℕ) where
  -- One round.
  pub record Shifted (text : List ℕ) (b : UserIobuf) (p : Holds size text b) (l : Line text)
      : Type 0 where
    pub rest_held :
        Holds size l.rest (shift size (length l.line) (set b.buf (length l.line) 0) b.cur)
    pub said : c_string (set b.buf (length l.line) 0) ≡ l.line
    pub stays_clean :
        all_zero p.junk ≡ true → length text + length l.line ≤ size → all_zero rest_held.junk ≡ true

  pub shifted :
      (text : List ℕ) (b : UserIobuf) (p : Holds size text b) (l : Line text) → Shifted text b p l
  unfolding shift memcpy slice
  shifted text b p l =
      let k = length l.line in
      let behind = l.rest ++ (0 ∷ p.junk) in
      let laid : b.buf ≡ l.line ++ (newline ∷ behind) =
        p.bytes
        ∙ ap (λ (t : List ℕ). t ++ (0 ∷ p.junk)) l.parts
        ∙ append_assoc l.line (newline ∷ l.rest) (0 ∷ p.junk) in
      let cut : set b.buf k 0 ≡ l.line ++ (0 ∷ behind) =
        ap (λ (t : List ℕ). set t k 0) laid ∙ set-append l.line behind newline 0 in
      let sizes : suc size ≡ k + suc (length behind) =
        omega (arith, p.block, ap length laid, length-append l.line (newline ∷ behind)) in
      let copied : slice (suc k) (size - k) (set b.buf k 0) ≡ behind =
        ap (λ (t : List ℕ). take (size - k) (drop (suc k) t)) cut
        ∙ ap (take (size - k)) (drop_past l.line behind 0)
        ∙ take_all behind (size - k) (omega (arith, sizes)) in
      let tail = drop (length behind) (l.line ++ (0 ∷ behind)) in
      let moved : (shift size k (set b.buf k 0) b.cur).buf ≡ l.rest ++ (0 ∷ (p.junk ++ tail)) =
        ap (memcpy (set b.buf k 0) 0) copied
        ∙ memcpy_front (set b.buf k 0) behind
        ∙ ap (λ (t : List ℕ). behind ++ drop (length behind) t) cut
        ∙ append_assoc l.rest (0 ∷ p.junk) tail in
      record {
        rest_held = record {
          junk = p.junk ++ tail;
          bytes = moved;
          free = l.rest_free;
          block =
              length-memcpy (set b.buf k 0) (slice (suc k) (size - k) (set b.buf k 0)) 0
                (omega (arith, ap length copied, length-set b.buf k 0, p.block, sizes))
              ∙ length-set b.buf k 0
              ∙ p.block;
        };
        said = ap c_string cut ∙ c_string-append l.line behind l.line_free;
        stays_clean = λ clean h. all_zero-append p.junk tail clean (
            subst (λ (t : List ℕ). all_zero (drop (length behind) t) ≡ true)
              (append_assoc l.line (0 ∷ l.rest) (0 ∷ p.junk))
              (all_zero-drop (l.line ++ (0 ∷ l.rest)) (0 ∷ p.junk) (length behind)
                (omega (
                  arith,
                  sizes,
                  h,
                  length-append l.line (0 ∷ l.rest),
                  length-append l.line (newline ∷ l.rest),
                  ap length l.parts,
                ))
                clean));
      }

  -- What the loop does, for a buffer that holds `text`.
  pub record Done (text : List ℕ) (b : UserIobuf) (p : Holds size text b) (h : Handled)
      : Type 0 where
    pub lines : h.lines ≡ (split text).complete
    pub rest_held : Holds size (split text).pending h.userbuf
    pub no_more : strchr newline h.userbuf.buf ≡ none
    pub count : b.cur ≡ length text → size < 2 ^ 32 → h.userbuf.cur ≡ length (split text).pending
    pub stays_clean :
        all_zero p.junk ≡ true
        → length text + length text ≤ suc size
        → all_zero rest_held.junk ≡ true

  round_lem :
      (n : ℕ) (text : List ℕ) (b : UserIobuf) (p : Holds size text b) (l : Line text)
      (s : Shifted text b p l)
      → strchr newline b.buf ≡ some (length l.line)
      → Done l.rest
          (shift size (length l.line) (set b.buf (length l.line) 0) b.cur)
          s.rest_held
          (handle_lines size n (shift size (length l.line) (set b.buf (length l.line) 0) b.cur))
      → Done text b p (handle_lines size (suc n) b)
  unfolding handle_lines
  round_lem n text b p l s found d =
      let sizes : length text ≡ suc (length l.line + length l.rest) =
        omega (arith, ap length l.parts, length-append l.line (newline ∷ l.rest)) in
      let room : length text ≤ size =
        omega (arith, p.block, ap length p.bytes, length-append text (0 ∷ p.junk)) in
      rw (found, handle_lines)
        (record {
          lines = ap₂ ◌∷◌ s.said d.lines ∙ sym l.lines;
          rest_held = record {
            junk = d.rest_held.junk;
            bytes =
                d.rest_held.bytes
                ∙ ap (λ (t : List ℕ). t ++ (0 ∷ d.rest_held.junk)) (sym l.pending);
            free = ap zero_free l.pending ∙ d.rest_held.free;
            block = d.rest_held.block;
          };
          no_more = d.no_more;
          count = λ e small.
              d.count (omega (arith, e, small, sizes, room)) small ∙ ap length (sym l.pending);
          stays_clean = λ clean small.
              d.stays_clean (s.stays_clean clean (omega (arith, small, sizes)))
                (omega (arith, small, sizes));
        })

  pub handle_lines-Done :
      (n : ℕ) (text : List ℕ) (b : UserIobuf) (p : Holds size text b)
      → length text < n
      → Done text b p (handle_lines size n b)
  unfolding handle_lines
  handle_lines-Done zero text b p h = absurd (omega arith)
  handle_lines-Done (suc n) text b p h = elim (search text p.junk p.free) [
    | line l found ↦
        let sizes : length text ≡ suc (length l.line + length l.rest) =
          omega (arith, ap length l.parts, length-append l.line (newline ∷ l.rest)) in
        let s = shifted text b p l in
        let next = shift size (length l.line) (set b.buf (length l.line) 0) b.cur in
        round_lem n text b p l s (ap (strchr newline) p.bytes ∙ found)
          (handle_lines-Done n l.rest next s.rest_held (omega (arith, h, sizes)))
    | no_line none_left complete pending ↦
        let found : strchr newline b.buf ≡ none = ap (strchr newline) p.bytes ∙ none_left in
        rw (found, handle_lines)
          (record {
            lines = sym complete;
            rest_held = record {
              junk = p.junk;
              bytes = p.bytes ∙ ap (λ (t : List ℕ). t ++ (0 ∷ p.junk)) (sym pending);
              free = ap zero_free pending ∙ p.free;
              block = p.block;
            };
            no_more = found;
            count = λ e small. e ∙ ap length (sym pending);
            stays_clean = λ clean small. clean;
          })
  ]
