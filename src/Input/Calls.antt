-- ===== src/Input/Calls.antt =====
-- input_buffer.c: one call after the other hands over the lines of all that is read.
use project_2_congest.Base.{
  ℕ, zero, suc, ◌+◌, ◌-◌, ◌^◌, ◌≤◌, ◌<◌, ◌≡◌, refl, sym, ap, ap₂, ◌∙◌, true, false, some, List, [],
  ◌∷◌, ◌++◌, length, take, drop, replicate, leb, length-append, length-drop, take-append, arith,
}
use mathlib.Core.List.{append_assoc, append-nil}
use project_2_congest.Base.Memory.{memcpy, length-memcpy}
use project_2_congest.Input.{
  UserIobuf, Handled, create_userbuf, handle_lines, read_into, process_user_input, process_all,
  c_string,
}
use project_2_congest.Input.Lines.{
  Split, split, go_on, split-append, split-pending, zero_free, c_string-append,
}
use project_2_congest.Input.Loop.{Holds, all_zero, all_zero-drop, handle_lines-Done, take_all}

-- The buffer holds `text`, and zeros behind it.
pub record Clean (size : ℕ) (text : List ℕ) (b : UserIobuf) : Type 0 where
  pub held : Holds size text b
  pub clean : all_zero held.junk ≡ true
  pub count : b.cur ≡ length text

-- What is read next, together with what is pending, fills no more than half of the buffer, and has
-- no zero byte.
pub data Fits (size : ℕ) : List ℕ → List (List ℕ) → Type 0 where
  all_read : {text : List ℕ} → Fits size text []
  next :
      {text r : List ℕ} {rs : List (List ℕ)}
      → zero_free r ≡ true
      → length (text ++ r) + length (text ++ r) ≤ suc size
      → Fits size (split (text ++ r)).pending rs
      → Fits size text (r ∷ rs)

abbrev pub joined : List (List ℕ) → List ℕ
joined [] = []
joined (r ∷ rs) = r ++ joined rs

abbrev zeros : ℕ → List ℕ
zeros n = replicate n 0

replicate_lem : (n : ℕ) → (length (zeros n) ≡ n) × (all_zero (zeros n) ≡ true)
replicate_lem zero = (refl, refl)
replicate_lem (suc n) = (ap suc (replicate_lem n).0, ground (arith, (replicate_lem n).1))

zero_cons :
    (xs : List ℕ)
    → all_zero xs ≡ true
    → 1 ≤ length xs
    → (ys : List ℕ) × (xs ≡ 0 ∷ ys) × (all_zero ys ≡ true)
zero_cons [] a h = absurd (omega arith)
zero_cons (x ∷ xs) a h = (xs, ground (arith, a), ground (arith, a))

zero_free-append :
    (xs ys : List ℕ) → zero_free xs ≡ true → zero_free ys ≡ true → zero_free (xs ++ ys) ≡ true
zero_free-append [] ys a b = b
zero_free-append (x ∷ xs) ys a b = ground (arith, a, zero_free-append xs ys (ground (arith, a)) b)

module _ (size : ℕ) where
  create_userbuf-Clean : Clean size [] (create_userbuf size)
  unfolding create_userbuf
  create_userbuf-Clean = record {
    held = record {
      junk = zeros size;
      bytes = refl;
      free = refl;
      block = ap suc (replicate_lem size).0;
    };
    clean = (replicate_lem size).1;
    count = refl;
  }

  read_into-Clean :
      (text bytes : List ℕ) (b : UserIobuf)
      → Clean size text b
      → zero_free bytes ≡ true
      → length text + length bytes ≤ size
      → size < 2 ^ 32
      → Clean size (text ++ bytes) (read_into bytes b)
  unfolding read_into memcpy
  read_into-Clean text bytes b c free room small =
      let n = length text + length bytes in
      let junk = c.held.junk in
      let tail = drop n (text ++ (0 ∷ junk)) in
      let clear : all_zero tail ≡ true = all_zero-drop text (0 ∷ junk) n (omega arith) c.clean in
      let length_tail : 1 ≤ length tail =
        omega
          (arith, room, length-drop n (text ++ (0 ∷ junk)), ap length c.held.bytes, c.held.block) in
      let (rest, is_rest, rest_zeros) = zero_cons tail clear length_tail in
      let front : take b.cur b.buf ≡ text =
        ap (λ (k : ℕ). take k b.buf) c.count
        ∙ ap (take (length text)) c.held.bytes
        ∙ take-append text (0 ∷ junk) (length text) refl in
      let back : drop (b.cur + length bytes) b.buf ≡ 0 ∷ rest =
        ap (λ (k : ℕ). drop (k + length bytes) b.buf) c.count
        ∙ ap (drop n) c.held.bytes
        ∙ is_rest in
      record {
        held = record {
          junk = rest;
          bytes =
              ap₂ (λ (x y : List ℕ). x ++ (bytes ++ y)) front back
              ∙ sym (append_assoc text bytes (0 ∷ rest));
          free = zero_free-append text bytes c.held.free free;
          block =
              length-memcpy b.buf bytes b.cur (omega (arith, c.count, c.held.block, room))
              ∙ c.held.block;
        };
        clean = rest_zeros;
        count = omega (arith, c.count, length-append text bytes, room, small);
      }

  -- A call that hands over lines.
  pub record Called (text arrived : List ℕ) (b : UserIobuf) : Type 0 where
    pub handled : Handled
    pub returned : process_user_input size arrived b ≡ some handled
    pub lines : handled.lines ≡ (split (text ++ arrived)).complete
    pub rest : Clean size (split (text ++ arrived)).pending handled.userbuf

  process_user_input-Called :
      (text arrived : List ℕ) (b : UserIobuf)
      → Clean size text b
      → zero_free arrived ≡ true
      → length (text ++ arrived) + length (text ++ arrived) ≤ suc size
      → 5 ≤ size
      → size < 2 ^ 32
      → Called text arrived b
  unfolding process_user_input
  process_user_input-Called text arrived b c free half large small =
      let whole = length-append text arrived in
      let all : take (size - b.cur) arrived ≡ arrived =
        take_all arrived (size - b.cur) (omega (arith, c.count, whole, half, large)) in
      let open_yet : leb (size - 1) b.cur ≡ false = ground (arith, c.count, whole, half, large) in
      let c' = read_into-Clean text arrived b c free (omega (arith, whole, half, large)) small in
      let b' = read_into arrived b in
      let d =
        handle_lines-Done size (suc size) (text ++ arrived) b' c'.held
          (omega (arith, half, large)) in
      record {
        handled = handle_lines size (suc size) b';
        returned =
            rw (open_yet, process_user_input)
              (ap (λ (r : List ℕ). some (handle_lines size (suc size) (read_into r b))) all);
        lines = d.lines;
        rest = record {
          held = d.rest_held;
          clean = d.stays_clean c'.clean half;
          count = d.count c'.count small;
        };
      }

  -- All calls.
  pub record AllCalled (text : List ℕ) (rs : List (List ℕ)) (b : UserIobuf) : Type 0 where
    pub handled : Handled
    pub returned : process_all size rs b ≡ some handled
    pub lines : handled.lines ≡ (split (text ++ joined rs)).complete
    pub rest : c_string handled.userbuf.buf ≡ (split (text ++ joined rs)).pending

  process_all-AllCalled :
      (text : List ℕ) (rs : List (List ℕ)) (b : UserIobuf)
      → Clean size text b
      → split text ≡ record { complete = []; pending = text }
      → Fits size text rs
      → 5 ≤ size
      → size < 2 ^ 32
      → AllCalled text rs b
  unfolding process_all
  process_all-AllCalled text [] b c pending f large small =
      let same = ap split (append-nil text) ∙ pending in
      record {
        handled = record { userbuf = b; lines = [] };
        returned = refl;
        lines = sym (ap (λ (s : Split). s.complete) same);
        rest =
            ap c_string c.held.bytes
            ∙ c_string-append text c.held.junk c.held.free
            ∙ sym (ap (λ (s : Split). s.pending) same);
      }
  process_all-AllCalled text (r ∷ rs) b c pending (next free half f) large small =
      let one = process_user_input-Called text r b c free half large small in
      let all =
        process_all-AllCalled (split (text ++ r)).pending rs one.handled.userbuf one.rest
          (split-pending (text ++ r)) f large small in
      let same : split (text ++ (r ++ joined rs)) ≡ go_on (split (text ++ r)) (joined rs) =
        ap split (sym (append_assoc text r (joined rs))) ∙ split-append (text ++ r) (joined rs) in
      record {
        handled = record all.handled { lines = one.handled.lines ++ all.handled.lines };
        returned = rw (one.returned, all.returned, process_all) refl;
        lines = ap₂ ◌++◌ one.lines all.lines ∙ sym (ap (λ (s : Split). s.complete) same);
        rest = all.rest ∙ sym (ap (λ (s : Split). s.pending) same);
      }

  -- For a buffer whose size is at least 5 and below 2 ^ 32: if what is read in each call, together
  -- with the line that is not complete yet, has at most half of the buffer's size and no zero
  -- byte, then no call exits, the lines handed over by all the calls together are the lines of all
  -- that was read, in their order, however the calls cut it, and the buffer holds what stands
  -- behind the last newline.
  pub process_all-lines :
      (rs : List (List ℕ))
      → Fits size [] rs
      → 5 ≤ size
      → size < 2 ^ 32
      → (h : Handled) × (process_all size rs (create_userbuf size) ≡ some h)
        × (h.lines ≡ (split (joined rs)).complete)
        × (c_string h.userbuf.buf ≡ (split (joined rs)).pending)
  unfolding split
  process_all-lines rs f large small =
      let a =
        process_all-AllCalled [] rs (create_userbuf size) create_userbuf-Clean (split-pending []) f
          large small in
      (a.handled, a.returned, a.lines, a.rest)
