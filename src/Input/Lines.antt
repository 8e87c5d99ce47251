-- ===== src/Input/Lines.antt =====
-- input_buffer.c: what the lines of a text are, and the search for the first newline.
use project_2_congest.Base.{
  ℕ, ◌≡◌, refl, ap, Bool, true, false, not, ◌&&◌, Bool-cases, none, some, List, [], ◌∷◌, ◌++◌,
  length, set, ◌==◌, inl, inr, if◌then◌else◌, arith,
}
use project_2_congest.Input.{newline, strchr, c_string}

-- The complete lines of a text, and what stands behind them.
pub record Split : Type 0 where
  pub complete : List (List ℕ)
  pub pending : List ℕ

abbrev pub put_before : ℕ → List (List ℕ) → List ℕ → Split
put_before b [] pending = record { complete = []; pending = b ∷ pending }
put_before b (l ∷ ls) pending = record { complete = (b ∷ l) ∷ ls; pending = pending }

unfoldable pub split : List ℕ → Split
split [] = record { complete = []; pending = [] }
split (b ∷ bs) =
    let rest = split bs in
    if b == newline
    then record rest { complete = [] ∷ rest.complete }
    else put_before b rest.complete rest.pending

abbrev pub zero_free : List ℕ → Bool
zero_free [] = true
zero_free (b ∷ bs) = not (b == 0) && zero_free bs

-- `text` starts with a line.
pub record Line (text : List ℕ) : Type 0 where
  pub line : List ℕ
  pub rest : List ℕ
  pub parts : text ≡ line ++ (newline ∷ rest)
  pub line_free : zero_free line ≡ true
  pub rest_free : zero_free rest ≡ true
  pub lines : (split text).complete ≡ line ∷ (split rest).complete
  pub pending : (split text).pending ≡ (split rest).pending

-- The search in a block that starts with the text, a zero behind it.
pub data Search (text junk : List ℕ) : Type 0 where
  no_line :
      strchr newline (text ++ (0 ∷ junk)) ≡ none
      → (split text).complete ≡ []
      → (split text).pending ≡ text
      → Search text junk
  line :
      (l : Line text)
      → strchr newline (text ++ (0 ∷ junk)) ≡ some (length l.line)
      → Search text junk

pub search : (text junk : List ℕ) → zero_free text ≡ true → Search text junk
unfolding strchr split
search [] junk f = no_line refl refl refl
search (b ∷ bs) junk f = elim (Bool-cases (b == newline)) [
  | inl e ↦
      line
        (record {
          line = [];
          rest = bs;
          parts = ground (arith, e);
          line_free = refl;
          rest_free = ground (arith, f);
          lines = ground (arith, e);
          pending = ground (arith, e);
        })
        (ground (arith, e))
  | inr e ↦ elim (search bs junk (ground (arith, f))) [
    | no_line s c p ↦
        no_line (ground (arith, e, f, s)) (ground (arith, e, c)) (ground (arith, e, c, p))
    | line l s ↦
        line
          (record {
            line = b ∷ l.line;
            rest = l.rest;
            parts = ap (◌∷◌ b) l.parts;
            line_free = ground (arith, f, l.line_free);
            rest_free = l.rest_free;
            lines = ground (arith, e, l.lines);
            pending = ground (arith, e, l.lines, l.pending);
          })
          (ground (arith, e, f, s))
  ]
]

pub set-append : (xs ys : List ℕ) (x v : ℕ) → set (xs ++ (x ∷ ys)) (length xs) v ≡ xs ++ (v ∷ ys)
set-append [] ys x v = refl
set-append (y ∷ xs) ys x v = ap (◌∷◌ y) (set-append xs ys x v)

pub c_string-append : (xs junk : List ℕ) → zero_free xs ≡ true → c_string (xs ++ (0 ∷ junk)) ≡ xs
unfolding c_string
c_string-append [] junk f = refl
c_string-append (x ∷ xs) junk f = ground (arith, f, c_string-append xs junk (ground (arith, f)))

-- What comes behind a text that was split.
abbrev pub go_on : Split → List ℕ → Split
go_on s ys =
    let t = split (s.pending ++ ys) in
    record { complete = s.complete ++ t.complete; pending = t.pending }

put_before-go_on :
    (b : ℕ) (ls : List (List ℕ)) (p ys : List ℕ)
    → (b == newline) ≡ false
    → let t = go_on (record { complete = ls; pending = p }) ys in
      put_before b t.complete t.pending ≡ go_on (put_before b ls p) ys
unfolding split
put_before-go_on b [] p ys e = rw (e) refl
put_before-go_on b (l ∷ ls) p ys e = refl

-- The lines of a text that comes in two parts.
pub split-append : (xs ys : List ℕ) → split (xs ++ ys) ≡ go_on (split xs) ys
unfolding split
split-append [] ys = refl
split-append (x ∷ xs) ys = elim (Bool-cases (x == newline)) [
  | inl e ↦ rw (e, split-append xs ys) refl
  | inr e ↦
      rw (e, split-append xs ys) (put_before-go_on x (split xs).complete (split xs).pending ys e)
]

-- What is pending has no complete line.
pub split-pending :
    (xs : List ℕ)
    → split (split xs).pending ≡ record { complete = []; pending = (split xs).pending }
unfolding split
split-pending [] = refl
split-pending (x ∷ xs) = elim (Bool-cases (x == newline)) [
  | inl e ↦ rw (e) (split-pending xs)
  | inr e ↦ rw (e) (behind (split xs).complete (split xs).pending (split-pending xs) e)
]
  where
    behind :
        (ls : List (List ℕ)) (p : List ℕ)
        → split p ≡ record { complete = []; pending = p }
        → (x == newline) ≡ false
        → split (put_before x ls p).pending
          ≡ record { complete = []; pending = (put_before x ls p).pending }
    behind [] p h e = rw (e, h) refl
    behind (l ∷ ls) p h e = h
