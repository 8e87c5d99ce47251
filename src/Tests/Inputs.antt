-- ===== src/Tests/Inputs.antt =====
-- input_buffer.c: reads that cut lines, and a buffer of 9 bytes that one read fills.
use project_2_congest.Base.{
  ℕ, ◌+◌, ◌-◌, ◌≤◌, ◌≡◌, ◌⊎◌, refl, none, some, List, [], ◌∷◌, length, take, arith,
}
use project_2_congest.Base.Memory.{memcpy, slice}
use project_2_congest.Input.{
  UserIobuf, Handled, userbuf_size, newline, strchr, c_string, shift, create_userbuf, handle_lines,
  read_into, process_user_input, process_all,
}
use project_2_congest.Input.Lines.{split}
use project_2_congest.Input.Calls.{Fits, next, all_read, joined, process_all-lines}
use project_2_congest.Input.Bounds.{InBlock, handle_lines-ends, process_user_input-InBlock}

abbrev reads : List (List ℕ)
reads = (b'G' ∷ b'E' ∷ []) ∷ (b'T' ∷ newline ∷ newline ∷ b'a' ∷ []) ∷ (b'b' ∷ newline ∷ []) ∷ []

reads_fit : Fits userbuf_size [] reads
unfolding split
reads_fit = next refl (omega arith) (next refl (omega arith) (next refl (omega arith) all_read))

process_all-lines_example :
    (h : Handled) × (process_all userbuf_size reads (create_userbuf userbuf_size) ≡ some h)
    × (h.lines ≡ (split (joined reads)).complete)
    × (c_string h.userbuf.buf ≡ (split (joined reads)).pending)
process_all-lines_example =
    process_all-lines userbuf_size reads reads_fit (omega arith) (omega arith)

-- Two lines, and bytes behind the first zero.
abbrev small_buffer : UserIobuf
small_buffer = record {
  buf = b'a' ∷ newline ∷ b'b' ∷ newline ∷ 0 ∷ newline ∷ b'c' ∷ newline ∷ 0 ∷ [];
  cur = 4;
}

small_buffer-InBlock : InBlock 8 small_buffer
small_buffer-InBlock = record { block = refl; last = refl }

handle_lines-ends_example :
    (strchr newline (handle_lines 8 9 small_buffer).userbuf.buf ≡ none)
    × InBlock 8 (handle_lines 8 9 small_buffer).userbuf
handle_lines-ends_example = handle_lines-ends 8 small_buffer small_buffer-InBlock

abbrev one_byte : List ℕ
one_byte = b'x' ∷ []

process_user_input-InBlock_example :
    ((process_user_input 8 one_byte small_buffer ≡ none) × (8 - 1 ≤ 4))
    ⊎ ((h : Handled) × (process_user_input 8 one_byte small_buffer ≡ some h)
        × (4 + length (take (8 - 4) one_byte) ≤ 8)
        × InBlock 8 h.userbuf
        × (strchr newline h.userbuf.buf ≡ none))
process_user_input-InBlock_example =
    process_user_input-InBlock 8 one_byte small_buffer small_buffer-InBlock

-- The first read fills the buffer, and bytes of it stay behind. The second hands over a line of
-- which one byte alone was read, and the count of bytes goes below 0.
stale :
    process_all 8
      ((b'a' ∷ b'b' ∷ b'c' ∷ newline ∷ b'd' ∷ b'e' ∷ newline ∷ b'f' ∷ []) ∷ (b'x' ∷ []) ∷ [])
      (create_userbuf 8)
    ≡ some (record {
      userbuf = record {
        buf = b'f' ∷ 0 ∷ newline ∷ b'f' ∷ 0 ∷ 0 ∷ newline ∷ b'f' ∷ 0 ∷ [];
        cur = 4294967294;
      };
      lines = (b'a' ∷ b'b' ∷ b'c' ∷ []) ∷ (b'd' ∷ b'e' ∷ []) ∷ (b'f' ∷ b'x' ∷ b'e' ∷ []) ∷ [];
    })
unfolding process_all process_user_input create_userbuf read_into handle_lines shift strchr c_string
    memcpy slice
stale = refl
