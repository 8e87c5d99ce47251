-- ===== src/Input.antt =====
-- input_buffer.h and input_buffer.c: the lines of standard input.
pub mod Lines
pub mod Loop
pub mod Calls
pub mod Bounds
use project_2_congest.Base.{
  ℕ, zero, suc, ◌+◌, ◌-◌, ◌%◌, ◌^◌, Option, none, some, List, [], ◌∷◌, ◌++◌, length, set, take,
  replicate, leb, ◌==◌, if◌then◌else◌,
}
use project_2_congest.Base.Memory.{memcpy, slice}

abbrev pub userbuf_size : ℕ
userbuf_size = 8191

abbrev pub newline : ℕ
newline = b'\n'

-- `struct user_iobuf`, with the bytes at `buf`.
pub record UserIobuf : Type 0 where
  pub buf : List ℕ
  pub cur : ℕ

-- The lines that were given to `handle_line`, in their order.
pub record Handled : Type 0 where
  pub userbuf : UserIobuf
  pub lines : List (List ℕ)

-- `strchr`, on the bytes of a block, as an index.
unfoldable pub strchr : ℕ → List ℕ → Option ℕ
strchr c [] = none
strchr c (b ∷ bs) =
    let rest = strchr c bs in
    if b == c then some 0 else if b == 0 then none else mathlib.Core.Option.map suc rest

-- The string that starts a block.
unfoldable pub c_string : List ℕ → List ℕ
c_string [] = []
c_string (b ∷ bs) = if b == 0 then [] else b ∷ c_string bs

-- `bytes` is what `read` gives.
unfoldable pub read_into : List ℕ → UserIobuf → UserIobuf
read_into bytes b = record { buf = memcpy b.buf b.cur bytes; cur = (b.cur + length bytes) % 2 ^ 32 }

-- `size` is USERBUF_SIZE.
module _ (size : ℕ) where
  -- Where `malloc` gives the memory.
  unfoldable pub create_userbuf : UserIobuf
  create_userbuf = record { buf = replicate (suc size) 0; cur = 0 }

  -- What `memmove` and the subtraction leave, `k` being `ret - userbuf->buf`; `cut` is the buffer with
  -- a zero for the newline.
  unfoldable pub shift : ℕ → List ℕ → ℕ → UserIobuf
  shift k cut cur = record {
    buf = memcpy cut 0 (slice (suc k) (size - k) cut);
    cur = (cur + (2 ^ 32 - suc k)) % 2 ^ 32;
  }

  -- The `while` loop, for at most so many rounds.
  unfoldable pub handle_lines : ℕ → UserIobuf → Handled
  unfolding shift
  handle_lines zero b = record { userbuf = b; lines = [] }
  handle_lines (suc n) b = elim (strchr newline b.buf) [
    | none ↦ record { userbuf = b; lines = [] }
    | some k ↦
        let cut = set b.buf k 0 in
        let rest = handle_lines n (shift k cut b.cur) in
        record rest { lines = c_string cut ∷ rest.lines }
  ]

  -- `arrived` is what stands ready to be read, which is nothing where `read` fails; `none` is `exit`.
  unfoldable pub process_user_input : List ℕ → UserIobuf → Option Handled
  unfolding handle_lines read_into
  process_user_input arrived b =
      if leb (size - 1) b.cur
      then none
      else some (handle_lines (suc size) (read_into (take (size - b.cur) arrived) b))

  -- A call for each of the lists, as `peer_run` makes them.
  unfoldable pub process_all : List (List ℕ) → UserIobuf → Option Handled
  unfolding process_user_input
  process_all [] b = some (record { userbuf = b; lines = [] })
  process_all (r ∷ rs) b = elim (process_user_input r b) [
    | none ↦ none
    | some h ↦ elim (process_all rs h.userbuf) [
      | none ↦ none
      | some t ↦ some (record t { lines = h.lines ++ t.lines })
    ]
  ]
