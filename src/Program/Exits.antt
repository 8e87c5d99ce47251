-- ===== src/Program/Exits.antt =====
-- peer.c, input_buffer.c: when the rounds of the program end with an exit of process_user_input.
use project_2_congest.Base.{ℕ, ◌-◌, ◌≤◌, ◌≡◌, some, List, ◌∷◌}
use project_2_congest.Input.{UserIobuf, Handled, userbuf_size, process_user_input}

-- Some call of process_user_input, after the calls before it, finds no room for a character and the
-- zero byte after it.
pub data FullAt : List (List ℕ) → UserIobuf → Type 0 where
  full :
      {r : List ℕ} {rs : List (List ℕ)} {b : UserIobuf}
      → userbuf_size - 1 ≤ b.cur
      → FullAt (r ∷ rs) b
  after :
      {r : List ℕ} {rs : List (List ℕ)} {b : UserIobuf} (h : Handled)
      → process_user_input userbuf_size r b ≡ some h
      → FullAt rs h.userbuf
      → FullAt (r ∷ rs) b
