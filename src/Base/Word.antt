-- ===== src/Base/Word.antt =====
-- C's fixed-width integers as bit patterns, and the signed numbers that the patterns stand for.
use project_2_congest.Base.{ℕ, ◌+◌, ◌-◌, ◌*◌, ◌/◌, ◌%◌, ◌^◌, ◌<◌, ltb, if◌then◌else◌, ◌≡◌, arith}
use project_2_congest.Base.Int.{ℤ, pos, negsuc}

-- `char` is signed.
abbrev pub signed8 : ℕ → ℤ
signed8 w = if ltb w (2 ^ 7) then pos w else negsuc (2 ^ 8 - w - 1)

abbrev pub signed16 : ℕ → ℤ
signed16 w = if ltb w (2 ^ 15) then pos w else negsuc (2 ^ 16 - w - 1)

abbrev pub signed32 : ℕ → ℤ
signed32 w = if ltb w (2 ^ 31) then pos w else negsuc (2 ^ 32 - w - 1)

-- `htons` and `ntohs` on a little-endian machine: the two bytes change places.
unfoldable pub swap16 : ℕ → ℕ
swap16 w = w % 256 * 256 + w / 256 % 256

-- `htonl` and `ntohl`: the four bytes are reversed.
unfoldable pub swap32 : ℕ → ℕ
swap32 w = w % 256 * 16777216 + w / 256 % 256 * 65536 + w / 65536 % 256 * 256 + w / 16777216 % 256

pub swap16-swap16 : (w : ℕ) → w < 2 ^ 16 → swap16 (swap16 w) ≡ w
unfolding swap16
swap16-swap16 w h = omega arith

pub swap32-swap32 : (w : ℕ) → w < 2 ^ 32 → swap32 (swap32 w) ≡ w
unfolding swap32
swap32-swap32 w h = omega arith
