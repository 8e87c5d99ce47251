-- ===== src/Hex.antt =====
-- chunk.c: the hexadecimal text of a hash. A `char` is its code, a number below 256.
use Prim.Native.Nat.{bit_or}
use project_2_congest.Base.{
  ℕ, zero, suc, ◌+◌, ◌-◌, ◌*◌, ◌/◌, ◌%◌, ◌<◌, ◌≡◌, refl, ap₂, Bool, true, ◌&&◌, List, [], ◌∷◌, ltb,
  leb, ◌==◌, if◌then◌else◌, arith,
}
use project_2_congest.Base.Int.{pos, ltb_ℤ}
use project_2_congest.Base.Word.{signed8}

-- `%.2x` prints one digit of the byte after the other.
abbrev hex_digit : ℕ → ℕ
hex_digit d = if ltb d 10 then b'0' + d else b'a' + (d - 10)

unfoldable pub binary2hex : List ℕ → List ℕ
binary2hex [] = []
binary2hex (b ∷ bs) = hex_digit (b / 16) ∷ hex_digit (b % 16) ∷ binary2hex bs

abbrev to_upper : ℕ → ℕ
to_upper c = if leb b'a' c && leb c b'z' then c - 32 else c

-- `_hex2binary`: 256 is added first since `-` stops at 0.
abbrev hex_value : ℕ → ℕ
hex_value hex =
    let c = to_upper hex in
    if ltb_ℤ (pos b'9') (signed8 c) then (c + 256 - (b'A' - 0x0a)) % 256 else (c + 256 - b'0') % 256

-- A digit without its partner reads the byte behind the text; the callers pass 40 digits.
unfoldable pub hex2binary : List ℕ → List ℕ
hex2binary [] = []
hex2binary (x ∷ []) = []
hex2binary (x ∷ y ∷ hex) = bit_or (hex_value x * 16) (hex_value y) % 256 ∷ hex2binary hex

abbrev pub AllBytes : List ℕ → Type 0
AllBytes [] = Unit {0}
AllBytes (b ∷ bs) = (b < 256) × AllBytes bs

-- What comes back of one byte.
unfoldable reread : ℕ → ℕ
reread b = bit_or (hex_value (hex_digit (b / 16)) * 16) (hex_value (hex_digit (b % 16))) % 256

-- Whether the first `n` bytes all come back.
rereads : ℕ → Bool
rereads zero = true
rereads (suc n) = (reread n == n) && rereads n

reread-rereads : (n : ℕ) {b : ℕ} → b < n → rereads n ≡ true → reread b ≡ b
unfolding rereads
reread-rereads zero lt all = absurd (omega arith)
reread-rereads (suc n) {b} lt all = ground (arith, reread-rereads n {b = b})

reread_byte : (b : ℕ) → b < 256 → reread b ≡ b
unfolding reread rereads
reread_byte b h = reread-rereads 256 h refl

-- The hexadecimal text of a list of bytes, each below 256, reads back as the same bytes.
pub hex2binary-binary2hex : (bs : List ℕ) → AllBytes bs → hex2binary (binary2hex bs) ≡ bs
unfolding hex2binary binary2hex reread
hex2binary-binary2hex [] h = refl
hex2binary-binary2hex (b ∷ bs) h = ap₂ ◌∷◌ (reread_byte b h.0) (hex2binary-binary2hex bs h.1)
