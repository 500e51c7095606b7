-- ===== src/Plgbft/Bitmap.antt =====
-- consensus/plgbft/bitmap/bitmap.go: a set of indices as bytes, index 0 being the lowest bit of the
-- first byte. A byte is a number below 256.
pub mod Laws
use go_plgchain.Base.{
  ℕ, zero, suc, ◌+◌, ◌-◌, ◌*◌, ◌/◌, ◌%◌, List, [], ◌∷◌, ◌++◌, Bool, false, length, set, get_or, leb,
  ◌==◌, if◌then◌else◌,
}
use go_plgchain.Base.Bytes.{extend_byte_slice}

abbrev pub Bitmap : Type 0
Bitmap = List ℕ

-- byte & (1 << k) == 1 << k.
unfoldable pub has_bit : ℕ → ℕ → Bool
has_bit byte zero = byte % 2 == 1
has_bit byte (suc k) = has_bit (byte / 2) k

-- byte | (1 << k).
unfoldable pub with_bit : ℕ → ℕ → ℕ
with_bit byte zero = if byte % 2 == 1 then byte else byte + 1
with_bit byte (suc k) = 2 * with_bit (byte / 2) k + byte % 2

unfoldable pub set_bit : Bitmap → ℕ → Bitmap
set_bit b idx =
    let extended = extend_byte_slice b (idx / 8 + 1) in
    set extended (idx / 8) (with_bit (get_or extended (idx / 8) 0) (idx % 8))

abbrev pub len : Bitmap → ℕ
len b = length b * 8

unfoldable pub is_set : Bitmap → ℕ → Bool
is_set b idx = if leb (len b) idx then false else has_bit (get_or b (idx / 8) 0) (idx % 8)
