-- ===== src/State/Evm/Indices.antt =====
-- The index of BYTE, which opByte reads as an int64.
use go_plgchain.Base.{ℕ, ◌+◌, ◌-◌, ◌*◌, ◌/◌, ◌%◌, ◌^◌, ◌≤◌, ◌≡◌, refl, false, ltb, ◌&&◌, arith}
use go_plgchain.Base.Word.{u64_mod}
use go_plgchain.State.Evm.Words.{byte}

-- For an index of at most 31 plus any multiple of 2^64, opByte gives the byte of the word that is so
-- many bytes from its most significant one.
pub byte_reads_low_bits :
    (x y k : ℕ) → x ≤ 31 → byte (x + k * u64_mod) y ≡ y / 2 ^ ((31 - x) * 8) % 256
unfolding byte
byte_reads_low_bits x y k h =
    let low : (x + k * u64_mod) % u64_mod ≡ x = omega (arith, h) in
    let near : (ltb x (2 ^ 63) && ltb 31 x) ≡ false = ground (arith, h) in
    let shift : (31 + u64_mod - x) * 8 % u64_mod ≡ (31 - x) * 8 = omega (arith, h) in
    let short : ltb 255 ((31 - x) * 8) ≡ false = ground (arith, h) in
    rw (low, near, shift, short) refl
