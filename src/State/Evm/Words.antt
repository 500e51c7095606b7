-- ===== src/State/Evm/Words.antt =====
-- The arithmetic of instructions.go on words, numbers below 2 ^ 256.
use go_plgchain.Base.{
  ℕ, zero, suc, ◌+◌, ◌-◌, ◌*◌, ◌/◌, ◌%◌, ◌^◌, Bool, ◌&&◌, not, ltb, ◌==◌, if◌then◌else◌,
}
use go_plgchain.Base.Word.{u64_mod}

abbrev pub tt256 : ℕ
tt256 = 2 ^ 256

-- toU256 of what is not negative, and of a negated number.
abbrev pub to_u256 : ℕ → ℕ
to_u256 x = x % tt256

abbrev pub negated : ℕ → ℕ
negated x = (tt256 - x % tt256) % tt256

-- to256 reads a word with a sign: whether it is below zero, its absolute value, and its sign in three.
abbrev pub is_negative : ℕ → Bool
is_negative x = not (ltb x (2 ^ 255))

abbrev pub magnitude : ℕ → ℕ
magnitude x = if is_negative x then tt256 - x else x

abbrev pub sign : ℕ → ℕ
sign x = if x == 0 then 1 else if is_negative x then 0 else 2

unfoldable pub add : ℕ → ℕ → ℕ
add a b = to_u256 (a + b)

unfoldable pub mul : ℕ → ℕ → ℕ
mul a b = to_u256 (a * b)

unfoldable pub sub : ℕ → ℕ → ℕ
sub a b = to_u256 (a + tt256 - b)

unfoldable pub div : ℕ → ℕ → ℕ
div a b = if b == 0 then 0 else a / b

unfoldable pub sdiv : ℕ → ℕ → ℕ
sdiv a b =
    if b == 0
    then 0
    else if sign a == sign b
    then magnitude a / magnitude b
    else negated (magnitude a / magnitude b)

unfoldable pub mod_word : ℕ → ℕ → ℕ
mod_word a b = if b == 0 then 0 else a % b

unfoldable pub smod : ℕ → ℕ → ℕ
smod a b =
    if b == 0
    then 0
    else if is_negative a
    then negated (magnitude a % magnitude b)
    else magnitude a % magnitude b

unfoldable pub add_mod : ℕ → ℕ → ℕ → ℕ
add_mod a b z = if z == 0 then 0 else (a + b) % z

unfoldable pub mul_mod : ℕ → ℕ → ℕ → ℕ
mul_mod a b z = if z == 0 then 0 else a * b % z

-- big.Int.BitLen of a word.
unfoldable pub bit_len : ℕ → ℕ → ℕ
bit_len zero x = 0
bit_len (suc n) x = let rest = bit_len n (x / 2) in if x == 0 then 0 else rest + 1

-- The loop of opExp over the bits of the exponent's words.
unfoldable pub exp_loop : ℕ → ℕ → ℕ → ℕ → ℕ
exp_loop zero x d z = z
exp_loop (suc n) x d z =
    exp_loop n (to_u256 (x * x)) (d / 2) (if d % 2 == 1 then to_u256 (z * x) else z)

unfoldable pub exp : ℕ → ℕ → ℕ
exp x y = exp_loop ((bit_len 256 y + 63) / 64 * 64) x y 1

-- And, Or and Xor, by what they do to a bit.
unfoldable pub bitwise : (ℕ → ℕ → ℕ) → ℕ → ℕ → ℕ → ℕ
bitwise f zero x y = 0
bitwise f (suc n) x y = f (x % 2) (y % 2) + 2 * bitwise f n (x / 2) (y / 2)

abbrev pub and_word : ℕ → ℕ → ℕ
and_word = bitwise (λ a b. a * b) 256

abbrev pub or_word : ℕ → ℕ → ℕ
or_word = bitwise (λ a b. a + b - a * b) 256

abbrev pub xor_word : ℕ → ℕ → ℕ
xor_word = bitwise (λ a b. (a + b) % 2) 256

abbrev pub not_word : ℕ → ℕ
not_word a = tt256 - 1 - a

abbrev pub is_zero : ℕ → ℕ
is_zero a = if a == 0 then 1 else 0

abbrev pub eq_word : ℕ → ℕ → ℕ
eq_word a b = if a == b then 1 else 0

abbrev pub lt : ℕ → ℕ → ℕ
lt a b = if ltb a b then 1 else 0

abbrev pub gt : ℕ → ℕ → ℕ
gt a b = if ltb b a then 1 else 0

-- A word moved by 2 ^ 255, so that the order of signed words is the order of numbers.
abbrev pub biased : ℕ → ℕ
biased x = if is_negative x then x - 2 ^ 255 else x + 2 ^ 255

unfoldable pub slt : ℕ → ℕ → ℕ
slt a b = if ltb (biased a) (biased b) then 1 else 0

unfoldable pub sgt : ℕ → ℕ → ℕ
sgt a b = if ltb (biased b) (biased a) then 1 else 0

-- The index is an int64 of the word's last 64 bits, and the shift a uint of its arithmetic.
unfoldable pub byte : ℕ → ℕ → ℕ
byte x y =
    let i : ℕ = x % u64_mod in
    let sh : ℕ = (31 + u64_mod - i) * 8 % u64_mod in
    if ltb i (2 ^ 63) && ltb 31 i then 0 else if ltb 255 sh then 0 else y / 2 ^ sh % 256

unfoldable pub sign_extension : ℕ → ℕ → ℕ
sign_extension ext x =
    if ltb 32 ext
    then x
    else let bit : ℕ = ext * 8 + 7 in
      if x / 2 ^ bit % 2 == 1 then to_u256 (x % 2 ^ bit + tt256 - 2 ^ bit) else x % 2 ^ bit

unfoldable pub shl : ℕ → ℕ → ℕ
shl shift value = if ltb 255 shift then 0 else to_u256 (value * 2 ^ shift)

unfoldable pub shr : ℕ → ℕ → ℕ
shr shift value = if ltb 255 shift then 0 else value / 2 ^ shift

-- The shift of a negative number rounds down.
unfoldable pub sar : ℕ → ℕ → ℕ
sar shift value =
    if is_negative value
    then if ltb 255 shift then tt256 - 1 else tt256 - 1 - (tt256 - 1 - value) / 2 ^ shift
    else if ltb 255 shift
    then 0
    else value / 2 ^ shift
