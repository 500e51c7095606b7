-- ===== src/State/Evm/Powers.antt =====
-- The loop of EXP against the power: each word of the exponent is squared and multiplied bit by bit.
use go_plgchain.Base.{
  ℕ, zero, suc, ◌+◌, ◌*◌, ◌/◌, ◌%◌, ◌^◌, ◌≤◌, ◌<◌, ◌≡◌, refl, sym, ap, ◌∙◌, ◌==◌, if◌then◌else◌,
  if_elim, arith, Bool-cases, inl, inr,
}
use go_plgchain.State.Evm.Words.{tt256, bit_len, exp_loop, exp}
use native.Mathlib.Nat.{
  pow-zero, pow-suc, mod-mod, mod-add-div, add-mul-mod_self_left, pow-le-pow_right, mod-eq_of_lt,
  pow-succ',
}

-- Numbers that are the same words.
abbrev Same : ℕ → ℕ → Type 0
Same a b = a % tt256 ≡ b % tt256

mul_left : (a b : ℕ) → Same (a % tt256 * b) (a * b)
mul_left a b =
    let whole : a * b ≡ a % tt256 * b + tt256 * (a / tt256 * b) =
      omega (arith, ap (λ c. c * b) (mod-add-div a tt256)) in
    sym (ap (λ c. c % tt256) whole ∙ add-mul-mod_self_left (a % tt256 * b) tt256 (a / tt256 * b))

Same-mul : (a a' b b' : ℕ) → Same a a' → Same b b' → Same (a * b) (a' * b')
Same-mul a a' b b' p q =
    let turn : (x y : ℕ) → Same (x * y) (y * x) = λ x y. ap (λ c. c % tt256) (omega arith) in
    sym (mul_left a b)
    ∙ ap (λ c. c * b % tt256) p
    ∙ mul_left a' b
    ∙ turn a' b
    ∙ sym (mul_left b a')
    ∙ ap (λ c. c * a' % tt256) q
    ∙ mul_left b' a'
    ∙ turn b' a'

Same-pow : (x x' k : ℕ) → Same x x' → Same (x ^ k) (x' ^ k)
Same-pow x x' zero p = ap (λ c. c % tt256) (pow-zero x ∙ sym (pow-zero x'))
Same-pow x x' (suc k) p =
    ap (λ c. c % tt256) (pow-suc x k)
    ∙ Same-mul (x ^ k) (x' ^ k) x x' (Same-pow x x' k p) p
    ∙ ap (λ c. c % tt256) (sym (pow-suc x' k))

pow_square : (x k : ℕ) → (x * x) ^ k ≡ x ^ (k + k)
pow_square x zero = pow-zero (x * x) ∙ sym (ap (λ n. x ^ n) (omega arith) ∙ pow-zero x)
pow_square x (suc k) =
    let twice : x ^ (suc k + suc k) ≡ x ^ (k + k) * x * x =
      ap (λ n. x ^ n) (omega arith)
      ∙ pow-suc x (suc (k + k))
      ∙ ap (λ c. c * x) (pow-suc x (k + k)) in
    pow-suc (x * x) k ∙ ap (λ c. c * (x * x)) (pow_square x k) ∙ omega (arith, twice)

exp_loop-small : (n x d z : ℕ) → z < tt256 → exp_loop n x d z < tt256
unfolding exp_loop
exp_loop-small zero x d z h = h
exp_loop-small (suc n) x d z h =
    exp_loop-small n (x * x % tt256) (d / 2) _
      (if_elim (λ w. w < tt256) (d % 2 == 1) (λ _. omega arith) (λ _. h))

last_bit : (x d z : ℕ) → (if d % 2 == 1 then z * x else z) * x ^ (d / 2 + d / 2) ≡ z * x ^ d
last_bit x d z =
    if_elim (λ v. v * x ^ (d / 2 + d / 2) ≡ z * x ^ d) (d % 2 == 1)
      (λ e.
        let odd : x ^ d ≡ x ^ (d / 2 + d / 2) * x =
          ap (λ n. x ^ n) (ground (arith, e)) ∙ pow-suc x (d / 2 + d / 2) in
        omega (arith, ap (λ c. z * c) odd))
      (λ e. ap (λ n. z * x ^ n) (ground (arith, e)))

-- One round: the bit of the exponent and the rest of it.
round_lem :
    (x d z w : ℕ)
    → Same w (if d % 2 == 1 then z * x else z)
    → Same (w * (x * x % tt256) ^ (d / 2)) (z * x ^ d)
round_lem x d z w h =
    let k : ℕ = d / 2 in
    let squares : Same ((x * x % tt256) ^ k) (x ^ (k + k)) =
      Same-pow (x * x % tt256) (x * x) k (mod-mod (x * x) tt256)
      ∙ ap (λ c. c % tt256) (pow_square x k) in
    Same-mul w (if d % 2 == 1 then z * x else z) ((x * x % tt256) ^ k) (x ^ (k + k)) h squares
    ∙ ap (λ c. c % tt256) (last_bit x d z)

reduced :
    (x d z : ℕ) → Same (if d % 2 == 1 then z * x % tt256 else z) (if d % 2 == 1 then z * x else z)
reduced x d z = elim (Bool-cases (d % 2 == 1)) [
  | inl e ↦ rw e (mod-mod (z * x) tt256)
  | inr e ↦ rw e refl
]

exp_loop-Same : (n x d z : ℕ) → d < 2 ^ n → Same (exp_loop n x d z) (z * x ^ d)
unfolding exp_loop
exp_loop-Same zero x d z h =
    let none_left : d ≡ 0 = omega (arith, h) in
    let unit : x ^ d ≡ 1 = ap (λ n. x ^ n) none_left ∙ pow-zero x in
    ap (λ c. c % tt256) (omega (arith, ap (λ c. z * c) unit))
exp_loop-Same (suc n) x d z h =
    exp_loop-Same n (x * x % tt256) (d / 2) _ (omega (arith, h, pow-succ' 2 n))
    ∙ round_lem x d z _ (reduced x d z)

bit_len-bound : (n x : ℕ) → x < 2 ^ n → x < 2 ^ bit_len n x
unfolding bit_len
bit_len-bound zero x h = h
bit_len-bound (suc n) x h =
    let rest : x / 2 < 2 ^ bit_len n (x / 2) =
      bit_len-bound n (x / 2) (omega (arith, h, pow-succ' 2 n)) in
    if_elim (λ k. x < 2 ^ k) (x == 0) (λ e. ground (arith, e))
      (λ _.
        let step : 2 ^ (bit_len n (x / 2) + 1) ≡ 2 ^ bit_len n (x / 2) * 2 =
          ap (λ k. 2 ^ k) (omega arith) ∙ pow-suc 2 (bit_len n (x / 2)) in
        omega (arith, rest, step))

below : {a b c : ℕ} → a < b → b ≤ c → a < c
below h k = omega (arith, h, k)

-- For an exponent below 2^256, the loop of opExp, which squares and multiplies over the bits of its
-- words, gives the power modulo 2^256.
pub exp_lem : (x y : ℕ) → y < 2 ^ 256 → exp x y ≡ x ^ y % tt256
unfolding exp
exp_lem x y h =
    let n : ℕ = (bit_len 256 y + 63) / 64 * 64 in
    let enough : y < 2 ^ n =
      below (bit_len-bound 256 y h) (pow-le-pow_right (omega arith) (omega arith)) in
    sym (mod-eq_of_lt (exp_loop-small n x y 1 (omega arith)))
    ∙ exp_loop-Same n x y 1 enough
    ∙ ap (λ c. c % tt256) (omega arith)
