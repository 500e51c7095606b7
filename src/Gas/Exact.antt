-- ===== src/Gas/Exact.antt =====
-- The overflow checks of TransactionGasCost, state/executor.go, against plain arithmetic.
use go_plgchain.Base.{
  ℕ, ◌+◌, ◌-◌, ◌*◌, ◌≤◌, ◌<◌, ◌≡◌, refl, ap, List, [], ◌∷◌, Bool, true, false, none, some, length,
  leb, Bool-cases, inl, inr, ◌==◌, if◌then◌else◌, arith,
}
use go_plgchain.Base.Word.{max_u64}
use go_plgchain.Types.{Transaction}
use go_plgchain.Gas.{count_zeros, base_cost, payload_cost, transaction_gas_cost}

-- The price of some data, byte by byte.
abbrev pub data_price : ℕ → List ℕ → ℕ
data_price rate [] = 0
data_price rate (b ∷ bs) = (if b == 0 then 4 else rate) + data_price rate bs

abbrev pub rate : Bool → ℕ
rate is_istanbul = if is_istanbul then 16 else 68

count_zeros-le : (bs : List ℕ) → count_zeros bs ≤ length bs
unfolding count_zeros
count_zeros-le [] = omega arith
count_zeros-le (b ∷ bs) = ground (arith, count_zeros-le bs)

data_price-counts :
    (i : Bool) (bs : List ℕ)
    → data_price (rate i) bs ≡ (length bs - count_zeros bs) * rate i + count_zeros bs * 4
unfolding count_zeros
data_price-counts i [] = omega arith
data_price-counts true (b ∷ bs) = ground (arith, data_price-counts true bs, count_zeros-le bs)
data_price-counts false (b ∷ bs) = ground (arith, data_price-counts false bs, count_zeros-le bs)

-- The cost as a number of any size.
abbrev pub exact_cost : Transaction → Bool → Bool → ℕ
exact_cost msg is_homestead is_istanbul =
    base_cost msg is_homestead + data_price (rate is_istanbul) msg.input

-- What a payload costs, given what was spent before.
payload_cost-exact :
    (cost : ℕ) (bs : List ℕ) (i : Bool)
    → cost ≤ max_u64
    → ((cost + data_price (rate i) bs ≤ max_u64)
        → payload_cost cost bs (rate i) ≡ some (cost + data_price (rate i) bs))
      × ((max_u64 < cost + data_price (rate i) bs) → payload_cost cost bs (rate i) ≡ none)
unfolding payload_cost
payload_cost-exact cost bs true h = (
  λ fits. ground (arith, data_price-counts true bs),
  λ over. ground (arith, data_price-counts true bs),
)
payload_cost-exact cost bs false h = (
  λ fits. ground (arith, data_price-counts false bs),
  λ over. ground (arith, data_price-counts false bs),
)

base_cost-small : (msg : Transaction) (h : Bool) → base_cost msg h ≤ max_u64
unfolding base_cost
base_cost-small msg h = ground arith

cost_of :
    (msg : Transaction) (h i : Bool) (bs : List ℕ)
    → msg.input ≡ bs
    → ((base_cost msg h + data_price (rate i) bs ≤ max_u64)
        → transaction_gas_cost msg h i ≡ some (base_cost msg h + data_price (rate i) bs))
      × ((max_u64 < base_cost msg h + data_price (rate i) bs) → transaction_gas_cost msg h i ≡ none)
unfolding transaction_gas_cost
cost_of msg h i [] e = (
  λ fits. rw (e, transaction_gas_cost) (ap some (omega arith)),
  λ over. absurd (omega (arith, base_cost-small msg h)),
)
cost_of msg h i (b ∷ bs) e =
    rw (e, transaction_gas_cost)
      (payload_cost-exact (base_cost msg h) (b ∷ bs) i (base_cost-small msg h))

-- TransactionGasCost is the exact cost if that fits into a uint64, and reports an overflow if it does
-- not.
pub transaction_gas_cost-exact :
    (msg : Transaction) (is_homestead is_istanbul : Bool)
    → let exact = exact_cost msg is_homestead is_istanbul in
      transaction_gas_cost msg is_homestead is_istanbul
      ≡ (if leb exact max_u64 then some exact else none)
transaction_gas_cost-exact msg h i =
    let (fits, over) = cost_of msg h i msg.input refl in
    elim (Bool-cases (leb (exact_cost msg h i) max_u64)) [
      | inl small ↦ rw small (fits (ground arith))
      | inr large ↦ rw large (over (ground arith))
    ]
