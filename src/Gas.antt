-- ===== src/Gas.antt =====
-- state/executor.go: what a transaction pays before it runs.
pub mod Exact
use go_plgchain.Base.{
  ℕ, ◌+◌, ◌-◌, ◌*◌, ◌/◌, ◌≤◌, ◌<◌, ◌≡◌, ◌⊎◌, inl, inr, refl, List, [], ◌∷◌, Bool, true, false, ◌&&◌,
  Option, none, some, length, ltb, ◌==◌, if◌then◌else◌, arith, Bool-cases,
}
use go_plgchain.Base.Word.{max_u64, u64_mod, add64, sub64}
use go_plgchain.Types.{Transaction, is_contract_creation}

abbrev pub tx_gas_contract_creation : ℕ
tx_gas_contract_creation = 53000

abbrev pub tx_gas : ℕ
tx_gas = 21000

count_zeros : List ℕ → ℕ
count_zeros [] = 0
count_zeros (b ∷ bs) = if b == 0 then count_zeros bs + 1 else count_zeros bs

unfoldable pub base_cost : Transaction → Bool → ℕ
unfolding is_contract_creation
base_cost msg is_homestead =
    if is_contract_creation msg && is_homestead then tx_gas_contract_creation else tx_gas

payload_cost : ℕ → List ℕ → ℕ → Option ℕ
unfolding count_zeros
payload_cost cost payload non_zero_cost =
    let zeros = count_zeros payload in
    let non_zeros = length payload - zeros in
    if ltb ((max_u64 - cost) / non_zero_cost) non_zeros
    then none
    else let cost' : ℕ = add64 cost (non_zeros * non_zero_cost) in
      if ltb ((max_u64 - cost') / 4) zeros then none else some (add64 cost' (zeros * 4))

-- `none` is ErrIntrinsicGasOverflow.
unfoldable pub transaction_gas_cost : Transaction → Bool → Bool → Option ℕ
unfolding base_cost payload_cost
transaction_gas_cost msg is_homestead is_istanbul = elim msg.input [
  | [] ↦ some (base_cost msg is_homestead)
  | b ∷ bs ↦ payload_cost (base_cost msg is_homestead) (b ∷ bs) (if is_istanbul then 16 else 68)
]
