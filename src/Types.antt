-- ===== src/Types.antt =====
-- types/transaction.go. Addresses and hashes are fixed-width byte arrays that the program compares
-- and no more: numbers here, the zero address being 0. A gas price is a math/big value that is never
-- negative after decoding; a transferred value is tested for its sign, so it is an integer.
use go_plgchain.Base.{ℕ, ◌*◌, List, Bool, true, false, Option, none, some, ltb, ◌==◌, if◌then◌else◌}
use go_plgchain.Base.Int.{ℤ, pos, ◌+ℤ◌}

pub data TxType : Type 0 where
  legacy_tx state_tx : TxType

unfoldable pub tx_type_from_byte : ℕ → Option TxType
tx_type_from_byte b = if b == 0x0 then some legacy_tx else if b == 0x7f then some state_tx else none

pub record Transaction : Type 0 where
  pub nonce : ℕ
  pub gas_price : ℕ
  pub gas : ℕ
  pub to : Option ℕ
  pub value : ℤ
  pub input : List ℕ
  pub v : ℕ
  pub r : ℕ
  pub s : ℕ
  pub hash : ℕ
  pub from : ℕ
  pub tx_type : TxType

abbrev pub zero_address : ℕ
zero_address = 0

-- An unset entry of a slice of transactions.
abbrev pub zero_transaction : Transaction
zero_transaction = record {
  nonce = 0;
  gas_price = 0;
  gas = 0;
  to = none;
  value = pos 0;
  input = List.[];
  v = 0;
  r = 0;
  s = 0;
  hash = 0;
  from = zero_address;
  tx_type = legacy_tx;
}

unfoldable pub is_contract_creation : Transaction → Bool
is_contract_creation t = elim t.to [ none ↦ true | some a ↦ false ]

unfoldable pub cost : Transaction → ℤ
unfolding ◌+ℤ◌
cost t = pos (t.gas_price * t.gas) +ℤ t.value

unfoldable pub exceeds_block_gas_limit : Transaction → ℕ → Bool
exceeds_block_gas_limit t block_gas_limit = ltb block_gas_limit t.gas

unfoldable pub is_underpriced : Transaction → ℕ → Bool
is_underpriced t price_limit = ltb t.gas_price price_limit
