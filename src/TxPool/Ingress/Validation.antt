-- ===== src/TxPool/Ingress/Validation.antt =====
-- What validateTx of txpool/txpool.go accepts.
use go_plgchain.Base.{
  ℕ, ◌≤◌, ◌≡◌, ◌⊎◌, ◌↔◌, refl, ap, sym, subst, ◌∙◌, true, false, ◌&&◌, some, length, arith,
  Option-cases, inl, inr, ltb, ◌==◌, if◌then◌else◌, not,
}
use go_plgchain.Base.Int.{pos, ltb_ℤ, ◌≤ℤ◌}
use go_plgchain.Gas.{transaction_gas_cost}
use go_plgchain.Types.{
  Transaction, TxType, legacy_tx, state_tx, zero_address, is_contract_creation, cost,
  is_underpriced,
}
use go_plgchain.TxPool.State.{Codec, Store, TxPool, allowed}
use go_plgchain.TxPool.Ingress.{
  validate_tx, check_sent, check_funds, check_gas, is_state_tx, ok, tx_max_size,
  tx_pool_max_init_code_size,
}

module _ (store : Store) (p : TxPool) where
  -- The gas pays for the transaction's data, and fits into a block.
  pub record PaysGas (tx : Transaction) : Type 0 where
    pub intrinsic : ℕ
    pub counted : transaction_gas_cost tx p.forks.homestead p.forks.istanbul ≡ some intrinsic
    pub enough : intrinsic ≤ tx.gas
    pub fits : tx.gas ≤ store.gas_limit

  -- The sender's nonce and balance in the state allow for the transaction.
  pub record PaysCost (tx : Transaction) : Type 0 where
    pub nonce : store.get_nonce tx.from ≤ tx.nonce
    pub balance : ℕ
    pub known : store.get_balance tx.from ≡ some balance
    pub covers : cost tx ≤ℤ pos balance

  -- A contract is deployed only by the listed, and only up to the size limit.
  abbrev pub MayDeploy : Transaction → Type 0
  MayDeploy tx =
      (is_contract_creation tx ≡ false)
      ⊎ ((allowed p.deployment_whitelist tx.from ≡ true)
          × ((p.forks.eip158 ≡ false) ⊎ (length tx.input ≤ tx_pool_max_init_code_size)))

  check_gas_sound : (tx v : Transaction) → check_gas store p tx ≡ ok v → (v ≡ tx) × PaysGas tx
  unfolding check_gas
  check_gas_sound tx v e =
      elim (Option-cases (transaction_gas_cost tx p.forks.homestead p.forks.istanbul)) [
        | inl g ↦ absurd (ground arith)
        | inr (gas, g) ↦ (
          ground arith,
          record { intrinsic = gas; counted = g; enough = ground arith; fits = ground arith },
        )
      ]

  check_gas_complete : (tx : Transaction) → PaysGas tx → check_gas store p tx ≡ ok tx
  unfolding check_gas
  check_gas_complete tx h = ground arith

  check_funds_sound :
      (tx v : Transaction) → check_funds store p tx ≡ ok v → (v ≡ tx) × PaysGas tx × PaysCost tx
  unfolding check_funds
  check_funds_sound tx v e = elim (Option-cases (store.get_balance tx.from)) [
    | inl g ↦ absurd (ground arith)
    | inr (balance, g) ↦
        let passed : check_gas store p tx ≡ ok v = ground arith in
        let (same, gas) = check_gas_sound tx v passed in
        (
          same,
          gas,
          record { nonce = ground arith; balance = balance; known = g; covers = ground arith },
        )
  ]

  check_funds_complete :
      (tx : Transaction) → PaysGas tx → PaysCost tx → check_funds store p tx ≡ ok tx
  unfolding check_funds
  check_funds_complete tx g c = ground (arith, check_gas_complete tx g)

  -- Everything that is asked of a transaction once its sender is known.
  pub record IsPayable (tx : Transaction) : Type 0 where
    pub deploys : MayDeploy tx
    pub priced : p.price_limit ≤ tx.gas_price
    pub gas : PaysGas tx
    pub funds : PaysCost tx

  check_sent_sound : (tx v : Transaction) → check_sent store p tx ≡ ok v → (v ≡ tx) × IsPayable tx
  unfolding check_sent is_underpriced
  check_sent_sound tx v e =
      let passed : check_funds store p tx ≡ ok v = ground arith in
      let (same, gas, funds) = check_funds_sound tx v passed in
      (same, record { deploys = ground arith; priced = ground arith; gas = gas; funds = funds })

  check_sent_complete : (tx : Transaction) → IsPayable tx → check_sent store p tx ≡ ok tx
  unfolding check_sent is_underpriced
  check_sent_complete tx h = ground (arith, check_funds_complete tx h.gas h.funds)

  module _ (codec : Codec) where
    -- What makes a transaction acceptable, as the transaction that the pool keeps.
    pub record IsAcceptable (tx v : Transaction) : Type 0 where
      pub legacy : tx.tx_type ≡ legacy_tx
      pub small : codec.size tx ≤ tx_max_size
      pub nonnegative : pos 0 ≤ℤ tx.value
      pub signed : codec.sender tx ≡ some v.from
      pub claimed : (tx.from ≡ zero_address) ⊎ (tx.from ≡ v.from)
      pub filled : v ≡ record tx { from = v.from }
      pub payable : IsPayable v

    validate_tx_sound :
        (tx v : Transaction) → validate_tx codec store p tx ≡ ok v → IsAcceptable tx v
    unfolding validate_tx is_state_tx
    validate_tx_sound tx v e = elim (Option-cases (codec.sender tx)) [
      | inl g ↦ absurd (ground arith)
      | inr (from, g) ↦
          let w : Transaction = record tx {
            from = if tx.from == zero_address then from else tx.from;
          } in
          let passed : check_sent store p w ≡ ok v = ground arith in
          let (same, payable) = check_sent_sound w v passed in
          let sender : w.from ≡ from = ground arith in
          let sent : v.from ≡ from = ap (λ (t : Transaction). t.from) same ∙ sender in
          record {
            legacy = ground arith;
            small = ground arith;
            nonnegative = ground arith;
            signed = g ∙ ap some (sym sent);
            claimed = ground arith;
            filled = ground arith;
            payable = subst IsPayable (sym same) payable;
          }
    ]

    legacy_passes : (t : TxType) → t ≡ legacy_tx → is_state_tx t ≡ false
    unfolding is_state_tx
    legacy_passes legacy_tx e = refl
    legacy_passes state_tx e = cc

    small_passes :
        (tx : Transaction) → codec.size tx ≤ tx_max_size → ltb tx_max_size (codec.size tx) ≡ false
    small_passes tx h = ground arith

    nonnegative_passes : (tx : Transaction) → pos 0 ≤ℤ tx.value → ltb_ℤ tx.value (pos 0) ≡ false
    nonnegative_passes tx h = ground arith

    claimed_passes :
        (tx : Transaction) (from : ℕ)
        → (tx.from ≡ zero_address) ⊎ (tx.from ≡ from)
        → (not (tx.from == zero_address) && not (tx.from == from)) ≡ false
    claimed_passes tx from h = ground arith

    -- With the first checks passed, the others decide.
    passes :
        (tx : Transaction) (from : ℕ)
        → is_state_tx tx.tx_type ≡ false
        → ltb tx_max_size (codec.size tx) ≡ false
        → ltb_ℤ tx.value (pos 0) ≡ false
        → codec.sender tx ≡ some from
        → (not (tx.from == zero_address) && not (tx.from == from)) ≡ false
        → validate_tx codec store p tx
          ≡ check_sent store p
              (record tx { from = if tx.from == zero_address then from else tx.from })
    unfolding validate_tx
    passes tx from a b c d e = rw (a, b, c, d, e, validate_tx)

    validate_tx_complete :
        (tx v : Transaction) → IsAcceptable tx v → validate_tx codec store p tx ≡ ok v
    unfolding validate_tx is_state_tx
    validate_tx_complete tx v h =
        let w : Transaction = record tx {
          from = if tx.from == zero_address then v.from else tx.from;
        } in
        let sender : w.from ≡ v.from = ground (arith, h.claimed) in
        let same : w ≡ v = ap (λ (n : ℕ). record tx { from = n }) sender ∙ sym h.filled in
        let passed : check_sent store p w ≡ ok w =
          check_sent_complete w (subst IsPayable (sym same) h.payable) in
        passes tx v.from (legacy_passes tx.tx_type h.legacy) (small_passes tx h.small)
          (nonnegative_passes tx h.nonnegative) h.signed (claimed_passes tx v.from h.claimed)
        ∙ passed
        ∙ ap ok same

    -- validateTx accepts exactly the transactions that meet the conditions of IsAcceptable, with a
    -- value that may be zero and gas that may be the intrinsic cost, and fills in the signer.
    pub validate_tx-IsAcceptable :
        (tx v : Transaction) → (validate_tx codec store p tx ≡ ok v) ↔ IsAcceptable tx v
    validate_tx-IsAcceptable tx v = (validate_tx_sound tx v, validate_tx_complete tx v)
