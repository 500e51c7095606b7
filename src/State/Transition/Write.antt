-- ===== src/State/Transition/Write.antt =====
-- state/executor.go, transactions one after the other: Apply, Write and ProcessBlock with the gas of
-- the block and the receipts. The hook after a transaction is a parameter.
use go_plgchain.Base.{
  ℕ, ◌-◌, ◌*◌, List, [], ◌∷◌, ◌++◌, Bool, true, false, not, Option, none, some, ltb, ◌==◌,
  if◌then◌else◌,
}
use go_plgchain.Base.Int.{pos_part}
use go_plgchain.Base.Word.{add64, sub64}
use go_plgchain.Types.{
  Transaction, TxType, legacy_tx, state_tx, exceeds_block_gas_limit, zero_address,
}
use go_plgchain.Gas.{transaction_gas_cost}
use go_plgchain.State.Account.{ReadSnapshot, Log}
use go_plgchain.State.Txn.{
  Txn, snapshot, revert_to_snapshot, new_txn, add_balance, sub_balance, get_nonce, incr_nonce,
  get_refund, take_logs, clean_delete_objects,
}
use go_plgchain.State.Transition.{
  Environment, ExecutionResult, failed, update_gas_used, create_top, call_top,
}

pub record Receipt : Type 0 where
  pub cumulative_gas_used : ℕ
  pub tx_type : TxType
  pub tx_hash : ℕ
  pub gas_used : ℕ
  pub success : Bool
  pub contract_address : Option ℕ
  pub logs : List Log

pub record Transition : Type 0 where
  pub state : Txn
  pub gas_pool : ℕ
  pub total_gas : ℕ
  pub receipts : List Receipt

pub data ApplyError : Type 0 where
  nonce_incorrect not_enough_funds_for_gas block_limit_reached : ApplyError
  intrinsic_gas_overflow not_enough_intrinsic_gas invalid_sender : ApplyError
  gas_price_not_zero wrong_gas wrong_sender no_recipient : ApplyError

pub data Applied : Type 0 where
  ok : ExecutionResult → Applied
  err : ApplyError → Applied

abbrev pub state_transaction_gas_limit : ℕ
state_transaction_gas_limit = 1000000

module _ (base : ReadSnapshot) (env : Environment) where
  -- checkAndProcessLegacyTx with nonceCheck and subGasLimitPrice.
  unfoldable pub check_legacy_tx : Transaction → Txn → ApplyError × Option Txn
  check_legacy_tx msg t =
      if not (get_nonce base t msg.from == msg.nonce)
      then (nonce_incorrect, none)
      else (not_enough_funds_for_gas, sub_balance base msg.from (msg.gas_price * msg.gas) t)

  -- checkAndProcessStateTx; `none` is no error.
  unfoldable pub check_state_tx : Transaction → Option ApplyError
  check_state_tx msg =
      if not (msg.gas_price == 0)
      then some gas_price_not_zero
      else if not (msg.gas == state_transaction_gas_limit)
      then some wrong_gas
      else if not (msg.from == env.system_caller)
      then some wrong_sender
      else elim msg.to [
        | none ↦ some no_recipient
        | some to ↦ if to == zero_address then some no_recipient else none
      ]

  -- The error of the checks, or the state after them.
  unfoldable pub check : Transaction → Txn → ApplyError × Option Txn
  check msg t = elim msg.tx_type [
    | state_tx ↦ elim (check_state_tx msg) [ none ↦ (wrong_gas, some t) | some e ↦ (e, none) ]
    | legacy_tx ↦ check_legacy_tx msg t
  ]

  -- The payments after a run: the refund to the sender, the fee to the coinbase, gas to the pool.
  unfoldable pub settle :
      Transaction → ExecutionResult → Txn → ℕ → Transition → Applied × Transition
  settle msg result u pool t =
      let final = update_gas_used msg.gas (get_refund u) result in
      (
        Applied.ok final,
        record t {
          state =
              add_balance base env.coinbase (final.gas_used * msg.gas_price)
                (add_balance base msg.from (final.gas_left * msg.gas_price) u);
          gas_pool = add64 pool final.gas_left;
        },
      )

  -- The run of apply. A value is never negative after decoding. `none` is a panic.
  unfoldable pub execute : Transaction → ℕ → Txn → Option (ExecutionResult × Txn)
  execute msg gas_left t = elim msg.to [
    | none ↦ create_top base env msg.from msg.input (pos_part msg.value) gas_left t
    | some to ↦
        call_top base env msg.from to msg.input (pos_part msg.value) gas_left
          (incr_nonce base msg.from t)
  ]

  -- apply past the checks, on the state that they leave.
  unfoldable pub apply_checked : Transaction → Txn → Transition → Option (Applied × Transition)
  apply_checked msg bought t =
      if ltb t.gas_pool msg.gas
      then some (Applied.err block_limit_reached, record t { state = bought })
      else let pool = t.gas_pool - msg.gas in
        elim (transaction_gas_cost msg env.forks.homestead env.forks.istanbul) [
          | none ↦
              some
                (Applied.err intrinsic_gas_overflow, record t { state = bought; gas_pool = pool })
          | some cost ↦
              if ltb msg.gas (sub64 msg.gas cost)
              then some (
                Applied.err not_enough_intrinsic_gas,
                record t { state = bought; gas_pool = pool },
              )
              else elim (execute msg (sub64 msg.gas cost) bought) [
                | none ↦ none
                | some (result, u) ↦ some (settle msg result u pool t)
              ]
        ]

  unfoldable pub apply_message : Transaction → Transition → Option (Applied × Transition)
  apply_message msg t =
      let (e, checked) = check msg t.state in
      elim checked [ none ↦ some (Applied.err e, t) | some bought ↦ apply_checked msg bought t ]

  module _ (post_hook : Transition → Transition) (sender : Transaction → Option ℕ) where
    -- Apply.
    unfoldable pub apply : Transaction → Transition → Option (Applied × Transition)
    apply msg t =
        let (id, s) = snapshot t.state in
        elim (apply_message msg (record t { state = s })) [
          | none ↦ none
          | some (Applied.ok result, u) ↦ some (Applied.ok result, post_hook u)
          | some (Applied.err e, u) ↦ elim (revert_to_snapshot id u.state) [
            | none ↦ none
            | some v ↦ some (Applied.err e, post_hook (record u { state = v }))
          ]
        ]

    -- The sender, decrypted if the transaction has none.
    unfoldable pub with_sender : Transaction → Option Transaction
    with_sender tx = elim tx.tx_type [
      | state_tx ↦ some tx
      | legacy_tx ↦
          if tx.from == zero_address
          then elim (sender tx) [ none ↦ none | some from ↦ some (record tx { from = from }) ]
          else some tx
    ]

    abbrev pub created : Transaction → Option ℕ
    created tx = elim tx.to [ none ↦ some (env.create_address tx.from tx.nonce) | some _ ↦ none ]

    abbrev pub receipt_of : Transaction → ℕ → ℕ → Bool → List Log → Receipt
    receipt_of tx total used success logs = record {
      cumulative_gas_used = total;
      tx_type = tx.tx_type;
      tx_hash = tx.hash;
      gas_used = used;
      success = success;
      contract_address = created tx;
      logs = logs;
    }

    -- The receipt of a transaction that was applied, and the state cleaned for the next one.
    unfoldable pub write_receipt : Transaction → ExecutionResult → Transition → Transition
    write_receipt tx result t =
        let total : ℕ = add64 t.total_gas result.gas_used in
        let (logs, taken) = take_logs t.state in
        record t {
          state = clean_delete_objects base true taken;
          total_gas = total;
          receipts =
              t.receipts ++ receipt_of tx total result.gas_used (not (failed result)) logs ∷ [];
        }

    -- Write and WriteFailedReceipt once the sender is known; no error is none.
    unfoldable pub write_from :
        Option Transaction → Transition → Option (Option ApplyError × Transition)
    write_from none t = some (some invalid_sender, t)
    write_from (some msg) t = elim (apply msg t) [
      | none ↦ none
      | some (Applied.err e, u) ↦ some (some e, u)
      | some (Applied.ok result, u) ↦ some (none, write_receipt msg result u)
    ]

    unfoldable pub write : Transaction → Transition → Option (Option ApplyError × Transition)
    write tx t = write_from (with_sender tx) t

    unfoldable pub fail_for : Option Transaction → Transition → Option ApplyError × Transition
    fail_for none t = (some invalid_sender, t)
    fail_for (some msg) t =
        let (logs, taken) = take_logs t.state in
        (
          none,
          record t {
            state = taken;
            receipts = t.receipts ++ receipt_of msg t.total_gas 0 false logs ∷ [];
          },
        )

    unfoldable pub write_failed_receipt : Transaction → Transition → Option ApplyError × Transition
    write_failed_receipt tx t = fail_for (with_sender tx) t

    -- One transaction of ProcessBlock.
    unfoldable pub process_one :
        ℕ → Transaction → Transition → Option (Option ApplyError × Transition)
    process_one gas_limit tx t =
        if exceeds_block_gas_limit tx gas_limit
        then some (write_failed_receipt tx t)
        else write tx t

    -- The loop of ProcessBlock, which the first error ends.
    unfoldable pub process_all :
        ℕ → List Transaction → Transition → Option (Option ApplyError × Transition)
    process_all gas_limit [] t = some (none, t)
    process_all gas_limit (tx ∷ txs) t = elim (process_one gas_limit tx t) [
      | none ↦ none
      | some (some e, u) ↦ some (some e, u)
      | some (none, u) ↦ process_all gas_limit txs u
    ]

    unfoldable pub process_block : ℕ → List Transaction → Option (Option ApplyError × Transition)
    process_block gas_limit txs =
        process_all gas_limit txs
          (record { state = new_txn; gas_pool = gas_limit; total_gas = 0; receipts = [] })
