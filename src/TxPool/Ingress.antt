-- ===== src/TxPool/Ingress.antt =====
-- txpool/txpool.go: how transactions come in, from validateTx to the two request handlers.
pub mod Validation
pub mod Capacity
use go_plgchain.Base.{
  ℕ, ◌+◌, ◌*◌, List, [], ◌∷◌, ◌++◌, Bool, true, false, ◌&&◌, ◌||◌, not, Option, none, some, length,
  ltb, ◌==◌, if◌then◌else◌,
}
use go_plgchain.Base.Int.{ℤ, pos, ltb_ℤ}
use go_plgchain.Base.Dict.{lookup, insert}
use go_plgchain.Base.Word.{sub64}
use go_plgchain.Gas.{transaction_gas_cost}
use go_plgchain.Types.{
  Transaction, TxType, legacy_tx, state_tx, zero_address, is_contract_creation, cost,
  is_underpriced,
}
use go_plgchain.TxPool.Queue.{Txs}
use go_plgchain.TxPool.Account.{Account, enqueue, promote}
use go_plgchain.TxPool.Account
use go_plgchain.TxPool.Gauge.{high_pressure, increase, decrease, slots_required}
use go_plgchain.TxPool.Lookup
use go_plgchain.TxPool.State.{
  Codec, Store, TxPool, added, enqueued, promoted, allowed, get, store_account, create_account_once,
  add_pending, to_hash, signal_event, signal_pruning,
}

abbrev pub tx_max_size : ℕ
tx_max_size = 128 * 1024

abbrev pub tx_pool_max_init_code_size : ℕ
tx_pool_max_init_code_size = 2 * 24576

pub data TxError : Type 0 where
  intrinsic_gas block_limit_exceeded negative_value extract_signature invalid_sender : TxError
  tx_pool_overflow underpriced nonce_too_low insufficient_funds invalid_account_state : TxError
  already_known oversized_data reject_future_tx smart_contract_restricted invalid_tx_type : TxError
  max_code_size_exceeded intrinsic_gas_overflow : TxError

pub data Validated : Type 0 where
  ok : Transaction → Validated
  err : TxError → Validated

unfoldable pub is_state_tx : TxType → Bool
is_state_tx legacy_tx = false
is_state_tx state_tx = true

-- From "Extract the intrinsic gas" on.
unfoldable pub check_gas : Store → TxPool → Transaction → Validated
unfolding transaction_gas_cost
check_gas store p tx = elim (transaction_gas_cost tx p.forks.homestead p.forks.istanbul) [
  | none ↦ err intrinsic_gas_overflow
  | some gas ↦
      if ltb tx.gas gas
      then err intrinsic_gas
      else if ltb store.gas_limit tx.gas
      then err block_limit_exceeded
      else ok tx
]

unfoldable pub check_funds : Store → TxPool → Transaction → Validated
unfolding check_gas cost
check_funds store p tx =
    if ltb tx.nonce (store.get_nonce tx.from)
    then err nonce_too_low
    else elim (store.get_balance tx.from) [
      | none ↦ err invalid_account_state
      | some balance ↦
          if ltb_ℤ (pos balance) (cost tx) then err insufficient_funds else check_gas store p tx
    ]

-- The checks once the sender is known to be `tx.from`.
unfoldable pub check_sent : Store → TxPool → Transaction → Validated
unfolding check_funds is_contract_creation allowed is_underpriced
check_sent store p tx =
    if is_contract_creation tx && not (allowed p.deployment_whitelist tx.from)
    then err smart_contract_restricted
    else if is_contract_creation tx
        && (p.forks.eip158 && ltb tx_pool_max_init_code_size (length tx.input))
    then err max_code_size_exceeded
    else if is_underpriced tx p.price_limit
    then err underpriced
    else check_funds store p tx

module _ (codec : Codec) where
  -- validateTx. An accepted transaction comes back with its sender filled in.
  unfoldable pub validate_tx : Store → TxPool → Transaction → Validated
  unfolding check_sent is_state_tx
  validate_tx store p tx =
      if is_state_tx tx.tx_type
      then err invalid_tx_type
      else if ltb tx_max_size (codec.size tx)
      then err oversized_data
      else if ltb_ℤ tx.value (pos 0)
      then err negative_value
      else elim (codec.sender tx) [
        | none ↦ err extract_signature
        | some from ↦
            if not (tx.from == zero_address) && not (tx.from == from)
            then err invalid_sender
            else check_sent store p
                (record tx { from = if tx.from == zero_address then from else tx.from })
      ]

  unfoldable pub is_future : Option Account → Transaction → Bool
  is_future none tx = false
  is_future (some a) tx = ltb a.next_nonce tx.nonce

  -- slotsRequired(tx) > max - read(), in uint64 arithmetic.
  unfoldable pub overflows : TxPool → Transaction → Bool
  unfolding slots_required
  overflows p tx = ltb (sub64 p.gauge.max p.gauge.height) (slots_required codec.size (tx ∷ []))

  -- The pool afterwards, and the error if the transaction is refused.
  abbrev pub Outcome : Type 0
  Outcome = TxPool × Option TxError

  -- From the index on: the transaction's hash is computed.
  unfoldable pub admit : Store → TxPool → Transaction → Outcome
  unfolding Lookup.add create_account_once
  admit store p tx =
      let (index, is_new) = Lookup.add p.index tx in
      let q = create_account_once store tx.from (record p { index = index }) in
      if is_new
      then (
        signal_event added (tx.hash ∷ [])
            (record q { enqueue_requests = q.enqueue_requests ++ tx ∷ [] }),
        none,
      )
      else (p, some already_known)

  unfoldable pub check_room : Store → TxPool → Transaction → Outcome
  unfolding overflows admit
  check_room store p tx =
      if overflows p tx
      then (p, some tx_pool_overflow)
      else admit store p (record tx { hash = codec.hash_of tx })

  unfoldable pub add_valid : Store → TxPool → Transaction → Outcome
  unfolding high_pressure signal_pruning is_future check_room lookup
  add_valid store p tx =
      if high_pressure p.gauge
      then (if is_future (get p tx.from) tx
          then (signal_pruning p, some reject_future_tx)
          else check_room store (signal_pruning p) tx)
      else check_room store p tx

  unfoldable pub add_tx : Store → TxPool → Transaction → Outcome
  unfolding validate_tx add_valid
  add_tx store p tx = elim (validate_tx store p tx) [
    | err e ↦ (p, some e)
    | ok valid ↦ add_valid store p valid
  ]

  -- addGossipTx, with the message decoded (`none` is a malformed one).
  unfoldable pub add_gossip_tx : Store → TxPool → Option Transaction → TxPool
  unfolding add_tx
  add_gossip_tx store p none = p
  add_gossip_tx store p (some tx) = if p.sealing then (add_tx store p tx).0 else p

  unfoldable pub enqueue_end : TxPool → Transaction → Account.Enqueued → TxPool
  unfolding Lookup.remove increase slots_required insert
  enqueue_end p tx (Account.err e) = record p { index = Lookup.remove (tx ∷ []) p.index }
  enqueue_end p tx (Account.ok a) =
      let q = signal_event enqueued (tx.hash ∷ []) (record (store_account tx.from a p) {
        gauge = increase (slots_required codec.size (tx ∷ [])) p.gauge;
      }) in
      if ltb a.next_nonce tx.nonce
      then q
      else record q { promote_requests = q.promote_requests ++ tx.from ∷ [] }

  -- A request for an address with no account would be a nil dereference: `none`.
  unfoldable pub handle_enqueue_request : TxPool → Transaction → Option TxPool
  unfolding enqueue_end enqueue lookup
  handle_enqueue_request p tx = elim (get p tx.from) [
    | none ↦ none
    | some a ↦ some (enqueue_end p tx (enqueue a tx))
  ]

  unfoldable pub promote_end : TxPool → ℕ → Account.Promoted → TxPool
  unfolding Lookup.remove decrease slots_required insert
  promote_end p addr r = signal_event promoted (to_hash r.promoted) (
      add_pending (length r.promoted) (record (store_account addr r.account p) {
        index = Lookup.remove r.pruned p.index;
        gauge = decrease (slots_required codec.size r.pruned) p.gauge;
      }))

  unfoldable pub handle_promote_request : TxPool → ℕ → Option TxPool
  unfolding promote_end promote lookup
  handle_promote_request p addr = elim (get p addr) [
    | none ↦ none
    | some a ↦ some (promote_end p addr (promote a))
  ]
