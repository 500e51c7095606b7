-- ===== src/TxPool/Sync.antt =====
-- txpool/txpool.go: how the pool follows the chain, processEvent with resetAccounts and
-- updateAccountSkipsCounts, and the pruning of accounts with nonce holes. A Range over the accounts
-- visits each key once, in an order of its own; here it is the order of the list.
use go_plgchain.Base.{ℕ, List, [], ◌∷◌, ◌++◌, Option, none, some, length, ltb, ◌==◌, if◌then◌else◌}
use go_plgchain.Base.Dict.{lookup, insert, keys}
use go_plgchain.Types.{Transaction, zero_address}
use go_plgchain.TxPool.Queue.{Txs, peek}
use go_plgchain.TxPool.Account.{
  Account, Reset, reset, reset_demotions, reset_skips, increment_skips, get_lowest_tx,
}
use go_plgchain.TxPool.Gauge.{decrease, slots_required}
use go_plgchain.TxPool.Lookup
use mathlib.Core.Option
use go_plgchain.TxPool.State.{
  Codec, Store, TxPool, pruned_promoted, pruned_enqueued, get, store_account, change_account,
  sub_pending, to_hash, signal_event,
}
use go_plgchain.TxPool.Execution.{drop_tx}

abbrev pub max_account_skips : ℕ
max_account_skips = 10

abbrev pub StateNonces : Type 0
StateNonces = List (ℕ × ℕ)

-- The address of a block's transaction: its From, or its signer if that is not set.
unfoldable pub sender_of : Codec → Transaction → Option ℕ
sender_of codec tx = if tx.from == zero_address then codec.sender tx else some tx.from

-- The state's nonce of each sender of a block, those already there skipped.
unfoldable pub collect : Codec → Store → StateNonces → Txs → StateNonces
unfolding sender_of lookup insert
collect codec store nonces [] = nonces
collect codec store nonces (tx ∷ txs) =
    collect codec store
      (elim (sender_of codec tx) [
        | none ↦ nonces
        | some addr ↦ elim (lookup addr nonces) [
          | some n ↦ nonces
          | none ↦ insert addr (store.get_nonce addr) nonces
        ]
      ])
      txs

-- The blocks of the event: mined transactions leave the index; a block not in the store is skipped.
unfoldable pub collect_blocks : Codec → Store → List ℕ → TxPool → StateNonces → TxPool × StateNonces
unfolding collect Lookup.remove
collect_blocks codec store [] p nonces = (p, nonces)
collect_blocks codec store (hash ∷ hashes) p nonces =
    let found = store.get_block_by_hash hash in
    let txs : Txs = elim found [ none ↦ [] | some txs ↦ txs ] in
    collect_blocks codec store hashes (record p { index = Lookup.remove txs p.index })
      (collect codec store nonces txs)

-- The variables of the loop in resetAccounts.
pub record Stale : Type 0 where
  pub pool : TxPool
  pub promoted : Txs
  pub enqueued : Txs

unfoldable pub request_list : Option ℕ → List ℕ
request_list none = []
request_list (some addr) = addr ∷ []

unfoldable pub reset_one : Stale → ℕ → Reset → Stale
unfolding request_list insert
reset_one s addr r = record {
  pool = record (store_account addr (reset_demotions r.account) s.pool) {
    promote_requests = s.pool.promote_requests ++ request_list r.request;
  };
  promoted = s.promoted ++ r.pruned_promoted;
  enqueued = s.enqueued ++ r.pruned_enqueued;
}

unfoldable pub reset_account : Stale → ℕ → ℕ → Stale
unfolding reset_one reset lookup
reset_account s addr nonce = elim (get s.pool addr) [
  | none ↦ s
  | some a ↦ reset_one s addr (reset nonce a)
]

unfoldable pub reset_all : Stale → StateNonces → Stale
unfolding reset_account
reset_all s [] = s
reset_all s ((addr, nonce) ∷ rest) = reset_all (reset_account s addr nonce) rest

module _ (codec : Codec) where
  unfoldable pub cleanup : Txs → TxPool → TxPool
  unfolding Lookup.remove decrease slots_required
  cleanup stale p = record p {
    index = Lookup.remove stale p.index;
    gauge = decrease (slots_required codec.size stale) p.gauge;
  }

  unfoldable pub clean_promoted : Txs → TxPool → TxPool
  unfolding cleanup
  clean_promoted [] p = p
  clean_promoted (tx ∷ txs) p =
      sub_pending (length (tx ∷ txs))
        (signal_event pruned_promoted (to_hash (tx ∷ txs)) (cleanup (tx ∷ txs) p))

  unfoldable pub clean_enqueued : Txs → TxPool → TxPool
  unfolding cleanup
  clean_enqueued [] p = p
  clean_enqueued (tx ∷ txs) p =
      signal_event pruned_enqueued (to_hash (tx ∷ txs)) (cleanup (tx ∷ txs) p)

  unfoldable pub reset_accounts : StateNonces → TxPool → TxPool
  unfolding reset_all clean_promoted clean_enqueued
  reset_accounts nonces p =
      let s = reset_all (record { pool = p; promoted = []; enqueued = [] }) nonces in
      clean_enqueued s.enqueued (clean_promoted s.promoted s.pool)

  -- The account has been skipped too many times: Drop finds it by its lowest transaction's From.
  unfoldable pub drop_skipped : TxPool → ℕ → Transaction → Option TxPool
  unfolding drop_tx change_account
  drop_skipped p addr first = Option.map (change_account reset_skips addr) (drop_tx codec p first)

  -- One account of updateAccountSkipsCounts that is not in the event.
  unfoldable pub skip_account : TxPool → ℕ → Account → Option TxPool
  unfolding drop_skipped insert get_lowest_tx
  skip_account p addr a = elim (get_lowest_tx a) [
    | none ↦ some p
    | some first ↦
        let b = increment_skips a in
        if ltb b.skips max_account_skips
        then some (store_account addr b p)
        else drop_skipped (store_account addr b p) addr first
  ]

  unfoldable pub update_skips : StateNonces → TxPool → ℕ → Option TxPool
  unfolding skip_account lookup insert
  update_skips active p addr = elim (get p addr) [
    | none ↦ some p
    | some a ↦ elim (lookup addr active) [
      | some n ↦ some (store_account addr (reset_skips a) p)
      | none ↦ skip_account p addr a
    ]
  ]

  unfoldable pub update_all_skips : StateNonces → TxPool → List ℕ → Option TxPool
  unfolding update_skips
  update_all_skips active p [] = some p
  update_all_skips active p (addr ∷ addrs) = elim (update_skips active p addr) [
    | none ↦ none
    | some q ↦ update_all_skips active q addrs
  ]

  unfoldable pub update_account_skips_counts : StateNonces → TxPool → Option TxPool
  unfolding update_all_skips
  update_account_skips_counts active p = update_all_skips active p (keys p.accounts)

  -- processEvent, for the hashes of the new headers. Only non-validators clean up idle accounts.
  unfoldable pub process_event : Store → List ℕ → TxPool → Option TxPool
  unfolding collect_blocks reset_accounts update_account_skips_counts
  process_event store hashes p =
      let (q, nonces) = collect_blocks codec store hashes p [] in
      let r = reset_accounts nonces q in
      if r.sealing then some r else update_account_skips_counts nonces r

  -- One account of pruneAccountsWithNonceHoles.
  unfoldable pub prune_hole : TxPool → ℕ → Account → TxPool
  unfolding Lookup.remove decrease slots_required insert
  prune_hole p addr a = elim (peek a.enqueued) [
    | none ↦ p
    | some first ↦
        if first.nonce == a.next_nonce
        then p
        else record (store_account addr (record a { enqueued = [] }) p) {
          index = Lookup.remove a.enqueued p.index;
          gauge = decrease (slots_required codec.size a.enqueued) p.gauge;
        }
  ]

  unfoldable pub prune_holes : TxPool → List ℕ → TxPool
  unfolding prune_hole lookup
  prune_holes p [] = p
  prune_holes p (addr ∷ addrs) =
      prune_holes (elim (get p addr) [ none ↦ p | some a ↦ prune_hole p addr a ]) addrs

  unfoldable pub prune_accounts_with_nonce_holes : TxPool → TxPool
  unfolding prune_holes
  prune_accounts_with_nonce_holes p = prune_holes p (keys p.accounts)
