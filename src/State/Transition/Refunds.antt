-- ===== src/State/Transition/Refunds.antt =====
-- What the refund counter of state/txn.go does to the gas of a later transaction of the same block.
-- CleanDeleteObjects drops the counter after each transaction, while SetStorage compares with the value
-- that the slot has in the trie, which is that before the block.
use go_plgchain.Base.{
  ℕ, ◌+◌, ◌-◌, ◌/◌, ◌<◌, ◌≡◌, ◌≢◌, Bool, false, ◌&&◌, ◌||◌, not, ◌==◌, if◌then◌else◌, arith, refl,
  sym, ◌∙◌, ap, if_elim, ==_iff,
}
use go_plgchain.Base.Word.{u64_mod, sub64}
use go_plgchain.State.Account.{ReadSnapshot}
use go_plgchain.State.Txn.{
  Txn, get_refund, add_refund, sub_refund, clean_delete_objects, upsert_account, put_object,
}
use go_plgchain.State.Storage.{
  StorageForks, StorageStatus, meter, set_state, set_storage, get_state, get_committed_state,
}
use go_plgchain.State.Transition.{ExecutionResult, update_gas_used}

-- The refund of EIP-2200 for a slot that gets the value it had before the block.
abbrev pub reset_refund : StorageForks → (original value : ℕ) → ℕ
reset_refund forks original value =
    if original == value then if forks.istanbul then 4200 else 4800 else 0

module _ (base : ReadSnapshot) where
  meter-wraps :
      (forks : StorageForks) (original value : ℕ) (t : Txn)
      → (not forks.istanbul && (forks.petersburg || not forks.constantinople)) ≡ false
      → original ≢ 0
      → value ≢ 0
      → get_refund t ≡ 0
      → get_refund (meter base forks original 0 value t).1
        ≡ u64_mod - 15000 + reset_refund forks original value
  unfolding meter get_refund add_refund sub_refund
  meter-wraps forks original value t net stood new nothing = ground arith

  set_storage-changes :
      (forks : StorageForks) (t : Txn) (addr key value : ℕ)
      → get_state base t addr key ≢ value
      → set_storage base addr key value forks t
        ≡ meter base forks
            (get_committed_state base t addr key)
            (get_state base t addr key)
            value
            (set_state base addr key value t)
  unfolding set_storage
  set_storage-changes forks t addr key value h =
      let metered : StorageStatus × Txn =
        meter base forks (get_committed_state base t addr key) (get_state base t addr key) value
          (set_state base addr key value t) in
      if_elim (λ r. r ≡ metered) (get_state base t addr key == value)
        (λ e. absurd (h ((==_iff (get_state base t addr key) value).0 e))) (λ _. refl)

  get_refund-set_state :
      (t : Txn) (addr key value : ℕ) → get_refund (set_state base addr key value t) ≡ get_refund t
  unfolding set_state upsert_account get_refund put_object
  get_refund-set_state t addr key value = ground arith

  get_refund-clean_delete_objects :
      (t : Txn) (delete_empty : Bool) → get_refund (clean_delete_objects base delete_empty t) ≡ 0
  unfolding get_refund clean_delete_objects
  get_refund-clean_delete_objects t delete_empty = refl

  -- A refund of at least half of the gas used is cut to half.
  large_refund_lem :
      (gas_limit refund : ℕ) (r : ExecutionResult)
      → gas_limit < u64_mod
      → u64_mod / 2 < refund
      → (update_gas_used gas_limit refund r).gas_used
        ≡ sub64 gas_limit r.gas_left - sub64 gas_limit r.gas_left / 2
  unfolding update_gas_used
  large_refund_lem gas_limit refund r small large = ground (arith, small, large)

  -- The value that the counter has after the write that takes a refund of an earlier transaction back.
  abbrev pub wrapped_refund : StorageForks → (original value : ℕ) → ℕ
  wrapped_refund forks original value = u64_mod - 15000 + reset_refund forks original value

  -- A write to a slot in a state that has ended a transaction.
  abbrev pub rewritten : StorageForks → Txn → Bool → (addr key value : ℕ) → Txn
  rewritten forks t delete_empty addr key value =
      (set_storage base addr key value forks (clean_delete_objects base delete_empty t)).1

  -- Under net gas metering, for a slot that the trie before the block has and that a transaction of
  -- the block cleared: once CleanDeleteObjects has ended that transaction, SetStorage of a value other
  -- than zero subtracts 15000 from a counter of zero, which leaves 15000 below 2^64, or 4200 or 4800
  -- more where it is the value before the block. With this counter UpdateGasUsed takes half off the
  -- gas of any run whose gas limit is below 2^64.
  pub refund_wraps :
      (forks : StorageForks) (t : Txn) (delete_empty : Bool) (addr key value gas_limit : ℕ)
      (r : ExecutionResult)
      → (not forks.istanbul && (forks.petersburg || not forks.constantinople)) ≡ false
      → get_committed_state base (clean_delete_objects base delete_empty t) addr key ≢ 0
      → get_state base (clean_delete_objects base delete_empty t) addr key ≡ 0
      → value ≢ 0
      → gas_limit < u64_mod
      → (get_refund (rewritten forks t delete_empty addr key value)
          ≡ wrapped_refund forks
              (get_committed_state base (clean_delete_objects base delete_empty t) addr key)
              value)
        × ((update_gas_used gas_limit
              (get_refund (rewritten forks t delete_empty addr key value))
              r).gas_used
            ≡ sub64 gas_limit r.gas_left - sub64 gas_limit r.gas_left / 2)
  refund_wraps forks t delete_empty addr key value gas_limit r net stood cleared new small =
      let u = clean_delete_objects base delete_empty t in
      let original : ℕ = get_committed_state base u addr key in
      let w = set_state base addr key value u in
      let nothing : get_refund w ≡ 0 =
        get_refund-set_state u addr key value ∙ get_refund-clean_delete_objects t delete_empty in
      let written : set_storage base addr key value forks u ≡ meter base forks original 0 value w =
        set_storage-changes forks u addr key value (λ e. new (sym e ∙ cleared))
        ∙ ap (λ current. meter base forks original current value w) cleared in
      let known : get_refund (rewritten forks t delete_empty addr key value)
          ≡ wrapped_refund forks original value =
        ap (λ x. get_refund x.1) written
        ∙ meter-wraps forks original value w net stood new nothing in
      (
        known,
        large_refund_lem gas_limit (get_refund (rewritten forks t delete_empty addr key value)) r
            small (ground (arith, known)),
      )
