-- ===== src/State/Storage.antt =====
-- state/txn.go, the storage of contracts: SetState, GetState and the gas metering of SetStorage.
pub mod Slots
use go_plgchain.Base.{
  ℕ, List, [], ◌∷◌, Bool, true, false, ◌&&◌, ◌||◌, not, Option, none, some, ◌==◌, if◌then◌else◌,
}
use go_plgchain.Base.Dict.{lookup, insert}
use go_plgchain.State.Account.{Account, StateObject, ReadSnapshot, zero_hash}
use go_plgchain.State.Txn.{Txn, get_state_object, upsert_account, add_refund, sub_refund}

-- The forks of chain.ForksInTime that the metering looks at.
pub record StorageForks : Type 0 where
  pub constantinople : Bool
  pub petersburg : Bool
  pub istanbul : Bool

pub data StorageStatus : Type 0 where
  unchanged added deleted modified modified_again : StorageStatus

module _ (base : ReadSnapshot) where
  -- A slot of an object; nil in the radix tree is `some none`.
  unfoldable pub write_slot : ℕ → ℕ → StateObject → StateObject
  write_slot key value object =
      let slots : List (ℕ × Option ℕ) = elim object.slots [ none ↦ [] | some m ↦ m ] in
      record object {
        slots = some (insert key (if value == zero_hash then none else some value) slots);
      }

  unfoldable pub set_state : ℕ → ℕ → ℕ → Txn → Txn
  set_state addr key value = upsert_account base addr true (write_slot key value)

  -- A slot of an object that was changed in this block.
  unfoldable pub changed_slot : StateObject → ℕ → Option (Option ℕ)
  changed_slot object key = elim object.slots [ none ↦ none | some m ↦ lookup key m ]

  unfoldable pub get_state : Txn → ℕ → ℕ → ℕ
  get_state t addr key = elim (get_state_object base t addr) [
    | none ↦ zero_hash
    | some object ↦ elim (changed_slot object key) [
      | some none ↦ zero_hash
      | some (some value) ↦ value
      | none ↦ base.get_storage addr object.account.root key
    ]
  ]

  unfoldable pub get_committed_state : Txn → ℕ → ℕ → ℕ
  get_committed_state t addr key = elim (get_state_object base t addr) [
    | none ↦ zero_hash
    | some object ↦ base.get_storage addr object.account.root key
  ]

  -- EIP-2200 past the check that the value changes: the status and what becomes of the refund.
  unfoldable pub meter : StorageForks → (original current value : ℕ) → Txn → StorageStatus × Txn
  meter forks original current value t =
      let legacy_gas_metering =
        not forks.istanbul && (forks.petersburg || not forks.constantinople) in
      if legacy_gas_metering
      then if current == zero_hash
        then (StorageStatus.added, t)
        else if value == zero_hash
        then (StorageStatus.deleted, add_refund 15000 t)
        else (StorageStatus.modified, t)
      else if original == current
      then if original == zero_hash
        then (StorageStatus.added, t)
        else if value == zero_hash
        then (StorageStatus.deleted, add_refund 15000 t)
        else (StorageStatus.modified, t)
      else let cleared =
          if original == zero_hash
          then t
          else if current == zero_hash
          then sub_refund 15000 t
          else if value == zero_hash
          then add_refund 15000 t
          else t in
        let reset =
          if original == value
          then if original == zero_hash
            then add_refund (if forks.istanbul then 19200 else 19800) cleared
            else add_refund (if forks.istanbul then 4200 else 4800) cleared
          else cleared in
        (StorageStatus.modified_again, reset)

  unfoldable pub set_storage : ℕ → ℕ → ℕ → StorageForks → Txn → StorageStatus × Txn
  set_storage addr key value forks t =
      let current = get_state t addr key in
      let original = get_committed_state t addr key in
      if current == value
      then (StorageStatus.unchanged, t)
      else meter forks original current value (set_state addr key value t)
