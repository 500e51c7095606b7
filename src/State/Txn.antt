-- ===== src/State/Txn.antt =====
-- state/txn.go, the state that a block's transactions change: a radix tree of state objects, logs and
-- the refund over the last committed trie. The tree is persistent, so a snapshot is the tree itself.
pub mod Balances
pub mod Wealth
pub mod Book
pub mod Reverts
use go_plgchain.Base.{
  ℕ, zero, suc, ◌+◌, ◌-◌, List, [], ◌∷◌, ◌++◌, Bool, true, false, ◌&&◌, ◌||◌, Option, none, some,
  length, ltb, ◌==◌, if◌then◌else◌,
}
use go_plgchain.Base.Dict.{lookup, insert}
use go_plgchain.Base.Word.{add64, sub64}
use go_plgchain.State.Account.{
  Account, StateObject, Log, ReadSnapshot, zero_hash, is_empty, new_state_object,
}

-- The entries of the radix tree: by address, at logIndex and at refundIndex.
pub record Tree : Type 0 where
  pub objects : List (ℕ × StateObject)
  pub logs : Option (List Log)
  pub refund : Option ℕ

pub record Txn : Type 0 where
  pub snapshots : List Tree
  pub tree : Tree

abbrev pub new_txn : Txn
new_txn = record { snapshots = []; tree = record { objects = []; logs = none; refund = none } }

-- The id of the snapshot, and the state with it.
unfoldable pub snapshot : Txn → ℕ × Txn
snapshot t = (length t.snapshots, record t { snapshots = t.snapshots ++ t.tree ∷ [] })

abbrev pub get_elem? {ℓ} : {A : Type ℓ} → List A → ℕ → Option A
get_elem? [] i = none
get_elem? (x ∷ xs) zero = some x
get_elem? (x ∷ xs) (suc i) = get_elem? xs i

-- An id that was never given is a panic, `none`.
unfoldable pub revert_to_snapshot : ℕ → Txn → Option Txn
revert_to_snapshot id t = elim (get_elem? t.snapshots id) [
  | none ↦ none
  | some tree ↦ some (record t { tree = tree })
]

unfoldable pub put_object : ℕ → StateObject → Txn → Txn
put_object addr object t = record t {
  tree = record t.tree { objects = insert addr object t.tree.objects };
}

unfoldable pub get_refund : Txn → ℕ
get_refund t = elim t.tree.refund [ none ↦ 0 | some r ↦ r ]

unfoldable pub add_refund : ℕ → Txn → Txn
unfolding get_refund
add_refund gas t = record t { tree = record t.tree { refund = some (add64 (get_refund t) gas) } }

unfoldable pub sub_refund : ℕ → Txn → Txn
unfolding get_refund
sub_refund gas t = record t { tree = record t.tree { refund = some (sub64 (get_refund t) gas) } }

-- Logs, which takes the logs out.
unfoldable pub take_logs : Txn → List Log × Txn
take_logs t = elim t.tree.logs [
  | none ↦ ([], t)
  | some logs ↦ (logs, record t { tree = record t.tree { logs = none } })
]

unfoldable pub add_log : Log → Txn → Txn
add_log log t =
    let logs : List Log = elim t.tree.logs [ none ↦ [] | some ls ↦ ls ] in
    record t { tree = record t.tree { logs = some (logs ++ log ∷ []) } }

abbrev pub emit_log : ℕ → List ℕ → List ℕ → Txn → Txn
emit_log addr topics bytes = add_log (record { address = addr; topics = topics; bytes = bytes })

-- What the callbacks of upsertAccount do to an account.
abbrev pub with_account : (Account → Account) → StateObject → StateObject
with_account f object = record object { account = f object.account }

abbrev pub credit : ℕ → StateObject → StateObject
credit amount = with_account (λ a. record a { balance = a.balance + amount })

abbrev pub debit : ℕ → StateObject → StateObject
debit amount = with_account (λ a. record a { balance = a.balance - amount })

abbrev pub bump_nonce : StateObject → StateObject
bump_nonce = with_account (λ a. record a { nonce = add64 a.nonce 1 })

module _ (base : ReadSnapshot) where
  unfoldable pub get_state_object : Txn → ℕ → Option StateObject
  unfolding new_state_object
  get_state_object t addr = elim (lookup addr t.tree.objects) [
    | some object ↦ if object.deleted then none else some object
    | none ↦ elim (base.get_account addr) [
      | none ↦ none
      | some account ↦ some (record (new_state_object base) { account = account })
    ]
  ]

  -- The callback is given no object only by Suicide, which then does nothing.
  unfoldable pub upsert_account : ℕ → Bool → (StateObject → StateObject) → Txn → Txn
  upsert_account addr create f t = elim (get_state_object t addr) [
    | some object ↦ put_object addr (f object) t
    | none ↦ if create then put_object addr (f (new_state_object base)) t else t
  ]

  unfoldable pub add_sealing_reward : ℕ → ℕ → Txn → Txn
  add_sealing_reward addr amount = upsert_account addr true (λ object.
      if object.suicide
      then with_account (λ a. record a { balance = amount }) (new_state_object base)
      else credit amount object)

  unfoldable pub add_balance : ℕ → ℕ → Txn → Txn
  add_balance addr amount = upsert_account addr true (credit amount)

  unfoldable pub get_balance : Txn → ℕ → ℕ
  get_balance t addr = elim (get_state_object t addr) [
    | none ↦ 0
    | some object ↦ object.account.balance
  ]

  -- `none` is ErrNotEnoughFunds.
  unfoldable pub sub_balance : ℕ → ℕ → Txn → Option Txn
  sub_balance addr amount t =
      if amount == 0
      then some t
      else if ltb (get_balance t addr) amount
      then none
      else some (upsert_account addr true (debit amount) t)

  unfoldable pub set_balance : ℕ → ℕ → Txn → Txn
  set_balance addr amount =
      upsert_account addr true (with_account (λ a. record a { balance = amount }))

  unfoldable pub incr_nonce : ℕ → Txn → Txn
  incr_nonce addr = upsert_account addr true bump_nonce

  unfoldable pub set_nonce : ℕ → ℕ → Txn → Txn
  set_nonce addr nonce = upsert_account addr true (with_account (λ a. record a { nonce = nonce }))

  unfoldable pub get_nonce : Txn → ℕ → ℕ
  get_nonce t addr = elim (get_state_object t addr) [
    | none ↦ 0
    | some object ↦ object.account.nonce
  ]

  abbrev pub coded : List ℕ → StateObject → StateObject
  coded code object = record object {
    account = record object.account { code_hash = base.keccak code };
    dirty_code = true;
    code = code;
  }

  unfoldable pub set_code : ℕ → List ℕ → Txn → Txn
  set_code addr code = upsert_account addr true (coded code)

  unfoldable pub get_code : Txn → ℕ → List ℕ
  get_code t addr = elim (get_state_object t addr) [
    | none ↦ []
    | some object ↦ if object.dirty_code then object.code else elim (base.cached_code addr) [
      | some code ↦ code
      | none ↦ base.stored_code object.account.code_hash
    ]
  ]

  abbrev pub get_code_size : Txn → ℕ → ℕ
  get_code_size t addr = length (get_code t addr)

  unfoldable pub get_code_hash : Txn → ℕ → ℕ
  get_code_hash t addr = elim (get_state_object t addr) [
    | none ↦ zero_hash
    | some object ↦ object.account.code_hash
  ]

  unfoldable pub has_suicided : Txn → ℕ → Bool
  has_suicided t addr = elim (get_state_object t addr) [
    | none ↦ false
    | some object ↦ object.suicide
  ]

  -- Whether the account was there and had not been marked, and the state with it marked.
  unfoldable pub suicide : ℕ → Txn → Bool × Txn
  suicide addr t = (
    elim (get_state_object t addr) [
      | none ↦ false
      | some object ↦ if object.suicide then false else true
    ],
    upsert_account addr false
        (λ object. record object {
          suicide = true;
          account = record object.account { balance = 0 };
        })
        t,
  )

  abbrev pub touch_account : ℕ → Txn → Txn
  touch_account addr = upsert_account addr true (λ object. object)

  unfoldable pub exist : Txn → ℕ → Bool
  exist t addr = elim (get_state_object t addr) [ none ↦ false | some _ ↦ true ]

  unfoldable pub empty : Txn → ℕ → Bool
  empty t addr = elim (get_state_object t addr) [ none ↦ true | some object ↦ is_empty base object ]

  unfoldable pub create_account : ℕ → Txn → Txn
  create_account addr t =
      put_object addr
        (with_account (λ a. record a { balance = get_balance t addr }) (new_state_object base)) t

  -- The walk over the objects marks those that were suicided, or are empty.
  unfoldable pub mark_deleted : Bool → List (ℕ × StateObject) → List (ℕ × StateObject)
  mark_deleted delete_empty [] = []
  mark_deleted delete_empty ((addr, a) ∷ objects) =
      (
        addr,
        if a.suicide || (is_empty base a && delete_empty) then record a { deleted = true } else a,
      )
      ∷ mark_deleted delete_empty objects

  unfoldable pub clean_delete_objects : Bool → Txn → Txn
  clean_delete_objects delete_empty t = record t {
    tree = record t.tree { objects = mark_deleted delete_empty t.tree.objects; refund = none };
  }
