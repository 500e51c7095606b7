-- ===== src/State/Tests.antt =====
-- A small state with one rich account, a runtime that pays to an account that no one else names, and a
-- block on it.
use go_plgchain.Base.{
  ℕ, ◌+◌, ◌-◌, ◌*◌, ◌/◌, ◌++◌, ◌≤◌, ◌≡◌, ◌≢◌, inl, refl, [], ◌∷◌, true, false, Option, none, some,
  ◌==◌, if◌then◌else◌, arith,
}
use go_plgchain.Base.Int.{pos}
use go_plgchain.Base.Dict.{lookup, insert}
use go_plgchain.Base.Bytes.{Bytes, bytes_of, bytes_equal}
use go_plgchain.Types.{Transaction, legacy_tx}
use go_plgchain.TxPool.State.{ForksInTime}
use go_plgchain.State.Account.{ReadSnapshot, zero_hash, is_empty}
use go_plgchain.State.Txn.{
  Txn, new_txn, debit, put_object, get_nonce, get_code_hash, get_refund, get_balance,
  get_state_object, upsert_account, sub_balance, add_balance, incr_nonce, create_account, snapshot,
  clean_delete_objects, mark_deleted, add_refund,
}
use go_plgchain.State.Txn.Reverts.{Keeps, refl-Keeps}
use go_plgchain.State.Txn.Wealth.{Poorer, refl-Poorer}
use go_plgchain.State.Txn.Book.{
  adds, subs, saves, reverts, Refines, operate_all, write_books, operate_all-Refines,
}
use go_plgchain.State.Storage.{
  StorageForks, meter, get_state, get_committed_state, set_state, set_storage, changed_slot,
  write_slot,
}
use go_plgchain.State.Storage.Slots.{get_state-set_state}
use go_plgchain.State.AllowList.{admin_role, get_role, run_input_call, update_role, address_from}
use go_plgchain.State.AllowList.Laws.{only_admins_write, admin_sets_role}
use go_plgchain.State.Transition.{
  Environment, Contract, ExecutionResult, update_gas_used, selfdestruct, CallType, apply_create,
  failure, err_not_auth, insufficient_balance, has_code_or_nonce, transfer, is_shut_out,
  open_account,
}
use go_plgchain.State.Transition.Refunds.{rewritten, wrapped_refund, refund_wraps}
use go_plgchain.Base.Word.{sub64}
use go_plgchain.State.Transition.Run.{IsRuntime, transfer_lem}
use go_plgchain.State.Transition.Applies.{update_gas_used_lem}
use go_plgchain.State.Transition.Answers.{IsHook, Answers, apply-Answers}
use go_plgchain.State.Transition.Blocks.{Balances, process_block-Balances}
use go_plgchain.State.Transition.Denials.{denied_deployment}
use go_plgchain.State.Transition.Destroys.{get_balance-selfdestruct}
use go_plgchain.State.Transition.Write.{Transition, apply, process_block}

abbrev rich : ReadSnapshot
rich = record {
  get_account = λ a.
      if a == 1
      then some (record { nonce = 0; balance = 1000000; root = 5; code_hash = 7 })
      else none;
  get_storage = λ a root key. zero_hash;
  stored_code = λ hash. [];
  cached_code = λ a. none;
  keccak = λ bytes. 7;
  empty_state_hash = 5;
}

abbrev forks : ForksInTime
forks = record { homestead = true; istanbul = true; eip158 = true }

abbrev still_world : Environment
still_world = record {
  forks = forks;
  coinbase = 9;
  system_caller = 8;
  selectors = record {
    set_admin = bytes_of 4 10;
    set_enabled = bytes_of 4 11;
    set_none = bytes_of 4 12;
    read_allow_list = bytes_of 4 13;
  };
  deployment_allow_list = some 6;
  txn_allow_list = none;
  create_address = λ a nonce. 3;
  runtime = λ c t. (
    record { return_value = []; gas_left = c.gas / 2; gas_used = 0; err = none; address = 0 },
    t,
  );
}

-- Half of the gas is spent, and the contract pays one to the account 4 if it can.
abbrev done : Contract → ExecutionResult
done c = record { return_value = []; gas_left = c.gas / 2; gas_used = 0; err = none; address = 0 }

abbrev paid_by : Contract → Txn → Option Txn → ExecutionResult × Txn
paid_by c t none = (record (done c) { err = some insufficient_balance }, t)
paid_by c t (some u) = (done c, u)

abbrev pay : Contract → Txn → ExecutionResult × Txn
pay c t = paid_by c t (transfer rich still_world c.address 4 1 t)

abbrev world : Environment
world = record still_world { runtime = pay }

paid_by_lem :
    (c : Contract) (t : Txn) (o : Option Txn)
    → ((u : Txn) → o ≡ some u → Keeps t u × Poorer rich t u)
    → ((paid_by c t o).0.gas_left ≤ c.gas)
      × Keeps t (paid_by c t o).1
      × Poorer rich t (paid_by c t o).1
paid_by_lem c t none h = (omega arith, refl-Keeps t, refl-Poorer rich t)
paid_by_lem c t (some u) h = (omega arith, (h u refl).0, (h u refl).1)

pay_lem :
    (c : Contract) (t : Txn)
    → ((pay c t).0.gas_left ≤ c.gas) × Keeps t (pay c t).1 × Poorer rich t (pay c t).1
pay_lem c t =
    paid_by_lem c t (transfer rich still_world c.address 4 1 t)
      (λ u e. transfer_lem rich still_world c.address 4 1 t u e)

pays_honestly : IsRuntime rich world
pays_honestly = record {
  gas = λ c t. (pay_lem c t).0;
  keeps = λ c t. (pay_lem c t).1;
  thrifty = λ c t. (pay_lem c t).2;
}

abbrev payment : Transaction
payment = record {
  nonce = 0;
  gas_price = 2;
  gas = 50000;
  to = some 2;
  value = pos 10;
  input = [];
  v = 0;
  r = 0;
  s = 0;
  hash = 77;
  from = 1;
  tx_type = legacy_tx;
}

abbrev unhooked : Transition → Transition
unhooked t = t

unhooked-IsHook : IsHook unhooked
unhooked-IsHook = record {
  state = λ t. refl;
  pool = λ t. refl;
  total = λ t. refl;
  receipts = λ t. refl;
}

abbrev unsigned : Transaction → Option ℕ
unsigned tx = none

abbrev fresh : Transition
fresh = record { state = new_txn; gas_pool = 60000; total_gas = 0; receipts = [] }

apply-Answers_example : Answers rich world fresh (apply rich world unhooked unsigned payment fresh)
apply-Answers_example =
    apply-Answers rich world unhooked unsigned unhooked-IsHook payment fresh pays_honestly
      (omega arith)

process_block-Balances_example :
    Balances rich world 60000 2
      (process_block rich world unhooked unsigned 60000 (payment ∷ payment ∷ []))
process_block-Balances_example =
    process_block-Balances rich world unhooked unsigned pays_honestly unhooked-IsHook 60000
      (payment ∷ payment ∷ []) (omega arith)

abbrev result : ExecutionResult
result = record { return_value = []; gas_left = 40; gas_used = 0; err = none; address = 0 }

update_gas_used_lem_example :
    ((update_gas_used 100 1000 result).gas_used + (update_gas_used 100 1000 result).gas_left ≡ 100)
    × ((update_gas_used 100 1000 result).gas_used ≤ 100 - 40)
    × (100 - 40 ≤ 2 * (update_gas_used 100 1000 result).gas_used)
    × (100 - 40 ≤ (update_gas_used 100 1000 result).gas_used + 1000)
update_gas_used_lem_example = update_gas_used_lem 100 1000 result (omega arith) (omega arith)

operate_all-Refines_example :
    Refines rich
      (operate_all rich (adds 4 10 ∷ saves ∷ subs 4 3 ∷ reverts 0 ∷ subs 4 11 ∷ []) new_txn)
      (write_books
        (adds 4 10 ∷ saves ∷ subs 4 3 ∷ reverts 0 ∷ subs 4 11 ∷ [])
        (record { balances = get_balance rich new_txn; saved = [] }))
operate_all-Refines_example =
    operate_all-Refines rich (adds 4 10 ∷ saves ∷ subs 4 3 ∷ reverts 0 ∷ subs 4 11 ∷ []) new_txn
      (record { balances = get_balance rich new_txn; saved = [] }) ((λ a. refl), tt)

get_state-set_state_example : get_state rich (set_state rich 4 20 30 new_txn) 4 20 ≡ 30
get_state-set_state_example = get_state-set_state rich (λ a k. refl) new_txn 4 20 30 4 20

abbrev net_metering : StorageForks
net_metering = record { constantinople = true; petersburg = true; istanbul = true }

-- A trie with a slot of the account 1, and a transaction that cleared it.
abbrev stored : ReadSnapshot
stored = record rich { get_storage = λ a root key. 5 }

abbrev cleared : Txn
cleared = (set_storage stored 1 20 0 net_metering new_txn).1

abbrev next_gas : ℕ
next_gas =
    (update_gas_used 100 (get_refund (rewritten stored net_metering cleared true 1 20 6))
      result).gas_used

slot_stood : get_committed_state stored (clean_delete_objects stored true cleared) 1 20 ≡ 5
unfolding get_committed_state get_state_object lookup clean_delete_objects mark_deleted set_storage
    get_state set_state meter upsert_account put_object insert write_slot changed_slot add_refund
    is_empty
slot_stood = refl

slot_cleared : get_state stored (clean_delete_objects stored true cleared) 1 20 ≡ 0
unfolding get_committed_state get_state_object lookup clean_delete_objects mark_deleted set_storage
    get_state set_state meter upsert_account put_object insert write_slot changed_slot add_refund
    is_empty
slot_cleared = refl

refund_wraps_example :
    (get_refund (rewritten stored net_metering cleared true 1 20 6)
      ≡ wrapped_refund stored net_metering
          (get_committed_state stored (clean_delete_objects stored true cleared) 1 20)
          6)
    × (next_gas ≡ sub64 100 40 - sub64 100 40 / 2)
refund_wraps_example =
    refund_wraps stored net_metering cleared true 1 20 6 100 result refl
      (λ e. absurd (omega (arith, e, slot_stood))) slot_cleared (λ e. absurd (omega (arith, e)))
      (omega arith)

get_balance-selfdestruct_example : get_balance rich (selfdestruct rich 1 2 new_txn) 2 ≡ 1000000
unfolding get_balance get_state_object lookup
get_balance-selfdestruct_example = get_balance-selfdestruct rich 1 2 new_txn 2

abbrev enabling : Bytes
enabling = bytes_of 4 11 ++ bytes_of 32 4

no_role_yet : get_role rich 6 new_txn 1 ≡ 0
unfolding get_role get_state get_state_object lookup
no_role_yet = refl

no_admin : get_role rich 6 new_txn 1 ≢ admin_role
no_admin e = absurd (omega (arith, e, no_role_yet))

only_admins_write_example :
    (run_input_call rich 6 world.selectors 1 enabling 30000 false new_txn).1 ≡ new_txn
only_admins_write_example =
    only_admins_write rich 6 world.selectors 1 30000 enabling false new_txn (inl no_admin)

abbrev administered : Txn
administered = set_state rich 6 1 admin_role new_txn

is_admin : get_role rich 6 administered 1 ≡ admin_role
unfolding get_role
is_admin = get_state-set_state rich (λ a k. refl) new_txn 6 1 admin_role 6 1

sets_enabled : update_role world.selectors (bytes_of 4 11) ≡ some 1
unfolding update_role bytes_equal
sets_enabled = refl

reads_not : bytes_equal (bytes_of 4 11) (bytes_of 4 13) ≡ false
unfolding bytes_equal
reads_not = refl

admin_sets_role_example :
    get_role rich 6 (run_input_call rich 6 world.selectors 1 enabling 30000 false administered).1 4
    ≡ 1
unfolding address_from
admin_sets_role_example =
    admin_sets_role rich 6 world.selectors (λ a k. refl) 1 30000 1 enabling administered refl
      reads_not sets_enabled is_admin (omega arith) 4

abbrev deployment : Contract
deployment = record {
  code = 96 ∷ [];
  call_type = CallType.call;
  code_address = 3;
  address = 3;
  origin = 1;
  caller = 1;
  depth = 1;
  value = 100;
  input = [];
  gas = 5000;
  is_static = false;
}

abbrev opened : Txn
opened = open_account rich world 3 (snapshot (incr_nonce rich 1 new_txn)).1

abbrev paid : Txn
paid = add_balance rich 3 100 (upsert_account rich 1 true (debit 100) opened)

unused : has_code_or_nonce rich world 3 (incr_nonce rich 1 new_txn) ≡ false
unfolding has_code_or_nonce incr_nonce upsert_account put_object get_nonce get_code_hash
    get_state_object insert lookup
unused = refl

pays : transfer rich world 1 3 100 opened ≡ some paid
unfolding transfer sub_balance get_balance get_state_object snapshot incr_nonce upsert_account
    put_object lookup insert create_account
pays = refl

shuts_out : is_shut_out rich world (some 6) 1 paid ≡ true
unfolding is_shut_out get_role get_state get_state_object changed_slot add_balance snapshot
    incr_nonce upsert_account put_object lookup insert create_account
shuts_out = refl

denied_deployment_example :
    (apply_create rich world deployment new_txn ≡ some (failure 0 err_not_auth, paid))
    × (get_balance rich paid 3 ≡ get_balance rich new_txn 3 + 100)
    × (get_balance rich paid 1 + 100 ≡ get_balance rich new_txn 1)
denied_deployment_example =
    denied_deployment rich world deployment new_txn paid (omega arith)
      (λ e. absurd (omega (arith, e))) unused pays shuts_out
