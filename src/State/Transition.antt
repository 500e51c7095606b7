-- ===== src/State/Transition.antt =====
-- state/executor.go, one transaction on the state: the checks, the purchase of gas, the run and the
-- payments. The virtual machine and the precompiled contracts are the parameter runtime.
pub mod Answers
pub mod Applies
pub mod Blocks
pub mod Creates
pub mod Denials
pub mod Destroys
pub mod Refunds
pub mod Run
pub mod Write
use go_plgchain.Base.{
  ℕ, zero, suc, ◌+◌, ◌-◌, ◌*◌, ◌/◌, List, [], ◌∷◌, ◌++◌, Bool, true, false, ◌&&◌, ◌||◌, not, Option,
  none, some, length, ltb, ◌==◌, if◌then◌else◌,
}
use go_plgchain.Base.Bytes.{Bytes, bytes_of}
use go_plgchain.Base.Int.{pos_part}
use go_plgchain.Base.Word.{add64, sub64}
use go_plgchain.Types.{Transaction, TxType, legacy_tx, state_tx, is_contract_creation, zero_address}
use go_plgchain.Gas.{transaction_gas_cost}
use go_plgchain.TxPool.State.{ForksInTime}
use go_plgchain.State.Account.{ReadSnapshot, Log, zero_hash}
use go_plgchain.State.Txn.{
  Txn, snapshot, revert_to_snapshot, add_balance, sub_balance, get_nonce, incr_nonce, get_code,
  get_code_hash, set_code, touch_account, create_account, get_refund, get_balance, has_suicided,
  add_refund, suicide,
}
use go_plgchain.State.AllowList.{Selectors, AllowListError, get_role, is_enabled, run_input_call}

pub data CallType : Type 0 where
  call call_code delegate_call static_call create create2 : CallType

pub record Contract : Type 0 where
  pub code : Bytes
  pub call_type : CallType
  pub code_address : ℕ
  pub address : ℕ
  pub origin : ℕ
  pub caller : ℕ
  pub depth : ℕ
  pub value : ℕ
  pub input : Bytes
  pub gas : ℕ
  pub is_static : Bool

pub data RunError : Type 0 where
  err_depth insufficient_balance contract_address_collision err_not_auth : RunError
  max_code_size_exceeded code_store_out_of_gas caller_not_authorized : RunError
  allow_list : AllowListError → RunError
  execution_reverted out_of_gas stack_underflow stack_overflow write_protection : RunError
  invalid_jump op_code_not_found return_data_out_of_bounds : RunError
  machine : ℕ → RunError

pub record ExecutionResult : Type 0 where
  pub return_value : Bytes
  pub gas_left : ℕ
  pub gas_used : ℕ
  pub err : Option RunError
  pub address : ℕ

abbrev pub failed : ExecutionResult → Bool
failed r = elim r.err [ none ↦ false | some _ ↦ true ]

abbrev pub failure : ℕ → RunError → ExecutionResult
failure gas_left e = record {
  return_value = [];
  gas_left = gas_left;
  gas_used = 0;
  err = some e;
  address = zero_address;
}

unfoldable pub update_gas_used : ℕ → ℕ → ExecutionResult → ExecutionResult
update_gas_used gas_limit refund r =
    let used : ℕ = sub64 gas_limit r.gas_left in
    let given : ℕ = if ltb (used / 2) refund then used / 2 else refund in
    record r { gas_left = add64 r.gas_left given; gas_used = sub64 used given }

-- What a transition has from its executor, its block and the libraries.
pub record Environment : Type 0 where
  pub forks : ForksInTime
  pub coinbase : ℕ
  pub system_caller : ℕ
  pub selectors : Selectors
  pub deployment_allow_list : Option ℕ
  pub txn_allow_list : Option ℕ
  pub create_address : ℕ → ℕ → ℕ
  pub runtime : Contract → Txn → ExecutionResult × Txn

abbrev pub spurious_dragon_max_code_size : ℕ
spurious_dragon_max_code_size = 24576

abbrev pub is_call : CallType → Bool
is_call call = true
is_call _ = false

abbrev pub is_create : CallType → Bool
is_create create = true
is_create _ = false

module _ (base : ReadSnapshot) where
  unfoldable pub selfdestruct : ℕ → ℕ → Txn → Txn
  selfdestruct addr beneficiary t =
      let refunded = if has_suicided base t addr then t else add_refund 24000 t in
      (suicide base addr (add_balance base beneficiary (get_balance base refunded addr) refunded)).1

module _ (base : ReadSnapshot) (env : Environment) where
  -- AllowList.Run of the list at an address.
  unfoldable pub run_allow_list : ℕ → Contract → Txn → ExecutionResult × Txn
  run_allow_list list c t =
      let (reply, u) =
        run_input_call base list env.selectors c.caller c.input c.gas c.is_static t in
      (
        record {
          return_value = elim reply.value [ none ↦ [] | some role ↦ bytes_of 32 role ];
          gas_used = reply.used;
          gas_left = sub64 c.gas reply.used;
          err = elim reply.err [ none ↦ none | some e ↦ some (allow_list e) ];
          address = zero_address;
        },
        u,
      )

  -- t.deploymentAllowlist != nil && t.deploymentAllowlist.Addr() == addr.
  abbrev pub is_list : Option ℕ → ℕ → Bool
  is_list none addr = false
  is_list (some list) addr = list == addr

  -- The list, if there is one, does not enable the address.
  unfoldable pub is_shut_out : Option ℕ → ℕ → Txn → Bool
  is_shut_out none addr t = false
  is_shut_out (some list) addr t = not (is_enabled (get_role base list t addr))

  unfoldable pub run : Contract → Txn → ExecutionResult × Txn
  run c t =
      if is_list env.deployment_allow_list c.code_address
      then run_allow_list c.code_address c t
      else if is_list env.txn_allow_list c.code_address
      then run_allow_list c.code_address c t
      else if not (c.caller == env.system_caller) && is_shut_out env.txn_allow_list c.caller t
      then (failure 0 caller_not_authorized, t)
      else env.runtime c t

  -- `none` is ErrInsufficientBalance.
  unfoldable pub transfer : ℕ → ℕ → ℕ → Txn → Option Txn
  transfer from to amount t = elim (sub_balance base from amount t) [
    | none ↦ none
    | some u ↦ some (add_balance base to amount u)
  ]

  -- A run whose failure takes the state back to a snapshot. `none` is a panic of RevertToSnapshot.
  unfoldable pub run_or_revert : ℕ → Contract → Txn → Option (ExecutionResult × Txn)
  run_or_revert id c t =
      let (result, u) = run c t in
      if failed result
      then elim (revert_to_snapshot id u) [ none ↦ none | some v ↦ some (result, v) ]
      else some (result, u)

  unfoldable pub apply_call : Contract → CallType → Txn → Option (ExecutionResult × Txn)
  apply_call c call_type t =
      if ltb 1025 c.depth
      then some (failure c.gas err_depth, t)
      else let (id, s) = snapshot t in
        let touched = touch_account base c.address s in
        if is_call call_type
        then elim (transfer c.caller c.address c.value touched) [
          | none ↦ some (failure c.gas insufficient_balance, touched)
          | some paid ↦ run_or_revert id c paid
        ]
        else run_or_revert id c touched

  unfoldable pub has_code_or_nonce : ℕ → Txn → Bool
  has_code_or_nonce addr t =
      not (get_nonce base t addr == 0)
      || (not (get_code_hash base t addr == base.keccak [])
          && not (get_code_hash base t addr == zero_hash))

  unfoldable pub out_of_gas_for_code : ℕ → ExecutionResult → Txn → Option (ExecutionResult × Txn)
  out_of_gas_for_code id out t =
      if env.forks.homestead
      then elim (revert_to_snapshot id t) [
        | none ↦ none
        | some u ↦ some (record out { gas_left = 0 }, u)
      ]
      else some (out, t)

  -- The end of applyCreate, with what the constructor returned.
  unfoldable pub store_code : ℕ → Contract → ExecutionResult → Txn → Option (ExecutionResult × Txn)
  store_code id c result t =
      let gas_cost : ℕ = length result.return_value * 200 in
      if env.forks.eip158 && ltb spurious_dragon_max_code_size (length result.return_value)
      then elim (revert_to_snapshot id t) [
        | none ↦ none
        | some u ↦ some (failure 0 max_code_size_exceeded, u)
      ]
      else if ltb result.gas_left gas_cost
      then out_of_gas_for_code id
          (record result { err = some code_store_out_of_gas; return_value = [] }) t
      else some (
        record result { gas_left = result.gas_left - gas_cost; address = c.address },
        set_code base c.address result.return_value t,
      )

  -- The part of applyCreate past the transfer of the value.
  unfoldable pub run_constructor : ℕ → Contract → Txn → Option (ExecutionResult × Txn)
  run_constructor id c t =
      if is_shut_out env.deployment_allow_list c.caller t
      then some (failure 0 err_not_auth, t)
      else let (result, u) = run c t in
        if failed result
        then elim (revert_to_snapshot id u) [ none ↦ none | some v ↦ some (result, v) ]
        else store_code id c result u

  -- The account of a new contract, past EIP 158.
  abbrev pub open_account : ℕ → Txn → Txn
  open_account addr t =
      if env.forks.eip158 then incr_nonce base addr (create_account base addr t) else t

  unfoldable pub apply_create : Contract → Txn → Option (ExecutionResult × Txn)
  apply_create c t =
      if ltb 1025 c.depth
      then some (failure c.gas err_depth, t)
      else let called = incr_nonce base c.caller t in
        if has_code_or_nonce c.address called
        then some (failure 0 contract_address_collision, called)
        else let (id, s) = snapshot called in
          let opened = open_account c.address s in
          elim (transfer c.caller c.address c.value opened) [
            | none ↦ some (failure c.gas insufficient_balance, opened)
            | some paid ↦ run_constructor id c paid
          ]

  unfoldable pub callx : Contract → Txn → Option (ExecutionResult × Txn)
  callx c t = if is_create c.call_type then apply_create c t else apply_call c c.call_type t

  -- Create2 and Call2.
  unfoldable pub create_top : ℕ → Bytes → ℕ → ℕ → Txn → Option (ExecutionResult × Txn)
  create_top caller code value gas t =
      let address : ℕ = env.create_address caller (get_nonce base t caller) in
      apply_create
        (record {
          code = code;
          call_type = call;
          code_address = address;
          address = address;
          origin = caller;
          caller = caller;
          depth = 1;
          value = value;
          input = [];
          gas = gas;
          is_static = false;
        })
        t

  unfoldable pub call_top : ℕ → ℕ → Bytes → ℕ → ℕ → Txn → Option (ExecutionResult × Txn)
  call_top caller to input value gas t =
      apply_call
        (record {
          code = get_code base t to;
          call_type = call;
          code_address = to;
          address = to;
          origin = caller;
          caller = caller;
          depth = 1;
          value = value;
          input = input;
          gas = gas;
          is_static = false;
        })
        call t
