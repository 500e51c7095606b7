-- ===== src/State/Evm/Calls.antt =====
-- The instructions of instructions.go that run another contract: opCall and opCreate.
use go_plgchain.Base.{
  ℕ, ◌+◌, ◌-◌, ◌/◌, [], ◌∷◌, Bool, true, false, ◌&&◌, ◌||◌, not, Option, none, some, length, take,
  ltb, ◌==◌, if◌then◌else◌,
}
use go_plgchain.Base.Bytes.{Bytes}
use go_plgchain.Base.Word.{add64, sub64}
use go_plgchain.State.Account.{ReadSnapshot}
use go_plgchain.State.Txn.{Txn, get_balance, get_code, get_nonce, exist, empty}
use go_plgchain.State.Transition.{
  RunError, Contract, CallType, call_code, delegate_call, static_call, create, create2,
  ExecutionResult, failed, is_call, op_code_not_found, code_store_out_of_gas,
}
use go_plgchain.State.Evm.{
  Host, Machine, Instruction, exit, push, consume_gas, allocate_memory, get2, write_memory,
  is_uint64, is_revert,
}
use go_plgchain.State.Evm.Instructions.{per_word, pop1, pop2, pop3, nth}
use go_plgchain.State.Evm.Hosted.{to_address}

-- The words that a call pops; the value is nil for the calls that have none.
pub record CallArguments : Type 0 where
  pub gas : ℕ
  pub addr : ℕ
  pub value : Option ℕ
  pub in_offset : ℕ
  pub in_size : ℕ
  pub ret_offset : ℕ
  pub ret_size : ℕ

-- CALL or CALLCODE.
abbrev pub has_value : CallType → Bool
has_value CallType.call = true
has_value call_code = true
has_value _ = false

abbrev pub is_delegate : CallType → Bool
is_delegate delegate_call = true
is_delegate _ = false

abbrev pub is_static_call : CallType → Bool
is_static_call static_call = true
is_static_call _ = false

abbrev pub is_create2 : CallType → Bool
is_create2 create2 = true
is_create2 _ = false

unfoldable pub pop_arguments : CallType → (CallArguments → Instruction) → Instruction
pop_arguments call_type f = pop2 (λ gas addr.
    let ranges : Option ℕ → Instruction = λ value. pop2 (λ in_offset in_size.
      pop2 (λ ret_offset ret_size. f (record {
        gas = gas;
        addr = to_address addr;
        value = value;
        in_offset = in_offset;
        in_size = in_size;
        ret_offset = ret_offset;
        ret_size = ret_size;
      }))) in
    if has_value call_type then pop1 (λ value. ranges (some value)) else ranges none)

abbrev pub moves_value : Option ℕ → Bool
moves_value none = false
moves_value (some value) = not (value == 0)

abbrev pub reverted : ExecutionResult → Bool
reverted r = elim r.err [ none ↦ false | some e ↦ is_revert e ]

abbrev pub ran_out_for_code : ExecutionResult → Bool
ran_out_for_code r = elim r.err [ some code_store_out_of_gas ↦ true | _ ↦ false ]

module _ (base : ReadSnapshot) (host : Host) (msg : Contract) where
  -- What a call costs besides the gas that it hands on.
  unfoldable pub call_cost : CallType → CallArguments → Txn → ℕ
  call_cost call_type args t =
      (if host.config.eip150 then 700 else 40)
      + (if is_call call_type
          then if host.config.eip158
            then if moves_value args.value && empty base t args.addr then 25000 else 0
            else if exist base t args.addr
            then 0
            else 25000
          else 0)
      + (if moves_value args.value then 9000 else 0)

  -- The gas that a call hands on; `none` is an exit for a gas that is no uint64, before EIP 150.
  unfoldable pub handed_gas : CallArguments → ℕ → ℕ → Option ℕ
  handed_gas args gas cost =
      let available : ℕ = sub64 gas cost in
      let most : ℕ = available - available / 64 in
      if host.config.eip150
      then some (if not (is_uint64 args.gas) || ltb most args.gas then most else args.gas)
      else if is_uint64 args.gas
      then some args.gas
      else none

  -- The contract of buildCallContract.
  unfoldable pub call_contract : CallType → CallArguments → ℕ → Bytes → Txn → Contract
  call_contract call_type args gas input t = record {
    code = get_code base t args.addr;
    call_type = call_type;
    code_address = args.addr;
    address =
        if has_value call_type && not (is_call call_type) || is_delegate call_type
        then msg.address
        else args.addr;
    origin = msg.origin;
    caller = if is_delegate call_type then msg.caller else msg.address;
    depth = msg.depth + 1;
    value =
        if is_delegate call_type
        then msg.value
        else elim args.value [ none ↦ 0 | some value ↦ value ];
    input = input;
    gas = gas;
    is_static = is_static_call call_type || msg.is_static;
  }

  -- The return to the caller: the answer, the output, the gas and the return data.
  unfoldable pub finish_call : CallArguments → ExecutionResult → Instruction
  finish_call args result m =
      let done : Machine = push (if failed result then 0 else 1) m in
      let written : Option Machine =
        if (not (failed result) || reverted result)
          && (not (length result.return_value == 0) && ltb 0 args.ret_size)
        then write_memory args.ret_offset (take args.ret_size result.return_value) done
        else some done in
      elim written [
        | none ↦ none
        | some m' ↦
            some
              (record m' { gas = add64 m'.gas result.gas_left; return_data = result.return_value })
      ]

  -- opCall once the gas is paid.
  unfoldable pub run_call : CallArguments → Contract → Instruction
  run_call args contract m =
      if moves_value args.value && ltb (get_balance base m.state msg.address) contract.value
      then some (push 0 (record m { gas = add64 m.gas contract.gas }))
      else elim (host.callx contract m.state) [
        | none ↦ none
        | some (result, u) ↦ finish_call args result (record m { state = u })
      ]

  -- buildCallContract past its memory.
  unfoldable pub pay_call : CallType → CallArguments → Bytes → Instruction
  pay_call call_type args input m =
      let cost : ℕ = call_cost call_type args m.state in
      elim (handed_gas args m.gas cost) [
        | none ↦ some (exit RunError.out_of_gas m)
        | some gas ↦ consume_gas (add64 cost gas) m (λ m'.
            let given : ℕ = if moves_value args.value then add64 gas 2300 else gas in
            run_call args (call_contract call_type args given input m'.state) m')
      ]

  unfoldable pub op_call : CallType → Instruction
  op_call call_type m0 =
      let m : Machine = record m0 { return_data = [] } in
      if is_call call_type && (msg.is_static && not (nth m.stack 2 == 0))
      then some (exit RunError.write_protection m)
      else if is_delegate call_type && not host.config.homestead
      then some (exit op_code_not_found m)
      else if is_static_call call_type && not host.config.byzantium
      then some (exit op_code_not_found m)
      else pop_arguments call_type
          (λ args m1. get2 args.in_offset args.in_size m1 (λ input m2.
            allocate_memory args.ret_offset args.ret_size m2 (pay_call call_type args input)))
          m

  -- opCreate once the gas is paid.
  unfoldable pub run_create : Bool → ℕ → Contract → Instruction
  run_create two address contract m = elim (host.callx contract m.state) [
    | none ↦ none
    | some (result, u) ↦
        let v : ℕ =
          if not two && host.config.homestead && ran_out_for_code result
          then 0
          else if failed result && not (ran_out_for_code result)
          then 0
          else address in
        some (record m {
          stack = v ∷ m.stack;
          gas = add64 m.gas result.gas_left;
          return_data = if reverted result then result.return_value else m.return_data;
          state = u;
        })
  ]

  -- buildCreateContract past its memory and the check of the balance.
  unfoldable pub pay_create : Bool → ℕ → ℕ → Bytes → Instruction
  pay_create two value salt input m =
      let gas : ℕ = if host.config.eip150 || two then m.gas - m.gas / 64 else m.gas in
      consume_gas gas m (λ m'.
        let address : ℕ =
          if two
          then host.create_address2 msg.address salt input
          else host.create_address msg.address (get_nonce base m'.state msg.address) in
        run_create two address
          (record {
            code = input;
            call_type = create;
            code_address = address;
            address = address;
            origin = msg.origin;
            caller = msg.address;
            depth = msg.depth + 1;
            value = value;
            input = [];
            gas = gas;
            is_static = false;
          })
          m')

  unfoldable pub build_create : Bool → ℕ → ℕ → ℕ → ℕ → Instruction
  build_create two value offset size salt m = get2 offset size m (λ input m'.
      if not (value == 0) && ltb (get_balance base m'.state msg.address) value
      then some (push 0 m')
      else if two
      then consume_gas (per_word 6 size) m' (pay_create two value salt input)
      else pay_create two value salt input m')

  unfoldable pub op_create : CallType → Instruction
  op_create call_type m =
      if msg.is_static
      then some (exit RunError.write_protection m)
      else if is_create2 call_type && not host.config.constantinople
      then some (exit op_code_not_found m)
      else pop3
          (λ value offset size.
            if is_create2 call_type
            then pop1 (λ salt. build_create true value offset size salt)
            else build_create false value offset size 0)
          (record m { return_data = [] })
