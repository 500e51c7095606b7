-- ===== src/State/Evm/Table.antt =====
-- dispatch_table.go, the loop of state.go and evm.go: which instruction an opcode is, what stack and gas
-- it asks for, and the run of a contract.
use go_plgchain.Base.{
  ℕ, zero, suc, ◌+◌, ◌-◌, List, [], ◌∷◌, ◌++◌, false, not, Option, none, some, length, ltb,
  if◌then◌else◌,
}
use go_plgchain.Base.Dict.{lookup}
use go_plgchain.Base.Word.{add64, sub64}
use go_plgchain.State.Account.{ReadSnapshot}
use go_plgchain.State.Txn.{Txn}
use go_plgchain.Types.{zero_address}
use go_plgchain.State.Transition.{
  RunError, Contract, CallType, call_code, delegate_call, static_call, create, create2,
  ExecutionResult, op_code_not_found, stack_underflow, stack_overflow,
}
use go_plgchain.State.Evm.{Host, Machine, Instruction, stack_size, halt, exit, byte_at, is_revert}
use go_plgchain.State.Evm.Words.{
  add, mul, sub, div, sdiv, mod_word, smod, add_mod, mul_mod, and_word, or_word, xor_word, not_word,
  is_zero, eq_word, lt, gt, slt, sgt, byte, sign_extension, shl, shr, sar,
}
use go_plgchain.State.Evm.Instructions.{
  pushes, op1, op2, op3, since, op_exp, op_sign_extension, op_mload, op_mstore, op_mstore8, op_sha3,
  op_pop, op_call_data_load, op_copy, op_return_data_copy, op_jump, op_jumpi, op_jump_dest, op_push,
  op_dup, op_swap, op_stop, op_return, op_revert,
}
use go_plgchain.State.Evm.Hosted.{
  op_balance, op_self_balance, op_chain_id, op_sload, op_sstore, op_ext_code_size,
  op_return_data_size, op_ext_code_hash, op_ext_code_copy, op_block_hash, op_self_destruct, op_log,
}
use go_plgchain.State.Evm.Calls.{op_call, op_create}

pub record Handler : Type 0 where
  pub inst : Instruction
  pub stack : ℕ
  pub gas : ℕ

abbrev pub handler : Instruction → ℕ → ℕ → Handler
handler inst stack gas = record { inst = inst; stack = stack; gas = gas }

-- So many opcodes from one on, whose instruction is by their number in the range.
abbrev pub register_range : ℕ → ℕ → ℕ → (ℕ → Instruction) → ℕ → List (ℕ × Handler)
register_range zero op n factory gas = []
register_range (suc count) op n factory gas =
    (op, handler (factory n) 0 gas) ∷ register_range count (op + 1) (n + 1) factory gas

abbrev pub flatten {ℓ} : {A : Type ℓ} → List (List A) → List A
flatten [] = []
flatten (xs ∷ xss) = xs ++ flatten xss

module _ (base : ReadSnapshot) (host : Host) (msg : Contract) where
  -- Unsigned and signed arithmetic.
  abbrev pub arithmetic : List (ℕ × Handler)
  arithmetic =
      (0x00, handler op_stop 0 0)
      ∷ (0x01, handler (op2 add) 2 3)
      ∷ (0x03, handler (op2 sub) 2 3)
      ∷ (0x02, handler (op2 mul) 2 5)
      ∷ (0x04, handler (op2 div) 2 5)
      ∷ (0x05, handler (op2 sdiv) 2 5)
      ∷ (0x06, handler (op2 mod_word) 2 5)
      ∷ (0x07, handler (op2 smod) 2 5)
      ∷ (0x0a, handler (op_exp host.config) 2 10)
      ∷ (0x08, handler (op3 add_mod) 3 8)
      ∷ (0x09, handler (op3 mul_mod) 3 8)
      ∷ []

  -- Bits, comparisons and shifts.
  abbrev pub logic : List (ℕ × Handler)
  logic =
      (0x16, handler (op2 and_word) 2 3)
      ∷ (0x17, handler (op2 or_word) 2 3)
      ∷ (0x18, handler (op2 xor_word) 2 3)
      ∷ (0x1a, handler (op2 byte) 2 3)
      ∷ (0x19, handler (op1 not_word) 1 3)
      ∷ (0x15, handler (op1 is_zero) 1 3)
      ∷ (0x14, handler (op2 eq_word) 2 3)
      ∷ (0x10, handler (op2 lt) 2 3)
      ∷ (0x11, handler (op2 gt) 2 3)
      ∷ (0x12, handler (op2 slt) 2 3)
      ∷ (0x13, handler (op2 sgt) 2 3)
      ∷ (0x0b, handler (op_sign_extension sign_extension) 1 5)
      ∷ (0x1b, handler (since host.config.constantinople (op2 shl)) 2 3)
      ∷ (0x1c, handler (since host.config.constantinople (op2 shr)) 2 3)
      ∷ (0x1d, handler (since host.config.constantinople (op2 sar)) 2 3)
      ∷ []

  -- Calls and creations, and what ends a run.
  abbrev pub calls : List (ℕ × Handler)
  calls =
      (0xf0, handler (op_create base host msg create) 3 32000)
      ∷ (0xf5, handler (op_create base host msg create2) 4 32000)
      ∷ (0xf1, handler (op_call base host msg CallType.call) 7 0)
      ∷ (0xf2, handler (op_call base host msg call_code) 7 0)
      ∷ (0xf4, handler (op_call base host msg delegate_call) 6 0)
      ∷ (0xfa, handler (op_call base host msg static_call) 6 0)
      ∷ (0xfd, handler (op_revert host.config) 2 0)
      ∷ (0xf3, handler op_return 2 0)
      ∷ (0xff, handler (op_self_destruct base host msg) 1 0)
      ∷ []

  -- Memory, storage and the hash.
  abbrev pub memory : List (ℕ × Handler)
  memory =
      (0x51, handler op_mload 1 3)
      ∷ (0x52, handler op_mstore 2 3)
      ∷ (0x53, handler op_mstore8 2 3)
      ∷ (0x54, handler (op_sload base host msg) 1 0)
      ∷ (0x55, handler (op_sstore base host msg) 2 0)
      ∷ (0x20, handler (op_sha3 base.keccak) 2 30)
      ∷ (0x50, handler op_pop 1 2)
      ∷ []

  -- Context operations.
  abbrev pub context : List (ℕ × Handler)
  context =
      (0x3f, handler (op_ext_code_hash base host msg) 1 0)
      ∷ (0x30, handler (pushes (λ m. msg.address)) 0 2)
      ∷ (0x31, handler (op_balance base host msg) 1 0)
      ∷ (0x47, handler (op_self_balance base host msg) 0 5)
      ∷ (0x32, handler (pushes (λ m. host.context.origin)) 0 2)
      ∷ (0x33, handler (pushes (λ m. msg.caller)) 0 2)
      ∷ (0x34, handler (pushes (λ m. msg.value)) 0 2)
      ∷ (0x35, handler (op_call_data_load msg.input) 1 3)
      ∷ (0x36, handler (pushes (λ m. length msg.input)) 0 2)
      ∷ (0x38, handler (pushes (λ m. length msg.code)) 0 2)
      ∷ (0x3b, handler (op_ext_code_size base host msg) 1 0)
      ∷ (0x3a, handler (pushes (λ m. host.context.gas_price)) 0 2)
      ∷ (0x3d, handler (op_return_data_size base host msg) 0 2)
      ∷ (0x46, handler (op_chain_id base host msg) 0 2)
      ∷ (0x58, handler (pushes (λ m. m.ip)) 0 2)
      ∷ (0x59, handler (pushes (λ m. length m.memory)) 0 2)
      ∷ (0x5a, handler (pushes (λ m. m.gas)) 0 2)
      ∷ (0x3c, handler (op_ext_code_copy base host msg) 4 0)
      ∷ (0x37, handler (op_copy msg.input) 3 3)
      ∷ (0x3e, handler (op_return_data_copy host.config) 3 3)
      ∷ (0x39, handler (op_copy msg.code) 3 3)
      ∷ []

  -- The block, and jumps.
  abbrev pub block : List (ℕ × Handler)
  block =
      (0x40, handler (op_block_hash base host msg) 1 20)
      ∷ (0x41, handler (pushes (λ m. host.context.coinbase)) 0 2)
      ∷ (0x42, handler (pushes (λ m. host.context.timestamp)) 0 2)
      ∷ (0x43, handler (pushes (λ m. host.context.number)) 0 2)
      ∷ (0x44, handler (pushes (λ m. host.context.difficulty)) 0 2)
      ∷ (0x45, handler (pushes (λ m. host.context.gas_limit)) 0 2)
      ∷ (0x56, handler (op_jump msg.code) 1 8)
      ∷ (0x57, handler (op_jumpi msg.code) 2 10)
      ∷ (0x5b, handler op_jump_dest 0 1)
      ∷ []

  -- The registrations, PUSH1 to PUSH32, DUP1 to DUP16, SWAP1 to SWAP16 and LOG0 to LOG4 as ranges.
  abbrev pub registrations : List (List (ℕ × Handler))
  registrations =
      arithmetic
      ∷ register_range 32 0x60 1 (op_push msg.code) 3
      ∷ register_range 16 0x80 1 op_dup 3
      ∷ register_range 16 0x90 1 op_swap 3
      ∷ register_range 5 0xa0 0 (op_log base host msg) 375
      ∷ logic
      ∷ calls
      ∷ memory
      ∷ context
      ∷ block
      ∷ []

  unfoldable pub dispatch_table : List (ℕ × Handler)
  dispatch_table = flatten registrations

  -- A round past its opcode: the checks, the instruction, the size of the stack, the next opcode.
  unfoldable pub execute_handler : Handler → Instruction
  execute_handler h m =
      if ltb (length m.stack) h.stack
      then some (exit stack_underflow m)
      else if ltb m.gas h.gas
      then some (exit RunError.out_of_gas m)
      else elim (h.inst (record m { gas = m.gas - h.gas })) [
        | none ↦ none
        | some u ↦
            if ltb stack_size (length u.stack)
            then some (exit stack_overflow u)
            else some (record u { ip = add64 u.ip 1 })
      ]

  -- One round of the loop.
  unfoldable pub round : Instruction
  round m =
      if not (ltb m.ip (length msg.code))
      then some (halt m)
      else elim (lookup (byte_at msg.code m.ip) dispatch_table) [
        | none ↦ some (exit op_code_not_found m)
        | some h ↦ execute_handler h m
      ]

  -- Run on so many rounds; `none` is a panic or a want of rounds.
  unfoldable pub run_rounds : ℕ → Instruction
  run_rounds zero m = if m.stop then some m else none
  run_rounds (suc n) m =
      if m.stop then some m else elim (round m) [ none ↦ none | some u ↦ run_rounds n u ]

  abbrev pub acquired : Txn → Machine
  acquired t = record {
    ip = 0;
    stack = [];
    memory = [];
    last_gas_cost = 0;
    gas = msg.gas;
    stop = false;
    err = none;
    return_data = [];
    ret = [];
    state = t;
  }

  -- EVM.Run of the machine's end.
  unfoldable pub result_of : Machine → ExecutionResult
  result_of m =
      let left : ℕ = elim m.err [ none ↦ m.gas | some e ↦ if is_revert e then m.gas else 0 ] in
      record {
        return_value = m.ret;
        gas_left = left;
        gas_used = sub64 msg.gas left;
        err = m.err;
        address = zero_address;
      }

  unfoldable pub run_evm : ℕ → Txn → Option (ExecutionResult × Txn)
  run_evm rounds t = elim (run_rounds rounds (acquired t)) [
    | none ↦ none
    | some m ↦ some (result_of m, m.state)
  ]
