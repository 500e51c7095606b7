-- ===== src/State/Evm/Hosted.antt =====
-- The instructions of instructions.go that ask the host: context, accounts, storage, logs.
use go_plgchain.Base.{
  ℕ, ◌+◌, ◌*◌, ◌%◌, ◌^◌, [], ◌∷◌, Bool, ◌&&◌, ◌||◌, not, none, some, length, take, ltb, leb, ◌==◌,
  if◌then◌else◌,
}
use go_plgchain.Base.Word.{u64_mod}
use go_plgchain.State.Account.{ReadSnapshot}
use go_plgchain.State.Txn.{
  get_balance, get_code, get_code_size, get_code_hash, exist, empty, emit_log,
}
use go_plgchain.State.Storage.{
  StorageForks, StorageStatus, unchanged, added, deleted, modified, modified_again, set_storage,
  get_state,
}
use go_plgchain.Base.Bytes.{drop}
use go_plgchain.State.Transition.{RunError, Contract, selfdestruct, stack_underflow}
use go_plgchain.State.Evm.{
  EvmForks, Host, Machine, Instruction, halt, exit, push, consume_gas, allocate_memory, get2,
  write_memory, padded,
}
use go_plgchain.State.Evm.Instructions.{pushes, since, pop1, pop2, per_word}

-- popAddr keeps the last twenty bytes.
abbrev pub to_address : ℕ → ℕ
to_address x = x % 2 ^ 160

abbrev pub pop_addr : (ℕ → Instruction) → Instruction
pop_addr f = pop1 (λ a. f (to_address a))

-- legacyGasMetering of the forks.
abbrev pub is_legacy : EvmForks → Bool
is_legacy config = not config.istanbul && (config.petersburg || not config.constantinople)

unfoldable pub storage_cost : EvmForks → StorageStatus → ℕ
storage_cost config modified = 5000
storage_cost config added = 20000
storage_cost config deleted = 5000
storage_cost config unchanged =
    if config.istanbul then 800 else if is_legacy config then 5000 else 200
storage_cost config modified_again =
    if config.istanbul then 800 else if is_legacy config then 5000 else 200

module _ (base : ReadSnapshot) (host : Host) (msg : Contract) where
  unfoldable pub op_balance : Instruction
  op_balance = pop_addr (λ addr m.
      consume_gas (if host.config.istanbul then 700 else if host.config.eip150 then 400 else 20) m
        (λ m'. some (push (get_balance base m'.state addr) m')))

  unfoldable pub op_self_balance : Instruction
  op_self_balance = since host.config.istanbul (pushes (λ m. get_balance base m.state msg.address))

  unfoldable pub op_chain_id : Instruction
  op_chain_id = since host.config.istanbul (pushes (λ m. host.context.chain_id))

  unfoldable pub op_sload : Instruction
  op_sload m = elim m.stack [
    | [] ↦ none
    | loc ∷ s ↦
        consume_gas (if host.config.istanbul then 800 else if host.config.eip150 then 200 else 50) m
          (λ m'. some (record m' { stack = get_state base m'.state msg.address loc ∷ s }))
  ]

  -- The store past its guards.
  unfoldable pub store : ℕ → ℕ → Instruction
  store key val m =
      let forks : StorageForks = record {
        constantinople = host.config.constantinople;
        petersburg = host.config.petersburg;
        istanbul = host.config.istanbul;
      } in
      let (status, u) = set_storage base msg.address key val forks m.state in
      consume_gas (storage_cost host.config status) (record m { state = u }) (λ m'. some m')

  unfoldable pub op_sstore : Instruction
  op_sstore m =
      if msg.is_static
      then some (exit RunError.write_protection m)
      else if host.config.istanbul && leb m.gas 2300
      then some (exit RunError.out_of_gas m)
      else pop2 store m

  unfoldable pub op_ext_code_size : Instruction
  op_ext_code_size = pop_addr (λ addr m.
      consume_gas (if host.config.eip150 then 700 else 20) m
        (λ m'. some (push (get_code_size base m'.state addr) m')))

  unfoldable pub op_return_data_size : Instruction
  op_return_data_size = since host.config.byzantium (pushes (λ m. length m.return_data))

  unfoldable pub op_ext_code_hash : Instruction
  op_ext_code_hash = since host.config.constantinople (
      pop_addr (λ addr m. consume_gas (if host.config.istanbul then 700 else 400) m (λ m'.
        some (push (if empty base m'.state addr then 0 else get_code_hash base m'.state addr) m'))))

  unfoldable pub op_ext_code_copy : Instruction
  op_ext_code_copy = pop_addr (λ addr. pop1 (λ mem_offset. pop2 (λ code_offset size m.
      allocate_memory mem_offset size m (λ m1. consume_gas (per_word 3 size) m1 (λ m2.
        consume_gas (if host.config.eip150 then 700 else 20) m2 (λ m3.
          if size == 0
          then some m3
          else write_memory mem_offset (padded (get_code base m3.state addr) size code_offset)
              m3))))))

  -- Of the last 256 blocks.
  unfoldable pub op_block_hash : Instruction
  op_block_hash m = elim m.stack [
    | [] ↦ none
    | num ∷ s ↦
        let h : ℕ =
          if ltb num (2 ^ 63)
            && (ltb host.context.number (num + 257) && ltb num host.context.number)
          then host.get_block_hash num
          else 0 in
        some (record m { stack = h ∷ s })
  ]

  unfoldable pub selfdestruct_cost : ℕ → Machine → ℕ
  selfdestruct_cost addr m =
      if host.config.eip150
      then if host.config.eip158
        then if empty base m.state addr && not (get_balance base m.state msg.address == 0)
          then 30000
          else 5000
        else if exist base m.state addr
        then 5000
        else 30000
      else 0

  unfoldable pub op_self_destruct : Instruction
  op_self_destruct m =
      if msg.is_static
      then some (exit RunError.write_protection m)
      else pop_addr
          (λ addr m'. consume_gas (selfdestruct_cost addr m') m' (λ m''.
            some (halt (record m'' { state = selfdestruct base msg.address addr m''.state }))))
          m

  unfoldable pub op_log : ℕ → Instruction
  op_log n m =
      if msg.is_static
      then some (exit RunError.write_protection m)
      else if ltb (length m.stack) (2 + n)
      then some (exit stack_underflow m)
      else pop2
          (λ start size m1.
            get2 start size (record m1 { stack = drop n m1.stack })
              (λ bytes m2.
                consume_gas (n * 375)
                  (record m2 { state = emit_log msg.address (take n m1.stack) bytes m2.state })
                  (λ m3. consume_gas (size * 8 % u64_mod) m3 (λ m4. some m4))))
          m
