-- ===== src/State/Evm/Safe/Hosted.antt =====
-- The instructions that ask the host for accounts, storage and blocks.
use go_plgchain.Base.{
  ℕ, ◌+◌, ◌-◌, ◌*◌, ◌%◌, ◌^◌, ◌≤◌, ◌≡◌, ◌⊎◌, inl, inr, refl, ◌∙◌, List, [], ◌∷◌, ◌&&◌, none, some,
  length, take, ltb, leb, ◌==◌, if◌then◌else◌, if_elim, arith,
}
use go_plgchain.Base.Word.{u64_mod}
use go_plgchain.Base.Bytes.{drop}
use go_plgchain.State.Account.{ReadSnapshot}
use go_plgchain.State.Txn.{get_balance, get_code, emit_log}
use go_plgchain.State.Storage.{
  StorageForks, StorageStatus, unchanged, added, deleted, modified, modified_again, set_storage,
  get_state,
}
use go_plgchain.State.Transition.{RunError, Contract, stack_underflow}
use go_plgchain.State.Evm.{EvmForks, Host, Machine, Instruction, consume_gas, write_memory, padded}
use go_plgchain.State.Evm.Instructions.{per_word}
use go_plgchain.State.Evm.Hosted.{
  to_address, storage_cost, op_balance, op_self_balance, op_chain_id, op_sload, store, op_sstore,
  op_ext_code_size, op_return_data_size, op_ext_code_hash, op_ext_code_copy, op_block_hash,
  selfdestruct_cost, op_self_destruct, op_log,
}
use go_plgchain.State.Evm.Gas.{
  Within, less-Within, free-Within, burns-Within, consume_gas-Within, allocate_memory-Within,
  write_memory-Within, length-padded, get2-Within, pop1-Within, pop2-Within,
}
use go_plgchain.State.Evm.Safe.{IsSafe, same-Within, exit-Within, pushes-IsSafe, since-IsSafe}

-- Some gas is paid.
pub pays-Within :
    (gas : ℕ) (m : Machine) (rest : Instruction)
    → 1 ≤ gas
    → Within 0 (m.gas - gas) (rest (record m { gas = m.gas - gas }))
    → Within 1 m.gas (consume_gas gas m rest)
pays-Within gas m rest some_gas h = less-Within gas 1 m.gas _ some_gas (burns-Within gas m rest h)

storage_cost_some : (config : EvmForks) (status : StorageStatus) → 1 ≤ storage_cost config status
unfolding storage_cost
storage_cost_some config modified = omega arith
storage_cost_some config added = omega arith
storage_cost_some config deleted = omega arith
storage_cost_some config unchanged = ground arith
storage_cost_some config modified_again = ground arith

module _ (base : ReadSnapshot) (host : Host) (msg : Contract) where
  pub op_balance-IsSafe : IsSafe 1 1 (op_balance base host msg)
  unfolding op_balance
  op_balance-IsSafe m p small =
      pop1-Within 0 1 m.gas _ m p
        (λ a u q e. rw⁻¹ e (pays-Within _ u _ (ground arith) (omega arith, inr (omega arith))))

  pub op_self_balance-IsSafe : IsSafe 0 0 (op_self_balance base host msg)
  unfolding op_self_balance
  op_self_balance-IsSafe =
      since-IsSafe host.config.istanbul 0 0 _
        (pushes-IsSafe (λ m. get_balance base m.state msg.address))

  pub op_chain_id-IsSafe : IsSafe 0 0 (op_chain_id base host msg)
  unfolding op_chain_id
  op_chain_id-IsSafe =
      since-IsSafe host.config.istanbul 0 0 _ (pushes-IsSafe (λ m. host.context.chain_id))

  pub op_return_data_size-IsSafe : IsSafe 0 0 (op_return_data_size base host msg)
  unfolding op_return_data_size
  op_return_data_size-IsSafe =
      since-IsSafe host.config.byzantium 0 0 _ (pushes-IsSafe (λ m. length m.return_data))

  pub op_sload-IsSafe : IsSafe 1 1 (op_sload base host msg)
  unfolding op_sload
  op_sload-IsSafe m p small = from m.stack p
    where
      from :
          (s : List ℕ)
          → 1 ≤ length s
          → Within 1 m.gas (elim s [
            | [] ↦ none
            | loc ∷ s' ↦
                consume_gas
                  (if host.config.istanbul then 800 else if host.config.eip150 then 200 else 50)
                  m
                  (λ m'. some (record m' { stack = get_state base m'.state msg.address loc ∷ s' }))
          ])
      from [] q = absurd (omega (arith, q))
      from (loc ∷ s) q = pays-Within _ m _ (ground arith) (omega arith, inr (omega arith))

  store-Within : (key val : ℕ) (m : Machine) → Within 1 m.gas (store base host msg key val m)
  unfolding store
  store-Within key val m =
      let forks : StorageForks = record {
        constantinople = host.config.constantinople;
        petersburg = host.config.petersburg;
        istanbul = host.config.istanbul;
      } in
      let stored = set_storage base msg.address key val forks m.state in
      pays-Within (storage_cost host.config stored.0) (record m { state = stored.1 })
        (λ m'. some m') (storage_cost_some host.config stored.0) (omega arith, inr (omega arith))

  pub op_sstore-IsSafe : IsSafe 2 1 (op_sstore base host msg)
  unfolding op_sstore
  op_sstore-IsSafe m p small =
      if_elim (Within 1 m.gas) msg.is_static (λ _. exit-Within 1 RunError.write_protection m)
        (λ _.
          if_elim (Within 1 m.gas) (host.config.istanbul && leb m.gas 2300)
            (λ _. exit-Within 1 RunError.out_of_gas m)
            (λ _. pop2-Within 0 1 m.gas _ m p (λ key val u q e. rw⁻¹ e (store-Within key val u))))

  pub op_ext_code_size-IsSafe : IsSafe 1 1 (op_ext_code_size base host msg)
  unfolding op_ext_code_size
  op_ext_code_size-IsSafe m p small =
      pop1-Within 0 1 m.gas _ m p
        (λ a u q e. rw⁻¹ e (pays-Within _ u _ (ground arith) (omega arith, inr (omega arith))))

  pub op_ext_code_hash-IsSafe : IsSafe 1 1 (op_ext_code_hash base host msg)
  unfolding op_ext_code_hash
  op_ext_code_hash-IsSafe = since-IsSafe host.config.constantinople 1 1 _ (λ m p small.
      pop1-Within 0 1 m.gas _ m p
        (λ a u q e. rw⁻¹ e (pays-Within _ u _ (ground arith) (omega arith, inr (omega arith)))))

  code_copy-Within :
      (mem_offset code_offset size addr : ℕ) (v : Machine)
      → (size ≡ 0) ⊎ (mem_offset + size ≤ length v.memory)
      → Within 1 v.gas (
          consume_gas (if host.config.eip150 then 700 else 20) v (λ w.
            if size == 0
            then some w
            else write_memory mem_offset (padded (get_code base w.state addr) size code_offset) w))
  code_copy-Within mem_offset code_offset size addr v room =
      let gas : ℕ = if host.config.eip150 then 700 else 20 in
      let w : Machine = record v { gas = v.gas - gas } in
      pays-Within gas v _ (ground arith) (
        if_elim (Within 0 (v.gas - gas)) (size == 0)
          (λ _. same-Within (v.gas - gas) w (omega arith))
          (λ f.
            write_memory-Within mem_offset (padded (get_code base v.state addr) size code_offset) 0
              (v.gas - gas) w
              (ground (arith, length-padded (get_code base v.state addr) size code_offset, room, f))
              (omega arith)))

  pub op_ext_code_copy-IsSafe : IsSafe 4 1 (op_ext_code_copy base host msg)
  unfolding op_ext_code_copy
  op_ext_code_copy-IsSafe m p small = pop1-Within 3 1 m.gas _ m p (λ addr u0 p0 e0.
      pop1-Within 2 1 m.gas _ u0 p0 (λ mem_offset u1 p1 e1.
        pop2-Within 0 1 m.gas _ u1 p1 (λ code_offset size u p2 e2. rw⁻¹ (e2 ∙ e1 ∙ e0) (
          allocate_memory-Within mem_offset size 1 u _ (λ v a.
            consume_gas-Within (per_word 3 size) 1 v _ (λ enough.
              less-Within 1 (1 - per_word 3 size) (v.gas - per_word 3 size) _ (omega arith) (
                code_copy-Within mem_offset code_offset size (to_address addr)
                  (record v { gas = v.gas - per_word 3 size }) a.room)))))))

  pub op_block_hash-IsSafe : IsSafe 1 0 (op_block_hash base host msg)
  unfolding op_block_hash
  op_block_hash-IsSafe m p small = from m.stack p
    where
      from :
          (s : List ℕ)
          → 1 ≤ length s
          → Within 0 m.gas (elim s [
            | [] ↦ none
            | num ∷ s' ↦
                let h : ℕ =
                  if ltb num (2 ^ 63)
                    && (ltb host.context.number (num + 257) && ltb num host.context.number)
                  then host.get_block_hash num
                  else 0 in
                some (record m { stack = h ∷ s' })
          ])
      from [] q = absurd (omega (arith, q))
      from (num ∷ s) q = (omega arith, inr (omega arith))

  pub op_self_destruct-IsSafe : IsSafe 1 1 (op_self_destruct base host msg)
  unfolding op_self_destruct
  op_self_destruct-IsSafe m p small =
      if_elim (Within 1 m.gas) msg.is_static (λ _. exit-Within 1 RunError.write_protection m)
        (λ _. pop1-Within 0 1 m.gas _ m p (λ a u q e. rw⁻¹ e (
          consume_gas-Within (selfdestruct_cost base host msg (to_address a) u) 1 u _
            (λ enough. (omega arith, inl refl)))))

  pub op_log-IsSafe : (n : ℕ) → IsSafe 0 0 (op_log base host msg n)
  unfolding op_log
  op_log-IsSafe n m p small =
      if_elim (Within 0 m.gas) msg.is_static (λ _. exit-Within 0 RunError.write_protection m)
        (λ _.
          if_elim (Within 0 m.gas) (ltb (length m.stack) (2 + n))
            (λ _. exit-Within 0 stack_underflow m)
            (λ f. pop2-Within n 0 m.gas _ m (ground (arith, f)) (λ start size u q e. rw⁻¹ e (
              get2-Within start size 0 (record u { stack = drop n u.stack }) _
                (λ bytes v g s.
                  free-Within (n * 375)
                    (record v { state = emit_log msg.address (take n u.stack) bytes v.state }) _
                    (free-Within (size * 8 % u64_mod) _ _ (omega arith, inr (omega arith))))))))
