-- ===== src/State/Evm/Safe/Calls.antt =====
-- Calls and creations, for a host that answers with no more gas than it was given.
use go_plgchain.Base.{
  ℕ, ◌+◌, ◌-◌, ◌/◌, ◌≤◌, ◌<◌, ◌≡◌, ◌⊎◌, inr, refl, ◌∙◌, [], ◌∷◌, Bool, true, false, ◌&&◌, ◌||◌, not,
  Option, none, some, length, take, ltb, ◌==◌, if◌then◌else◌, if_elim, arith,
}
use go_plgchain.Base.Bytes.{Bytes}
use go_plgchain.Base.Word.{u64_mod, add64}
use go_plgchain.State.Account.{ReadSnapshot}
use go_plgchain.State.Txn.{Txn, get_balance}
use go_plgchain.State.Transition.{
  RunError, Contract, CallType, ExecutionResult, failed, is_call, op_code_not_found,
}
use go_plgchain.State.Evm.{
  Host, Machine, Instruction, exit, push, consume_gas, allocate_memory, get2, write_memory,
}
use go_plgchain.State.Evm.Instructions.{per_word, pop2, nth}
use go_plgchain.State.Evm.Calls.{
  CallArguments, has_value, is_delegate, is_static_call, is_create2, pop_arguments, moves_value,
  reverted, ran_out_for_code, call_cost, handed_gas, call_contract, finish_call, run_call, pay_call,
  op_call, run_create, pay_create, build_create, op_create,
}
use go_plgchain.State.Evm.Gas.{
  Within, free-Within, allocate_memory-Within, length-take_le, get2-Within, pop1-Within,
  pop2-Within, pop3-Within,
}
use go_plgchain.State.Evm.Safe.{IsSafe, same-Within, exit-Within}

-- A host's answer to a call with so much gas.
abbrev pub Returns : ℕ → Option (ExecutionResult × Txn) → Type 0
Returns gas none = ⊥
Returns gas (some (r, u)) = r.gas_left ≤ gas

-- What is asked of the host: it answers, and EIP 150 is active.
pub record IsHost (host : Host) : Type 0 where
  pub eip150 : host.config.eip150 ≡ true
  pub callx : (c : Contract) (t : Txn) → c.gas < u64_mod → Returns c.gas (host.callx c t)

-- What is left after gas was consumed is accounted for as a whole.
consume_whole :
    (gas : ℕ) (m : Machine) (rest : Instruction)
    → (gas ≤ m.gas → Within 1 m.gas (rest (record m { gas = m.gas - gas })))
    → Within 1 m.gas (consume_gas gas m rest)
unfolding consume_gas
consume_whole gas m rest h =
    if_elim (Within 1 m.gas) (ltb m.gas gas) (λ _. exit-Within 1 RunError.out_of_gas m)
      (λ e. h (ground (arith, e)))

module _ (base : ReadSnapshot) (host : Host) (msg : Contract) where
  finish_call-Within :
      (args : CallArguments) (result : ExecutionResult) (m : Machine) (gas : ℕ)
      → (args.ret_size ≡ 0) ⊎ (args.ret_offset + args.ret_size ≤ length m.memory)
      → m.gas + result.gas_left + 1 ≤ gas
      → gas < u64_mod
      → Within 1 gas (finish_call base host msg args result m)
  unfolding finish_call write_memory
  finish_call-Within args result m gas room h small =
      let done : Machine = push (if failed result then 0 else 1) m in
      let bytes : Bytes = take args.ret_size result.return_value in
      if_elim
        (λ (o : Option Machine). Within 1 gas (elim o [
          | none ↦ none
          | some m' ↦
              some (record m' {
                gas = add64 m'.gas result.gas_left;
                return_data = result.return_value;
              })
        ]))
        ((not (failed result) || reverted result)
          && (not (length result.return_value == 0) && ltb 0 args.ret_size))
        (λ e.
          let fits : ltb (length m.memory) (args.ret_offset + length bytes) ≡ false =
            ground (arith, e, room, length-take_le args.ret_size result.return_value) in
          rw fits (omega (arith, h, small), inr (omega (arith, h, small))))
        (λ _. (omega (arith, h, small), inr (omega (arith, h, small))))

  module _ (rules : IsHost host) where
    run_call-Within :
        (args : CallArguments) (contract : Contract) (m : Machine) (gas : ℕ)
        → (args.ret_size ≡ 0) ⊎ (args.ret_offset + args.ret_size ≤ length m.memory)
        → m.gas + contract.gas + 1 ≤ gas
        → gas < u64_mod
        → Within 1 gas (run_call base host msg args contract m)
    unfolding run_call
    run_call-Within args contract m gas room h small =
        if_elim (Within 1 gas)
          (moves_value args.value && ltb (get_balance base m.state msg.address) contract.value)
          (λ _. (omega (arith, h, small), inr (omega (arith, h, small))))
          (λ _.
            answered (host.callx contract m.state)
              (rules.callx contract m.state (omega (arith, h, small))))
      where
        answered :
            (o : Option (ExecutionResult × Txn))
            → Returns contract.gas o
            → Within 1 gas (elim o [
              | none ↦ none
              | some (result, u) ↦ finish_call base host msg args result (record m { state = u })
            ])
        answered none r = r
        answered (some (result, u)) r =
            finish_call-Within args result (record m { state = u }) gas room (omega (arith, h, r))
              small

    -- What is handed on and what it costs are together no more than the gas, without a wrap-around.
    handed_gas_lem :
        (call_type : CallType) (args : CallArguments) (m : Machine) (gas : ℕ)
        → m.gas < u64_mod
        → handed_gas base host msg args m.gas (call_cost base host msg call_type args m.state)
          ≡ some gas
        → add64 (call_cost base host msg call_type args m.state) gas ≤ m.gas
        → (call_cost base host msg call_type args m.state + gas ≤ m.gas)
          × (1 + (if moves_value args.value then 2300 else 0)
              ≤ call_cost base host msg call_type args m.state)
    unfolding handed_gas call_cost
    handed_gas_lem call_type args m gas small h paid = ground (arith, rules.eip150, small, h, paid)

    given_lem :
        (call_type : CallType) (args : CallArguments) (input : Bytes) (m : Machine) (gas cost : ℕ)
        → cost + gas ≤ m.gas
        → 1 + (if moves_value args.value then 2300 else 0) ≤ cost
        → m.gas < u64_mod
        → m.gas
            - add64 cost gas
            + (call_contract base host msg call_type args
                (if moves_value args.value then add64 gas 2300 else gas)
                input
                m.state).gas
            + 1
          ≤ m.gas
    unfolding call_contract
    given_lem call_type args input m gas cost most stipend small =
        ground (arith, most, stipend, small)

    pay_call-Within :
        (call_type : CallType) (args : CallArguments) (input : Bytes) (m : Machine)
        → (args.ret_size ≡ 0) ⊎ (args.ret_offset + args.ret_size ≤ length m.memory)
        → m.gas < u64_mod
        → Within 1 m.gas (pay_call base host msg call_type args input m)
    unfolding pay_call
    pay_call-Within call_type args input m room small =
        paid (handed_gas base host msg args m.gas (call_cost base host msg call_type args m.state))
          refl
      where
        paid :
            (o : Option ℕ)
            → handed_gas base host msg args m.gas (call_cost base host msg call_type args m.state)
              ≡ o
            → Within 1 m.gas (elim o [
              | none ↦ some (exit RunError.out_of_gas m)
              | some gas ↦
                  consume_gas (add64 (call_cost base host msg call_type args m.state) gas) m (λ m'.
                    let given : ℕ = if moves_value args.value then add64 gas 2300 else gas in
                    run_call base host msg args
                      (call_contract base host msg call_type args given input m'.state)
                      m')
            ])
        paid none e = exit-Within 1 RunError.out_of_gas m
        paid (some gas) e =
            consume_whole (add64 (call_cost base host msg call_type args m.state) gas) m _
              (λ enough.
                let (most, stipend) = handed_gas_lem call_type args m gas small e enough in
                run_call-Within args _
                  (record m {
                    gas = m.gas - add64 (call_cost base host msg call_type args m.state) gas;
                  })
                  m.gas room
                  (given_lem call_type args input m gas
                    (call_cost base host msg call_type args m.state) most stipend small)
                  small)

    call-Within :
        (call_type : CallType) (args : CallArguments) (m : Machine)
        → m.gas < u64_mod
        → Within 1 m.gas (
            get2 args.in_offset args.in_size m (λ input v.
              allocate_memory args.ret_offset args.ret_size v
                (pay_call base host msg call_type args input)))
    call-Within call_type args m small =
        get2-Within args.in_offset args.in_size 1 m _ (λ input v g s.
          allocate_memory-Within args.ret_offset args.ret_size 1 v _
            (λ w a. pay_call-Within call_type args input w a.room (omega (arith, small, g, a.gas))))

    pop4-Within :
        (gas : ℕ) (f : ℕ → ℕ → ℕ → ℕ → Instruction) (m : Machine)
        → 4 ≤ length m.stack
        → ((a b x y : ℕ) (u : Machine) → u.gas ≡ m.gas → Within 1 gas (f a b x y u))
        → Within 1 gas (pop2 (λ a b. pop2 (f a b)) m)
    pop4-Within gas f m p next =
        pop2-Within 2 1 gas _ m p
          (λ a b u q e. pop2-Within 0 1 gas (f a b) u q (λ x y v r g. next a b x y v (g ∙ e)))

    -- The words of a call are there, and the gas is the same after their pops.
    pop_arguments-Within :
        (call_type : CallType) (f : CallArguments → Instruction) (m : Machine)
        → (if has_value call_type then 7 else 6) ≤ length m.stack
        → ((args : CallArguments) (u : Machine) → u.gas ≡ m.gas → Within 1 m.gas (f args u))
        → Within 1 m.gas (pop_arguments call_type f m)
    unfolding pop_arguments
    pop_arguments-Within call_type f m p next =
        pop2-Within ((if has_value call_type then 7 else 6) - 2) 1 m.gas _ m (ground (arith, p))
          (λ gas addr u q e.
            if_elim (λ (i : Instruction). Within 1 m.gas (i u)) (has_value call_type)
              (λ h.
                pop1-Within 4 1 m.gas _ u (ground (arith, q, h))
                  (λ value v r g. pop4-Within m.gas _ v r (λ a b x y w k. next _ w (k ∙ g ∙ e))))
              (λ h. pop4-Within m.gas _ u (ground (arith, q, h)) (λ a b x y w k. next _ w (k ∙ e))))

    pub op_call-IsSafe :
        (call_type : CallType)
        → IsSafe (if has_value call_type then 7 else 6) 1 (op_call base host msg call_type)
    unfolding op_call
    op_call-IsSafe call_type m0 p small =
        let m : Machine = record m0 { return_data = [] } in
        if_elim (Within 1 m0.gas)
          (is_call call_type && (msg.is_static && not (nth m0.stack 2 == 0)))
          (λ _. exit-Within 1 RunError.write_protection m)
          (λ _.
            if_elim (Within 1 m0.gas) (is_delegate call_type && not host.config.homestead)
              (λ _. exit-Within 1 op_code_not_found m)
              (λ _.
                if_elim (Within 1 m0.gas) (is_static_call call_type && not host.config.byzantium)
                  (λ _. exit-Within 1 op_code_not_found m)
                  (λ _.
                    pop_arguments-Within call_type _ m p (λ args u e.
                      rw⁻¹ e (call-Within call_type args u (omega (arith, e, small)))))))

    run_create-Within :
        (two : Bool) (address : ℕ) (contract : Contract) (m : Machine) (gas : ℕ)
        → m.gas + contract.gas ≤ gas
        → gas < u64_mod
        → Within 0 gas (run_create base host msg two address contract m)
    unfolding run_create
    run_create-Within two address contract m gas h small =
        answered (host.callx contract m.state)
          (rules.callx contract m.state (omega (arith, h, small)))
      where
        answered :
            (o : Option (ExecutionResult × Txn))
            → Returns contract.gas o
            → Within 0 gas (elim o [
              | none ↦ none
              | some (result, u) ↦
                  let v : ℕ =
                    if not two && host.config.homestead && ran_out_for_code result
                    then 0
                    else if failed result && not (ran_out_for_code result)
                    then 0
                    else address in
                  some (record m {
                    stack = v ∷ m.stack;
                    gas = add64 m.gas result.gas_left;
                    return_data = if reverted result then result.return_value else m.return_data;
                    state = u;
                  })
            ])
        answered none r = r
        answered (some (result, u)) r =
            (omega (arith, h, small, r), inr (omega (arith, h, small, r)))

    pay_create-Within :
        (two : Bool) (value salt : ℕ) (input : Bytes) (m : Machine)
        → m.gas < u64_mod
        → Within 0 m.gas (pay_create base host msg two value salt input m)
    unfolding pay_create consume_gas
    pay_create-Within two value salt input m small =
        let gas : ℕ = if host.config.eip150 || two then m.gas - m.gas / 64 else m.gas in
        if_elim (Within 0 m.gas) (ltb m.gas gas) (λ _. exit-Within 0 RunError.out_of_gas m)
          (λ e.
            run_create-Within two _ _ (record m { gas = m.gas - gas }) m.gas (ground (arith, e))
              small)

    build_create-Within :
        (two : Bool) (value offset size salt : ℕ) (m : Machine)
        → m.gas < u64_mod
        → Within 0 m.gas (build_create base host msg two value offset size salt m)
    unfolding build_create
    build_create-Within two value offset size salt m small =
        get2-Within offset size 0 m _ (λ input v g s.
          let bound : v.gas < u64_mod = omega (arith, g, small) in
          if_elim (Within 0 v.gas)
            (not (value == 0) && ltb (get_balance base v.state msg.address) value)
            (λ _. same-Within v.gas (push 0 v) (omega arith))
            (λ _.
              if_elim (Within 0 v.gas) two
                (λ _. free-Within (per_word 6 size) v _ (
                  pay_create-Within two value salt input
                    (record v { gas = v.gas - per_word 6 size }) (omega (arith, bound))))
                (λ _. pay_create-Within two value salt input v bound)))

    pub op_create-IsSafe :
        (call_type : CallType)
        → IsSafe (if is_create2 call_type then 4 else 3) 0 (op_create base host msg call_type)
    unfolding op_create
    op_create-IsSafe call_type m p small =
        if_elim (Within 0 m.gas) msg.is_static (λ _. exit-Within 0 RunError.write_protection m)
          (λ _.
            if_elim (Within 0 m.gas) (is_create2 call_type && not host.config.constantinople)
              (λ _. exit-Within 0 op_code_not_found m)
              (λ _.
                pop3-Within ((if is_create2 call_type then 4 else 3) - 3) 0 m.gas _
                  (record m { return_data = [] }) (ground (arith, p))
                  (λ value offset size u q e.
                    if_elim (λ (i : Instruction). Within 0 m.gas (i u)) (is_create2 call_type)
                      (λ h. pop1-Within 0 0 m.gas _ u (ground (arith, q, h)) (λ salt v r g.
                        rw⁻¹ (g ∙ e) (
                          build_create-Within true value offset size salt v
                            (omega (arith, g, e, small)))))
                      (λ _. rw⁻¹ e (
                        build_create-Within false value offset size 0 u
                          (omega (arith, e, small)))))))
