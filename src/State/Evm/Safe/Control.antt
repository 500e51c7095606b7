-- ===== src/State/Evm/Safe/Control.antt =====
-- The instructions that copy return data, jump, push, duplicate, swap and end a run.
use go_plgchain.Base.{
  ℕ, zero, suc, ◌+◌, ◌-◌, ◌%◌, ◌≤◌, ◌≡◌, ◌⊎◌, inr, refl, [], ◌∷◌, false, not, some, length, take,
  ltb, ◌==◌, if◌then◌else◌, if_elim, arith,
}
use go_plgchain.Base.Bytes.{Bytes}
use go_plgchain.Base.Word.{u64_mod}
use go_plgchain.Base.Bytes.{drop}
use go_plgchain.Base.Bytes.{length-drop}
use go_plgchain.State.Transition.{
  stack_underflow, invalid_jump, return_data_out_of_bounds, execution_reverted,
}
use go_plgchain.State.Evm.{
  EvmForks, Machine, halt, exit, push, consume_gas, write_memory, is_uint64, valid_jumpdest,
}
use go_plgchain.State.Evm.Instructions.{
  per_word, op_return_data_copy, jump_to, op_jump, op_jumpi, op_jump_dest, op_push, nth, op_dup,
  swap, op_swap, op_stop, op_return, op_revert,
}
use go_plgchain.State.Evm.Gas.{
  Within, stopped-Within, free-Within, allocate_memory-Within, write_memory-Within, get2-Within,
  pop1-Within, pop2-Within, pop3-Within,
}
use go_plgchain.State.Evm.Safe.{IsSafe, same-Within, exit-Within, since-IsSafe}

length-take : (n : ℕ) (bytes : Bytes) → n ≤ length bytes → length (take n bytes) ≡ n
length-take zero bytes h = refl
length-take (suc n) [] h = absurd (omega (arith, h))
length-take (suc n) (b ∷ bytes) h = omega (arith, length-take n bytes (omega (arith, h)))

-- The copy of return data once memory is there.
return_copy-Within :
    (mem_offset data_offset size : ℕ) (v : Machine)
    → (size ≡ 0) ⊎ (mem_offset + size ≤ length v.memory)
    → size == 0 ≡ false
    → Within 0 v.gas (
        consume_gas (per_word 3 size) v (λ w.
          if not (is_uint64 (data_offset + size))
          then some (exit return_data_out_of_bounds w)
          else if ltb (length w.return_data) (data_offset + size)
          then some (exit return_data_out_of_bounds w)
          else write_memory mem_offset (take size (drop data_offset w.return_data)) w))
return_copy-Within mem_offset data_offset size v room some_size =
    let gas : ℕ = per_word 3 size in
    let w : Machine = record v { gas = v.gas - gas } in
    let bytes : Bytes = drop data_offset v.return_data in
    free-Within gas v _ (
      if_elim (Within 0 (v.gas - gas)) (not (is_uint64 (data_offset + size)))
        (λ _. exit-Within 0 return_data_out_of_bounds w)
        (λ _.
          if_elim (Within 0 (v.gas - gas)) (ltb (length v.return_data) (data_offset + size))
            (λ _. exit-Within 0 return_data_out_of_bounds w)
            (λ e.
              let enough : size ≤ length bytes =
                ground (arith, e, length-drop data_offset v.return_data) in
              let long : length (take size bytes) ≡ size = length-take size bytes enough in
              write_memory-Within mem_offset (take size bytes) 0 (v.gas - gas) w
                (ground (arith, long, room, some_size)) (omega arith))))

pub op_return_data_copy-IsSafe : (config : EvmForks) → IsSafe 3 0 (op_return_data_copy config)
unfolding op_return_data_copy
op_return_data_copy-IsSafe config = since-IsSafe config.byzantium 3 0 _ (λ m p small.
    pop3-Within 0 0 m.gas _ m p (λ mem_offset data_offset size u q e. rw⁻¹ e (
      if_elim (Within 0 u.gas) (not (is_uint64 data_offset))
        (λ _. exit-Within 0 return_data_out_of_bounds u)
        (λ _.
          if_elim (Within 0 u.gas) (size == 0) (λ _. same-Within u.gas u (omega arith))
            (λ f.
              allocate_memory-Within mem_offset size 0 u _
                (λ v a. return_copy-Within mem_offset data_offset size v a.room f))))))

jump_to-Within : (code : Bytes) (dest : ℕ) (m : Machine) → Within 0 m.gas (jump_to code dest m)
jump_to-Within code dest m =
    if_elim (Within 0 m.gas) (valid_jumpdest code dest)
      (λ _. same-Within m.gas (record m { ip = (dest + u64_mod - 1) % u64_mod }) (omega arith))
      (λ _. exit-Within 0 invalid_jump m)

pub op_jump-IsSafe : (code : Bytes) → IsSafe 1 0 (op_jump code)
unfolding op_jump
op_jump-IsSafe code m p small =
    pop1-Within 0 0 m.gas _ m p (λ dest u q e. rw⁻¹ e (jump_to-Within code dest u))

pub op_jumpi-IsSafe : (code : Bytes) → IsSafe 2 0 (op_jumpi code)
unfolding op_jumpi
op_jumpi-IsSafe code m p small = pop2-Within 0 0 m.gas _ m p (λ dest cond u q e. rw⁻¹ e (
    if_elim (Within 0 u.gas) (cond == 0) (λ _. same-Within u.gas u (omega arith))
      (λ _. jump_to-Within code dest u)))

pub op_jump_dest-IsSafe : IsSafe 0 0 op_jump_dest
unfolding op_jump_dest
op_jump_dest-IsSafe m p small = same-Within m.gas m (omega arith)

pub op_push-IsSafe : (code : Bytes) (n : ℕ) → IsSafe 0 0 (op_push code n)
unfolding op_push
op_push-IsSafe code n m p small = (omega arith, inr (omega arith))

pub op_dup-IsSafe : (n : ℕ) → IsSafe 0 0 (op_dup n)
unfolding op_dup
op_dup-IsSafe n m p small =
    if_elim (Within 0 m.gas) (ltb (length m.stack) n) (λ _. exit-Within 0 stack_underflow m)
      (λ _. same-Within m.gas (push (nth m.stack (n - 1)) m) (omega arith))

pub op_swap-IsSafe : (n : ℕ) → IsSafe 0 0 (op_swap n)
unfolding op_swap
op_swap-IsSafe n m p small =
    if_elim (Within 0 m.gas) (ltb (length m.stack) (n + 1)) (λ _. exit-Within 0 stack_underflow m)
      (λ _. same-Within m.gas (record m { stack = swap n m.stack }) (omega arith))

pub op_stop-IsSafe : IsSafe 0 1 op_stop
unfolding op_stop
op_stop-IsSafe m p small = stopped-Within 1 m.gas (halt m) refl (omega arith)

pub op_return-IsSafe : IsSafe 2 1 op_return
unfolding op_return
op_return-IsSafe m p small = pop2-Within 0 1 m.gas _ m p (λ offset size u q e. rw⁻¹ e (
    get2-Within offset size 1 u _
      (λ bytes v g s. stopped-Within 1 v.gas (halt (record v { ret = bytes })) refl (omega arith))))

pub op_revert-IsSafe : (config : EvmForks) → IsSafe 2 1 (op_revert config)
unfolding op_revert
op_revert-IsSafe config = since-IsSafe config.byzantium 2 1 _ (λ m p small.
    pop2-Within 0 1 m.gas _ m p (λ offset size u q e. rw⁻¹ e (
      get2-Within offset size 1 u _ (λ bytes v g s.
        stopped-Within 1 v.gas (exit execution_reverted (record v { ret = bytes })) refl
          (omega arith)))))
