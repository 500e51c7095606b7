-- ===== src/State/Evm/Safe.antt =====
-- Each instruction on the stack that it is registered for: no panic, and the gas.
pub mod Control
pub mod Hosted
pub mod Calls
use go_plgchain.Base.{
  ℕ, zero, suc, ◌+◌, ◌-◌, ◌*◌, ◌/◌, ◌%◌, ◌≤◌, ◌<◌, ◌≡◌, ◌⊎◌, inl, inr, refl, sym, ap, ◌∙◌, List, [],
  ◌∷◌, ◌++◌, Bool, true, false, ◌&&◌, ◌||◌, not, Option, none, some, length, take, ltb, leb, ◌==◌,
  if◌then◌else◌, if_elim, arith, length-append, Option-cases,
}
use go_plgchain.Base.Bytes.{Bytes, zeros, bytes_of}
use go_plgchain.Base.Word.{u64_mod, add64, sub64}
use go_plgchain.Base.Bytes.{drop}
use go_plgchain.State.Transition.{
  RunError, Contract, op_code_not_found, stack_underflow, invalid_jump, return_data_out_of_bounds,
  execution_reverted,
}
use go_plgchain.State.Evm.{
  EvmForks, Machine, Instruction, halt, exit, push, consume_gas, allocate_memory, get2,
  write_memory, is_uint64, padded, valid_jumpdest,
}
use go_plgchain.State.Evm.Words.{bit_len, exp}
use go_plgchain.State.Evm.Instructions.{
  pushes, op1, op2, op3, pop1, pop2, pop3, since, per_word, number_of, op_exp, op_sign_extension,
  op_mload, op_mstore, op_mstore8, op_sha3, op_pop, op_call_data_load, op_copy, op_return_data_copy,
  jump_to, op_jump, op_jumpi, op_jump_dest, op_push, nth, op_dup, swap, op_swap, op_stop, op_return,
  op_revert,
}
use go_plgchain.State.Evm.Gas.{
  Within, stopped-Within, paid-Within, consume_gas-Within, allocate_memory-Within, less-Within,
  free-Within, burns-Within, length-padded, write_memory-Within, get2-Within, pop1-Within,
  pop2-Within, pop3-Within, more-Within,
}

-- With a stack of some depth the instruction does not panic, and costs.
abbrev pub IsSafe : ℕ → ℕ → Instruction → Type 0
IsSafe depth cost inst =
    (m : Machine) → depth ≤ length m.stack → m.gas < u64_mod → Within cost m.gas (inst m)

pub same-Within : (gas : ℕ) (u : Machine) → u.gas ≤ gas → Within 0 gas (some u)
same-Within gas u h = paid-Within 0 gas u (omega (arith, h))

pub exit-Within : (cost : ℕ) (e : RunError) (m : Machine) → Within cost m.gas (some (exit e m))
exit-Within cost e m = stopped-Within cost m.gas (exit e m) refl (omega arith)

pub pushes-IsSafe : (f : Machine → ℕ) → IsSafe 0 0 (pushes f)
pushes-IsSafe f m p small = same-Within m.gas (push (f m) m) (omega arith)

pub op1-IsSafe : (f : ℕ → ℕ) → IsSafe 1 0 (op1 f)
unfolding op1
op1-IsSafe f m p small = from m.stack p
  where
    from :
        (s : List ℕ)
        → 1 ≤ length s
        → Within 0 m.gas (elim s [ [] ↦ none | a ∷ s' ↦ some (record m { stack = f a ∷ s' }) ])
    from [] q = absurd (omega (arith, q))
    from (a ∷ s) q = same-Within m.gas (record m { stack = f a ∷ s }) (omega arith)

pub op2-IsSafe : (f : ℕ → ℕ → ℕ) → IsSafe 2 0 (op2 f)
unfolding op2
op2-IsSafe f m p small = from m.stack p
  where
    from :
        (s : List ℕ)
        → 2 ≤ length s
        → Within 0 m.gas (elim s [ a ∷ b ∷ s' ↦ some (record m { stack = f a b ∷ s' }) | _ ↦ none ])
    from [] q = absurd (omega (arith, q))
    from (a ∷ []) q = absurd (omega (arith, q))
    from (a ∷ b ∷ s) q = same-Within m.gas (record m { stack = f a b ∷ s }) (omega arith)

pub op3-IsSafe : (f : ℕ → ℕ → ℕ → ℕ) → IsSafe 3 0 (op3 f)
unfolding op3
op3-IsSafe f m p small = from m.stack p
  where
    from :
        (s : List ℕ)
        → 3 ≤ length s
        → Within 0 m.gas
            (elim s [ a ∷ b ∷ z ∷ s' ↦ some (record m { stack = f a b z ∷ s' }) | _ ↦ none ])
    from [] q = absurd (omega (arith, q))
    from (a ∷ []) q = absurd (omega (arith, q))
    from (a ∷ b ∷ []) q = absurd (omega (arith, q))
    from (a ∷ b ∷ z ∷ s) q = same-Within m.gas (record m { stack = f a b z ∷ s }) (omega arith)

pub since-IsSafe :
    (fork : Bool) (depth cost : ℕ) (f : Instruction)
    → IsSafe depth cost f
    → IsSafe depth cost (since fork f)
since-IsSafe fork depth cost f h m p small =
    if_elim (Within cost m.gas) fork (λ _. h m p small) (λ _. exit-Within cost op_code_not_found m)

abbrev op_exp_cost : EvmForks → ℕ → ℕ
op_exp_cost config y = (bit_len 256 y + 7) / 8 * (if config.eip158 then 50 else 10)

pub op_exp-IsSafe : (config : EvmForks) → IsSafe 2 0 (op_exp config)
unfolding op_exp
op_exp-IsSafe config m p small = pop2-Within 0 0 m.gas _ m p (λ x y u q e. rw⁻¹ e (
    free-Within _ u _ (
      same-Within _ (push (exp x y) (record u { gas = u.gas - op_exp_cost config y }))
        (omega arith))))

pub op_sign_extension-IsSafe : (f : ℕ → ℕ → ℕ) → IsSafe 1 0 (op_sign_extension f)
unfolding op_sign_extension
op_sign_extension-IsSafe f m p small =
    pop1-Within 0 0 m.gas _ m p (λ ext u q e. from u ext u.stack e)
  where
    from :
        (u : Machine) (ext : ℕ) (s : List ℕ)
        → u.gas ≡ m.gas
        → Within 0 m.gas
            (elim s [ [] ↦ some u | x ∷ s' ↦ some (record u { stack = f ext x ∷ s' }) ])
    from u ext [] e = same-Within m.gas u (omega (arith, e))
    from u ext (x ∷ s) e = same-Within m.gas (record u { stack = f ext x ∷ s }) (omega (arith, e))

pub op_mload-IsSafe : IsSafe 1 0 op_mload
unfolding op_mload
op_mload-IsSafe m p small = pop1-Within 0 0 m.gas _ m p (λ offset u q e. rw⁻¹ e (
    get2-Within offset 32 0 u _
      (λ bytes v g s. same-Within v.gas (push (number_of 0 bytes) v) (omega arith))))

length-bytes_of : (n v : ℕ) → length (bytes_of n v) ≡ n
length-bytes_of zero v = refl
length-bytes_of (suc n) v =
    omega (arith, length-append (bytes_of n (v / 256)) (v % 256 ∷ []), length-bytes_of n (v / 256))

-- A write of so many bytes to memory that was allocated for them.
store-Within :
    (offset size : ℕ) (bytes : Bytes) (m : Machine)
    → length bytes ≡ size
    → 1 ≤ size
    → Within 0 m.gas (allocate_memory offset size m (write_memory offset bytes))
store-Within offset size bytes m e some_size = allocate_memory-Within offset size 0 m _ (λ u a.
    write_memory-Within offset bytes 0 u.gas u (ground (arith, a.room, e, some_size)) (omega arith))

pub op_mstore-IsSafe : IsSafe 2 0 op_mstore
unfolding op_mstore
op_mstore-IsSafe m p small = pop2-Within 0 0 m.gas _ m p (λ offset val u q e.
    rw⁻¹ e (store-Within offset 32 (bytes_of 32 val) u (length-bytes_of 32 val) (omega arith)))

pub op_mstore8-IsSafe : IsSafe 2 0 op_mstore8
unfolding op_mstore8
op_mstore8-IsSafe m p small =
    pop2-Within 0 0 m.gas _ m p
      (λ offset val u q e. rw⁻¹ e (store-Within offset 1 (val % 256 ∷ []) u refl (omega arith)))

pub op_sha3-IsSafe : (keccak : Bytes → ℕ) → IsSafe 2 0 (op_sha3 keccak)
unfolding op_sha3
op_sha3-IsSafe keccak m p small = pop2-Within 0 0 m.gas _ m p (λ offset size u q e. rw⁻¹ e (
    get2-Within offset size 0 u _ (λ bytes v g s. free-Within (per_word 6 size) v _ (
      same-Within _ (push (keccak bytes) (record v { gas = v.gas - per_word 6 size }))
        (omega arith)))))

pub op_pop-IsSafe : IsSafe 1 0 op_pop
unfolding op_pop
op_pop-IsSafe m p small =
    pop1-Within 0 0 m.gas _ m p (λ a u q e. same-Within m.gas u (omega (arith, e)))

pub op_call_data_load-IsSafe : (input : Bytes) → IsSafe 1 0 (op_call_data_load input)
unfolding op_call_data_load
op_call_data_load-IsSafe input = op1-IsSafe _

-- The copies, once the gas of the words is to be paid.
copy-Within :
    (gas offset size : ℕ) (bytes : Bytes) (u : Machine)
    → length bytes ≡ size
    → (size ≡ 0) ⊎ (offset + size ≤ length u.memory)
    → Within 0 u.gas
        (consume_gas gas u (λ v. if size == 0 then some v else write_memory offset bytes v))
copy-Within gas offset size bytes u e room = free-Within gas u _ (
    if_elim (Within 0 (u.gas - gas)) (size == 0)
      (λ _. same-Within _ (record u { gas = u.gas - gas }) (omega arith))
      (λ f.
        write_memory-Within offset bytes 0 (u.gas - gas) (record u { gas = u.gas - gas })
          (ground (arith, room, e, f)) (omega arith)))

pub op_copy-IsSafe : (input : Bytes) → IsSafe 3 0 (op_copy input)
unfolding op_copy
op_copy-IsSafe input m p small = pop3-Within 0 0 m.gas _ m p (λ mem_offset data_offset size u q e.
    rw⁻¹ e (
      allocate_memory-Within mem_offset size 0 u _ (λ v a.
        copy-Within (per_word 3 size) mem_offset size (padded input size data_offset) v
          (length-padded input size data_offset) a.room)))
