-- ===== src/State/Evm/Runs.antt =====
-- The run of a contract: every instruction of the table is safe, so the loop ends, without a panic.
use go_plgchain.Base.{
  ℕ, zero, suc, ◌+◌, ◌-◌, ◌≤◌, ◌<◌, ◌≡◌, ◌⊎◌, inl, inr, refl, subst, List, [], ◌∷◌, true, not,
  Option, none, some, length, ltb, ◌==◌, if◌then◌else◌, if_elim, arith, All, All-append, Bool-cases,
}
use go_plgchain.Base.Dict.{lookup}
use go_plgchain.Base.Word.{u64_mod, add64}
use go_plgchain.State.Account.{ReadSnapshot}
use go_plgchain.State.Txn.{Txn}
use go_plgchain.State.Transition.{
  RunError, Contract, CallType, create, create2, call_code, delegate_call, static_call,
  op_code_not_found, stack_underflow, stack_overflow,
}
use go_plgchain.State.Evm.{Host, Machine, Instruction, stack_size, halt, exit, byte_at}
use go_plgchain.State.Evm.Words.{
  add, mul, sub, div, sdiv, mod_word, smod, add_mod, mul_mod, and_word, or_word, xor_word, not_word,
  is_zero, eq_word, lt, gt, slt, sgt, byte, sign_extension, shl, shr, sar,
}
use go_plgchain.State.Evm.Instructions.{op2, op_dup, op_swap, op_push}
use go_plgchain.State.Evm.Hosted.{op_log}
use go_plgchain.State.Evm.Table.{
  Handler, handler, register_range, arithmetic, logic, calls, memory, context, block, flatten,
  registrations, dispatch_table, execute_handler, round, run_rounds, acquired, result_of, run_evm,
}
use go_plgchain.State.Evm.Gas.{Within, stopped-Within}
use go_plgchain.State.Evm.Safe.{
  IsSafe, exit-Within, pushes-IsSafe, op1-IsSafe, op2-IsSafe, op3-IsSafe, since-IsSafe,
  op_exp-IsSafe, op_sign_extension-IsSafe, op_mload-IsSafe, op_mstore-IsSafe, op_mstore8-IsSafe,
  op_sha3-IsSafe, op_pop-IsSafe, op_call_data_load-IsSafe, op_copy-IsSafe,
}
use go_plgchain.State.Evm.Safe.Control.{
  op_return_data_copy-IsSafe, op_jump-IsSafe, op_jumpi-IsSafe, op_jump_dest-IsSafe, op_push-IsSafe,
  op_dup-IsSafe, op_swap-IsSafe, op_stop-IsSafe, op_return-IsSafe, op_revert-IsSafe,
}
use go_plgchain.State.Evm.Safe.Hosted.{
  op_balance-IsSafe, op_self_balance-IsSafe, op_chain_id-IsSafe, op_return_data_size-IsSafe,
  op_sload-IsSafe, op_sstore-IsSafe, op_ext_code_size-IsSafe, op_ext_code_hash-IsSafe,
  op_ext_code_copy-IsSafe, op_block_hash-IsSafe, op_self_destruct-IsSafe, op_log-IsSafe,
}
use go_plgchain.State.Evm.Safe.Calls.{IsHost, Returns, op_call-IsSafe, op_create-IsSafe}

-- A handler whose instruction is safe on the stack that is checked, and costs something.
pub record IsRegistered (entry : ℕ × Handler) : Type 0 where
  pub cost : ℕ
  pub some_gas : 1 ≤ entry.1.gas + cost
  pub safe : IsSafe entry.1.stack cost entry.1.inst

lookup-All {ℓ κ} :
    {V : Type ℓ} (P : ℕ × V → Type κ) (k : ℕ) (entries : List (ℕ × V)) (v : V)
    → All P entries
    → lookup k entries ≡ some v
    → (op : ℕ) × P (op, v)
unfolding lookup
lookup-All P k [] v all e = absurd (cc)
lookup-All P k ((j, w) ∷ entries) v all e = elim (Bool-cases (j == k)) [
  | inl f ↦ (j, subst (λ x. P (j, x)) (ground (arith, e, f)) all.0)
  | inr f ↦ lookup-All P k entries v all.1 (ground (arith, e, f))
]

flatten-All {ℓ κ} :
    {A : Type ℓ} (P : A → Type κ) (xss : List (List A)) → All (All P) xss → All P (flatten xss)
flatten-All P [] h = tt
flatten-All P (xs ∷ xss) h = All-append P xs (flatten xss) h.0 (flatten-All P xss h.1)

range-IsRegistered :
    (count op n gas : ℕ) (factory : ℕ → Instruction)
    → 1 ≤ gas
    → ((i : ℕ) → IsSafe 0 0 (factory i))
    → All IsRegistered (register_range count op n factory gas)
range-IsRegistered zero op n gas factory some_gas h = tt
range-IsRegistered (suc count) op n gas factory some_gas h = (
  record { cost = 0; some_gas = omega (arith, some_gas); safe = h n },
  range-IsRegistered count (op + 1) (n + 1) gas factory some_gas h,
)

free :
    {op depth gas : ℕ} {inst : Instruction}
    → 1 ≤ gas
    → IsSafe depth 0 inst
    → IsRegistered (op, handler inst depth gas)
free some_gas h = record { cost = 0; some_gas = omega (arith, some_gas); safe = h }

paying :
    {op depth gas : ℕ} {inst : Instruction}
    → IsSafe depth 1 inst
    → IsRegistered (op, handler inst depth gas)
paying h = record { cost = 1; some_gas = omega arith; safe = h }

infixr 40 ◌&◌
abbrev ◌&◌ {ℓ κ} : {A : Type ℓ} {B : Type κ} → A → B → A × B
a & b = (a, b)

module _ (base : ReadSnapshot) (host : Host) (msg : Contract) (rules : IsHost host) where
  arithmetic-IsRegistered : All IsRegistered (arithmetic base host msg)
  arithmetic-IsRegistered =
      paying op_stop-IsSafe
      & free (omega arith) (op2-IsSafe add)
      & free (omega arith) (op2-IsSafe sub)
      & free (omega arith) (op2-IsSafe mul)
      & free (omega arith) (op2-IsSafe div)
      & free (omega arith) (op2-IsSafe sdiv)
      & free (omega arith) (op2-IsSafe mod_word)
      & free (omega arith) (op2-IsSafe smod)
      & free (omega arith) (op_exp-IsSafe host.config)
      & free (omega arith) (op3-IsSafe add_mod)
      & free (omega arith) (op3-IsSafe mul_mod)
      & tt

  logic-IsRegistered : All IsRegistered (logic base host msg)
  logic-IsRegistered =
      free (omega arith) (op2-IsSafe and_word)
      & free (omega arith) (op2-IsSafe or_word)
      & free (omega arith) (op2-IsSafe xor_word)
      & free (omega arith) (op2-IsSafe byte)
      & free (omega arith) (op1-IsSafe not_word)
      & free (omega arith) (op1-IsSafe is_zero)
      & free (omega arith) (op2-IsSafe eq_word)
      & free (omega arith) (op2-IsSafe lt)
      & free (omega arith) (op2-IsSafe gt)
      & free (omega arith) (op2-IsSafe slt)
      & free (omega arith) (op2-IsSafe sgt)
      & free (omega arith) (op_sign_extension-IsSafe sign_extension)
      & free (omega arith) (since-IsSafe host.config.constantinople 2 0 (op2 shl) (op2-IsSafe shl))
      & free (omega arith) (since-IsSafe host.config.constantinople 2 0 (op2 shr) (op2-IsSafe shr))
      & free (omega arith) (since-IsSafe host.config.constantinople 2 0 (op2 sar) (op2-IsSafe sar))
      & tt

  calls-IsRegistered : All IsRegistered (calls base host msg)
  calls-IsRegistered =
      free (omega arith) (op_create-IsSafe base host msg rules create)
      & free (omega arith) (op_create-IsSafe base host msg rules create2)
      & paying (op_call-IsSafe base host msg rules CallType.call)
      & paying (op_call-IsSafe base host msg rules call_code)
      & paying (op_call-IsSafe base host msg rules delegate_call)
      & paying (op_call-IsSafe base host msg rules static_call)
      & paying (op_revert-IsSafe host.config)
      & paying op_return-IsSafe
      & paying (op_self_destruct-IsSafe base host msg)
      & tt

  memory-IsRegistered : All IsRegistered (memory base host msg)
  memory-IsRegistered =
      free (omega arith) op_mload-IsSafe
      & free (omega arith) op_mstore-IsSafe
      & free (omega arith) op_mstore8-IsSafe
      & paying (op_sload-IsSafe base host msg)
      & paying (op_sstore-IsSafe base host msg)
      & free (omega arith) (op_sha3-IsSafe base.keccak)
      & free (omega arith) op_pop-IsSafe
      & tt

  context-IsRegistered : All IsRegistered (context base host msg)
  context-IsRegistered =
      paying (op_ext_code_hash-IsSafe base host msg)
      & free (omega arith) (pushes-IsSafe (λ m. msg.address))
      & paying (op_balance-IsSafe base host msg)
      & free (omega arith) (op_self_balance-IsSafe base host msg)
      & free (omega arith) (pushes-IsSafe (λ m. host.context.origin))
      & free (omega arith) (pushes-IsSafe (λ m. msg.caller))
      & free (omega arith) (pushes-IsSafe (λ m. msg.value))
      & free (omega arith) (op_call_data_load-IsSafe msg.input)
      & free (omega arith) (pushes-IsSafe (λ m. length msg.input))
      & free (omega arith) (pushes-IsSafe (λ m. length msg.code))
      & paying (op_ext_code_size-IsSafe base host msg)
      & free (omega arith) (pushes-IsSafe (λ m. host.context.gas_price))
      & free (omega arith) (op_return_data_size-IsSafe base host msg)
      & free (omega arith) (op_chain_id-IsSafe base host msg)
      & free (omega arith) (pushes-IsSafe (λ m. m.ip))
      & free (omega arith) (pushes-IsSafe (λ m. length m.memory))
      & free (omega arith) (pushes-IsSafe (λ m. m.gas))
      & paying (op_ext_code_copy-IsSafe base host msg)
      & free (omega arith) (op_copy-IsSafe msg.input)
      & free (omega arith) (op_return_data_copy-IsSafe host.config)
      & free (omega arith) (op_copy-IsSafe msg.code)
      & tt

  block-IsRegistered : All IsRegistered (block base host msg)
  block-IsRegistered =
      free (omega arith) (op_block_hash-IsSafe base host msg)
      & free (omega arith) (pushes-IsSafe (λ m. host.context.coinbase))
      & free (omega arith) (pushes-IsSafe (λ m. host.context.timestamp))
      & free (omega arith) (pushes-IsSafe (λ m. host.context.number))
      & free (omega arith) (pushes-IsSafe (λ m. host.context.difficulty))
      & free (omega arith) (pushes-IsSafe (λ m. host.context.gas_limit))
      & free (omega arith) (op_jump-IsSafe msg.code)
      & free (omega arith) (op_jumpi-IsSafe msg.code)
      & free (omega arith) op_jump_dest-IsSafe
      & tt

  table-IsRegistered : All IsRegistered (dispatch_table base host msg)
  unfolding dispatch_table
  table-IsRegistered = flatten-All IsRegistered (registrations base host msg) (
      arithmetic-IsRegistered
      & range-IsRegistered 32 0x60 1 3 (op_push msg.code) (omega arith) (op_push-IsSafe msg.code)
      & range-IsRegistered 16 0x80 1 3 op_dup (omega arith) op_dup-IsSafe
      & range-IsRegistered 16 0x90 1 3 op_swap (omega arith) op_swap-IsSafe
      & range-IsRegistered 5 0xa0 0 375 (op_log base host msg) (omega arith)
          (op_log-IsSafe base host msg)
      & logic-IsRegistered
      & calls-IsRegistered
      & memory-IsRegistered
      & context-IsRegistered
      & block-IsRegistered
      & tt)

  execute_handler-Within :
      (op : ℕ) (h : Handler) (m : Machine)
      → IsRegistered (op, h)
      → m.gas < u64_mod
      → Within 1 m.gas (execute_handler base host msg h m)
  unfolding execute_handler
  execute_handler-Within op h m good small =
      if_elim (Within 1 m.gas) (ltb (length m.stack) h.stack) (λ _. exit-Within 1 stack_underflow m)
        (λ e.
          if_elim (Within 1 m.gas) (ltb m.gas h.gas) (λ _. exit-Within 1 RunError.out_of_gas m)
            (λ f. ended (h.inst (record m { gas = m.gas - h.gas })) (ground (arith, f)) (
              good.safe (record m { gas = m.gas - h.gas }) (ground (arith, e))
                (omega (arith, small)))))
    where
      ended :
          (o : Option Machine)
          → h.gas ≤ m.gas
          → Within good.cost (m.gas - h.gas) o
          → Within 1 m.gas (elim o [
            | none ↦ none
            | some u ↦
                if ltb stack_size (length u.stack)
                then some (exit stack_overflow u)
                else some (record u { ip = add64 u.ip 1 })
          ])
      ended none enough w = w
      ended (some u) enough (b, w) =
          if_elim (Within 1 m.gas) (ltb stack_size (length u.stack))
            (λ _. stopped-Within 1 m.gas (exit stack_overflow u) refl (omega (arith, b)))
            (λ _. (omega (arith, b), ground (arith, w, enough, good.some_gas)))

  round-Within : (m : Machine) → m.gas < u64_mod → Within 1 m.gas (round base host msg m)
  unfolding round
  round-Within m small =
      if_elim (Within 1 m.gas) (not (ltb m.ip (length msg.code)))
        (λ _. stopped-Within 1 m.gas (halt m) refl (omega arith))
        (λ _. found (lookup (byte_at msg.code m.ip) (dispatch_table base host msg)) refl)
    where
      found :
          (o : Option Handler)
          → lookup (byte_at msg.code m.ip) (dispatch_table base host msg) ≡ o
          → Within 1 m.gas (elim o [
            | none ↦ some (exit op_code_not_found m)
            | some h ↦ execute_handler base host msg h m
          ])
      found none e = exit-Within 1 op_code_not_found m
      found (some h) e =
          let (op, good) =
            lookup-All IsRegistered (byte_at msg.code m.ip) (dispatch_table base host msg) h
              table-IsRegistered e in
          execute_handler-Within op h m good small

  -- The machine has stopped, with no more gas than it had.
  abbrev pub Stops : ℕ → Option Machine → Type 0
  Stops gas none = ⊥
  Stops gas (some u) = (u.stop ≡ true) × (u.gas ≤ gas)

  Stops-mono : (less gas : ℕ) (o : Option Machine) → less ≤ gas → Stops less o → Stops gas o
  Stops-mono less gas none h s = s
  Stops-mono less gas (some u) h (e, b) = (e, omega (arith, h, b))

  after_round :
      (n gas : ℕ) (o : Option Machine)
      → gas < suc n
      → Within 1 gas o
      → ((u : Machine)
          → u.gas ≤ gas
          → (u.stop ≡ true) ⊎ (u.gas < n)
          → Stops u.gas (run_rounds base host msg n u))
      → Stops gas (elim o [ none ↦ none | some u ↦ run_rounds base host msg n u ])
  after_round n gas none enough w next = w
  after_round n gas (some u) enough (b, inl e) next = Stops-mono u.gas gas _ b (next u b (inl e))
  after_round n gas (some u) enough (b, inr p) next =
      Stops-mono u.gas gas _ b (next u b (inr (omega (arith, p, enough))))

  run_rounds-Stops :
      (n : ℕ) (m : Machine)
      → m.gas < u64_mod
      → (m.stop ≡ true) ⊎ (m.gas < n)
      → Stops m.gas (run_rounds base host msg n m)
  unfolding run_rounds
  run_rounds-Stops zero m small (inl e) =
      if_elim (Stops m.gas) m.stop (λ f. (f, omega arith)) (λ f. absurd (ground (arith, e, f)))
  run_rounds-Stops zero m small (inr h) = absurd (omega (arith, h))
  run_rounds-Stops (suc n) m small h =
      if_elim (Stops m.gas) m.stop (λ e. (e, omega arith))
        (λ e.
          after_round n m.gas (round base host msg m) (ground (arith, e, h)) (round-Within m small)
            (λ u b k. run_rounds-Stops n u (omega (arith, small, b)) k))

  -- Any code ends, within as many rounds of the loop as there is gas and one more, for gas below 2^64,
  -- with EIP 150 active and a host that answers each call with no more gas than it was given: no
  -- instruction panics, on the stack and the memory as on arithmetic, and the result has no more gas
  -- than the contract was given.
  pub run_evm-Returns :
      (t : Txn) (rounds : ℕ)
      → msg.gas < u64_mod
      → msg.gas < rounds
      → Returns msg.gas (run_evm base host msg rounds t)
  unfolding run_evm result_of
  run_evm-Returns t rounds small enough =
      ended (run_rounds base host msg rounds (acquired base host msg t))
        (run_rounds-Stops rounds (acquired base host msg t) small (inr enough))
    where
      ended :
          (o : Option Machine)
          → Stops msg.gas o
          → Returns msg.gas
              (elim o [ none ↦ none | some m ↦ some (result_of base host msg m, m.state) ])
      ended none s = s
      ended (some m) (e, b) = ground (arith, b)
