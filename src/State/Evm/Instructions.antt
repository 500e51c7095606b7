-- ===== src/State/Evm/Instructions.antt =====
-- The instructions of instructions.go on the stack, the memory and the code alone.
use go_plgchain.Base.{
  ℕ, zero, suc, ◌+◌, ◌-◌, ◌*◌, ◌/◌, ◌%◌, List, [], ◌∷◌, ◌++◌, Bool, not, none, some, length, take,
  ltb, ◌==◌, if◌then◌else◌,
}
use go_plgchain.Base.Bytes.{Bytes, zeros, bytes_of}
use go_plgchain.Base.Word.{u64_mod, add64}
use go_plgchain.Base.Bytes.{drop}
use go_plgchain.State.Transition.{
  op_code_not_found, stack_underflow, invalid_jump, return_data_out_of_bounds, execution_reverted,
}
use go_plgchain.State.Evm.{
  EvmForks, Machine, Instruction, halt, exit, push, consume_gas, allocate_memory, get2,
  write_memory, is_uint64, padded, valid_jumpdest,
}
use go_plgchain.State.Evm.Words.{bit_len, exp}

-- What an instruction makes of the words that it pops. Too few of them are a nil dereference.
abbrev pub pushes : (Machine → ℕ) → Instruction
pushes f m = some (push (f m) m)

unfoldable pub op1 : (ℕ → ℕ) → Instruction
op1 f m = elim m.stack [ [] ↦ none | a ∷ s ↦ some (record m { stack = f a ∷ s }) ]

unfoldable pub op2 : (ℕ → ℕ → ℕ) → Instruction
op2 f m = elim m.stack [ a ∷ b ∷ s ↦ some (record m { stack = f a b ∷ s }) | _ ↦ none ]

unfoldable pub op3 : (ℕ → ℕ → ℕ → ℕ) → Instruction
op3 f m = elim m.stack [ a ∷ b ∷ z ∷ s ↦ some (record m { stack = f a b z ∷ s }) | _ ↦ none ]

unfoldable pub pop1 : (ℕ → Instruction) → Instruction
pop1 f m = elim m.stack [ [] ↦ none | a ∷ s ↦ f a (record m { stack = s }) ]

unfoldable pub pop2 : (ℕ → ℕ → Instruction) → Instruction
pop2 f = pop1 (λ a. pop1 (f a))

unfoldable pub pop3 : (ℕ → ℕ → ℕ → Instruction) → Instruction
pop3 f = pop1 (λ a. pop2 (f a))

-- An instruction that a fork brought.
abbrev pub since : Bool → Instruction → Instruction
since fork f m = if fork then f m else some (exit op_code_not_found m)

-- The gas for each word of so many bytes.
abbrev pub per_word : ℕ → ℕ → ℕ
per_word gas size = add64 size 31 / 32 * gas

-- The big-endian number of bytes.
unfoldable pub number_of : ℕ → Bytes → ℕ
number_of acc [] = acc
number_of acc (b ∷ bytes) = number_of (acc * 256 + b) bytes

unfoldable pub op_exp : EvmForks → Instruction
op_exp config = pop2 (λ x y m.
    consume_gas ((bit_len 256 y + 7) / 8 * (if config.eip158 then 50 else 10)) m
      (λ m'. some (push (exp x y) m')))

-- Registered for a stack of one word: with one word it leaves none.
unfoldable pub op_sign_extension : (ℕ → ℕ → ℕ) → Instruction
op_sign_extension f =
    pop1 (λ ext m. elim m.stack [ [] ↦ some m | x ∷ s ↦ some (record m { stack = f ext x ∷ s }) ])

unfoldable pub op_mload : Instruction
op_mload = pop1 (λ offset m. get2 offset 32 m (λ bytes m'. some (push (number_of 0 bytes) m')))

unfoldable pub op_mstore : Instruction
op_mstore =
    pop2 (λ offset val m. allocate_memory offset 32 m (write_memory offset (bytes_of 32 val)))

unfoldable pub op_mstore8 : Instruction
op_mstore8 =
    pop2 (λ offset val m. allocate_memory offset 1 m (write_memory offset (val % 256 ∷ [])))

unfoldable pub op_sha3 : (Bytes → ℕ) → Instruction
op_sha3 keccak = pop2 (λ offset size m.
    get2 offset size m
      (λ bytes m'. consume_gas (per_word 6 size) m' (λ m''. some (push (keccak bytes) m''))))

unfoldable pub op_pop : Instruction
op_pop = pop1 (λ a m. some m)

unfoldable pub op_call_data_load : Bytes → Instruction
op_call_data_load input = op1 (λ offset. number_of 0 (padded input 32 offset))

-- opCallDataCopy and opCodeCopy.
unfoldable pub op_copy : Bytes → Instruction
op_copy input = pop3 (λ mem_offset data_offset size m. allocate_memory mem_offset size m (λ m'.
    consume_gas (per_word 3 size) m' (λ m''.
      if size == 0 then some m'' else write_memory mem_offset (padded input size data_offset) m'')))

unfoldable pub op_return_data_copy : EvmForks → Instruction
op_return_data_copy config = since config.byzantium (
    pop3 (λ mem_offset data_offset size m.
      if not (is_uint64 data_offset)
      then some (exit return_data_out_of_bounds m)
      else if size == 0
      then some m
      else allocate_memory mem_offset size m (λ m'. consume_gas (per_word 3 size) m' (λ m''.
        if not (is_uint64 (data_offset + size))
        then some (exit return_data_out_of_bounds m'')
        else if ltb (length m''.return_data) (data_offset + size)
        then some (exit return_data_out_of_bounds m'')
        else write_memory mem_offset (take size (drop data_offset m''.return_data)) m''))))

-- The ip before a jump is one less than the destination, as an int.
abbrev pub jump_to : Bytes → ℕ → Instruction
jump_to code dest m =
    if valid_jumpdest code dest
    then some (record m { ip = (dest + u64_mod - 1) % u64_mod })
    else some (exit invalid_jump m)

unfoldable pub op_jump : Bytes → Instruction
op_jump code = pop1 (λ dest m. jump_to code dest m)

unfoldable pub op_jumpi : Bytes → Instruction
op_jumpi code = pop2 (λ dest cond m. if cond == 0 then some m else jump_to code dest m)

unfoldable pub op_jump_dest : Instruction
op_jump_dest m = some m

-- Where the code ends within the data, as many zeros as the whole data come after what there is.
unfoldable pub op_push : Bytes → ℕ → Instruction
op_push code n m =
    let left = drop (m.ip + 1) code in
    let v : ℕ =
      number_of 0 (if ltb (length code) (m.ip + 1 + n) then left ++ zeros n else take n left) in
    some (record m { stack = v ∷ m.stack; ip = m.ip + n })

abbrev pub nth : List ℕ → ℕ → ℕ
nth [] i = 0
nth (x ∷ xs) zero = x
nth (x ∷ xs) (suc i) = nth xs i

abbrev pub set_nth : List ℕ → ℕ → ℕ → List ℕ
set_nth [] i y = []
set_nth (x ∷ xs) zero y = y ∷ xs
set_nth (x ∷ xs) (suc i) y = x ∷ set_nth xs i y

unfoldable pub op_dup : ℕ → Instruction
op_dup n m =
    if ltb (length m.stack) n
    then some (exit stack_underflow m)
    else some (push (nth m.stack (n - 1)) m)

unfoldable pub swap : ℕ → List ℕ → List ℕ
swap n [] = []
swap n (x ∷ s) = nth (x ∷ s) n ∷ set_nth s (n - 1) x

unfoldable pub op_swap : ℕ → Instruction
op_swap n m =
    if ltb (length m.stack) (n + 1)
    then some (exit stack_underflow m)
    else some (record m { stack = swap n m.stack })

unfoldable pub op_stop : Instruction
op_stop m = some (halt m)

unfoldable pub op_return : Instruction
op_return =
    pop2 (λ offset size m. get2 offset size m (λ bytes m'. some (halt (record m' { ret = bytes }))))

unfoldable pub op_revert : EvmForks → Instruction
op_revert config = since config.byzantium (
    pop2 (λ offset size m.
      get2 offset size m (λ bytes m'. some (exit execution_reverted (record m' { ret = bytes })))))
