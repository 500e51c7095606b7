-- ===== src/State/Evm.antt =====
-- state/runtime/evm/state.go and bitmap.go, the machine that runs a contract: its stack, gas and memory.
-- The stack's math/big values are numbers: each slot has its own, and pushes copy. `none` is a panic.
pub mod Words
pub mod Instructions
pub mod Hosted
pub mod Calls
pub mod Table
pub mod Gas
pub mod Safe
pub mod Runs
pub mod Jumps
pub mod Indices
pub mod Powers
mod Tests
use go_plgchain.Base.{
  ℕ, zero, suc, ◌+◌, ◌-◌, ◌*◌, ◌/◌, ◌%◌, ◌^◌, List, [], ◌∷◌, ◌++◌, Bool, true, false, ◌&&◌, ◌||◌,
  not, Option, none, some, length, take, ltb, ◌==◌, if◌then◌else◌,
}
use go_plgchain.Base.Bytes.{Bytes, zeros, extend_byte_slice}
use go_plgchain.Base.Word.{u64_mod, add64, sub64}
use go_plgchain.State.Txn.{Txn}
use go_plgchain.Base.Bytes.{drop}
use go_plgchain.State.Transition.{
  RunError, Contract, ExecutionResult, op_code_not_found, return_data_out_of_bounds,
  execution_reverted,
}

-- The forks of chain.ForksInTime that instructions look at.
pub record EvmForks : Type 0 where
  pub homestead : Bool
  pub byzantium : Bool
  pub constantinople : Bool
  pub petersburg : Bool
  pub istanbul : Bool
  pub eip150 : Bool
  pub eip158 : Bool

-- runtime.TxContext.
pub record TxContext : Type 0 where
  pub gas_price : ℕ
  pub origin : ℕ
  pub coinbase : ℕ
  pub number : ℕ
  pub timestamp : ℕ
  pub gas_limit : ℕ
  pub chain_id : ℕ
  pub difficulty : ℕ

-- What a run has from its host besides the state: runtime.Host and the library's address functions.
pub record Host : Type 0 where
  pub config : EvmForks
  pub context : TxContext
  pub get_block_hash : ℕ → ℕ
  pub callx : Contract → Txn → Option (ExecutionResult × Txn)
  pub create_address : ℕ → ℕ → ℕ
  pub create_address2 : ℕ → ℕ → Bytes → ℕ

-- The stack's top is the head of the list.
pub record Machine : Type 0 where
  pub ip : ℕ
  pub stack : List ℕ
  pub memory : Bytes
  pub last_gas_cost : ℕ
  pub gas : ℕ
  pub stop : Bool
  pub err : Option RunError
  pub return_data : Bytes
  pub ret : Bytes
  pub state : Txn

-- errors.Is(err, errRevert).
abbrev pub is_revert : RunError → Bool
is_revert execution_reverted = true
is_revert _ = false

abbrev pub Instruction : Type 0
Instruction = Machine → Option Machine

abbrev pub stack_size : ℕ
stack_size = 1024

abbrev pub halt : Machine → Machine
halt m = record m { stop = true }

abbrev pub exit : RunError → Machine → Machine
exit e m = record m { stop = true; err = some e }

abbrev pub push : ℕ → Machine → Machine
push x m = record m { stack = x ∷ m.stack }

-- Where there is not enough gas, the rest is not run.
unfoldable pub consume_gas : ℕ → Machine → Instruction → Option Machine
consume_gas gas m rest =
    if ltb m.gas gas
    then some (exit RunError.out_of_gas m)
    else rest (record m { gas = m.gas - gas })

abbrev pub is_uint64 : ℕ → Bool
is_uint64 x = ltb x u64_mod

abbrev pub max_offset : ℕ
max_offset = 0xffffffffe0

-- The cost of so many words of memory, in uint64 arithmetic.
unfoldable pub memory_cost : ℕ → ℕ
memory_cost w = add64 (3 * w) (w * w % u64_mod / 512)

-- The part of allocateMemory that pays for so many words and makes them.
unfoldable pub expand_memory : ℕ → Machine → Instruction → Option Machine
expand_memory w m rest =
    consume_gas (sub64 (memory_cost w) m.last_gas_cost) (record m { last_gas_cost = memory_cost w })
      (λ m'. rest (record m' { memory = extend_byte_slice m'.memory (w * 32) }))

unfoldable pub allocate_memory : ℕ → ℕ → Machine → Instruction → Option Machine
allocate_memory offset size m rest =
    if not (is_uint64 offset) || not (is_uint64 size)
    then some (exit return_data_out_of_bounds m)
    else if size == 0
    then rest m
    else if ltb max_offset offset || ltb max_offset size
    then some (exit return_data_out_of_bounds m)
    else if ltb (length m.memory) (offset + size)
    then expand_memory ((offset + size + 31) / 32) m rest
    else rest m

-- memory[offset : offset+size], a panic past the end.
unfoldable pub read_memory : ℕ → ℕ → Machine → Option Bytes
read_memory offset size m =
    if ltb (length m.memory) (offset + size) then none else some (take size (drop offset m.memory))

abbrev pub write_at : ℕ → Bytes → Bytes → Bytes
write_at o ds [] = []
write_at zero [] (b ∷ bs) = b ∷ bs
write_at zero (d ∷ ds) (b ∷ bs) = d ∷ write_at zero ds bs
write_at (suc o) ds (b ∷ bs) = b ∷ write_at o ds bs

-- A copy of bytes to memory[offset : offset+len(bytes)], a panic past the end.
unfoldable pub write_memory : ℕ → Bytes → Machine → Option Machine
write_memory offset bytes m =
    if ltb (length m.memory) (offset + length bytes)
    then none
    else some (record m { memory = write_at offset bytes m.memory })

unfoldable pub get2 : ℕ → ℕ → Machine → (Bytes → Instruction) → Option Machine
get2 offset size m rest =
    if size == 0
    then rest [] m
    else allocate_memory offset size m
        (λ m'. elim (read_memory offset size m') [ none ↦ none | some bytes ↦ rest bytes m' ])

-- setBytes: so many bytes of the input from an offset on, with zeros past its end.
unfoldable pub padded : Bytes → ℕ → ℕ → Bytes
padded input size offset =
    if not (is_uint64 offset)
    then zeros size
    else let rest = take size (drop offset input) in rest ++ zeros (size - length rest)

abbrev pub is_push_op : ℕ → Bool
is_push_op b = b / 32 == 3

-- bitmap.setCode: which bytes of the code are a JUMPDEST, not data of a push. The first argument is how
-- many bytes of data are still to come.
unfoldable pub set_code_bits : ℕ → Bytes → List Bool
set_code_bits skip [] = []
set_code_bits (suc n) (b ∷ code) = false ∷ set_code_bits n code
set_code_bits zero (b ∷ code) =
    (b == 0x5b) ∷ set_code_bits (if is_push_op b then b - 0x5f else 0) code

abbrev pub bit_at : List Bool → ℕ → Bool
bit_at [] i = false
bit_at (b ∷ bits) zero = b
bit_at (b ∷ bits) (suc i) = bit_at bits i

unfoldable pub valid_jumpdest : Bytes → ℕ → Bool
valid_jumpdest code dest =
    ltb dest (2 ^ 62) && (ltb dest (length code) && bit_at (set_code_bits 0 code) dest)

abbrev pub byte_at : Bytes → ℕ → ℕ
byte_at [] i = 0
byte_at (b ∷ code) zero = b
byte_at (b ∷ code) (suc i) = byte_at code i
