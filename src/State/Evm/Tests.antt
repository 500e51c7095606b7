-- ===== src/State/Evm/Tests.antt =====
-- A host that answers every call with an error, a small contract, and words.
use go_plgchain.Base.{
  ◌+◌, ◌-◌, ◌*◌, ◌/◌, ◌%◌, ◌^◌, ◌<◌, ◌≡◌, ◌↔◌, refl, [], ◌∷◌, true, false, none, some, arith,
}
use go_plgchain.Base.Bytes.{Bytes}
use go_plgchain.Base.Word.{u64_mod}
use go_plgchain.State.Account.{ReadSnapshot}
use go_plgchain.State.Txn.{new_txn}
use go_plgchain.State.Transition.{Contract, CallType}
use go_plgchain.State.Evm.{Host, valid_jumpdest, set_code_bits, byte_at}
use go_plgchain.State.Evm.Words.{exp, byte}
use go_plgchain.State.Evm.Safe.Calls.{IsHost, Returns}
use go_plgchain.State.Evm.Table.{run_evm}
use go_plgchain.State.Evm.Runs.{run_evm-Returns}
use go_plgchain.State.Evm.Jumps.{IsStart, valid_jumpdest-IsStart}
use go_plgchain.State.Evm.Indices.{byte_reads_low_bits}
use go_plgchain.State.Evm.Powers.{exp_lem}

abbrev bare : ReadSnapshot
bare = record {
  get_account = λ a. none;
  get_storage = λ a root key. 0;
  stored_code = λ hash. [];
  cached_code = λ a. none;
  keccak = λ bytes. 7;
  empty_state_hash = 5;
}

abbrev refusing : Host
refusing = record {
  config = record {
    homestead = true;
    byzantium = true;
    constantinople = true;
    petersburg = true;
    istanbul = true;
    eip150 = true;
    eip158 = true;
  };
  context = record {
    gas_price = 1;
    origin = 1;
    coinbase = 9;
    number = 10;
    timestamp = 1000;
    gas_limit = 100000;
    chain_id = 100;
    difficulty = 1;
  };
  get_block_hash = λ n. n;
  callx = λ c t.
      some
        (record { return_value = []; gas_left = c.gas; gas_used = 0; err = none; address = 0 }, t);
  create_address = λ a nonce. 3;
  create_address2 = λ a salt code. 4;
}

refusing-IsHost : IsHost refusing
refusing-IsHost = record { eip150 = refl; callx = λ c t small. omega arith }

-- PUSH1 4, JUMP, a byte, JUMPDEST, PUSH1 2, PUSH1 0, SSTORE.
abbrev jumping : Bytes
jumping = 0x60 ∷ 4 ∷ 0x56 ∷ 0xfe ∷ 0x5b ∷ 0x60 ∷ 2 ∷ 0x60 ∷ 0 ∷ 0x55 ∷ []

abbrev contract : Contract
contract = record {
  code = jumping;
  call_type = CallType.call;
  code_address = 3;
  address = 3;
  origin = 1;
  caller = 1;
  depth = 1;
  value = 0;
  input = [];
  gas = 30000;
  is_static = false;
}

run_evm-Returns_example : Returns 30000 (run_evm bare refusing contract 30001 new_txn)
run_evm-Returns_example =
    run_evm-Returns bare refusing contract refusing-IsHost new_txn 30001 (omega arith) (omega arith)

jumps : valid_jumpdest jumping 4 ≡ true
unfolding valid_jumpdest set_code_bits
jumps = refl

valid_jumpdest-IsStart_example :
    (valid_jumpdest jumping 4 ≡ true)
    ↔ ((4 < 2 ^ 62) × IsStart jumping 4 × (byte_at jumping 4 ≡ 0x5b))
valid_jumpdest-IsStart_example = valid_jumpdest-IsStart jumping 4

exp_lem_example : exp 3 5 ≡ 3 ^ 5 % 2 ^ 256
exp_lem_example = exp_lem 3 5 (omega arith)

byte_reads_low_bits_example : byte (31 + 1 * u64_mod) 0xabcd ≡ 0xabcd / 2 ^ ((31 - 31) * 8) % 256
byte_reads_low_bits_example = byte_reads_low_bits 31 0xabcd 1 (omega arith)
