-- ===== src/State/Evm/Gas.antt =====
-- What an instruction does to the gas, from the parts that it is made of.
use go_plgchain.Base.{
  ℕ, zero, suc, ◌+◌, ◌-◌, ◌*◌, ◌/◌, ◌≤◌, ◌<◌, ◌≡◌, ◌⊎◌, inl, inr, refl, ◌∙◌, List, [], ◌∷◌, ◌++◌,
  true, false, ◌||◌, not, Option, none, some, length, length-append, take, ltb, ◌==◌, if_elim,
  arith,
}
use go_plgchain.Base.Bytes.{Bytes, zeros, extend_byte_slice, length-zeros}
use go_plgchain.Base.Word.{u64_mod, sub64}
use go_plgchain.Base.Bytes.{drop}
use go_plgchain.State.Transition.{RunError, return_data_out_of_bounds}
use go_plgchain.State.Evm.{
  Machine, Instruction, exit, consume_gas, is_uint64, max_offset, memory_cost, expand_memory,
  allocate_memory, read_memory, write_memory, write_at, get2, padded,
}
use go_plgchain.State.Evm.Instructions.{pop1, pop2, pop3}

-- It ends without a panic, with no more gas than there was, and stopped or with so much gas less.
abbrev pub Within : ℕ → ℕ → Option Machine → Type 0
Within cost gas none = ⊥
Within cost gas (some u) = (u.gas ≤ gas) × ((u.stop ≡ true) ⊎ (u.gas + cost ≤ gas))

pub stopped-Within :
    (cost gas : ℕ) (u : Machine) → u.stop ≡ true → u.gas ≤ gas → Within cost gas (some u)
stopped-Within cost gas u e h = (h, inl e)

pub paid-Within : (cost gas : ℕ) (u : Machine) → u.gas + cost ≤ gas → Within cost gas (some u)
paid-Within cost gas u h = (omega (arith, h), inr h)

-- What was paid before counts too.
pub more-Within :
    (cost less gas : ℕ) (o : Option Machine) (all : ℕ)
    → less + (all - cost) ≤ gas
    → cost ≤ all
    → Within cost less o
    → Within all gas o
more-Within cost less gas none all h k w = w
more-Within cost less gas (some u) all h k (b, inl e) = (omega (arith, h, b), inl e)
more-Within cost less gas (some u) all h k (b, inr p) =
    (omega (arith, h, b), inr (omega (arith, h, k, p)))

pub less-Within :
    (cost less gas : ℕ) (o : Option Machine) → less ≤ cost → Within cost gas o → Within less gas o
less-Within cost less gas none h w = w
less-Within cost less gas (some u) h (b, inl e) = (b, inl e)
less-Within cost less gas (some u) h (b, inr p) = (b, inr (omega (arith, h, p)))

-- Gas that is consumed counts.
pub consume_gas-Within :
    (gas cost : ℕ) (m : Machine) (rest : Instruction)
    → (gas ≤ m.gas → Within (cost - gas) (m.gas - gas) (rest (record m { gas = m.gas - gas })))
    → Within cost m.gas (consume_gas gas m rest)
unfolding consume_gas
consume_gas-Within gas cost m rest h =
    if_elim (Within cost m.gas) (ltb m.gas gas)
      (λ _. stopped-Within cost m.gas (exit RunError.out_of_gas m) refl (omega arith))
      (λ e.
        let enough : gas ≤ m.gas = ground (arith, e) in
        more-Within (cost - gas) (m.gas - gas) m.gas _ cost (omega (arith, enough)) (omega arith)
          (h enough))

pub free-Within :
    (gas : ℕ) (m : Machine) (rest : Instruction)
    → Within 0 (m.gas - gas) (rest (record m { gas = m.gas - gas }))
    → Within 0 m.gas (consume_gas gas m rest)
free-Within gas m rest h =
    consume_gas-Within gas 0 m rest (λ _. less-Within 0 (0 - gas) (m.gas - gas) _ (omega arith) h)

pub burns-Within :
    (gas : ℕ) (m : Machine) (rest : Instruction)
    → Within 0 (m.gas - gas) (rest (record m { gas = m.gas - gas }))
    → Within gas m.gas (consume_gas gas m rest)
burns-Within gas m rest h =
    consume_gas-Within gas gas m rest
      (λ _. less-Within 0 (gas - gas) (m.gas - gas) _ (omega arith) h)

pub length-extend_byte_slice : (bytes : Bytes) (n : ℕ) → n ≤ length (extend_byte_slice bytes n)
length-extend_byte_slice bytes n =
    omega (arith, length-append bytes (zeros (n - length bytes)), length-zeros (n - length bytes))

-- A machine after memory was allocated: less gas at most, the same stack, and the range within.
pub record Allocated (offset size : ℕ) (m u : Machine) : Type 0 where
  pub gas : u.gas ≤ m.gas
  pub stack : u.stack ≡ m.stack
  pub room : (size ≡ 0) ⊎ (offset + size ≤ length u.memory)
  pub small : size < u64_mod

expand_memory-Within :
    (offset size cost w : ℕ) (m : Machine) (rest : Instruction)
    → size < u64_mod
    → offset + size ≤ w * 32
    → ((u : Machine) → Allocated offset size m u → Within cost u.gas (rest u))
    → Within cost m.gas (expand_memory w m rest)
unfolding expand_memory
expand_memory-Within offset size cost w m rest small fits h =
    let g : ℕ = sub64 (memory_cost w) m.last_gas_cost in
    consume_gas-Within g cost (record m { last_gas_cost = memory_cost w })
      (λ m'. rest (record m' { memory = extend_byte_slice m'.memory (w * 32) }))
      (λ enough. less-Within cost (cost - g) (m.gas - g) _ (omega arith) (
        h
          (record m {
            last_gas_cost = memory_cost w;
            gas = m.gas - g;
            memory = extend_byte_slice m.memory (w * 32);
          })
          (record {
            gas = omega arith;
            stack = refl;
            room = inr (omega (arith, fits, length-extend_byte_slice m.memory (w * 32)));
            small = small;
          })))

pub allocate_memory-Within :
    (offset size cost : ℕ) (m : Machine) (rest : Instruction)
    → ((u : Machine) → Allocated offset size m u → Within cost u.gas (rest u))
    → Within cost m.gas (allocate_memory offset size m rest)
unfolding allocate_memory expand_memory
allocate_memory-Within offset size cost m rest h =
    let out = stopped-Within cost m.gas (exit return_data_out_of_bounds m) refl (omega arith) in
    if_elim (Within cost m.gas) (not (is_uint64 offset) || not (is_uint64 size)) (λ _. out)
      (λ e.
        let small : size < u64_mod = ground (arith, e) in
        if_elim (Within cost m.gas) (size == 0)
          (λ f. h m (record {
            gas = omega arith;
            stack = refl;
            room = inl (ground (arith, f));
            small = small;
          }))
          (λ _.
            if_elim (Within cost m.gas) (ltb max_offset offset || ltb max_offset size) (λ _. out)
              (λ _.
                if_elim (Within cost m.gas) (ltb (length m.memory) (offset + size))
                  (λ _.
                    expand_memory-Within offset size cost ((offset + size + 31) / 32) m rest small
                      (omega arith) h)
                  (λ f. h m (record {
                    gas = omega arith;
                    stack = refl;
                    room = inr (ground (arith, f));
                    small = small;
                  })))))

pub length-take_le : (n : ℕ) (bytes : Bytes) → length (take n bytes) ≤ n
length-take_le zero bytes = omega arith
length-take_le (suc n) [] = omega arith
length-take_le (suc n) (b ∷ bytes) = omega (arith, length-take_le n bytes)

pub length-padded : (input : Bytes) (size offset : ℕ) → length (padded input size offset) ≡ size
unfolding padded
length-padded input size offset =
    let rest : Bytes = take size (drop offset input) in
    let filled : length (rest ++ zeros (size - length rest)) ≡ size = omega (
      arith,
      length-append rest (zeros (size - length rest)),
      length-zeros (size - length rest),
      length-take_le size (drop offset input),
    ) in
    if_elim (λ (bytes : Bytes). length bytes ≡ size) (not (is_uint64 offset))
      (λ _. length-zeros size) (λ _. filled)

pub write_memory-Within :
    (offset : ℕ) (bytes : Bytes) (cost gas : ℕ) (m : Machine)
    → offset + length bytes ≤ length m.memory
    → m.gas + cost ≤ gas
    → Within cost gas (write_memory offset bytes m)
unfolding write_memory
write_memory-Within offset bytes cost gas m room h =
    if_elim (Within cost gas) (ltb (length m.memory) (offset + length bytes))
      (λ e. absurd (ground (arith, e, room)))
      (λ _. paid-Within cost gas (record m { memory = write_at offset bytes m.memory }) h)

pub get2-Within :
    (offset size cost : ℕ) (m : Machine) (rest : Bytes → Instruction)
    → ((bytes : Bytes) (u : Machine)
        → u.gas ≤ m.gas
        → u.stack ≡ m.stack
        → Within cost u.gas (rest bytes u))
    → Within cost m.gas (get2 offset size m rest)
unfolding get2 read_memory
get2-Within offset size cost m rest h =
    if_elim (Within cost m.gas) (size == 0) (λ _. h [] m (omega arith) refl)
      (λ e. allocate_memory-Within offset size cost m _ (λ u a.
        let room : ltb (length u.memory) (offset + size) ≡ false = ground (arith, a.room, e) in
        rw room (h (take size (drop offset u.memory)) u a.gas a.stack)))

-- Pops from a stack that has enough.
pub pop1-Within :
    (k cost gas : ℕ) (f : ℕ → Instruction) (m : Machine)
    → suc k ≤ length m.stack
    → ((a : ℕ) (u : Machine) → k ≤ length u.stack → u.gas ≡ m.gas → Within cost gas (f a u))
    → Within cost gas (pop1 f m)
unfolding pop1
pop1-Within k cost gas f m h next = from m.stack h
  where
    from :
        (s : List ℕ)
        → suc k ≤ length s
        → Within cost gas (elim s [ [] ↦ none | a ∷ s' ↦ f a (record m { stack = s' }) ])
    from [] p = absurd (omega (arith, p))
    from (a ∷ s) p = next a (record m { stack = s }) (omega (arith, p)) refl

pub pop2-Within :
    (k cost gas : ℕ) (f : ℕ → ℕ → Instruction) (m : Machine)
    → suc (suc k) ≤ length m.stack
    → ((a b : ℕ) (u : Machine) → k ≤ length u.stack → u.gas ≡ m.gas → Within cost gas (f a b u))
    → Within cost gas (pop2 f m)
unfolding pop2
pop2-Within k cost gas f m h next =
    pop1-Within (suc k) cost gas _ m h
      (λ a u p e. pop1-Within k cost gas (f a) u p (λ b v q g. next a b v q (g ∙ e)))

pub pop3-Within :
    (k cost gas : ℕ) (f : ℕ → ℕ → ℕ → Instruction) (m : Machine)
    → suc (suc (suc k)) ≤ length m.stack
    → ((a b z : ℕ) (u : Machine) → k ≤ length u.stack → u.gas ≡ m.gas → Within cost gas (f a b z u))
    → Within cost gas (pop3 f m)
unfolding pop3
pop3-Within k cost gas f m h next =
    pop1-Within (suc (suc k)) cost gas _ m h
      (λ a u p e. pop2-Within k cost gas (f a) u p (λ b z v q g. next a b z v q (g ∙ e)))
