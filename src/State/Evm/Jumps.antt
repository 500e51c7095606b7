-- ===== src/State/Evm/Jumps.antt =====
-- Where jumps lead: the bytes of the code that instructions start at.
use go_plgchain.Base.{
  ℕ, zero, suc, ◌+◌, ◌-◌, ◌^◌, ◌<◌, ◌≡◌, ◌↔◌, refl, sym, ap, ◌∙◌, subst, [], ◌∷◌, true, length,
  ==_iff, if◌then◌else◌, arith,
}
use go_plgchain.Base.Bytes.{Bytes}
use go_plgchain.Base.Bytes.{drop}
use go_plgchain.State.Evm.{is_push_op, set_code_bits, bit_at, valid_jumpdest, byte_at}

-- How many bytes of data come after an opcode: PUSH1 to PUSH32 have 1 to 32.
abbrev pub data_length : ℕ → ℕ
data_length b = if is_push_op b then b - 0x5f else 0

-- The places that a decoder of the code from its first byte on comes to.
pub data IsStart (code : Bytes) : ℕ → Type 0 where
  first : IsStart code 0
  next : (i : ℕ) → IsStart code i → IsStart code (i + 1 + data_length (byte_at code i))

drop-[] : (n : ℕ) → drop n [] ≡ []
drop-[] zero = refl
drop-[] (suc n) = refl

drop-add : (i n : ℕ) (bytes : Bytes) → drop n (drop i bytes) ≡ drop (i + n) bytes
drop-add zero n bytes = ap (λ k. drop k bytes) (omega arith)
drop-add (suc i) n [] = drop-[] n ∙ sym (drop-[] (suc i + n))
drop-add (suc i) n (b ∷ bytes) =
    let moved : suc (i + n) ≡ suc i + n = omega arith in
    drop-add i n bytes ∙ ap (λ k. drop k (b ∷ bytes)) moved

byte_at-drop : (i : ℕ) (bytes : Bytes) → byte_at (drop i bytes) 0 ≡ byte_at bytes i
byte_at-drop zero bytes = refl
byte_at-drop (suc i) [] = refl
byte_at-drop (suc i) (b ∷ bytes) = byte_at-drop i bytes

byte_at-inside : (i : ℕ) (bytes : Bytes) → byte_at bytes i ≡ 0x5b → i < length bytes
byte_at-inside i [] e = absurd (omega (arith, e))
byte_at-inside zero (b ∷ bytes) e = omega arith
byte_at-inside (suc i) (b ∷ bytes) e = omega (arith, byte_at-inside i bytes e)

marks_first : (rest : Bytes) → byte_at rest 0 ≡ 0x5b → bit_at (set_code_bits 0 rest) 0 ≡ true
unfolding set_code_bits
marks_first [] e = absurd (omega (arith, e))
marks_first (b ∷ rest) e = (==_iff b 0x5b).1 e

-- The data of a push has no marks, and after it the decoding goes on.
after_data :
    (n : ℕ) (rest : Bytes) (j : ℕ)
    → bit_at (set_code_bits n rest) (n + j) ≡ bit_at (set_code_bits 0 (drop n rest)) j
unfolding set_code_bits
after_data zero rest j = ap (bit_at (set_code_bits 0 rest)) (omega arith)
after_data (suc n) [] j = refl
after_data (suc n) (b ∷ rest) j =
    let moved : suc n + j ≡ suc (n + j) = omega arith in
    ap (bit_at (set_code_bits (suc n) (b ∷ rest))) moved ∙ after_data n rest j

after_instruction :
    (rest : Bytes) (b j : ℕ)
    → byte_at rest 0 ≡ b
    → bit_at (set_code_bits 0 rest) (suc (data_length b + j))
      ≡ bit_at (set_code_bits 0 (drop (suc (data_length b)) rest)) j
unfolding set_code_bits
after_instruction [] b j e = refl
after_instruction (c ∷ rest) b j e =
    ap (λ k. bit_at (set_code_bits (data_length c) rest) (data_length k + j)) (sym e)
    ∙ after_data (data_length c) rest j
    ∙ ap (λ k. bit_at (set_code_bits 0 (drop (data_length k) rest)) j) e

module _ (code : Bytes) where
  -- The rest of the code from `k` on, where the next instruction starts after `skip` bytes of data.
  set_code_bits_lem :
      (rest : Bytes) (skip k i : ℕ)
      → ((j : ℕ) → byte_at rest j ≡ byte_at code (k + j))
      → IsStart code (k + skip)
      → bit_at (set_code_bits skip rest) i ≡ true
      → IsStart code (k + i) × (byte_at code (k + i) ≡ 0x5b)
  unfolding set_code_bits
  set_code_bits_lem [] skip k i same start h = absurd (cc)
  set_code_bits_lem (b ∷ rest) (suc n) k zero same start h = absurd (cc)
  set_code_bits_lem (b ∷ rest) (suc n) k (suc i) same start h =
      let (s, e) =
        set_code_bits_lem rest n (k + 1) i (λ j. same (suc j) ∙ ap (byte_at code) (omega arith))
          (subst (IsStart code) (omega arith) start) h in
      (subst (IsStart code) (omega arith) s, ap (byte_at code) (omega arith) ∙ e)
  set_code_bits_lem (b ∷ rest) zero k zero same start h =
      (start, sym (same 0) ∙ (==_iff b 0x5b).0 h)
  set_code_bits_lem (b ∷ rest) zero k (suc i) same start h =
      let here : byte_at code (k + 0) ≡ b = sym (same 0) in
      let after : IsStart code (k + 1 + data_length b) =
        subst (IsStart code) (ap (λ c. k + 0 + 1 + data_length c) here ∙ omega arith)
          (IsStart.next (k + 0) start) in
      let (s, e) =
        set_code_bits_lem rest (data_length b) (k + 1) i
          (λ j. same (suc j) ∙ ap (byte_at code) (omega arith)) after h in
      (subst (IsStart code) (omega arith) s, ap (byte_at code) (omega arith) ∙ e)

  valid_jumpdest_sound :
      (dest : ℕ)
      → valid_jumpdest code dest ≡ true
      → (dest < 2 ^ 62) × IsStart code dest × (byte_at code dest ≡ 0x5b)
  unfolding valid_jumpdest
  valid_jumpdest_sound dest h =
      let (s, e) =
        set_code_bits_lem code 0 0 dest (λ j. ap (byte_at code) (omega arith))
          (subst (IsStart code) (omega arith) IsStart.first) (ground (arith, h)) in
      (ground (arith, h), subst (IsStart code) (omega arith) s, ap (byte_at code) (omega arith) ∙ e)

  -- At a start the marks of the whole code are those of the rest of the code alone.
  bit_at-start :
      (i : ℕ)
      → IsStart code i
      → (j : ℕ) → bit_at (set_code_bits 0 code) (i + j) ≡ bit_at (set_code_bits 0 (drop i code)) j
  unfolding set_code_bits
  bit_at-start _ first j = ap (bit_at (set_code_bits 0 code)) (omega arith)
  bit_at-start _ (next i start) j =
      let n : ℕ = data_length (byte_at code i) in
      ap (bit_at (set_code_bits 0 code)) (omega arith)
      ∙ bit_at-start i start (suc (n + j))
      ∙ after_instruction (drop i code) (byte_at code i) j (byte_at-drop i code)
      ∙ ap (λ rest. bit_at (set_code_bits 0 rest) j)
          (drop-add i (suc n) code ∙ ap (λ k. drop k code) (omega arith))

  valid_jumpdest_complete :
      (dest : ℕ)
      → dest < 2 ^ 62
      → IsStart code dest
      → byte_at code dest ≡ 0x5b
      → valid_jumpdest code dest ≡ true
  unfolding valid_jumpdest
  valid_jumpdest_complete dest small start e =
      let within : dest < length code = byte_at-inside dest code e in
      let marked : bit_at (set_code_bits 0 code) (dest + 0) ≡ true =
        bit_at-start dest start 0 ∙ marks_first (drop dest code) (byte_at-drop dest code ∙ e) in
      let bit : bit_at (set_code_bits 0 code) dest ≡ true =
        subst (λ k. bit_at (set_code_bits 0 code) k ≡ true) (omega arith) marked in
      ground (arith, small, within, bit)

  -- validJumpdest accepts exactly the destinations below 2^62 that are a JUMPDEST at which an
  -- instruction starts when the code is decoded from its first byte on: no jump leads into the data
  -- of a push.
  pub valid_jumpdest-IsStart :
      (dest : ℕ)
      → (valid_jumpdest code dest ≡ true)
        ↔ ((dest < 2 ^ 62) × IsStart code dest × (byte_at code dest ≡ 0x5b))
  valid_jumpdest-IsStart dest =
      (valid_jumpdest_sound dest, λ (small, start, e). valid_jumpdest_complete dest small start e)
