-- ===== src/Plgbft/Bitmap/Laws.antt =====
-- A bitmap holds the indices that were set in it, and no others.
use go_plgchain.Base.{
  ℕ, zero, suc, ◌+◌, ◌-◌, ◌*◌, ◌/◌, ◌%◌, ◌≡◌, ◌≤◌, ◌<◌, refl, sym, ◌∙◌, ap, List, [], ◌∷◌, ◌++◌,
  true, false, length, get_or, length-append, leb, leb→le, tests, if_elim, Bool-cases, inl, inr,
  ==_iff, ◌≢◌, ◌==◌, if◌then◌else◌, arith, get_or-set,
}
use go_plgchain.Base.Bytes.{zeros, length-zeros}
use go_plgchain.Plgbft.Bitmap.{Bitmap, has_bit, with_bit, set_bit, len, is_set}

half : (byte k : ℕ) → (2 * with_bit (byte / 2) k + byte % 2) / 2 ≡ with_bit (byte / 2) k
half byte k = omega arith

has_bit-with_bit :
    (byte k j : ℕ) → has_bit (with_bit byte k) j ≡ (if k == j then true else has_bit byte j)
unfolding has_bit with_bit
has_bit-with_bit byte zero zero = ground arith
has_bit-with_bit byte zero (suc j) = ground (arith)
has_bit-with_bit byte (suc k) zero = ground arith
has_bit-with_bit byte (suc k) (suc j) =
    ground (arith, ap (λ n. has_bit n j) (half byte k), has_bit-with_bit (byte / 2) k j)

no_bit : (j : ℕ) → has_bit 0 j ≡ false
unfolding has_bit
no_bit zero = refl
no_bit (suc j) = no_bit j

get_or-zeros : (b : List ℕ) (n i : ℕ) → get_or (b ++ zeros n) i 0 ≡ get_or b i 0
get_or-zeros [] zero i = refl
get_or-zeros [] (suc n) zero = refl
get_or-zeros [] (suc n) (suc i) = get_or-zeros [] n i
get_or-zeros (x ∷ b) n zero = refl
get_or-zeros (x ∷ b) n (suc i) = get_or-zeros b n i

get_or-beyond : (b : List ℕ) (i : ℕ) → length b ≤ i → get_or b i 0 ≡ 0
get_or-beyond [] i h = refl
get_or-beyond (x ∷ b) zero h = absurd (omega arith)
get_or-beyond (x ∷ b) (suc i) h = get_or-beyond b i (omega arith)

-- The length test of IsSet only spares the read.
is_set_lem : (b : Bitmap) (j : ℕ) → is_set b j ≡ has_bit (get_or b (j / 8) 0) (j % 8)
unfolding is_set
is_set_lem b j =
    if_elim (λ r. r ≡ has_bit (get_or b (j / 8) 0) (j % 8)) (leb (len b) j)
      (λ e. sym (
        ap (λ n. has_bit n (j % 8)) (get_or-beyond b (j / 8) (omega (tests, leb→le _ _ e)))
        ∙ no_bit _))
      (λ e. refl)

-- The bits of a byte, and which byte it is, tell indices apart.
same_index : (i j : ℕ) → i / 8 ≡ j / 8 → (i % 8 == j % 8) ≡ (i == j)
same_index i j h = ground arith

other_byte : (i j : ℕ) → i / 8 ≢ j / 8 → (i == j) ≡ false
other_byte i j h = ground arith

pub is_set-set_bit :
    (b : Bitmap) (i j : ℕ) → is_set (set_bit b i) j ≡ (if i == j then true else is_set b j)
unfolding set_bit
is_set-set_bit b i j =
    let more = zeros (i / 8 + 1 - length b) in
    let byte = get_or (b ++ more) (i / 8) 0 in
    let inside : i / 8 < length (b ++ more) =
      omega (arith, length-append b more, length-zeros (i / 8 + 1 - length b)) in
    let old : get_or (b ++ more) (j / 8) 0 ≡ get_or b (j / 8) 0 = get_or-zeros b _ (j / 8) in
    let read = get_or-set 0 (with_bit byte (i % 8)) (b ++ more) (i / 8) (j / 8) inside in
    elim (Bool-cases (i / 8 == j / 8)) [
      | inl e ↦
          let h = (==_iff (i / 8) (j / 8)).0 e in
          let here : byte ≡ get_or b (j / 8) 0 = ap (λ n. get_or (b ++ more) n 0) h ∙ old in
          is_set_lem (set_bit b i) j
          ∙ ap (λ n. has_bit n (j % 8)) (rw e at read)
          ∙ has_bit-with_bit byte (i % 8) (j % 8)
          ∙ rw (same_index i j h, here, is_set_lem b j)
      | inr e ↦
          let h : i / 8 ≢ j / 8 = λ q. ground (arith, (==_iff (i / 8) (j / 8)).1 q, e) in
          let miss : (if i == j then true else is_set b j) ≡ is_set b j =
            ground (arith, other_byte i j h) in
          is_set_lem (set_bit b i) j
          ∙ ap (λ n. has_bit n (j % 8)) (rw e at read ∙ old)
          ∙ sym (is_set_lem b j)
          ∙ sym miss
    ]
