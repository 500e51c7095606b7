-- ===== src/Plgbft/AccountSet/Filtered.antt =====
-- Which validators GetFilteredValidators gives for a bitmap, and when it refuses one.
use mathlib.Core.Option.{some_inj}
use go_plgchain.Base.{
  ℕ, zero, suc, ◌+◌, ◌-◌, ◌≤◌, ◌<◌, ◌≡◌, ◌≢◌, ◌↔◌, inl, inr, sym, ap, ◌∙◌, [], ◌∷◌, Bool, true,
  false, ◌&&◌, Option, none, some, length, ltb, ◌==◌, ==_iff, if◌then◌else◌, arith, Bool-cases,
}
use go_plgchain.Plgbft.Bitmap.{Bitmap, len, is_set}
use go_plgchain.Plgbft.AccountSet.{
  ValidatorMetadata, AccountSet, index, get_elem?, any_set, select, get_filtered_validators,
  get_validator_metadata,
}
use go_plgchain.Plgbft.AccountSet.Laws.{
  find, Distinct, get_validator_metadata_lem, find-elem, find-select,
}

any_set_sound :
    (b : Bitmap) (from n : ℕ) → any_set b from n ≡ true → (i : ℕ) × (from ≤ i) × (is_set b i ≡ true)
unfolding any_set
any_set_sound b from zero h = absurd (ground (arith, h))
any_set_sound b from (suc n) h = elim (Bool-cases (is_set b from)) [
  | inl e ↦ (from, omega arith, e)
  | inr e ↦
      let (i, p, q) = any_set_sound b (suc from) n (ground (arith, e, h)) in
      (i, omega (arith, p), q)
]

any_set_complete :
    (b : Bitmap) (from n i : ℕ)
    → from ≤ i
    → i < from + n
    → is_set b i ≡ true
    → any_set b from n ≡ true
unfolding any_set
any_set_complete b from zero i p q h = absurd (omega arith)
any_set_complete b from (suc n) i p q h = elim (Bool-cases (from == i)) [
  | inl e ↦ ground (arith, ap (is_set b) ((==_iff from i).0 e))
  | inr e ↦ ground (arith, e, any_set_complete b (suc from) n i (ground (arith, e)) (omega arith) h)
]

is_set-bound : (b : Bitmap) (i : ℕ) → is_set b i ≡ true → i < len b
unfolding is_set
is_set-bound b i h = ground (arith, h)

-- For a set that is not empty: GetFilteredValidators refuses a bitmap exactly when it has an index
-- past the end of the set.
pub filtered_refuses :
    (vs : AccountSet) (b : Bitmap)
    → length vs ≢ 0
    → (get_filtered_validators vs b ≡ none) ↔ ((i : ℕ) × (length vs ≤ i) × (is_set b i ≡ true))
unfolding get_filtered_validators
filtered_refuses vs b n = (
  λ h. any_set_sound b (length vs) (len b - length vs) (ground (arith, n, h)),
  λ (i, p, q).
      let inside = is_set-bound b i q in
      let found =
        any_set_complete b (length vs) (len b - length vs) i p (omega (arith, inside)) q in
      ground (arith, n, found, inside),
)

-- The bit of a validator's index.
abbrev pub chosen : Bitmap → Option ℕ → Bool
chosen b none = false
chosen b (some i) = is_set b i

index-elem :
    (vs : AccountSet) (j : ℕ) (v : ValidatorMetadata)
    → Distinct vs
    → get_elem? vs j ≡ some v
    → index vs v.address ≡ some j
unfolding index Distinct
index-elem [] j v p h = absurd (cc)
index-elem (w ∷ vs) zero v p h =
    let same : w.address ≡ v.address = ap (λ x. x.address) (some_inj.0 h) in ground (arith, same)
index-elem (w ∷ vs) (suc j) v p h =
    let away : (w.address == v.address) ≡ false =
      ground (arith, p.0, find-elem vs j v h, λ (e : w.address ≡ v.address). ap (find vs) e) in
    ground (arith, away, index-elem vs j v p.1 h)

-- For validators of distinct addresses: what GetFilteredValidators gives has a validator of the set
-- exactly when the bitmap has the index of it, and no other validators.
pub filtered_chosen :
    (vs : AccountSet) (b : Bitmap) (r : AccountSet)
    → Distinct vs
    → get_filtered_validators vs b ≡ some r
    → (a : ℕ)
    → get_validator_metadata r a
      ≡ (if chosen b (index vs a) then get_validator_metadata vs a else none)
unfolding get_filtered_validators find index
filtered_chosen [] b r p h a =
    ap (λ x. get_validator_metadata x a) (sym (some_inj.0 h))
    ∙ get_validator_metadata_lem [] a
    ∙ ground arith
filtered_chosen (v ∷ vs) b r p h a =
    let made : select (λ i _. is_set b i) 0 (v ∷ vs) ≡ r =
      elim (Bool-cases
        (ltb (length (v ∷ vs)) (len b) && any_set b (length (v ∷ vs)) (len b - length (v ∷ vs)))) [
          | inl e ↦ absurd (ground (arith, h, e))
          | inr e ↦ some_inj.0 (ground (arith, h, e))
        ] in
    ap (λ x. get_validator_metadata x a) (sym made)
    ∙ get_validator_metadata_lem _ a
    ∙ find-select (λ i _. is_set b i) (λ x. chosen b (index (v ∷ vs) x)) (v ∷ vs) 0 a
        (λ j w g.
          let at : 0 + j ≡ j = omega arith in
          ap (is_set b) at ∙ sym (ap (chosen b) (index-elem (v ∷ vs) j w p g)))
    ∙ ap (λ o. if chosen b (index (v ∷ vs) a) then o else none)
        (sym (get_validator_metadata_lem (v ∷ vs) a))
