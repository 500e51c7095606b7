-- ===== src/Plgbft/AccountSet/Laws.antt =====
-- Looking validators up by address, in sets that hold an address once.
use go_plgchain.Base.{
  ℕ, zero, suc, ◌+◌, ◌≡◌, refl, [], ◌∷◌, ◌++◌, Bool, true, Option, none, some, set, ◌==◌,
  if◌then◌else◌, arith,
}
use go_plgchain.Plgbft.AccountSet.{
  ValidatorMetadata, AccountSet, index, next, get_elem?, get_validator_metadata, select, equals,
  is_some,
}

unfoldable pub find : AccountSet → ℕ → Option ValidatorMetadata
find [] a = none
find (v ∷ vs) a = if v.address == a then some v else find vs a

unfoldable pub Distinct : AccountSet → Type 0
Distinct [] = Unit
Distinct (v ∷ vs) = (find vs v.address ≡ none) × Distinct vs

abbrev pub or_else {ℓ} : {A : Type ℓ} → Option A → Option A → Option A
or_else none b = b
or_else (some a) b = some a

elem-next :
    (v : ValidatorMetadata) (vs : AccountSet) (o : Option ℕ)
    → elim (next o) [ none ↦ none | some i ↦ get_elem? (v ∷ vs) i ]
      ≡ elim o [ none ↦ none | some i ↦ get_elem? vs i ]
elem-next v vs none = refl
elem-next v vs (some i) = refl

pub get_validator_metadata_lem : (vs : AccountSet) (a : ℕ) → get_validator_metadata vs a ≡ find vs a
unfolding get_validator_metadata index find
get_validator_metadata_lem [] a = refl
get_validator_metadata_lem (v ∷ vs) a =
    ground (arith, elem-next v vs (index vs a), get_validator_metadata_lem vs a)

pub index-find : (vs : AccountSet) (a : ℕ) → is_some (index vs a) ≡ is_some (find vs a)
unfolding index find
index-find [] a = refl
index-find (v ∷ vs) a = ground (arith, index-find vs a)

-- What is found has the address that was looked for.
pub find-address :
    (vs : AccountSet) (a : ℕ) (v : ValidatorMetadata) → find vs a ≡ some v → v.address ≡ a
unfolding find
find-address [] a v h = absurd (cc)
find-address (w ∷ vs) a v h = ground (arith, find-address vs a v)

pub find-append : (vs ws : AccountSet) (a : ℕ) → find (vs ++ ws) a ≡ or_else (find vs a) (find ws a)
unfolding find
find-append [] ws a = refl
find-append (v ∷ vs) ws a = ground (arith, find-append vs ws a)

next_zero : (o : Option ℕ) → next o ≡ some 0 → ⊥
next_zero none h = cc
next_zero (some i) h = ground arith

next-suc : (o : Option ℕ) (i : ℕ) → next o ≡ some (suc i) → o ≡ some i
next-suc none i h = absurd (cc)
next-suc (some j) i h = ground arith

-- A write at the index of an address changes what that address finds, and nothing else.
pub find-set :
    (vs : AccountSet) (i : ℕ) (u : ValidatorMetadata) (a : ℕ)
    → index vs u.address ≡ some i
    → find (set vs i u) a ≡ (if u.address == a then some u else find vs a)
unfolding find index
find-set [] i u a h = absurd (cc)
find-set (v ∷ vs) zero u a h = ground (arith, next_zero (index vs u.address))
find-set (v ∷ vs) (suc i) u a h = ground (arith, next-suc (index vs u.address) i, find-set vs i u a)

pub find-select :
    (test : ℕ → ValidatorMetadata → Bool) (wanted : ℕ → Bool) (vs : AccountSet) (i a : ℕ)
    → ((j : ℕ) (v : ValidatorMetadata)
        → get_elem? vs j ≡ some v
        → test (i + j) v ≡ wanted v.address)
    → find (select test i vs) a ≡ (if wanted a then find vs a else none)
unfolding find select
find-select test wanted [] i a h = ground arith
find-select test wanted (v ∷ vs) i a h = ground (
  arith,
  h 0 v refl,
  find-select test wanted vs (suc i) a (λ j w e. ground (arith, h (suc j) w e)),
)

pub find-elem :
    (vs : AccountSet) (n : ℕ) (v : ValidatorMetadata)
    → get_elem? vs n ≡ some v
    → is_some (find vs v.address) ≡ true
unfolding find
find-elem [] n v h = absurd (cc)
find-elem (w ∷ vs) zero v h =
    let same : w.address ≡ v.address = ground (arith, h) in ground (arith, same)
find-elem (w ∷ vs) (suc n) v h = ground (arith, find-elem vs n v h)

-- Validators that Equals does not tell apart are the same.
pub equals_sound : (v w : ValidatorMetadata) → equals v w ≡ true → v ≡ w
unfolding equals
equals_sound v w h = ground (arith)
