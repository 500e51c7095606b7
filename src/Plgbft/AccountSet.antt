-- ===== src/Plgbft/AccountSet.antt =====
-- consensus/plgbft/validator_metadata.go: validators and sets of them, slices in the order that the
-- indices of bitmaps refer to. A BLS key is a number, the same for keys that reflect.DeepEqual finds the
-- same, and a copy by Marshal and UnmarshalPublicKey is taken for such a key; -1 of Index and a nil
-- validator are `none`. Values are immutable here, so that a deep copy is the value itself.
pub mod Laws
pub mod Filtered
use go_plgchain.Base.{
  ℕ, zero, suc, ◌-◌, List, [], ◌∷◌, ◌++◌, Bool, true, false, ◌&&◌, ◌||◌, not, Option, none, some,
  length, set, total, map, ltb, ◌==◌, if◌then◌else◌,
}
use go_plgchain.Plgbft.Bitmap.{Bitmap, len, is_set}

pub record ValidatorMetadata : Type 0 where
  pub address : ℕ
  pub bls_key : ℕ
  pub voting_power : ℕ
  pub is_active : Bool

abbrev pub same_flag : Bool → Bool → Bool
same_flag true b = b
same_flag false b = not b

abbrev pub equal_address_and_bls_key : ValidatorMetadata → ValidatorMetadata → Bool
equal_address_and_bls_key v b = v.address == b.address && v.bls_key == b.bls_key

unfoldable pub equals : ValidatorMetadata → ValidatorMetadata → Bool
equals v b =
    equal_address_and_bls_key v b
    && (v.voting_power == b.voting_power && same_flag v.is_active b.is_active)

abbrev pub AccountSet : Type 0
AccountSet = List ValidatorMetadata

abbrev pub get_addresses : AccountSet → List ℕ
get_addresses = map (λ v. v.address)

abbrev pub next : Option ℕ → Option ℕ
next none = none
next (some i) = some (suc i)

unfoldable pub index : AccountSet → ℕ → Option ℕ
index [] addr = none
index (v ∷ vs) addr = if v.address == addr then some 0 else next (index vs addr)

abbrev pub is_some {ℓ} : {A : Type ℓ} → Option A → Bool
is_some none = false
is_some (some _) = true

abbrev pub contains_address : AccountSet → ℕ → Bool
contains_address vs addr = is_some (index vs addr)

-- vs[i]
abbrev pub get_elem? {ℓ} : {A : Type ℓ} → List A → ℕ → Option A
get_elem? [] i = none
get_elem? (x ∷ xs) zero = some x
get_elem? (x ∷ xs) (suc i) = get_elem? xs i

unfoldable pub get_validator_metadata : AccountSet → ℕ → Option ValidatorMetadata
get_validator_metadata vs addr = elim (index vs addr) [ none ↦ none | some i ↦ get_elem? vs i ]

abbrev pub get_total_voting_power : AccountSet → ℕ
get_total_voting_power = total (λ v. v.voting_power)

-- The loop `for i := from; i < from + n; i++`: is any index set?
unfoldable pub any_set : Bitmap → ℕ → ℕ → Bool
any_set b from zero = false
any_set b from (suc n) = is_set b from || any_set b (suc from) n

-- The validators at the indices for which the test holds, the first of them having index `i`.
unfoldable pub select : (ℕ → ValidatorMetadata → Bool) → ℕ → AccountSet → AccountSet
select test i [] = []
select test i (v ∷ vs) = let rest = select test (suc i) vs in if test i v then v ∷ rest else rest

-- An error is `none`.
unfoldable pub get_filtered_validators : AccountSet → Bitmap → Option AccountSet
get_filtered_validators vs bitmap =
    if length vs == 0
    then some []
    else if ltb (length vs) (len bitmap) && any_set bitmap (length vs) (len bitmap - length vs)
    then none
    else some (select (λ i _. is_set bitmap i) 0 vs)
