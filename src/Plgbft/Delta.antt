-- ===== src/Plgbft/Delta.antt =====
-- The change of the validator set between epochs: ValidatorSetDelta and createValidatorSetDelta of
-- consensus/plgbft/extra.go, and ApplyDelta of consensus/plgbft/validator_metadata.go.
pub mod Apply
pub mod Create
pub mod Removed
pub mod Walk
pub mod Errors
pub mod Laws
use go_plgchain.Base.{
  ℕ, zero, suc, List, [], ◌∷◌, ◌++◌, Bool, true, false, ◌&&◌, ◌||◌, not, Option, none, some, length,
  set, ◌==◌, if◌then◌else◌, ◌>>=◌,
}
use go_plgchain.Base.Dict.{lookup, insert, delete}
use go_plgchain.Plgbft.Bitmap.{Bitmap, set_bit, is_set, len}
use go_plgchain.Plgbft.AccountSet.{
  ValidatorMetadata, AccountSet, equal_address_and_bls_key, equals, index, contains_address, select,
}

pub record ValidatorSetDelta : Type 0 where
  pub added : AccountSet
  pub updated : AccountSet
  pub removed : Bitmap

abbrev pub is_empty : ValidatorSetDelta → Bool
is_empty d = length d.added == 0 && (length d.updated == 0 && len d.removed == 0)

-- The variables of createValidatorSetDelta. The zero address is 0.
pub record Diff : Type 0 where
  pub added : AccountSet
  pub updated : AccountSet
  pub removed : List (ℕ × ℕ)

-- The first loop, which fills removedValidators (address to index) and oldValidatorSetMap.
unfoldable pub index_old :
    ℕ
    → AccountSet
    → List (ℕ × ℕ)
    → List (ℕ × ValidatorMetadata)
    → List (ℕ × ℕ) × List (ℕ × ValidatorMetadata)
index_old i [] removed known = (removed, known)
index_old i (v ∷ vs) removed known =
    if v.address == 0
    then index_old (suc i) vs removed known
    else index_old (suc i) vs (insert v.address i removed) (insert v.address v known)

-- One round of the second loop; `none` is the error of a BLS key that differs.
unfoldable pub diff_one : List (ℕ × ValidatorMetadata) → ValidatorMetadata → Diff → Option Diff
diff_one known v d = elim (lookup v.address known) [
  | none ↦ some (record d { added = d.added ++ v ∷ [] })
  | some old ↦
      if not (equal_address_and_bls_key old v)
      then none
      else some (record d {
        removed = delete v.address d.removed;
        updated = if not (equals old v) then d.updated ++ v ∷ [] else d.updated;
      })
]

unfoldable pub diff_all : List (ℕ × ValidatorMetadata) → AccountSet → Diff → Option Diff
diff_all known [] d = some d
diff_all known (v ∷ vs) d = do later ← diff_one known v d; diff_all known vs later

-- The last loop: Go ranges over the map in any order, which setting bits does not depend on.
unfoldable pub set_all : List (ℕ × ℕ) → Bitmap → Bitmap
set_all [] b = b
set_all ((addr, i) ∷ rest) b = set_all rest (set_bit b i)

unfoldable pub create_validator_set_delta : AccountSet → AccountSet → Option ValidatorSetDelta
create_validator_set_delta old_set new_set =
    let (removed, known) = index_old 0 old_set [] [] in
    do
      d ← diff_all known new_set (record { added = []; updated = []; removed = removed })
      some (record { added = d.added; updated = d.updated; removed = set_all d.removed [] })

-- The validators that a delta keeps.
abbrev pub kept : ValidatorSetDelta → AccountSet → AccountSet
kept d = select (λ i v. not (is_set d.removed i) || contains_address d.added v.address) 0

-- An error, of a validator that is there already or of one that is not, is `none`.
unfoldable pub add_all : AccountSet → AccountSet → Option AccountSet
add_all [] vs = some vs
add_all (a ∷ more) vs =
    let rest = add_all more (vs ++ a ∷ []) in if contains_address vs a.address then none else rest

unfoldable pub update_all : AccountSet → AccountSet → Option AccountSet
update_all [] vs = some vs
update_all (u ∷ more) vs = elim (index vs u.address) [
  | none ↦ none
  | some i ↦ update_all more (set vs i u)
]

-- A nil delta is as an empty one.
unfoldable pub apply_delta : AccountSet → ValidatorSetDelta → Option AccountSet
apply_delta vs d =
    if is_empty d
    then some vs
    else do grown ← add_all d.added (kept d vs); update_all d.updated grown
