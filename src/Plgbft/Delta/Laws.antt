-- ===== src/Plgbft/Delta/Laws.antt =====
-- A delta that is created between two sets turns the one into the other.
use mathlib.Core.Option.{some_inj}
use go_plgchain.Base.{
  ℕ, ◌+◌, ◌≡◌, inl, inr, refl, sym, ap, ◌∙◌, subst, [], ◌++◌, true, false, not, ◌||◌, Option, none,
  some, if◌then◌else◌, ◌>>=◌, bind_inv, arith, Bool-cases, Option-cases,
}
use go_plgchain.Base.Dict.{lookup}
use go_plgchain.Plgbft.Bitmap.{is_set}
use go_plgchain.Plgbft.AccountSet.{
  ValidatorMetadata, AccountSet, equals, get_elem?, is_some, contains_address,
  get_validator_metadata,
}
use go_plgchain.Plgbft.AccountSet.Laws.{
  find, Distinct, or_else, get_validator_metadata_lem, index-find, find-append, find-elem,
  find-select, equals_sound,
}
use go_plgchain.Plgbft.Delta.{
  ValidatorSetDelta, Diff, index_old, diff_all, set_all, create_validator_set_delta, kept, add_all,
  update_all, apply_delta,
}
use go_plgchain.Plgbft.Delta.Create.{
  changed_of, fresh, changed, find-fresh, find-changed, fresh-Distinct, changed-Distinct,
  index_old-known, Entry, set_all_sound, set_all_complete,
}
use go_plgchain.Plgbft.Delta.Removed.{index_old_sound, index_old_complete}
use go_plgchain.Plgbft.Delta.Walk.{IsWalked, diff_all-IsWalked}
use go_plgchain.Plgbft.Delta.Apply.{apply_delta_lem, add_all_lem, update_all_lem, none_set}

pub none_known :
    (o : Option ValidatorMetadata) (a : ℕ) → or_else o (lookup {V = ValidatorMetadata} a []) ≡ o
unfolding lookup
none_known none a = refl
none_known (some v) a = refl

-- A delta as createValidatorSetDelta makes it of the two sets.
record IsDelta (old new : AccountSet) (d : ValidatorSetDelta) : Type 0 where
  pub added : d.added ≡ fresh old new
  pub updated : d.updated ≡ changed old new
  pub removed :
      (n : ℕ) (v : ValidatorMetadata)
      → get_elem? old n ≡ some v
      → is_set d.removed n ≡ not (is_some (find new v.address))

module _ (old new : AccountSet) (p : Distinct old) (q : Distinct new) (z : find old 0 ≡ none) where
  module _ (d : Diff)
      (w : IsWalked old new
        (record { added = []; updated = []; removed = (index_old 0 old [] []).0 })
        d) where
    gone :
        (n : ℕ) (v : ValidatorMetadata)
        → get_elem? old n ≡ some v
        → is_set (set_all d.removed []) n ≡ true
        → find new v.address ≡ none
    unfolding Entry
    gone n v g h = elim (set_all_sound d.removed [] n h) [
      | inl e ↦ absurd (ground (arith, e, none_set n))
      | inr (a, e) ↦
          let (before, absent) = w.left a n e in
          elim (index_old_sound 0 old [] [] a n before) [
            | inl e ↦ absurd e
            | inr (m, x, h, r, s) ↦
                let place : m ≡ n = omega (arith, s) in
                let same : x ≡ v = some_inj.0 (sym h ∙ ap (get_elem? old) place ∙ g) in
                let there : v.address ≡ a = ap (λ y. y.address) (sym same) ∙ r in
                ap (find new) there
                ∙ absent (ap (λ y. is_some (find old y)) (sym there) ∙ find-elem old n v g)
          ]
    ]

    removed_lem :
        (n : ℕ) (v : ValidatorMetadata)
        → get_elem? old n ≡ some v
        → is_set (set_all d.removed []) n ≡ not (is_some (find new v.address))
    removed_lem n v g = elim (Option-cases (find new v.address)) [
      | inl e ↦
          let at : 0 + n ≡ n = omega arith in
          let before =
            subst (Entry (index_old 0 old [] []).0 v.address) at
              (index_old_complete 0 old [] [] p z n v g) in
          let entry = w.stays v.address n before e in
          ground (arith, e, set_all_complete d.removed [] v.address n entry)
      | inr (x, e) ↦ ground (arith, e, gone n v g)
    ]

  create-IsDelta :
      (d : ValidatorSetDelta) → create_validator_set_delta old new ≡ some d → IsDelta old new d
  unfolding create_validator_set_delta
  create-IsDelta d h =
      let known = (index_old 0 old [] []).1 in
      let same : (a : ℕ) → lookup a known ≡ find old a =
        λ a. index_old-known 0 old [] [] a p z ∙ none_known (find old a) a in
      let (e, walk, made) = bind_inv (diff_all known new _) _ h in
      let w = diff_all-IsWalked old known same new _ e walk in
      subst (IsDelta old new) (some_inj.0 made)
        (record { added = w.added; updated = w.updated; removed = removed_lem e w })

-- What an old and a new validator of an address leave of it, kept or fresh.
abbrev kept_of : Option ValidatorMetadata → Option ValidatorMetadata → Option ValidatorMetadata
kept_of o n = if is_some n then o else none

abbrev fresh_of : Option ValidatorMetadata → Option ValidatorMetadata → Option ValidatorMetadata
fresh_of o n = if is_some o then none else n

merged :
    (o n : Option ValidatorMetadata)
    → or_else (changed_of o n) (or_else (kept_of o n) (fresh_of o n)) ≡ n
merged none none = refl
merged (some w) none = refl
merged none (some v) = refl
merged (some w) (some v) = elim (Bool-cases (equals w v)) [
  | inl e ↦ ground (arith, e, equals_sound w v e)
  | inr e ↦ ground (arith, e)
]

changed_there :
    (o n : Option ValidatorMetadata)
    → is_some (changed_of o n) ≡ true
    → is_some (or_else (kept_of o n) (fresh_of o n)) ≡ true
changed_there o none h = absurd (ground (arith, h))
changed_there none (some v) h = refl
changed_there (some w) (some v) h = refl

module _ (old new : AccountSet) (q : Distinct new) (d : ValidatorSetDelta)
    (h : IsDelta old new d) where
  find-kept : (a : ℕ) → find (kept d old) a ≡ (if is_some (find new a) then find old a else none)
  find-kept a =
      find-select (λ i v. not (is_set d.removed i) || contains_address d.added v.address)
        (λ x. is_some (find new x)) old 0 a
        (λ j v g.
          let at : 0 + j ≡ j = omega arith in
          let removed : is_set d.removed (0 + j) ≡ not (is_some (find new v.address)) =
            ap (is_set d.removed) at ∙ h.removed j v g in
          let added : contains_address d.added v.address ≡ false =
            index-find d.added v.address
            ∙ ap (λ xs. is_some (find xs v.address)) h.added
            ∙ ground (arith, find-fresh old new v.address, find-elem old j v g) in
          ground (arith, removed, added))

  -- Both loops of ApplyDelta succeed.
  apply-IsDelta :
      (r : AccountSet) × (apply_delta old d ≡ some r) × ((a : ℕ) → find r a ≡ find new a)
  apply-IsDelta =
      let grown = kept d old ++ fresh old new in
      let clear : (a : ℕ) → is_some (find (fresh old new) a) ≡ true → find (kept d old) a ≡ none =
        λ a e. ground (arith, e, find-fresh old new a, find-kept a) in
      let whole : (a : ℕ)
          → find grown a
            ≡ or_else (kept_of (find old a) (find new a)) (fresh_of (find old a) (find new a)) =
        λ a.
          find-append (kept d old) (fresh old new) a
          ∙ ap (λ x. or_else x (find (fresh old new) a)) (find-kept a)
          ∙ ap (or_else (kept_of (find old a) (find new a))) (find-fresh old new a) in
      let part : (a : ℕ) → find (changed old new) a ≡ changed_of (find old a) (find new a) =
        λ a. find-changed old new a q in
      let there : (a : ℕ)
          → is_some (find (changed old new) a) ≡ true
          → is_some (find grown a) ≡ true =
        λ a e.
          ap is_some (whole a)
          ∙ changed_there (find old a) (find new a) (sym (ap is_some (part a)) ∙ e) in
      let added = add_all_lem (fresh old new) (kept d old) (fresh-Distinct old new q) clear in
      let (r, updated, found) =
        update_all_lem (changed old new) grown (changed-Distinct old new q) there in
      (
        r,
        apply_delta_lem old d
            ∙ ap (λ xs. add_all xs (kept d old) >>= update_all d.updated) h.added
            ∙ ap (λ o. o >>= update_all d.updated) added
            ∙ ap (λ us. update_all us grown) h.updated
            ∙ updated,
        λ a.
            found a
            ∙ ap (λ x. or_else x (find grown a)) (part a)
            ∙ ap (or_else (changed_of (find old a) (find new a))) (whole a)
            ∙ merged (find old a) (find new a),
      )

-- For an old set of distinct addresses, none of them zero, and a new one of distinct addresses: a
-- delta that createValidatorSetDelta gives is accepted by ApplyDelta on the old set, and the result
-- has for every address the very validator, or none, that the new set has.
pub create_then_apply :
    (old new : AccountSet) (d : ValidatorSetDelta)
    → Distinct old
    → Distinct new
    → get_validator_metadata old 0 ≡ none
    → create_validator_set_delta old new ≡ some d
    → (r : AccountSet) × (apply_delta old d ≡ some r)
      × ((a : ℕ) → get_validator_metadata r a ≡ get_validator_metadata new a)
create_then_apply old new d p q z h =
    let zero_free = sym (get_validator_metadata_lem old 0) ∙ z in
    let (r, done, found) = apply-IsDelta old new q d (create-IsDelta old new p q zero_free d h) in
    (
      r,
      done,
      λ a. get_validator_metadata_lem r a ∙ found a ∙ sym (get_validator_metadata_lem new a),
    )
