-- ===== src/Plgbft/Delta/Errors.antt =====
-- When createValidatorSetDelta refuses two sets.
use mathlib.Core.Option.{some_inj}
use go_plgchain.Base.{
  ℕ, zero, suc, ◌≡◌, ◌↔◌, inl, inr, refl, sym, ap, ◌∙◌, List, [], ◌∷◌, false, none, some, ◌>>=◌,
  arith, Option-cases,
}
use go_plgchain.Base.Dict.{lookup}
use go_plgchain.Plgbft.AccountSet.{
  ValidatorMetadata, AccountSet, equal_address_and_bls_key, get_elem?, get_validator_metadata,
}
use go_plgchain.Plgbft.AccountSet.Laws.{find, Distinct, get_validator_metadata_lem}
use go_plgchain.Plgbft.Delta.{Diff, index_old, diff_one, diff_all, create_validator_set_delta}
use go_plgchain.Plgbft.Delta.Create.{index_old-known}
use go_plgchain.Plgbft.Delta.Laws.{none_known}

-- A new validator whose address an old one has with another BLS key.
pub record Clash (old new : AccountSet) : Type 0 where
  pub at : ℕ
  pub newer : ValidatorMetadata
  pub older : ValidatorMetadata
  pub listed : get_elem? new at ≡ some newer
  pub known : get_validator_metadata old newer.address ≡ some older
  pub differs : equal_address_and_bls_key older newer ≡ false

module _ (old : AccountSet) (known : List (ℕ × ValidatorMetadata))
    (same : (a : ℕ) → lookup a known ≡ get_validator_metadata old a) where
  diff_all-refuses : (vs : AccountSet) (d : Diff) → diff_all known vs d ≡ none → Clash old vs
  unfolding diff_all diff_one
  diff_all-refuses [] d h = absurd (ground (arith, h))
  diff_all-refuses (v ∷ vs) d h = elim (Option-cases (diff_one known v d)) [
    | inl e ↦ elim (Option-cases (lookup v.address known)) [
      | inl n ↦ absurd (ground (arith, e, n))
      | inr (o, k) ↦ record {
        at = 0;
        newer = v;
        older = o;
        listed = refl;
        known = sym (same v.address) ∙ k;
        differs = ground (arith, e, k);
      }
    ]
    | inr (m, e) ↦
        let c = diff_all-refuses vs m (ground (arith, h, e)) in
        record {
          at = suc c.at;
          newer = c.newer;
          older = c.older;
          listed = c.listed;
          known = c.known;
          differs = c.differs;
        }
  ]

  clash-refused :
      (vs : AccountSet) (d : Diff) (n : ℕ) (v o : ValidatorMetadata)
      → get_elem? vs n ≡ some v
      → lookup v.address known ≡ some o
      → equal_address_and_bls_key o v ≡ false
      → diff_all known vs d ≡ none
  unfolding diff_all diff_one
  clash-refused [] d n v o g k f = absurd (cc)
  clash-refused (w ∷ vs) d zero v o g k f =
      let it : w ≡ v = some_inj.0 g in
      let here : diff_one known v d ≡ none = ground (arith, k, f) in
      ap (λ x. diff_one known x d >>= diff_all known vs) it ∙ ap (λ x. x >>= diff_all known vs) here
  clash-refused (w ∷ vs) d (suc n) v o g k f = elim (Option-cases (diff_one known w d)) [
    | inl e ↦ ap (λ x. x >>= diff_all known vs) e
    | inr (m, e) ↦ ap (λ x. x >>= diff_all known vs) e ∙ clash-refused vs m n v o g k f
  ]

-- For an old set of distinct addresses, none of them zero: createValidatorSetDelta fails exactly when
-- a new validator has the address of an old one with another BLS key.
pub create_refuses :
    (old new : AccountSet)
    → Distinct old
    → get_validator_metadata old 0 ≡ none
    → (create_validator_set_delta old new ≡ none) ↔ Clash old new
unfolding create_validator_set_delta
create_refuses old new p z =
    let maps = index_old 0 old [] [] in
    let start : Diff = record { added = []; updated = []; removed = maps.0 } in
    let same : (a : ℕ) → lookup a maps.1 ≡ get_validator_metadata old a = λ a.
      index_old-known 0 old [] [] a p (sym (get_validator_metadata_lem old 0) ∙ z)
      ∙ none_known (find old a) a
      ∙ sym (get_validator_metadata_lem old a) in
    (
      λ h. elim (Option-cases (diff_all maps.1 new start)) [
        | inl e ↦ diff_all-refuses old maps.1 same new start e
        | inr (m, e) ↦ absurd (ground (arith, h, e))
      ],
      λ c.
          let e =
            clash-refused old maps.1 same new start c.at c.newer c.older c.listed
              (same c.newer.address ∙ c.known) c.differs in
          ground (arith, e),
    )
