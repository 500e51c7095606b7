-- ===== src/Plgbft/Delta/Apply.antt =====
-- What ApplyDelta makes of a delta that fits the set.
use go_plgchain.Base.{
  ℕ, suc, ◌≡◌, refl, sym, ap, ◌∙◌, [], ◌∷◌, ◌++◌, Bool, true, false, none, some, set, append_assoc,
  append-nil, ◌>>=◌, arith, inl, inr, Option-cases,
}
use go_plgchain.Plgbft.Bitmap.{Bitmap, is_set}
use go_plgchain.Plgbft.AccountSet.{
  ValidatorMetadata, AccountSet, index, contains_address, select, is_some,
}
use go_plgchain.Plgbft.AccountSet.Laws.{find, Distinct, or_else, index-find, find-append, find-set}
use go_plgchain.Plgbft.Delta.{ValidatorSetDelta, kept, add_all, update_all, apply_delta}

select-all :
    (test : ℕ → ValidatorMetadata → Bool) (i : ℕ) (vs : AccountSet)
    → ((j : ℕ) (v : ValidatorMetadata) → test j v ≡ true)
    → select test i vs ≡ vs
unfolding select
select-all test i [] h = refl
select-all test i (v ∷ vs) h = ground (arith, h i v, select-all test (suc i) vs h)

pub none_set : (j : ℕ) → is_set [] j ≡ false
unfolding is_set
none_set j = ground arith

by_fields :
    (vs added updated : AccountSet) (removed : Bitmap)
    → let d : ValidatorSetDelta = record { added = added; updated = updated; removed = removed } in
      apply_delta vs d ≡ (add_all added (kept d vs) >>= update_all updated)
unfolding apply_delta add_all update_all
by_fields vs [] [] [] = ap some (sym (select-all _ 0 vs (λ j v. ground (arith, none_set j))))
by_fields vs (v ∷ more) us r = ground arith
by_fields vs [] (u ∷ us) r = ground arith
by_fields vs [] [] (b ∷ r) = ground arith

-- The shortcut for an empty delta gives what the loops would.
pub apply_delta_lem :
    (vs : AccountSet) (d : ValidatorSetDelta)
    → apply_delta vs d ≡ (add_all d.added (kept d vs) >>= update_all d.updated)
apply_delta_lem vs d = by_fields vs d.added d.updated d.removed

-- Distinct validators that are not in the set are appended.
pub add_all_lem :
    (more vs : AccountSet)
    → Distinct more
    → ((a : ℕ) → is_some (find more a) ≡ true → find vs a ≡ none)
    → add_all more vs ≡ some (vs ++ more)
unfolding add_all find Distinct
add_all_lem [] vs p h = ap some (sym (append-nil vs))
add_all_lem (v ∷ more) vs p h =
    let self : is_some (find (v ∷ more) v.address) ≡ true = ground arith in
    let new : find vs v.address ≡ none = h v.address self in
    let absent : contains_address vs v.address ≡ false = index-find vs v.address ∙ ap is_some new in
    let clear : (a : ℕ) → is_some (find more a) ≡ true → find (vs ++ v ∷ []) a ≡ none =
      λ a e. ground (arith, p.0, h a, e, find-append vs (v ∷ []) a) in
    ground (arith, absent, add_all_lem more (vs ++ v ∷ []) p.1 clear, append_assoc vs (v ∷ []) more)

pub update_all_lem :
    (us vs : AccountSet)
    → Distinct us
    → ((a : ℕ) → is_some (find us a) ≡ true → is_some (find vs a) ≡ true)
    → (r : AccountSet) × (update_all us vs ≡ some r)
      × ((a : ℕ) → find r a ≡ or_else (find us a) (find vs a))
unfolding update_all find Distinct
update_all_lem [] vs p h = (vs, refl, λ a. refl)
update_all_lem (u ∷ us) vs p h =
    let self : is_some (find (u ∷ us) u.address) ≡ true = ground arith in
    elim (Option-cases (index vs u.address)) [
      | inl e ↦ absurd (ground (arith, e, h u.address self, index-find vs u.address))
      | inr (i, e) ↦
          let there : (a : ℕ) → is_some (find us a) ≡ true → is_some (find (set vs i u) a) ≡ true =
            λ a q. ground (arith, h a, q, find-set vs i u a e) in
          let (r, done, found) = update_all_lem us (set vs i u) p.1 there in
          (r, rw (e, update_all) done, λ a. ground (arith, found a, find-set vs i u a e, p.0))
    ]
