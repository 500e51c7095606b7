-- ===== src/Plgbft/Delta/Walk.antt =====
-- The second loop of createValidatorSetDelta, over the new validators.
use go_plgchain.Base.{
  ℕ, ◌≡◌, inl, inr, refl, sym, ap, ◌∙◌, subst, List, [], ◌∷◌, ◌++◌, true, not, none, some,
  append_assoc, append-nil, if◌then◌else◌, bind_inv, arith, Option-cases,
}
use mathlib.Core.Option.{some_inj}
use go_plgchain.Base.Dict.{lookup, delete}
use go_plgchain.Plgbft.AccountSet.{ValidatorMetadata, AccountSet, equals, is_some}
use go_plgchain.Plgbft.AccountSet.Laws.{find}
use go_plgchain.Plgbft.Delta.{Diff, diff_one, diff_all}
use go_plgchain.Plgbft.Delta.Create.{fresh, changed, Entry}
use go_plgchain.Plgbft.Delta.Removed.{Entry-delete, Entry-delete_inv}

-- How the variables stand after the loop over `vs`.
pub record IsWalked (old vs : AccountSet) (d e : Diff) : Type 0 where
  pub added : e.added ≡ d.added ++ fresh old vs
  pub updated : e.updated ≡ d.updated ++ changed old vs
  pub left :
      (a j : ℕ)
      → Entry e.removed a j
      → Entry d.removed a j × (is_some (find old a) ≡ true → find vs a ≡ none)
  pub stays : (a j : ℕ) → Entry d.removed a j → find vs a ≡ none → Entry e.removed a j

fresh-cons :
    (old : AccountSet) (v : ValidatorMetadata) (vs : AccountSet)
    → fresh old (v ∷ []) ++ fresh old vs ≡ fresh old (v ∷ vs)
unfolding fresh
fresh-cons old v vs = ground arith

changed-cons :
    (old : AccountSet) (v : ValidatorMetadata) (vs : AccountSet)
    → changed old (v ∷ []) ++ changed old vs ≡ changed old (v ∷ vs)
unfolding changed
changed-cons old v vs = ground arith

-- The rounds add up.
IsWalked-trans :
    (old : AccountSet) (v : ValidatorMetadata) (vs : AccountSet) (d m e : Diff)
    → IsWalked old (v ∷ []) d m
    → IsWalked old vs m e
    → IsWalked old (v ∷ vs) d e
unfolding find
IsWalked-trans old v vs d m e f g = record {
  added =
      g.added
      ∙ ap (λ xs. xs ++ fresh old vs) f.added
      ∙ append_assoc d.added (fresh old (v ∷ [])) _
      ∙ ap (λ xs. d.added ++ xs) (fresh-cons old v vs);
  updated =
      g.updated
      ∙ ap (λ xs. xs ++ changed old vs) f.updated
      ∙ append_assoc d.updated (changed old (v ∷ [])) _
      ∙ ap (λ xs. d.updated ++ xs) (changed-cons old v vs);
  left = λ a j t.
      let (mid, later) = g.left a j t in
      let (first, here) = f.left a j mid in (first, λ q. ground (arith, here q, later q));
  stays = λ a j t n. g.stays a j (f.stays a j t (ground (arith, n))) (ground (arith, n));
}

module _ (old : AccountSet) (v : ValidatorMetadata) (d m : Diff) where
  walk_added :
      find old v.address ≡ none
      → record d { added = d.added ++ v ∷ [] } ≡ m
      → IsWalked old (v ∷ []) d m
  unfolding find fresh changed
  walk_added n q = subst (IsWalked old (v ∷ []) d) q (record {
    added = ground (arith, n);
    updated = ground (arith, n, append-nil d.updated);
    left = λ a j t. (t, λ s. ground (arith, n, s, λ (w : v.address ≡ a). ap (find old) w));
    stays = λ a j t _. t;
  })

  walk_known :
      (o : ValidatorMetadata)
      → find old v.address ≡ some o
      → record d {
        removed = delete v.address d.removed;
        updated = if not (equals o v) then d.updated ++ v ∷ [] else d.updated;
      }
        ≡ m
      → IsWalked old (v ∷ []) d m
  unfolding find fresh changed
  walk_known o f q = subst (IsWalked old (v ∷ []) d) q (record {
    added = ground (arith, f, append-nil d.added);
    updated = ground (arith, f, append-nil d.updated);
    left = λ a j t.
        let (other, before) = Entry-delete_inv v.address d.removed a j t in
        (before, λ s. ground (arith, λ (w : v.address ≡ a). other (sym w)));
    stays = λ a j t n. Entry-delete v.address d.removed a j (λ w. ground (arith, n, w)) t;
  })

module _ (old : AccountSet) (known : List (ℕ × ValidatorMetadata))
    (same : (a : ℕ) → lookup a known ≡ find old a) where
  diff_one-IsWalked :
      (v : ValidatorMetadata) (d m : Diff) → diff_one known v d ≡ some m → IsWalked old (v ∷ []) d m
  unfolding diff_one
  diff_one-IsWalked v d m h = elim (Option-cases (find old v.address)) [
    | inl n ↦ walk_added old v d m n (ground (arith, same v.address, n, h))
    | inr (o, f) ↦ walk_known old v d m o f (ground (arith, same v.address, f, h))
  ]

  pub diff_all-IsWalked :
      (vs : AccountSet) (d e : Diff) → diff_all known vs d ≡ some e → IsWalked old vs d e
  unfolding diff_all fresh changed find
  diff_all-IsWalked [] d e h = subst (IsWalked old [] d) (some_inj.0 h) (record {
    added = sym (append-nil d.added);
    updated = sym (append-nil d.updated);
    left = λ a j t. (t, λ _. refl);
    stays = λ a j t _. t;
  })
  diff_all-IsWalked (v ∷ vs) d e h =
      let (m, one, rest) = bind_inv (diff_one known v d) (diff_all known vs) h in
      IsWalked-trans old v vs d m e (diff_one-IsWalked v d m one) (diff_all-IsWalked vs m e rest)
