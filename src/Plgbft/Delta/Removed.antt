-- ===== src/Plgbft/Delta/Removed.antt =====
-- The map removedValidators of createValidatorSetDelta, as entries of an address and an index.
use go_plgchain.Base.{
  ℕ, zero, suc, ◌+◌, ◌≡◌, ◌≢◌, ◌⊎◌, inl, inr, refl, sym, subst, ◌∙◌, List, [], ◌∷◌, false, none,
  some, ◌==◌, ==_iff, if_elim, arith, Bool-cases,
}
use go_plgchain.Base.Dict.{insert, delete}
use go_plgchain.Plgbft.AccountSet.{ValidatorMetadata, AccountSet, get_elem?}
use go_plgchain.Plgbft.AccountSet.Laws.{find, Distinct}
use go_plgchain.Plgbft.Delta.{index_old}
use go_plgchain.Plgbft.Delta.Create.{Entry}

Entry-insert_inv :
    (key v : ℕ) (m : List (ℕ × ℕ)) (a j : ℕ)
    → Entry (insert key v m) a j
    → ((key ≡ a) × (v ≡ j)) ⊎ Entry m a j
unfolding Entry insert
Entry-insert_inv key v [] a j (inl e) = inl e
Entry-insert_inv key v [] a j (inr e) = absurd e
Entry-insert_inv key v ((b, i) ∷ m) a j e = elim (Bool-cases (b == key)) [
  | inl q ↦ elim (rw q at e) [
    | inl (p, r) ↦ inl (sym ((==_iff b key).0 q) ∙ p, r)
    | inr h ↦ inr (inr h)
  ]
  | inr q ↦ elim (rw q at e) [
    | inl h ↦ inr (inl h)
    | inr h ↦ elim (Entry-insert_inv key v m a j h) [
      | inl here ↦ inl here
      | inr there ↦ inr (inr there)
    ]
  ]
]

Entry-insert : (key v : ℕ) (m : List (ℕ × ℕ)) → Entry (insert key v m) key v
unfolding Entry insert
Entry-insert key v [] = inl (refl, refl)
Entry-insert key v ((b, i) ∷ m) =
    if_elim (λ r. Entry r key v) (b == key) (λ e. inl ((==_iff b key).0 e, refl))
      (λ e. inr (Entry-insert key v m))

Entry-insert_others :
    (key v : ℕ) (m : List (ℕ × ℕ)) (a j : ℕ) → a ≢ key → Entry m a j → Entry (insert key v m) a j
unfolding Entry insert
Entry-insert_others key v [] a j n e = absurd e
Entry-insert_others key v ((b, i) ∷ m) a j n e = elim e [
  | inl (p, r) ↦
      let miss : (b == key) ≡ false = ground (arith, λ (q : b ≡ key). n (sym p ∙ q)) in
      rw miss (inl (p, r))
  | inr h ↦
      if_elim (λ s. Entry s a j) (b == key) (λ q. inr h)
        (λ q. inr (Entry-insert_others key v m a j n h))
]

pub Entry-delete_inv :
    (key : ℕ) (m : List (ℕ × ℕ)) (a j : ℕ) → Entry (delete key m) a j → (a ≢ key) × Entry m a j
unfolding Entry delete
Entry-delete_inv key [] a j e = absurd e
Entry-delete_inv key ((b, i) ∷ m) a j e = elim (Bool-cases (b == key)) [
  | inl q ↦ let (n, h) = Entry-delete_inv key m a j (rw q at e) in (n, inr h)
  | inr q ↦ elim (rw q at e) [
    | inl (p, r) ↦ (λ w. ground (arith, q, (==_iff b key).1 (p ∙ w)), inl (p, r))
    | inr h ↦ let (n, t) = Entry-delete_inv key m a j h in (n, inr t)
  ]
]

pub Entry-delete :
    (key : ℕ) (m : List (ℕ × ℕ)) (a j : ℕ) → a ≢ key → Entry m a j → Entry (delete key m) a j
unfolding Entry delete
Entry-delete key [] a j n e = absurd e
Entry-delete key ((b, i) ∷ m) a j n e = elim e [
  | inl (p, r) ↦
      let miss : (b == key) ≡ false = ground (arith, λ (q : b ≡ key). n (sym p ∙ q)) in
      rw miss (inl (p, r))
  | inr h ↦
      if_elim (λ s. Entry s a j) (b == key) (λ q. Entry-delete key m a j n h)
        (λ q. inr (Entry-delete key m a j n h))
]

-- The position of an address.
abbrev pub At : AccountSet → ℕ → ℕ → ℕ → Type 0
At vs i a j =
    (n : ℕ) × (v : ValidatorMetadata) × (get_elem? vs n ≡ some v) × (v.address ≡ a) × (i + n ≡ j)

pub index_old_sound :
    (i : ℕ) (vs : AccountSet) (r : List (ℕ × ℕ)) (k : List (ℕ × ValidatorMetadata)) (a j : ℕ)
    → Entry ((index_old i vs r k).0) a j
    → Entry r a j ⊎ At vs i a j
unfolding index_old
index_old_sound i [] r k a j e = inl e
index_old_sound i (v ∷ vs) r k a j e =
    let later : At vs (suc i) a j → At (v ∷ vs) i a j =
      λ (n, w, g, p, q). (suc n, w, g, p, omega (arith, q)) in
    elim (Bool-cases (v.address == 0)) [
      | inl z ↦ elim (index_old_sound (suc i) vs r k a j (rw z at e)) [
        | inl old ↦ inl old
        | inr at ↦ inr (later at)
      ]
      | inr z ↦
          elim (index_old_sound (suc i) vs (insert v.address i r) (insert v.address v k) a j
            (rw z at e)) [
              | inl old ↦ elim (Entry-insert_inv v.address i r a j old) [
                | inl (p, q) ↦ inr (0, v, refl, p, omega (arith, q))
                | inr before ↦ inl before
              ]
              | inr at ↦ inr (later at)
            ]
    ]

index_old-keeps :
    (i : ℕ) (vs : AccountSet) (r : List (ℕ × ℕ)) (k : List (ℕ × ValidatorMetadata)) (a j : ℕ)
    → find vs a ≡ none
    → Entry r a j
    → Entry ((index_old i vs r k).0) a j
unfolding index_old find
index_old-keeps i [] r k a j n e = e
index_old-keeps i (v ∷ vs) r k a j n e =
    let away : (v.address == a) ≡ false = ground (arith, n) in
    let rest : find vs a ≡ none = ground (arith, n) in
    let other : a ≢ v.address = λ q. ground (arith, away, (==_iff v.address a).1 (sym q)) in
    if_elim (λ (s : List (ℕ × ℕ) × List (ℕ × ValidatorMetadata)). Entry s.0 a j) (v.address == 0)
      (λ z. index_old-keeps (suc i) vs r k a j rest e)
      (λ z.
        index_old-keeps (suc i) vs (insert v.address i r) (insert v.address v k) a j rest
          (Entry-insert_others v.address i r a j other e))

pub index_old_complete :
    (i : ℕ) (vs : AccountSet) (r : List (ℕ × ℕ)) (k : List (ℕ × ValidatorMetadata))
    → Distinct vs
    → find vs 0 ≡ none
    → (n : ℕ) (v : ValidatorMetadata) → get_elem? vs n ≡ some v
    → Entry ((index_old i vs r k).0) v.address (i + n)
unfolding index_old find Distinct
index_old_complete i [] r k p z n v h = absurd (cc)
index_old_complete i (w ∷ vs) r k p z zero v h =
    let away : (w.address == 0) ≡ false = ground (arith, z) in
    let same : w.address ≡ v.address = ground (arith, h) in
    let here =
      index_old-keeps (suc i) vs (insert w.address i r) (insert w.address w k) w.address i p.0
        (Entry-insert w.address i r) in
    let zero_more : i ≡ i + 0 = omega arith in
    let left = (index_old (suc i) vs (insert w.address i r) (insert w.address w k)).0 in
    rw away (subst (λ n. Entry left v.address n) zero_more (subst (λ x. Entry left x i) same here))
index_old_complete i (w ∷ vs) r k p z (suc n) v h =
    let away : (w.address == 0) ≡ false = ground (arith, z) in
    let rest : find vs 0 ≡ none = ground (arith, z) in
    let there =
      index_old_complete (suc i) vs (insert w.address i r) (insert w.address w k) p.1 rest n v h in
    let moved : suc i + n ≡ i + suc n = omega arith in
    let left = (index_old (suc i) vs (insert w.address i r) (insert w.address w k)).0 in
    rw away (subst (λ m. Entry left v.address m) moved there)
