-- ===== src/Plgbft/Delta/Create.antt =====
-- What createValidatorSetDelta puts into the parts of a delta.
use go_plgchain.Base.{
  ℕ, suc, ◌≡◌, ◌⊎◌, inl, inr, refl, ap, List, [], ◌∷◌, Bool, true, false, not, Option, none, some,
  ◌==◌, ==_iff, if_elim, if◌then◌else◌, arith, Bool-cases,
}
use go_plgchain.Base.Dict.{lookup, insert, lookup-insert}
use go_plgchain.Plgbft.Bitmap.{Bitmap, set_bit, is_set}
use go_plgchain.Plgbft.Bitmap.Laws.{is_set-set_bit}
use go_plgchain.Plgbft.AccountSet.{ValidatorMetadata, AccountSet, equals, is_some}
use go_plgchain.Plgbft.AccountSet.Laws.{find, Distinct, or_else}
use go_plgchain.Plgbft.Delta.{index_old, set_all}

-- The validators of `vs` that are not in `old`, and those that are but differ.
unfoldable pub fresh : AccountSet → AccountSet → AccountSet
fresh old [] = []
fresh old (v ∷ vs) =
    let rest = fresh old vs in if is_some (find old v.address) then rest else v ∷ rest

abbrev pub differs : Option ValidatorMetadata → ValidatorMetadata → Bool
differs none v = false
differs (some o) v = not (equals o v)

-- What changes of an address, by its old and its new validator.
abbrev pub changed_of :
    Option ValidatorMetadata → Option ValidatorMetadata → Option ValidatorMetadata
changed_of o none = none
changed_of o (some v) = if differs o v then some v else none

unfoldable pub changed : AccountSet → AccountSet → AccountSet
changed old [] = []
changed old (v ∷ vs) =
    let rest = changed old vs in if differs (find old v.address) v then v ∷ rest else rest

pub find-fresh :
    (old vs : AccountSet) (a : ℕ)
    → find (fresh old vs) a ≡ (if is_some (find old a) then none else find vs a)
unfolding find fresh
find-fresh old [] a = ground arith
find-fresh old (v ∷ vs) a =
    let same : v.address ≡ a → find old v.address ≡ find old a = λ q. ap (find old) q in
    ground (arith, same, find-fresh old vs a)

pub find-changed :
    (old vs : AccountSet) (a : ℕ)
    → Distinct vs
    → find (changed old vs) a ≡ changed_of (find old a) (find vs a)
unfolding find changed Distinct
find-changed old [] a p = refl
find-changed old (v ∷ vs) a p =
    let same : v.address ≡ a → find old v.address ≡ find old a = λ q. ap (find old) q in
    let here : v.address ≡ a → find vs v.address ≡ find vs a = λ q. ap (find vs) q in
    ground (arith, same, here, p.0, find-changed old vs a p.1)

pub fresh-Distinct : (old vs : AccountSet) → Distinct vs → Distinct (fresh old vs)
unfolding fresh Distinct
fresh-Distinct old [] p = p
fresh-Distinct old (v ∷ vs) p =
    if_elim Distinct (is_some (find old v.address)) (λ e. fresh-Distinct old vs p.1)
      (λ e. (ground (arith, find-fresh old vs v.address, p.0), fresh-Distinct old vs p.1))

pub changed-Distinct : (old vs : AccountSet) → Distinct vs → Distinct (changed old vs)
unfolding changed Distinct
changed-Distinct old [] p = p
changed-Distinct old (v ∷ vs) p =
    if_elim Distinct (differs (find old v.address) v)
      (λ e. (ground (arith, find-changed old vs v.address p.1, p.0), changed-Distinct old vs p.1))
      (λ e. changed-Distinct old vs p.1)

-- The maps of the first loop.
pub index_old-known :
    (i : ℕ) (vs : AccountSet) (r : List (ℕ × ℕ)) (k : List (ℕ × ValidatorMetadata)) (a : ℕ)
    → Distinct vs
    → find vs 0 ≡ none
    → lookup a ((index_old i vs r k).1) ≡ or_else (find vs a) (lookup a k)
unfolding index_old find Distinct
index_old-known i [] r k a p z = refl
index_old-known i (v ∷ vs) r k a p z =
    let here : v.address ≡ a → find vs v.address ≡ find vs a = λ q. ap (find vs) q in
    let later = index_old-known (suc i) vs (insert v.address i r) (insert v.address v k) a p.1 in
    ground (arith, z, here, p.0, later, lookup-insert v.address a v k)

-- `r` has the entry (a, j).
unfoldable pub Entry : List (ℕ × ℕ) → ℕ → ℕ → Type 0
Entry [] a j = ⊥
Entry ((b, i) ∷ r) a j = ((b ≡ a) × (i ≡ j)) ⊎ Entry r a j

pub set_all_sound :
    (r : List (ℕ × ℕ)) (b : Bitmap) (j : ℕ)
    → is_set (set_all r b) j ≡ true
    → (is_set b j ≡ true) ⊎ ((a : ℕ) × Entry r a j)
unfolding set_all Entry
set_all_sound [] b j h = inl h
set_all_sound ((a, i) ∷ r) b j h = elim (set_all_sound r (set_bit b i) j h) [
  | inl q ↦ elim (Bool-cases (i == j)) [
    | inl e ↦ inr (a, inl (refl, (==_iff i j).0 e))
    | inr e ↦ inl (ground (arith, e, q, is_set-set_bit b i j))
  ]
  | inr (x, e) ↦ inr (x, inr e)
]

pub set_all-old :
    (r : List (ℕ × ℕ)) (b : Bitmap) (j : ℕ) → is_set b j ≡ true → is_set (set_all r b) j ≡ true
unfolding set_all
set_all-old [] b j h = h
set_all-old ((a, i) ∷ r) b j h =
    set_all-old r (set_bit b i) j (ground (arith, is_set-set_bit b i j))

pub set_all_complete :
    (r : List (ℕ × ℕ)) (b : Bitmap) (a j : ℕ) → Entry r a j → is_set (set_all r b) j ≡ true
unfolding set_all Entry
set_all_complete [] b a j e = absurd e
set_all_complete ((c, i) ∷ r) b a j (inl (p, q)) =
    set_all-old r (set_bit b i) j (ground (arith, is_set-set_bit b i j))
set_all_complete ((c, i) ∷ r) b a j (inr e) = set_all_complete r (set_bit b i) a j e
