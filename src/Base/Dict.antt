-- ===== src/Base/Dict.antt =====
-- Go maps with number keys (addresses and hashes) as association lists, the first entry of a key
-- being the one that counts. A store replaces that entry or adds one at the end.
use Prim.Native.Nat.{ℕ, ◌+◌}
use mathlib.Core.Path.{◌≡◌, refl, subst}
use mathlib.Core.Option.{Option, none, some}
use mathlib.Core.List.{List, [], ◌∷◌, map}
use native.Mathlib.Omega.{arith}
use go_plgchain.Base.Tests.{◌==◌, if◌then◌else◌, ==_iff, Bool-cases}
use go_plgchain.Base.Lists.{total}
use mathlib.Core.Logic.{◌≢◌, inl, inr}

module _ {ℓ} {V : Type ℓ} where
  unfoldable pub lookup : ℕ → List (ℕ × V) → Option V
  lookup _ [] = none
  lookup key ((j, v) ∷ rest) = if j == key then some v else lookup key rest

  unfoldable pub insert : ℕ → V → List (ℕ × V) → List (ℕ × V)
  insert key v [] = (key, v) ∷ []
  insert key v ((j, old) ∷ rest) = if j == key then (j, v) ∷ rest else (j, old) ∷ insert key v rest

  -- delete(m, k).
  unfoldable pub delete : ℕ → List (ℕ × V) → List (ℕ × V)
  delete k [] = []
  delete k ((j, w) ∷ m) = if j == k then delete k m else (j, w) ∷ delete k m

  abbrev pub keys : List (ℕ × V) → List ℕ
  keys = map (λ e. e.0)

  -- The sum of a measure of the values.
  abbrev pub sum : (V → ℕ) → List (ℕ × V) → ℕ
  sum f m = total (λ e. f e.1) m

module _ {ℓ} {V : Type ℓ} where
  pub lookup-insert :
      (k j : ℕ) (v : V) (m : List (ℕ × V))
      → lookup j (insert k v m) ≡ (if k == j then some v else lookup j m)
  unfolding lookup insert
  lookup-insert key j _ [] = refl
  lookup-insert key j v ((i, old) ∷ rest) = ground (arith, lookup-insert key j v rest)

  pub lookup-delete :
      (k j : ℕ) (m : List (ℕ × V)) → lookup j (delete k m) ≡ (if k == j then none else lookup j m)
  unfolding lookup delete
  lookup-delete k j [] = ground arith
  lookup-delete k j ((i, w) ∷ m) = ground (arith, lookup-delete k j m)

  -- A store over a known key trades the measure of the old value for that of the new one.
  pub sum-insert :
      (f : V → ℕ) (k : ℕ) (v w : V) (m : List (ℕ × V))
      → lookup k m ≡ some v
      → sum f (insert k w m) + f v ≡ sum f m + f w
  unfolding lookup insert
  sum-insert f k v w [] e = cc
  sum-insert f k v w ((j, u) ∷ m) e = ground (arith, sum-insert f k v w m)

  -- A store under a new key adds the measure of the value.
  pub sum-insert_new :
      (f : V → ℕ) (k : ℕ) (w : V) (m : List (ℕ × V))
      → lookup k m ≡ none
      → sum f (insert k w m) ≡ sum f m + f w
  unfolding lookup insert
  sum-insert_new f k w [] e = omega arith
  sum-insert_new f k w ((j, u) ∷ m) e = ground (arith, sum-insert_new f k w m)

module _ {ℓ κ} {V : Type ℓ} (P : ℕ → V → Type κ) where
  -- A property of the value of every key.
  abbrev pub Each : List (ℕ × V) → Type (ℓ ⊔ κ)
  Each m = (k : ℕ) (v : V) → lookup k m ≡ some v → P k v

  -- A store asks it of the new value, and of the old ones under the other keys.
  pub Each-insert_others :
      (k : ℕ) (w : V) (m : List (ℕ × V))
      → P k w
      → ((j : ℕ) (v : V) → k ≢ j → lookup j m ≡ some v → P j v)
      → Each (insert k w m)
  Each-insert_others k w m p h j v e = elim (Bool-cases (k == j)) [
    | inl f ↦
        let same : w ≡ v = ground (arith, lookup-insert k j w m) in
        subst (λ i. P i v) ((==_iff k j).0 f) (subst (P k) same p)
    | inr f ↦ h j v (ground arith) (ground (arith, lookup-insert k j w m))
  ]

  pub Each-insert : (k : ℕ) (w : V) (m : List (ℕ × V)) → P k w → Each m → Each (insert k w m)
  Each-insert k w m p h = Each-insert_others k w m p (λ j v n e. h j v e)
