-- ===== src/Base/Lists.antt =====
-- Lists measured and indexed by native numbers, under the library's names.
use Prim.Native.Nat.{ℕ, zero, suc, ◌+◌}
use mathlib.Core.Path.{◌≡◌, refl, ap, ◌∙◌}
use mathlib.Core.Logic.{∥∥₁_elim}
use mathlib.Core.List.{List, [], ◌∷◌, ◌++◌, Perm, Permᴰ}
use native.Mathlib.Nat.{ℕ_set}
use native.Mathlib.Omega.{arith}

module _ {ℓ} {A : Type ℓ} where
  abbrev pub length : List A → ℕ
  length [] = 0
  length (x ∷ xs) = suc (length xs)

  abbrev pub set : List A → ℕ → A → List A
  set [] i v = []
  set (x ∷ xs) zero v = v ∷ xs
  set (x ∷ xs) (suc i) v = x ∷ set xs i v

  abbrev pub get_or : List A → ℕ → A → A
  get_or [] i d = d
  get_or (x ∷ xs) zero d = x
  get_or (x ∷ xs) (suc i) d = get_or xs i d

  abbrev pub take : ℕ → List A → List A
  take zero xs = []
  take (suc n) [] = []
  take (suc n) (x ∷ xs) = x ∷ take n xs

  pub length-append : (xs ys : List A) → length (xs ++ ys) ≡ length xs + length ys
  length-append [] ys = omega arith
  length-append (x ∷ xs) ys = omega (arith, length-append xs ys)

module _ {ℓ} {A : Type ℓ} (f : A → ℕ) where
  -- The sum of a measure over a list.
  abbrev pub total : List A → ℕ
  total [] = 0
  total (x ∷ xs) = f x + total xs

  pub total-append : (xs ys : List A) → total (xs ++ ys) ≡ total xs + total ys
  total-append [] ys = omega arith
  total-append (x ∷ xs) ys = omega (arith, total-append xs ys)

  Permᴰ-total : {a b : List A} → Permᴰ a b → total a ≡ total b
  Permᴰ-total Permᴰ.nil = refl
  Permᴰ-total (Permᴰ.cons e p) = omega (arith, ap f e, Permᴰ-total p)
  Permᴰ-total (Permᴰ.swap e e') = omega (arith, ap f e, ap f e')
  Permᴰ-total (Permᴰ.trans p q) = Permᴰ-total p ∙ Permᴰ-total q

  pub total-perm : {a b : List A} → Perm a b → total a ≡ total b
  total-perm p = ∥∥₁_elim p (ℕ_set _ _) Permᴰ-total

module _ {ℓ} {A : Type ℓ} where
  -- A length is a sum of ones.
  length-total : (xs : List A) → total (λ _. 1) xs ≡ length xs
  length-total [] = refl
  length-total (x ∷ xs) = omega (arith, length-total xs)

  pub length-perm : {a b : List A} → Perm a b → length a ≡ length b
  length-perm {a = a} {b = b} p =
      omega (arith, total-perm (λ _. 1) p, length-total a, length-total b)
