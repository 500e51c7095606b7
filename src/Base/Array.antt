-- ===== src/Base/Array.antt =====
-- Go slices as lists: reads and swaps at an index. A read out of range, which in Go would panic,
-- gives the default `d`; every call is shown to stay in range where it matters.
use Prim.Native.Nat.{ℕ, zero, suc, ◌<◌}
use mathlib.Core.Path.{◌≡◌, refl, ap, ◌∙◌}
use mathlib.Core.List.{List, [], ◌∷◌, ◌++◌, Perm, perm_middle, append-nil}
use mathlib.Core.List.Perm
use native.Mathlib.Omega.{arith}
use go_plgchain.Base.Lists.{length, set, get_or, take}
use go_plgchain.Base.Tests.{◌==◌, if◌then◌else◌}

module _ {ℓ} {A : Type ℓ} (d : A) where
  unfoldable pub swap : List A → ℕ → ℕ → List A
  swap a i j = set (set a i (get_or a j d)) j (get_or a i d)

  pub length-set : (v : A) (xs : List A) (i : ℕ) → length (set xs i v) ≡ length xs
  length-set v [] _ = refl
  length-set v (y ∷ xs) zero = refl
  length-set v (y ∷ xs) (suc i) = ap suc (length-set v xs i)

  pub length-swap : (xs : List A) (i j : ℕ) → length (swap xs i j) ≡ length xs
  unfolding swap
  length-swap xs i j = length-set _ (set xs i (get_or xs j d)) j ∙ length-set _ xs i

  pub get_or-set :
      (v : A) (xs : List A) (i j : ℕ)
      → i < length xs
      → get_or (set xs i v) j d ≡ (if i == j then v else get_or xs j d)
  get_or-set v [] i j h = absurd (omega arith)
  get_or-set v (y ∷ xs) zero zero h = refl
  get_or-set v (y ∷ xs) zero (suc j) h = ground arith
  get_or-set v (y ∷ xs) (suc i) zero h = ground arith
  get_or-set v (y ∷ xs) (suc i) (suc j) h = ground (arith, get_or-set v xs i j)

  -- A write puts `v` in and takes the old entry out.
  set-perm :
      (v : A) (i : ℕ) (xs : List A) → i < length xs → Perm (v ∷ xs) (get_or xs i d ∷ set xs i v)
  set-perm v i [] h = absurd (omega arith)
  set-perm v zero (y ∷ xs) h = Perm.swap y v xs
  set-perm v (suc i) (y ∷ xs) h =
      Perm.trans (Perm.swap y v xs)
        (Perm.trans (Perm.cons y (set-perm v i xs (omega arith))) (Perm.swap _ y _))

  module _ (xs : List A) (i j : ℕ) (hi : i < length xs) (hj : j < length xs) where
    bound : j < length (set xs i (get_or xs j d))
    bound = omega (arith, length-set (get_or xs j d) xs i)

    pub get_or-swap :
        (c : ℕ)
        → get_or (swap xs i j) c d
          ≡ (if j == c then get_or xs i d else if i == c then get_or xs j d else get_or xs c d)
    unfolding swap
    get_or-swap c = ground (
      arith,
      bound,
      get_or-set (get_or xs i d) (set xs i (get_or xs j d)) j c,
      get_or-set (get_or xs j d) xs i c,
    )

    pub swap-perm : Perm (swap xs i j) xs
    unfolding swap
    swap-perm =
        let b = set xs i (get_or xs j d) in
        let same : get_or b j d ≡ get_or xs j d =
          ground (arith, get_or-set (get_or xs j d) xs i j) in
        let second = set-perm (get_or xs i d) j b bound in
        Perm.cons_inv
          (Perm.symm (Perm.trans (set-perm (get_or xs j d) i xs hi) (rw same at second)))

  pub get_or-append-left :
      (a b : List A) (i : ℕ) → i < length a → get_or (a ++ b) i d ≡ get_or a i d
  get_or-append-left [] b i h = absurd (omega arith)
  get_or-append-left (x ∷ a) b zero h = refl
  get_or-append-left (x ∷ a) b (suc i) h = get_or-append-left a b i (omega arith)

  pub get_or-take : (n : ℕ) (a : List A) (i : ℕ) → i < n → get_or (take n a) i d ≡ get_or a i d
  get_or-take zero a i h = absurd (omega arith)
  get_or-take (suc n) [] i h = refl
  get_or-take (suc n) (x ∷ a) zero h = refl
  get_or-take (suc n) (x ∷ a) (suc i) h = get_or-take n a i (omega arith)

  -- A slice is its prefix and its last entry.
  pub take-last : (n : ℕ) (a : List A) → length a ≡ suc n → take n a ++ get_or a n d ∷ [] ≡ a
  take-last n [] h = absurd (omega arith)
  take-last zero (x ∷ []) h = refl
  take-last zero (x ∷ y ∷ a) h = absurd (omega arith)
  take-last (suc n) (x ∷ a) h = ap (◌∷◌ x) (take-last n a (omega arith))

module _ {ℓ} {A : Type ℓ} where
  pub append_one-perm : (a : List A) (x : A) → Perm (a ++ x ∷ []) (x ∷ a)
  append_one-perm a x = rw (append-nil a) at (perm_middle {a = x} a [])
