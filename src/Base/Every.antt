-- ===== src/Base/Every.antt =====
-- A property of every entry of a list, by recursion, so that tactics read it entry by entry.
use Prim.Native.Nat.{ℕ, suc, ◌<◌}
use mathlib.Core.Path.{subst}
use mathlib.Core.HLevel.{×_prop}
use mathlib.Core.Logic.{∥∥₁_elim}
use mathlib.Core.List.{List, [], ◌∷◌, ◌++◌, Perm, Permᴰ}
use native.Mathlib.Omega.{arith}
use go_plgchain.Base.Lists.{length, get_or}

abbrev pub All {ℓ κ} : {A : Type ℓ} → (A → Type κ) → List A → Type κ
All P [] = Unit
All P (x ∷ xs) = P x × All P xs

module _ {ℓ κ} {A : Type ℓ} (P : A → Type κ) where
  pub All-get_or : (d : A) (xs : List A) → ((i : ℕ) → i < length xs → P (get_or xs i d)) → All P xs
  All-get_or d [] h = tt
  All-get_or d (x ∷ xs) h = (h 0 (omega arith), All-get_or d xs (λ i p. h (suc i) (omega arith)))

  pub All-append : (xs ys : List A) → All P xs → All P ys → All P (xs ++ ys)
  All-append [] ys p q = q
  All-append (x ∷ xs) ys p q = (p.0, All-append xs ys p.1 q)

  pub All-mono {κ'} :
      (Q : A → Type κ') → ((x : A) → P x → Q x) → (xs : List A) → All P xs → All Q xs
  All-mono Q f [] p = tt
  All-mono Q f (x ∷ xs) p = (f x p.0, All-mono Q f xs p.1)

  Permᴰ-All : {xs ys : List A} → Permᴰ xs ys → All P xs → All P ys
  Permᴰ-All Permᴰ.nil p = p
  Permᴰ-All (Permᴰ.cons e h) p = (subst P e p.0, Permᴰ-All h p.1)
  Permᴰ-All (Permᴰ.swap e f) p = (subst P f p.1.0, (subst P e p.0, p.1.1))
  Permᴰ-All (Permᴰ.trans h k) p = Permᴰ-All k (Permᴰ-All h p)

  All-prop : ((x : A) → IsProp (P x)) → (xs : List A) → IsProp (All P xs)
  All-prop h [] = hlevel
  All-prop h (x ∷ xs) = ×_prop (h x) (All-prop h xs)

  pub All-perm : ((x : A) → IsProp (P x)) → {xs ys : List A} → Perm xs ys → All P xs → All P ys
  All-perm h {ys = ys} p q = ∥∥₁_elim p (All-prop h ys) (λ d. Permᴰ-All d q)

  pub All-append_left : (xs ys : List A) → All P (xs ++ ys) → All P xs
  All-append_left [] ys p = tt
  All-append_left (x ∷ xs) ys p = (p.0, All-append_left xs ys p.1)

  pub All-append_right : (xs ys : List A) → All P (xs ++ ys) → All P ys
  All-append_right [] ys p = p
  All-append_right (x ∷ xs) ys p = All-append_right xs ys p.1

  -- One entry of a list, and the others.
  pub All-middle :
      (xs : List A) (x : A) (ys : List A) → All P (xs ++ x ∷ ys) → P x × All P (xs ++ ys)
  All-middle [] x ys p = p
  All-middle (z ∷ xs) x ys p = let (q, r) = All-middle xs x ys p.1 in (q, (p.0, r))
