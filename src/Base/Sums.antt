-- ===== src/Base/Sums.antt =====
-- Sums of a measure over a list of numbers, such as the balances of addresses.
use Prim.Native.Nat.{ℕ, ◌+◌, ◌≤◌}
use mathlib.Core.Path.{◌≡◌, refl}
use mathlib.Core.List.{List, [], ◌∷◌}
use native.Mathlib.Omega.{arith}
use go_plgchain.Base.Lists.{total}
use go_plgchain.Base.Tests.{◌==◌, if◌then◌else◌}

-- How often a number stands in a list.
abbrev pub times : ℕ → List ℕ → ℕ
times a [] = 0
times a (b ∷ bs) = (if a == b then 1 else 0) + times a bs

pub total-add :
    (f g h : ℕ → ℕ) (xs : List ℕ)
    → ((a : ℕ) → f a ≡ g a + h a)
    → total f xs ≡ total g xs + total h xs
total-add f g h [] e = refl
total-add f g h (a ∷ xs) e = omega (arith, e a, total-add f g h xs e)

pub total-le : (f g : ℕ → ℕ) (xs : List ℕ) → ((a : ℕ) → f a ≤ g a) → total f xs ≤ total g xs
total-le f g [] e = omega arith
total-le f g (a ∷ xs) e = omega (arith, e a, total-le f g xs e)

total_nowhere :
    (a v : ℕ) (xs : List ℕ) → times a xs ≡ 0 → total (λ b. if a == b then v else 0) xs ≡ 0
total_nowhere a v [] h = refl
total_nowhere a v (b ∷ xs) h = ground (arith, h, total_nowhere a v xs)

-- An amount at an address that stands in the list once.
pub total_once :
    (a v : ℕ) (xs : List ℕ) → times a xs ≡ 1 → total (λ b. if a == b then v else 0) xs ≡ v
total_once a v [] h = absurd (omega arith)
total_once a v (b ∷ xs) h = ground (arith, h, total_nowhere a v xs, total_once a v xs)
