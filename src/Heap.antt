-- ===== src/Heap.antt =====
-- Go's container/heap over a slice: Push, Pop and the loops up and down that they call, for a type
-- with the Less of heap.Interface. Both queues of txpool/queue.go run on it. The program only calls
-- this package of the standard library; its loops are modelled because the order in which equal
-- entries leave, and the order in which `clear` hands them back, come from them.
pub mod Order
pub mod Up
pub mod Down
pub mod Laws
use go_plgchain.Base.{
  ℕ, zero, suc, ◌+◌, ◌-◌, ◌*◌, ◌/◌, ◌≡◌, List, [], ◌∷◌, ◌++◌, Bool, true, false, not, ◌&&◌, ◌||◌,
  Option, none, some, length, get_or, take, swap, leb, ltb, ◌==◌, if◌then◌else◌,
}

-- heap.Interface: Less, and what an unset entry reads as. The laws make "not less the other way" a
-- total preorder, which the package asks of its users.
pub record Interface {ℓ} (A : Type ℓ) : Type ℓ where
  pub less : A → A → Bool
  pub unset : A
  pub asym : (a b : A) → less a b ≡ true → less b a ≡ false
  pub trans : (a b c : A) → less b a ≡ false → less c b ≡ false → less c a ≡ false

abbrev pub parent : ℕ → ℕ
parent j = (j - 1) / 2

module _ {ℓ} {A : Type ℓ} (o : Interface A) where
  abbrev pub at : List A → ℕ → A
  at a i = get_or a i o.unset

  abbrev pub less_at : List A → ℕ → ℕ → Bool
  less_at a i j = o.less (at a i) (at a j)

  -- func up(h, j): fuel bounds the rounds, and j + 1 rounds are enough.
  up_loop : ℕ → List A → ℕ → List A
  up_loop zero a j = a
  up_loop (suc k) a j =
      let rest = up_loop k (swap o.unset a (parent j) j) (parent j) in
      if parent j == j || not (less_at a j (parent j)) then a else rest

  pub up : List A → ℕ → List A
  unfolding up_loop
  up a j = up_loop (j + 1) a j

  -- The index of the child that goes up: the right one only if it is there and less.
  abbrev pub smaller : List A → ℕ → ℕ
  smaller a i =
      if ltb (2 * i + 2) (length a) && less_at a (2 * i + 2) (2 * i + 1)
      then 2 * i + 2
      else 2 * i + 1

  -- func down(h, i, n) on the first n entries, which are the whole list here.
  down_loop : ℕ → List A → ℕ → List A
  down_loop zero a i = a
  down_loop (suc k) a i =
      let j = smaller a i in
      let rest = down_loop k (swap o.unset a i j) j in
      if leb (length a) (2 * i + 1) || not (less_at a j i) then a else rest

  pub down : List A → ℕ → List A
  unfolding down_loop
  down a i = down_loop (length a + 1) a i

  unfoldable pub push : List A → A → List A
  unfolding up
  push a x = up (a ++ x ∷ []) (length a)

  -- heap.Pop panics on an empty heap, which is `none` here; both queues test the length first.
  unfoldable pub pop : List A → Option (A × List A)
  unfolding down
  pop [] = none
  pop (x ∷ a) = some (x, down (take (length a) (swap o.unset (x ∷ a) 0 (length a))) 0)
