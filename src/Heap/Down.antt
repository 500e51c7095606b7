-- ===== src/Heap/Down.antt =====
-- The loop `down` mends a heap whose entry at one place may be greater than its children.
use mathlib.Core.List.Perm
use go_plgchain.Base.{
  ℕ, zero, suc, ◌+◌, ◌*◌, ◌<◌, ◌≡◌, ◌≢◌, List, Perm, length, swap, length-swap, get_or-swap,
  swap-perm, Bool-cases, inl, inr, true, false, arith, leb,
}
use go_plgchain.Heap.{Interface, parent, at, less_at, smaller, down_loop, down}
use go_plgchain.Heap.Order.{Le, IsHeap}

module _ {ℓ} {A : Type ℓ} (o : Interface A) where
  -- Every edge is in order but those below i, and i's children stand over i's parent.
  pub record DownInv (a : List A) (i : ℕ) : Type 0 where
    pub edges : (c : ℕ) → 0 < c → c < length a → parent c ≢ i → Le o a (parent c) c
    pub over : (c : ℕ) → 0 < c → c < length a → parent c ≡ i → 0 < i → Le o a (parent i) c

  -- The child that `smaller` picks is a child, inside, and no child is less than it.
  record IsSmaller (a : List A) (i m : ℕ) : Type 0 where
    inside : m < length a
    child : parent m ≡ i
    below : i < m
    least : (c : ℕ) → 0 < c → c < length a → parent c ≡ i → Le o a m c

  smaller-child :
      (a : List A) (i : ℕ)
      → 2 * i + 1 < length a
      → (smaller o a i < length a) × (parent (smaller o a i) ≡ i) × (i < smaller o a i)
  smaller-child a i h = ground arith

  smaller-least :
      (a : List A) (i : ℕ)
      → 2 * i + 1 < length a
      → (c : ℕ) → 0 < c
      → c < length a
      → parent c ≡ i
      → Le o a (smaller o a i) c
  smaller-least a i h c p q r = ground (
    arith,
    o.asym (at o a (2 * i + 1)) (at o a (2 * i + 1)),
    o.asym (at o a (2 * i + 2)) (at o a (2 * i + 2)),
    o.asym (at o a (2 * i + 2)) (at o a (2 * i + 1)),
  )

  settled-IsHeap :
      (a : List A) (i : ℕ)
      → DownInv a i
      → IsSmaller a i (smaller o a i)
      → less_at o a (smaller o a i) i ≡ false
      → IsHeap o a
  settled-IsHeap a i v s settled c p q =
      ground (
        arith,
        v.edges c,
        s.least c,
        o.trans (at o a i) (at o a (smaller o a i)) (at o a c) settled,
      )

  smaller-IsSmaller : (a : List A) (i : ℕ) → 2 * i + 1 < length a → IsSmaller a i (smaller o a i)
  smaller-IsSmaller a i h =
      let c = smaller-child a i h in
      record { inside = c.0; child = c.1; below = c.2; least = smaller-least a i h }

  module _ (a : List A) (i m : ℕ) (v : DownInv a i) (s : IsSmaller a i m)
      (less : less_at o a m i ≡ true) where
    abbrev b : List A
    b = swap o.unset a i m

    sinking_edges : (c : ℕ) → 0 < c → c < length a → parent c ≢ m → Le o b (parent c) c
    sinking_edges c p q r =
        let g = get_or-swap o.unset a i m (omega (arith, s.inside, s.below)) s.inside in
        ground (
          arith,
          g c,
          g (parent c),
          s.child,
          s.below,
          v.edges c,
          v.over m,
          s.least c,
          o.asym (at o a m) (at o a i) less,
        )

    sinking_over : (c : ℕ) → 0 < c → c < length a → parent c ≡ m → 0 < m → Le o b (parent m) c
    sinking_over c p q r t =
        let g = get_or-swap o.unset a i m (omega (arith, s.inside, s.below)) s.inside in
        ground (arith, g c, g (parent m), s.child, s.below, v.edges c)

    sink : DownInv b m
    sink =
        let n = length-swap o.unset a i m in
        record {
          edges = λ c p q. sinking_edges c p (omega arith);
          over = λ c p q. sinking_over c p (omega arith);
        }

  down_loop_mends :
      (k : ℕ) (a : List A) (i : ℕ)
      → length a < k + i
      → DownInv a i
      → IsHeap o (down_loop o k a i) × Perm (down_loop o k a i) a
  unfolding down_loop
  down_loop_mends zero a i f v = ((λ c p q. v.edges c p q (omega arith)), Perm.rfl)
  down_loop_mends (suc k) a i f v = elim (Bool-cases (leb (length a) (2 * i + 1))) [
    | inl leaf ↦ rw leaf ((λ c p q. v.edges c p q (ground arith)), Perm.rfl)
    | inr node ↦
        let s = smaller-IsSmaller a i (ground arith) in
        elim (Bool-cases (less_at o a (smaller o a i) i)) [
          | inr settled ↦ rw (node, settled) (settled-IsHeap a i v s settled, Perm.rfl)
          | inl less ↦
              let rest =
                down_loop_mends k (swap o.unset a i (smaller o a i)) (smaller o a i)
                  (omega (arith, length-swap o.unset a i (smaller o a i), s.below))
                  (sink a i (smaller o a i) v s less) in
              rw (node, less)
                (
                  rest.0,
                  Perm.trans rest.1 (
                      swap-perm o.unset a i (smaller o a i) (omega (arith, s.inside, s.below))
                        s.inside),
                )
        ]
  ]

  -- `down` ends in a heap of the same entries.
  pub down_mends : (a : List A) (i : ℕ) → DownInv a i → IsHeap o (down o a i) × Perm (down o a i) a
  unfolding down
  down_mends a i v = down_loop_mends (length a + 1) a i (omega arith) v
