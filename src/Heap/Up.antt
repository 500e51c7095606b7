-- ===== src/Heap/Up.antt =====
-- The loop `up` mends a heap whose entry at one place may be less than its parent.
use mathlib.Core.List.Perm
use go_plgchain.Base.{
  ℕ, zero, suc, ◌+◌, ◌<◌, ◌≡◌, ◌≢◌, List, Perm, length, swap, length-swap, get_or-swap, swap-perm,
  Bool-cases, inl, inr, true, arith, ◌==◌,
}
use go_plgchain.Heap.{Interface, parent, at, less_at, up_loop, up}
use go_plgchain.Heap.Order.{Le, IsHeap}

module _ {ℓ} {A : Type ℓ} (o : Interface A) where
  -- Every edge is in order but the one above j, and j's children stand over j's parent.
  pub record UpInv (a : List A) (j : ℕ) : Type 0 where
    pub inside : j < length a
    pub edges : (c : ℕ) → 0 < c → c < length a → c ≢ j → Le o a (parent c) c
    pub over : (c : ℕ) → 0 < c → c < length a → parent c ≡ j → 0 < j → Le o a (parent j) c

  module _ (a : List A) (j : ℕ) (v : UpInv a j) (pos : 0 < j)
      (less : less_at o a j (parent j) ≡ true) where
    abbrev b : List A
    b = swap o.unset a (parent j) j

    rising_edges : (c : ℕ) → 0 < c → c < length a → c ≢ parent j → Le o b (parent c) c
    rising_edges c p q r =
        let g = get_or-swap o.unset a (parent j) j (omega arith) v.inside in
        let down = o.asym (at o a j) (at o a (parent j)) less in
        ground (
          arith,
          g c,
          g (parent c),
          down,
          v.edges c,
          v.over c,
          o.trans (at o a j) (at o a (parent j)) (at o a c) down,
        )

    rising_over :
        (c : ℕ)
        → 0 < c
        → c < length a
        → parent c ≡ parent j
        → 0 < parent j
        → Le o b (parent (parent j)) c
    rising_over c p q r s =
        let g = get_or-swap o.unset a (parent j) j (omega arith) v.inside in
        let above = v.edges (parent j) (omega arith) (omega arith) (omega arith) in
        ground (
          arith,
          g c,
          g (parent (parent j)),
          above,
          v.edges c,
          o.trans (at o a (parent (parent j))) (at o a (parent j)) (at o a c) above,
        )

    rise : UpInv b (parent j)
    rise =
        let n = length-swap o.unset a (parent j) j in
        let p : parent j < length b = omega arith in
        record {
          inside = p;
          edges = λ c q r. rising_edges c q (omega arith);
          over = λ c q r. rising_over c q (omega arith);
        }

  up_loop_mends :
      (k : ℕ) (a : List A) (j : ℕ)
      → j < k
      → UpInv a j
      → IsHeap o (up_loop o k a j) × Perm (up_loop o k a j) a
  unfolding up_loop
  up_loop_mends zero a j f v = absurd (omega arith)
  up_loop_mends (suc k) a j f v = elim (Bool-cases (parent j == j)) [
    | inl root ↦ rw root ((λ c p q. v.edges c p q (ground arith)), Perm.rfl)
    | inr inner ↦ elim (Bool-cases (less_at o a j (parent j))) [
      | inr settled ↦ rw (inner, settled) ((λ c p q. ground (arith, v.edges c)), Perm.rfl)
      | inl less ↦
          let pos : 0 < j = ground arith in
          let rest = up_loop_mends k _ (parent j) (omega arith) (rise a j v pos less) in
          rw (inner, less)
            (
              rest.0,
              Perm.trans rest.1
                  (swap-perm o.unset a (parent j) j (omega (arith, v.inside)) v.inside),
            )
    ]
  ]

  -- `up` ends in a heap of the same entries.
  pub up_mends : (a : List A) (j : ℕ) → UpInv a j → IsHeap o (up o a j) × Perm (up o a j) a
  unfolding up
  up_mends a j v = up_loop_mends (j + 1) a j (omega arith) v
