-- ===== src/Heap/Order.antt =====
-- The heap order of container/heap.
use go_plgchain.Base.{ℕ, zero, suc, ◌<◌, ◌≡◌, List, false, length, arith}
use go_plgchain.Heap.{Interface, parent, at, less_at}

module _ {ℓ} {A : Type ℓ} (o : Interface A) where
  -- The entry at j is not less than the one at i.
  abbrev pub Le : List A → ℕ → ℕ → Type 0
  Le a i j = less_at o a j i ≡ false

  -- No entry is less than its parent.
  abbrev pub IsHeap : List A → Type 0
  IsHeap a = (c : ℕ) → 0 < c → c < length a → Le a (parent c) c

  pub Le-refl : (a : List A) (i : ℕ) → Le a i i
  Le-refl a i = ground (arith, o.asym (at o a i) (at o a i))

  below_root : (k : ℕ) (a : List A) (i : ℕ) → IsHeap a → i < k → i < length a → Le a 0 i
  below_root zero a i h f p = absurd (omega arith)
  below_root (suc k) a zero h f p = Le-refl a 0
  below_root (suc k) a (suc i) h f p =
      o.trans (at o a 0) (at o a (parent (suc i))) (at o a (suc i))
        (below_root k a (parent (suc i)) h (omega arith) (omega arith)) (h (suc i) (omega arith) p)

  -- No entry of a heap is less than its root.
  pub root_least : (a : List A) (i : ℕ) → IsHeap a → i < length a → Le a 0 i
  root_least a i h p = below_root (suc i) a i h (omega arith) p
