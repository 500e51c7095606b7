-- ===== src/Heap/Laws.antt =====
-- What Push and Pop promise: the entries are kept, the heap order is kept, the least entry leaves.
use mathlib.Core.List.Perm
use go_plgchain.Base.{
  suc, ◌≡◌, refl, List, [], ◌∷◌, ◌++◌, Perm, some, length, take, get_or, swap, length-swap,
  get_or-swap, swap-perm, length-append, length-perm, append_one-perm, get_or-append-left,
  get_or-take, take-last, false, arith, All, All-get_or,
}
use go_plgchain.Heap.{Interface, parent, down, push, pop}
use go_plgchain.Heap.Order.{IsHeap, root_least}
use go_plgchain.Heap.Up.{UpInv, up_mends}
use go_plgchain.Heap.Down.{DownInv, down_mends}

module _ {ℓ} {A : Type ℓ} (o : Interface A) where
  pub nil-IsHeap : IsHeap o []
  nil-IsHeap c p q = absurd (omega arith)

  pushed-UpInv : (a : List A) (x : A) → IsHeap o a → UpInv o (a ++ x ∷ []) (length a)
  pushed-UpInv a x h =
      let n = length-append a (x ∷ []) in
      record {
        inside = omega arith;
        edges = λ c p q r. ground (
          arith,
          n,
          h c,
          get_or-append-left o.unset a (x ∷ []) c,
          get_or-append-left o.unset a (x ∷ []) (parent c),
        );
        over = λ c p q r s. absurd (omega arith);
      }

  -- A push keeps the order and adds the one entry.
  pub push_lem :
      (a : List A) (x : A) → IsHeap o a → IsHeap o (push o a x) × Perm (push o a x) (x ∷ a)
  unfolding push
  push_lem a x h =
      let m = up_mends o (a ++ x ∷ []) (length a) (pushed-UpInv a x h) in
      (m.0, Perm.trans m.1 (append_one-perm a x))

  -- The slice that Pop hands to `down`.
  abbrev cut : A → List A → List A
  cut x a = take (length a) (swap o.unset (x ∷ a) 0 (length a))

  cut-perm : (x : A) (a : List A) → Perm (cut x a) a
  cut-perm x a =
      let b = swap o.unset (x ∷ a) 0 (length a) in
      let last : get_or b (length a) o.unset ≡ x =
        ground (
          arith,
          get_or-swap o.unset (x ∷ a) 0 (length a) (omega arith) (omega arith) (length a),
        ) in
      let whole = take-last o.unset (length a) b (length-swap o.unset (x ∷ a) 0 (length a)) in
      Perm.cons_inv (
        Perm.trans (Perm.symm (append_one-perm (cut x a) x)) (
          rw (← whole, last) at
            (swap-perm o.unset (x ∷ a) 0 (length a) (omega arith) (omega arith))))

  cut-DownInv : (x : A) (a : List A) → IsHeap o (x ∷ a) → DownInv o (cut x a) 0
  cut-DownInv x a h =
      let b = swap o.unset (x ∷ a) 0 (length a) in
      let g = get_or-swap o.unset (x ∷ a) 0 (length a) (omega arith) (omega arith) in
      let kept = get_or-take o.unset (length a) b in
      let n = length-perm (cut-perm x a) in
      record {
        edges = λ c p q r. ground (arith, n, h c, g c, g (parent c), kept c, kept (parent c));
        over = λ c p q r s. absurd (omega arith);
      }

  -- No entry of a list is less than x.
  abbrev pub IsLeast : A → List A → Type 0
  IsLeast x = All (λ y. o.less y x ≡ false)

  -- What is left after a Pop of x from the heap x ∷ a.
  pub record Popped (x : A) (a b : List A) : Type ℓ where
    pub heap : IsHeap o b
    pub same : Perm b a
    pub least : IsLeast x a

  pub pop_lem :
      (x : A) (a : List A)
      → IsHeap o (x ∷ a)
      → (b : List A) × (pop o (x ∷ a) ≡ some (x, b)) × Popped x a b
  unfolding pop
  pop_lem x a h =
      let m = down_mends o (cut x a) 0 (cut-DownInv x a h) in
      (
        down o (cut x a) 0,
        refl,
        record {
          heap = m.0;
          same = Perm.trans m.1 (cut-perm x a);
          least =
              All-get_or (λ y. o.less y x ≡ false) o.unset a
                (λ i p. root_least o (x ∷ a) (suc i) h (omega arith));
        },
      )
