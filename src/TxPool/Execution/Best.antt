-- ===== src/TxPool/Execution/Best.antt =====
-- The executables of txpool/txpool.go: after Prepare, Peek gives a primary of the best price.
use mathlib.Core.List.Perm
use go_plgchain.Base.{
  ◌%◌, ◌≤◌, ◌≡◌, refl, sym, subst, [], ◌∷◌, ◌++◌, Perm, Option, none, some, All, All-mono, All-perm,
  arith, ◌⊎◌, inl, inr, append-nil, false,
}
use native.Mathlib.Bridge.{le_prop}
use go_plgchain.Base.Word.{u64_mod}
use mathlib.Core.List.{perm_middle}
use go_plgchain.Heap.{pop}
use go_plgchain.Heap.Order.{IsHeap}
use go_plgchain.Heap.Laws.{nil-IsHeap, push_lem, pop_lem}
use go_plgchain.Types.{Transaction}
use go_plgchain.TxPool.Queue.{Txs, max_price, max_price_less, push_priced, pop_priced}
use go_plgchain.TxPool.State.{TxPool, get_primaries}
use go_plgchain.TxPool.Execution.{push_all, prepare, peek_executable}

push_all_lem :
    (q txs : Txs)
    → IsHeap max_price q
    → IsHeap max_price (push_all q txs) × Perm (push_all q txs) (txs ++ q)
unfolding push_all push_priced
push_all_lem q [] h = (h, Perm.rfl)
push_all_lem q (tx ∷ txs) h =
    let (heap, same) = push_lem max_price q tx h in
    let (all, whole) = push_all_lem (push_priced q tx) txs heap in
    (all, Perm.trans whole (Perm.trans (Perm.append_left txs same) (perm_middle txs q)))

price_le :
    (x y : Transaction) → max_price_less y x ≡ false → y.gas_price % u64_mod ≤ x.gas_price % u64_mod
unfolding max_price_less
price_le x y h = ground arith

-- What a Peek finds: nothing, or one with the greatest price as Uint64 reads it.
abbrev pub Peeks : Txs → TxPool × Option Transaction → Type 0
Peeks es r =
    ((es ≡ []) × (r.1 ≡ none))
    ⊎ ((tx : Transaction) × (r.1 ≡ some tx)
        × Perm (tx ∷ r.0.executables) es
        × All (λ y. y.gas_price % u64_mod ≤ tx.gas_price % u64_mod) es)

pop-nil : pop max_price [] ≡ none
unfolding pop
pop-nil = refl

peek_on :
    (p : TxPool) (es : Txs)
    → p.executables ≡ es
    → IsHeap max_price es
    → Peeks es (peek_executable p)
unfolding peek_executable pop_priced
peek_on p [] e h = rw (e, pop-nil, peek_executable) (inl (refl, refl))
peek_on p (x ∷ q) e h =
    let (rest, popped, left) = pop_lem max_price x q h in
    rw (e, popped, peek_executable)
      (inr (
        x,
        refl,
        Perm.cons x left.same,
        (
          omega arith,
          All-mono (λ y. max_price_less y x ≡ false)
              (λ y. y.gas_price % u64_mod ≤ x.gas_price % u64_mod) (price_le x) q left.least,
        ),
      ))

Peeks-perm : (es fs : Txs) (r : TxPool × Option Transaction) → Perm es fs → Peeks es r → Peeks fs r
Peeks-perm es fs r p (inl (e, n)) = inl (sym (Perm.nil-eq (subst (λ xs. Perm xs fs) e p)), n)
Peeks-perm es fs r p (inr (tx, e, same, best)) = inr (
  tx,
  e,
  Perm.trans same p,
  All-perm (λ y. y.gas_price % u64_mod ≤ tx.gas_price % u64_mod) (λ y. le_prop) p best,
)

-- After Prepare, Peek gives nothing exactly if no account has a promoted transaction; otherwise it
-- gives a primary whose price, as Uint64 reads it, no primary exceeds, and the executables keep the
-- others.
pub prepare_then_peek : (p : TxPool) → Peeks (get_primaries p) (peek_executable (prepare p))
unfolding prepare
prepare_then_peek p =
    let (heap, same) = push_all_lem [] (get_primaries p) (nil-IsHeap max_price) in
    Peeks-perm (push_all [] (get_primaries p)) (get_primaries p) (peek_executable (prepare p))
      (Perm.trans same (rw append-nil Perm.rfl))
      (peek_on (prepare p) (push_all [] (get_primaries p)) refl heap)
