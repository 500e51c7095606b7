-- ===== src/TxPool/Queue/Laws.antt =====
-- The account queue as its clients see it: a multiset of transactions with a least nonce.
use mathlib.Core.List.Perm
use go_plgchain.Base.{
  ℕ, zero, suc, ◌+◌, ◌≤◌, ◌<◌, ◌≡◌, [], ◌∷◌, ◌++◌, Perm, Bool-cases, inl, inr, false, some, length,
  length-perm, leb, arith, All, All-mono,
}
use go_plgchain.Heap.Order.{IsHeap}
use go_plgchain.Heap.Laws.{nil-IsHeap, push_lem as heap_push_lem, pop_lem as heap_pop_lem}
use go_plgchain.Types.{Transaction}
use go_plgchain.TxPool.Queue.{Txs, min_nonce, min_nonce_less, push, pop, prune_loop, prune}

abbrev pub IsQueue : Txs → Type 0
IsQueue = IsHeap min_nonce

abbrev pub From : ℕ → Txs → Type 0
From n = All (λ t. n ≤ t.nonce)

abbrev pub Below : ℕ → Txs → Type 0
Below n = All (λ t. t.nonce < n)

least-nonce : (x y : Transaction) → min_nonce_less y x ≡ false → x.nonce ≤ y.nonce
unfolding min_nonce_less
least-nonce x y h = ground arith

-- The head of a queue has its least nonce.
pub head-least : (x : Transaction) (q : Txs) → IsQueue (x ∷ q) → From x.nonce (x ∷ q)
head-least x q h = (
  omega arith,
  All-mono (λ y. min_nonce_less y x ≡ false) (λ y. x.nonce ≤ y.nonce) (least-nonce x) q
      (heap_pop_lem min_nonce x q h).2.least,
)

pub nil-IsQueue : IsQueue []
nil-IsQueue = nil-IsHeap min_nonce

pub push_lem :
    (q : Txs) (tx : Transaction) → IsQueue q → IsQueue (push q tx) × Perm (push q tx) (tx ∷ q)
unfolding push
push_lem q tx h = heap_push_lem min_nonce q tx h

-- A pop of a queue with a head gives the head, and a queue of the others.
pub pop_lem :
    (x : Transaction) (q : Txs)
    → IsQueue (x ∷ q)
    → (rest : Txs) × (pop (x ∷ q) ≡ some (x, rest)) × IsQueue rest × Perm rest q
unfolding pop
pop_lem x q h = let (b, e, p) = heap_pop_lem min_nonce x q h in (b, e, p.heap, p.same)

-- How a queue splits by a nonce: what is gone lies below it, what is kept does not.
pub record Pruned (n : ℕ) (q : Txs) (r : Txs × Txs) : Type 0 where
  pub heap : IsQueue r.1
  pub same : Perm (r.0 ++ r.1) q
  pub gone : Below n r.0
  pub kept : From n r.1

prune_loop-Pruned : (k n : ℕ) (q : Txs) → length q < k → IsQueue q → Pruned n q (prune_loop k n q)
unfolding prune_loop
prune_loop-Pruned zero n q f h = absurd (omega arith)
prune_loop-Pruned (suc k) n [] f h = record { heap = h; same = Perm.rfl; gone = tt; kept = tt }
prune_loop-Pruned (suc k) n (x ∷ q) f h = elim (Bool-cases (leb n x.nonce)) [
  | inl stop ↦
      rw (stop, prune_loop)
        (record {
          heap = h;
          same = Perm.rfl;
          gone = tt;
          kept =
              All-mono (λ t. x.nonce ≤ t.nonce) (λ t. n ≤ t.nonce) (λ t p. ground arith) (x ∷ q)
                (head-least x q h);
        })
  | inr more ↦
      let (rest, popped, heap, same) = pop_lem x q h in
      let ih = prune_loop-Pruned k n rest (omega (arith, length-perm same)) heap in
      rw (more, popped, prune_loop)
        (record {
          heap = ih.heap;
          same = Perm.cons x (Perm.trans ih.same same);
          gone = (ground arith, ih.gone);
          kept = ih.kept;
        })
]

-- prune removes exactly the transactions with a nonce below the given one, and keeps a queue.
pub prune-Pruned : (n : ℕ) (q : Txs) → IsQueue q → Pruned n q (prune n q)
unfolding prune
prune-Pruned n q h = prune_loop-Pruned (length q + 1) n q (omega arith) h
