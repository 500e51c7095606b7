-- ===== src/TxPool/Queue.antt =====
-- txpool/queue.go: the two queues of the pool, each a container/heap with its own Less. Locks are
-- left out: every method assumes that its caller holds the queue's lock.
pub mod Laws
use go_plgchain.Base.{
  ℕ, zero, suc, ◌+◌, ◌%◌, ◌≡◌, List, [], ◌∷◌, Bool, true, false, Option, none, some, length, ltb,
  leb, ◌==◌, if◌then◌else◌, arith,
}
use go_plgchain.Base.Word.{u64_mod}
use go_plgchain.Heap
use go_plgchain.Heap.{Interface}
use go_plgchain.Types.{Transaction, zero_transaction}

-- minNonceQueue.Less: the lower nonce first, and the higher gas price between equal nonces.
unfoldable pub min_nonce_less : Transaction → Transaction → Bool
min_nonce_less a b = if a.nonce == b.nonce then ltb b.gas_price a.gas_price else ltb a.nonce b.nonce

-- maxPriceQueue.Less: Uint64() takes the low 64 bits of each price.
unfoldable pub max_price_less : Transaction → Transaction → Bool
max_price_less a b = ltb (b.gas_price % u64_mod) (a.gas_price % u64_mod)

pub min_nonce-asym : (a b : Transaction) → min_nonce_less a b ≡ true → min_nonce_less b a ≡ false
unfolding min_nonce_less
min_nonce-asym a b h = ground arith

pub min_nonce_trans :
    (a b c : Transaction)
    → min_nonce_less b a ≡ false
    → min_nonce_less c b ≡ false
    → min_nonce_less c a ≡ false
unfolding min_nonce_less
min_nonce_trans a b c h k = ground arith

pub max_price-asym : (a b : Transaction) → max_price_less a b ≡ true → max_price_less b a ≡ false
unfolding max_price_less
max_price-asym a b h = ground arith

pub max_price_trans :
    (a b c : Transaction)
    → max_price_less b a ≡ false
    → max_price_less c b ≡ false
    → max_price_less c a ≡ false
unfolding max_price_less
max_price_trans a b c h k = ground arith

abbrev pub min_nonce : Interface Transaction
min_nonce = record {
  less = min_nonce_less;
  unset = zero_transaction;
  asym = min_nonce-asym;
  trans = min_nonce_trans;
}

abbrev pub max_price : Interface Transaction
max_price = record {
  less = max_price_less;
  unset = zero_transaction;
  asym = max_price-asym;
  trans = max_price_trans;
}

-- The slice that both queues keep.
abbrev pub Txs : Type 0
Txs = List Transaction

-- accountQueue.peek, through minNonceQueue.Peek.
abbrev pub peek : Txs → Option Transaction
peek [] = none
peek (x ∷ q) = some x

unfoldable pub push : Txs → Transaction → Txs
push q tx = Heap.push min_nonce q tx

unfoldable pub pop : Txs → Option (Transaction × Txs)
pop q = Heap.pop min_nonce q

-- The loop of `prune`; length + 1 rounds are enough. A queue with a head never fails to pop.
unfoldable pub prune_loop : ℕ → ℕ → Txs → Txs × Txs
prune_loop zero nonce q = ([], q)
prune_loop (suc k) nonce q = elim (peek q) [
  | none ↦ ([], q)
  | some tx ↦ elim (leb nonce tx.nonce) [
    | true ↦ ([], q)
    | false ↦ elim (pop q) [
      | none ↦ ([], q)
      | some (t, rest) ↦ let r = prune_loop k nonce rest in (t ∷ r.0, r.1)
    ]
  ]
]

-- The pruned transactions, and the queue that is left.
unfoldable pub prune : ℕ → Txs → Txs × Txs
unfolding prune_loop
prune nonce q = prune_loop (length q + 1) nonce q

-- The removed transactions, and the empty queue.
unfoldable pub clear : Txs → Txs × Txs
clear q = (q, [])

-- pricedQueue.push, pop and clear.
unfoldable pub push_priced : Txs → Transaction → Txs
push_priced q tx = Heap.push max_price q tx

unfoldable pub pop_priced : Txs → Option (Transaction × Txs)
pop_priced q = Heap.pop max_price q
