-- ===== src/TxPool/Account/Invariant.antt =====
-- When an account is well formed, and when it waits for nothing.
use go_plgchain.Base.{
  ℕ, ◌≤◌, ◌<◌, ◌≡◌, refl, sym, subst, ◌∷◌, Perm, Bool-cases, inl, inr, length, length-perm, arith,
  All, All-perm, ltb, ◌==◌,
}
use native.Mathlib.Bridge.{le_prop}
use go_plgchain.Base.Word.{max_u64}
use go_plgchain.Types.{Transaction}
use go_plgchain.TxPool.Queue.{push}
use go_plgchain.TxPool.Queue.Laws.{IsQueue, From, Below, nil-IsQueue, push_lem}
use go_plgchain.TxPool.Account.{
  Account, new_account, enqueue, Enqueued, ok, err, max_enqueued_limit_reached, nonce_too_low,
}
use go_plgchain.TxPool.Account.Run.{IsRun, nil-IsRun}
use mathlib.Core.List.Perm

-- Both queues are heaps; what is enqueued is not below the expected nonce; what is promoted is the
-- run of nonces before it; the enqueued queue respects its limit. No nonce is the last uint64.
pub record IsValid (a : Account) : Type 0 where
  pub enqueued : IsQueue a.enqueued
  pub promoted : IsQueue a.promoted
  pub waiting : From a.next_nonce a.enqueued
  pub small : Below max_u64 a.enqueued
  pub run : IsRun a.next_nonce a.promoted
  pub bounded : length a.enqueued ≤ a.max_enqueued

-- No enqueued transaction has the expected nonce: there is nothing to promote.
abbrev pub IsSettled : Account → Type 0
IsSettled a = All (λ t. a.next_nonce < t.nonce) a.enqueued

-- A new account is well formed and waits for nothing.
pub new_account-IsValid : (nonce limit : ℕ) → IsValid (new_account nonce limit)
new_account-IsValid nonce limit = record {
  enqueued = nil-IsQueue;
  promoted = nil-IsQueue;
  waiting = tt;
  small = tt;
  run = nil-IsRun nonce;
  bounded = omega arith;
}

-- What an enqueued transaction changes.
pub record Accepts (a : Account) (tx : Transaction) (b : Account) : Type 0 where
  pub valid : IsValid b
  pub added : Perm b.enqueued (tx ∷ a.enqueued)
  pub promoted : b.promoted ≡ a.promoted
  pub next_nonce : b.next_nonce ≡ a.next_nonce

-- A transaction ahead of the expected nonce leaves nothing to promote where there was nothing.
pub Accepts-IsSettled :
    (a : Account) (tx : Transaction) (b : Account)
    → Accepts a tx b
    → a.next_nonce < tx.nonce
    → IsSettled a
    → IsSettled b
Accepts-IsSettled a tx b h ahead s =
    subst (λ n. All (λ t. n < t.nonce) b.enqueued) (sym h.next_nonce)
      (All-perm (λ t. a.next_nonce < t.nonce) (λ t. le_prop) (Perm.symm h.added) (ahead, s))

push-Accepts :
    (a : Account) (tx : Transaction)
    → IsValid a
    → tx.nonce < max_u64
    → length a.enqueued < a.max_enqueued
    → a.next_nonce ≤ tx.nonce
    → Accepts a tx (record a { enqueued = push a.enqueued tx })
push-Accepts a tx v small room above =
    let (queue, added) = push_lem a.enqueued tx v.enqueued in
    let back = Perm.symm added in
    record {
      valid = record {
        enqueued = queue;
        promoted = v.promoted;
        waiting = All-perm (λ t. a.next_nonce ≤ t.nonce) (λ t. le_prop) back (above, v.waiting);
        small = All-perm (λ t. t.nonce < max_u64) (λ t. le_prop) back (small, v.small);
        run = v.run;
        bounded = omega (arith, length-perm added);
      };
      added = added;
      promoted = refl;
      next_nonce = refl;
    }

-- The three ways in which `enqueue` ends, each with its condition.
pub data EnqueueEnds (a : Account) (tx : Transaction) : Enqueued → Type 0 where
  full : length a.enqueued ≡ a.max_enqueued → EnqueueEnds a tx (err max_enqueued_limit_reached)
  too_low :
      length a.enqueued < a.max_enqueued
      → tx.nonce < a.next_nonce
      → EnqueueEnds a tx (err nonce_too_low)
  accepted :
      length a.enqueued < a.max_enqueued
      → a.next_nonce ≤ tx.nonce
      → {b : Account} → Accepts a tx b
      → EnqueueEnds a tx (ok b)

-- enqueue of a well-formed account ends in one of three ways: the queue is full and the transaction is
-- refused; there is room but its nonce is below the expected one, and it is refused; there is room
-- and it is accepted: it joins the enqueued queue, the rest of the account stays, and the account
-- stays well formed.
pub enqueue_ends :
    (a : Account) (tx : Transaction)
    → IsValid a
    → tx.nonce < max_u64
    → EnqueueEnds a tx (enqueue a tx)
unfolding enqueue
enqueue_ends a tx v small = elim (Bool-cases (length a.enqueued == a.max_enqueued)) [
  | inl no_room ↦ rw no_room (full (ground arith))
  | inr room ↦
      let free : length a.enqueued < a.max_enqueued = ground (arith, v.bounded) in
      elim (Bool-cases (ltb tx.nonce a.next_nonce)) [
        | inl low ↦ rw (room, low) (too_low free (ground arith))
        | inr fine ↦
            rw (room, fine)
              (accepted free (ground arith) (push-Accepts a tx v small free (ground arith)))
      ]
]

-- The counters of an account are free.
pub counters-IsValid :
    (a : Account) (demotions skips : ℕ)
    → IsValid a
    → IsValid (record a { demotions = demotions; skips = skips })
counters-IsValid a d k v = record {
  enqueued = v.enqueued;
  promoted = v.promoted;
  waiting = v.waiting;
  small = v.small;
  run = v.run;
  bounded = v.bounded;
}
