-- ===== src/TxPool/Steps.antt =====
-- The pool in its environment: any interleaving of the handlers of txpool/txpool.go, each run whole.
-- Requests that were sent are handled in any order. Consensus pops, drops and demotes transactions of
-- accounts that the pool has. Pop takes whatever heads the promoted queue and counts down for the
-- transaction that it is given: `heads` says whether each Pop of a run is given the head, as Peek gives
-- it and as it stays where no event resets the account between the two.
-- The handlers of the two requests and of events change the gauge and `pending` after they release the
-- account's locks, so what holds of the counters holds between handlers and not within them.
use go_plgchain.Base.{
  ℕ, ◌<◌, ◌≡◌, ◌%◌, refl, subst, List, ◌∷◌, ◌++◌, Bool, true, false, Option, some, ◌⊎◌, arith,
}
use go_plgchain.Base.Dict.{lookup, sum}
use go_plgchain.Base.Word.{max_u64, u64_mod}
use go_plgchain.Types.{Transaction}
use go_plgchain.TxPool.Queue.{Txs, peek}
use go_plgchain.TxPool.Account.{Account}
use go_plgchain.TxPool.Account.Invariant.{IsValid, IsSettled}
use go_plgchain.TxPool.State.{
  Codec, Store, TxPool, Config, ForksInTime, new_tx_pool, get, set_sealing,
}
use go_plgchain.TxPool.Ingress.{
  add_tx, add_gossip_tx, handle_enqueue_request, handle_promote_request,
}
use go_plgchain.TxPool.Execution.{prepare, peek_executable, pop_tx, drop_tx, demote}
use go_plgchain.TxPool.Sync.{process_event, prune_accounts_with_nonce_holes}
use go_plgchain.TxPool.Sound.{account_slots, promoted_count}
use go_plgchain.TxPool.Invariant.{IsInv, contains, unbooked-IsInv}
use go_plgchain.TxPool.Invariant.Intake.{
  add_tx-IsInv, add_gossip_tx-IsInv, handle_enqueue_request-IsInv, handle_promote_request-IsInv,
}
use go_plgchain.TxPool.Invariant.Building.{
  prepare-IsInv, peek_executable-IsInv, pop_tx-IsInv, drop_tx-IsInv, demote-IsInv,
}
use go_plgchain.TxPool.Invariant.Following.{process_event-Ends, prune_accounts-IsInv}

module _ (codec : Codec) (heads : Bool) where
  -- No account of the environment sends a transaction with the last nonce of a uint64.
  pub data Step (p : TxPool) : TxPool → Type 0 where
    add :
        (store : Store) (tx : Transaction) → tx.nonce < max_u64 → Step p (add_tx codec store p tx).0
    gossip :
        (store : Store) (tx : Transaction)
        → tx.nonce < max_u64
        → Step p (add_gossip_tx codec store p (some tx))
    enqueue :
        (before after : Txs) (tx : Transaction) (q : TxPool)
        → p.enqueue_requests ≡ before ++ tx ∷ after
        → handle_enqueue_request codec (record p { enqueue_requests = before ++ after }) tx ≡ some q
        → Step p q
    promote :
        (before after : List ℕ) (addr : ℕ) (q : TxPool)
        → p.promote_requests ≡ before ++ addr ∷ after
        → handle_promote_request codec (record p { promote_requests = before ++ after }) addr
          ≡ some q
        → Step p q
    prepare_block : Step p (prepare p)
    peek_block : Step p (peek_executable p).0
    pop :
        (tx : Transaction) (a : Account) (q : TxPool)
        → get p tx.from ≡ some a
        → (heads ≡ true → peek a.promoted ≡ some tx)
        → pop_tx codec p tx ≡ some q
        → Step p q
    drop :
        (tx : Transaction) (a : Account) (q : TxPool)
        → get p tx.from ≡ some a
        → drop_tx codec p tx ≡ some q
        → Step p q
    demote_account :
        (tx : Transaction) (a : Account) (q : TxPool)
        → get p tx.from ≡ some a
        → demote codec p tx ≡ some q
        → Step p q
    event :
        (store : Store) (hashes : List ℕ) (q : TxPool)
        → process_event codec store hashes p ≡ some q
        → Step p q
    prune_holes :
        p.prune_requested ≡ true
        → Step p (record (prune_accounts_with_nonce_holes codec p) { prune_requested = false })
    cooled_down : p.prune_requested ≡ false → Step p (record p { pruner_waiting = true })
    set_seal : (on : Bool) → Step p (set_sealing on p)

  pub data Reach (p : TxPool) : TxPool → Type 0 where
    here : Reach p p
    next : {q r : TxPool} → Reach p q → Step q r → Reach p r

  some-eq : {p q : TxPool} {r : Option TxPool} → r ≡ some p → r ≡ some q → p ≡ q
  some-eq e f = cc

  -- What a total handler returned.
  returned :
      (r : Option TxPool) (q : TxPool)
      → (s : TxPool) × (r ≡ some s) × IsInv codec heads s
      → r ≡ some q
      → IsInv codec heads q
  returned r q (s, e, i) f = subst (IsInv codec heads) (some-eq e f) i

  -- Every step keeps the invariant.
  pub Step-IsInv : {p q : TxPool} → Step p q → IsInv codec heads p → IsInv codec heads q
  Step-IsInv {p} (add store tx small) i = add_tx-IsInv codec heads store p tx i small
  Step-IsInv {p} (gossip store tx small) i = add_gossip_tx-IsInv codec heads store p tx i small
  Step-IsInv {p} (enqueue before after tx q e f) i =
      returned _ q (handle_enqueue_request-IsInv codec heads p before after tx i e) f
  Step-IsInv {p} (promote before after addr q e f) i =
      returned _ q (handle_promote_request-IsInv codec heads p before after addr i e) f
  Step-IsInv {p} prepare_block i = prepare-IsInv codec heads p i
  Step-IsInv {p} peek_block i = peek_executable-IsInv codec heads p i
  Step-IsInv {p} (pop tx a q e h f) i = returned _ q (pop_tx-IsInv codec heads p tx a i e h) f
  Step-IsInv {p} (drop tx a q e f) i = returned _ q (drop_tx-IsInv codec heads p tx a i e) f
  Step-IsInv {p} (demote_account tx a q e f) i =
      returned _ q (demote-IsInv codec heads p tx a i e) f
  Step-IsInv {p} (event store hashes q f) i =
      returned _ q (process_event-Ends codec heads store hashes p i) f
  Step-IsInv {p} (prune_holes e) i =
      unbooked-IsInv codec heads _ _ _ _ _ _ _ _ (prune_accounts-IsInv codec heads p i)
  Step-IsInv {p} (cooled_down e) i = unbooked-IsInv codec heads p _ _ _ _ _ _ _ i
  Step-IsInv {p} (set_seal on) i = unbooked-IsInv codec heads p _ _ _ _ _ _ _ i

  new_tx_pool-IsInv :
      (forks : ForksInTime) (config : Config) → IsInv codec heads (new_tx_pool forks config)
  unfolding new_tx_pool lookup
  new_tx_pool-IsInv forks config = record {
    sound = record {
      accounts = λ addr a e. cc;
      gauge = λ h. omega arith;
      pending = λ h. omega arith;
    };
    awake = λ addr a e. cc;
    arriving = tt;
    asked = tt;
  }

  Reach-IsInv : {p q : TxPool} → IsInv codec heads p → Reach p q → IsInv codec heads q
  Reach-IsInv i here = i
  Reach-IsInv i (next r s) = Step-IsInv s (Reach-IsInv i r)

  module _ (forks : ForksInTime) (config : Config) (p : TxPool)
      (r : Reach (new_tx_pool forks config) p) where
    reached : IsInv codec heads p
    reached = Reach-IsInv (new_tx_pool-IsInv forks config) r

    -- In every reachable pool every account is well formed: both queues are heaps; the enqueued
    -- transactions are not below the expected nonce and within their limit; the promoted ones are
    -- consecutive, each nonce once, up to the expected one.
    pub accounts-IsValid : (addr : ℕ) (a : Account) → get p addr ≡ some a → IsValid a
    accounts-IsValid addr a e = (reached.sound.accounts addr a e).valid

    -- No promotion is lost: in every reachable pool an account with an enqueued transaction of the
    -- expected nonce has a promote request on its way.
    pub no_promotion_lost :
        (addr : ℕ) (a : Account)
        → get p addr ≡ some a
        → IsSettled a ⊎ (contains p.promote_requests addr ≡ true)
    no_promotion_lost addr a e = reached.awake addr a e

    -- In every reachable pool an enqueue request on its way, whichever comes next, is handled without
    -- a nil dereference.
    pub enqueue_never_faults :
        (before after : Txs) (tx : Transaction)
        → p.enqueue_requests ≡ before ++ tx ∷ after
        → (q : TxPool) × (handle_enqueue_request codec
              (record p { enqueue_requests = before ++ after })
              tx
            ≡ some q)
    enqueue_never_faults before after tx e =
        let (q, f, i) = handle_enqueue_request-IsInv codec heads p before after tx reached e in
        (q, f)

    -- In every reachable pool a promote request on its way, whichever comes next, is handled without a
    -- nil dereference.
    pub promote_never_faults :
        (before after : List ℕ) (addr : ℕ)
        → p.promote_requests ≡ before ++ addr ∷ after
        → (q : TxPool) × (handle_promote_request codec
              (record p { promote_requests = before ++ after })
              addr
            ≡ some q)
    promote_never_faults before after addr e =
        let (q, f, i) = handle_promote_request-IsInv codec heads p before after addr reached e in
        (q, f)

    -- In every reachable pool processEvent runs without a nil dereference, whatever blocks came and
    -- whatever the state holds.
    pub process_event_never_faults :
        (store : Store) (hashes : List ℕ)
        → (q : TxPool) × (process_event codec store hashes p ≡ some q)
    process_event_never_faults store hashes =
        let (q, f, i) = process_event-Ends codec heads store hashes p reached in (q, f)

-- The counters, on runs whose Pops are of heads.
module _ (codec : Codec) (forks : ForksInTime) (config : Config) (p : TxPool)
    (r : Reach codec true (new_tx_pool forks config) p) where
  -- In every pool that the handlers lead to, each run whole and in any order, where Pop is always
  -- given the transaction that heads the promoted queue of its account, the gauge shows the slots of
  -- all queued transactions, modulo 2^64.
  pub gauge_counts_slots : p.gauge.height ≡ sum (account_slots codec) p.accounts % u64_mod
  gauge_counts_slots = omega (arith, (reached codec true forks config p r).sound.gauge refl)

  -- In every pool that the handlers lead to, each run whole and in any order, where Pop is always
  -- given the transaction that heads the promoted queue of its account, pending is the number of
  -- promoted transactions, modulo 2^64.
  pub pending_counts_promoted : p.pending ≡ sum (promoted_count codec) p.accounts % u64_mod
  pending_counts_promoted = omega (arith, (reached codec true forks config p r).sound.pending refl)
