-- ===== src/TxPool/Invariant/Intake.antt =====
-- The invariant through addTx, addGossipTx, handleEnqueueRequest and handlePromoteRequest.
use mathlib.Core.List.Perm
use go_plgchain.Base.{
  Bool, ℕ, ◌<◌, ◌≡◌, ◌≢◌, refl, ap, sym, subst, List, [], ◌∷◌, ◌++◌, true, none, some, All,
  All-append, All-append_right, All-middle, total, total-perm, total-append, length, length-append,
  length-perm, Bool-cases, Option-cases, inl, inr, arith, ltb, ◌==◌, if◌then◌else◌, if_elim,
}
use go_plgchain.Base.Dict.{insert, Each, Each-insert_others}
use go_plgchain.Base.Word.{max_u64, add64}
use go_plgchain.Types.{Transaction, zero_address}
use go_plgchain.TxPool.Queue.{Txs}
use go_plgchain.TxPool.Account.{Account, new_account, enqueue, promote}
use go_plgchain.TxPool.Account
use go_plgchain.TxPool.Account.Invariant.{
  new_account-IsValid, Accepts, Accepts-IsSettled, EnqueueEnds, full, too_low, accepted,
  enqueue_ends, IsSettled,
}
use go_plgchain.TxPool.Account.Promotes.{Promotes, promote-Promotes}
use go_plgchain.TxPool.Gauge.{slots, slots_required, increase, high_pressure}
use go_plgchain.TxPool.Lookup
use go_plgchain.TxPool.State.{
  Codec, Store, TxPool, get, store_account, create_account_once, signal_pruning, add_pending,
}
use go_plgchain.TxPool.Ingress.{
  validate_tx, Validated, ok, err, admit, overflows, is_future, check_room, add_valid, check_sent,
  check_funds, check_gas, add_tx, add_gossip_tx, enqueue_end, handle_enqueue_request, promote_end,
  handle_promote_request,
}
use go_plgchain.TxPool.Sound.{
  IsSound, IsOwned, SentBy, SentBy-perm, SentBy-split, store-IsSound, add_pending-IsSound,
  create-IsSound, increase-IsSound, decrease-IsSound,
}
use go_plgchain.TxPool.Invariant.{
  IsInv, IsAwake, IsKnown, IsArriving, insert-IsKnown_self, insert-asked, insert-IsArriving,
  IsAwake-more, unbooked-IsInv, contains, contains-concat, contains-without,
}

-- Operations take the pool with the one request that they handle taken out.
module _ (codec : Codec) (heads : Bool) (p : TxPool) (i : IsInv codec heads p) where
  new_account-IsInv :
      (addr nonce : ℕ)
      → get p addr ≡ none
      → IsInv codec heads (record p {
        accounts = insert addr (new_account nonce p.max_enqueued_limit) p.accounts;
        count = add64 p.count 1;
      })
  new_account-IsInv addr nonce e =
      let a = new_account nonce p.max_enqueued_limit in
      let owned : IsOwned addr a = record {
        valid = new_account-IsValid nonce p.max_enqueued_limit;
        enqueued = tt;
        promoted = tt;
      } in
      let s = create-IsSound codec heads addr a p 0 0 e owned refl refl i.sound in
      record {
        sound = record { accounts = s.accounts; gauge = s.gauge; pending = s.pending };
        awake =
            Each-insert_others (IsAwake p.promote_requests) addr a p.accounts (inl tt)
              (λ j v n f. i.awake j v f);
        arriving = insert-IsArriving addr a p.accounts p.enqueue_requests i.arriving;
        asked = insert-asked addr a p.accounts p.promote_requests i.asked;
      }

  create_account_once-IsInv :
      (store : Store) (addr : ℕ)
      → IsInv codec heads (create_account_once store addr p)
        × IsKnown (create_account_once store addr p).accounts addr
  unfolding create_account_once
  create_account_once-IsInv store addr = elim (Option-cases (get p addr)) [
    | inl e ↦
        rw (e, create_account_once)
          (new_account-IsInv addr (store.get_nonce addr) e, insert-IsKnown_self addr _ p.accounts)
    | inr (a, e) ↦ rw (e, create_account_once) (i, λ f. cc)
  ]

module _ (codec : Codec) (heads : Bool) (store : Store) where
  arrive-IsInv :
      (q : TxPool) (tx : Transaction)
      → IsInv codec heads q
      → IsArriving q.accounts tx
      → IsInv codec heads (record q { enqueue_requests = q.enqueue_requests ++ tx ∷ [] })
  arrive-IsInv q tx i h = record {
    sound = record {
      accounts = i.sound.accounts;
      gauge = i.sound.gauge;
      pending = i.sound.pending;
    };
    awake = i.awake;
    arriving = All-append (IsArriving q.accounts) q.enqueue_requests (tx ∷ []) i.arriving (h, tt);
    asked = i.asked;
  }

  admit-IsInv :
      (p : TxPool) (tx : Transaction)
      → IsInv codec heads p
      → tx.nonce < max_u64
      → IsInv codec heads (admit codec store p tx).0
  unfolding admit
  admit-IsInv p tx i small = elim (Bool-cases (Lookup.add p.index tx).1) [
    | inr known ↦ rw (known, admit) i
    | inl is_new ↦
        let q : TxPool = record p { index = (Lookup.add p.index tx).0 } in
        let reindexed : IsInv codec heads q = unbooked-IsInv codec heads p _ _ _ _ _ _ _ i in
        let (created, known) = create_account_once-IsInv codec heads q reindexed store tx.from in
        let arrived =
          arrive-IsInv (create_account_once store tx.from q) tx created (small, known) in
        rw (is_new, admit) (unbooked-IsInv codec heads _ _ _ _ _ _ _ _ arrived)
  ]

  check_room-IsInv :
      (p : TxPool) (tx : Transaction)
      → IsInv codec heads p
      → tx.nonce < max_u64
      → IsInv codec heads (check_room codec store p tx).0
  unfolding check_room
  check_room-IsInv p tx i small = elim (Bool-cases (overflows codec p tx)) [
    | inl no_room ↦ rw (no_room, check_room) i
    | inr room ↦
        rw (room, check_room) (admit-IsInv p (record tx { hash = codec.hash_of tx }) i small)
  ]

  signal_pruning-IsInv : (p : TxPool) → IsInv codec heads p → IsInv codec heads (signal_pruning p)
  unfolding signal_pruning
  signal_pruning-IsInv p i =
      if_elim (IsInv codec heads) p.pruner_waiting
        (λ waiting. unbooked-IsInv codec heads p _ _ _ _ _ _ _ i) (λ busy. i)

  add_valid-IsInv :
      (p : TxPool) (tx : Transaction)
      → IsInv codec heads p
      → tx.nonce < max_u64
      → IsInv codec heads (add_valid codec store p tx).0
  unfolding add_valid
  add_valid-IsInv p tx i small = elim (Bool-cases (high_pressure p.gauge)) [
    | inr low ↦ rw (low, add_valid) (check_room-IsInv p tx i small)
    | inl high ↦
        let signalled = signal_pruning-IsInv p i in
        elim (Bool-cases (is_future codec (get p tx.from) tx)) [
          | inl future ↦ rw (high, future, add_valid) signalled
          | inr expected ↦
              rw (high, expected, add_valid)
                (check_room-IsInv (signal_pruning p) tx signalled small)
        ]
  ]

  -- An accepted transaction has the nonce of the one that came.
  check_sent-nonce : (p : TxPool) (tx v : Transaction) → check_sent store p tx ≡ ok v → v ≡ tx
  unfolding check_sent check_funds check_gas
  check_sent-nonce p tx v e = ground arith

  validate_tx-nonce :
      (p : TxPool) (tx v : Transaction) → validate_tx codec store p tx ≡ ok v → v.nonce ≡ tx.nonce
  unfolding validate_tx
  validate_tx-nonce p tx v e = elim (Option-cases (codec.sender tx)) [
    | inl unsigned ↦ ground arith
    | inr (from, signed) ↦ ground (
      arith,
      check_sent-nonce p (record tx { from = if tx.from == zero_address then from else tx.from }) v,
    )
  ]

  pub add_tx-IsInv :
      (p : TxPool) (tx : Transaction)
      → IsInv codec heads p
      → tx.nonce < max_u64
      → IsInv codec heads (add_tx codec store p tx).0
  unfolding add_tx
  add_tx-IsInv p tx i small = go (validate_tx codec store p tx) refl
    where
      go :
          (r : Validated)
          → validate_tx codec store p tx ≡ r
          → IsInv codec heads (add_tx codec store p tx).0
      go (err f) e = rw (e, add_tx) i
      go (ok v) e = rw (e, add_tx) (add_valid-IsInv p v i (rw (validate_tx-nonce p tx v e) small))

  pub add_gossip_tx-IsInv :
      (p : TxPool) (tx : Transaction)
      → IsInv codec heads p
      → tx.nonce < max_u64
      → IsInv codec heads (add_gossip_tx codec store p (some tx))
  unfolding add_gossip_tx
  add_gossip_tx-IsInv p tx i small =
      if_elim (IsInv codec heads) p.sealing (λ on. add_tx-IsInv p tx i small) (λ off. i)

-- A request that is taken up, and what it leaves.
module _ (codec : Codec) (heads : Bool) where
  module _ (p : TxPool) (i : IsInv codec heads p) (tx : Transaction) (a : Account)
      (e : get p tx.from ≡ some a) where
    -- The pool with the enqueued transaction, before a promotion is asked for.
    abbrev counted : Account → TxPool
    counted b =
        store_account tx.from b
          (record p { gauge = increase (slots_required codec.size (tx ∷ [])) p.gauge })

    counted-IsSound : (b : Account) → Accepts a tx b → IsSound codec heads 0 0 (counted b)
    counted-IsSound b h =
        let old = i.sound.accounts tx.from a e in
        let owned : IsOwned tx.from b = record {
          valid = h.valid;
          enqueued = SentBy-perm tx.from (Perm.symm h.added) (refl, old.enqueued);
          promoted = subst (SentBy tx.from) (sym h.promoted) old.promoted;
        } in
        store-IsSound codec heads tx.from a b _ (total (slots codec.size) (tx ∷ [])) 0 0 0 e owned
          (omega (
            arith,
            total-perm (slots codec.size) h.added,
            ap (total (slots codec.size)) h.promoted,
          ))
          (omega (arith, ap (length {0} {A = Transaction}) h.promoted))
          (increase-IsSound codec heads (tx ∷ []) p 0 i.sound)

    counted-IsAwake :
        (b : Account)
        → Accepts a tx b
        → a.next_nonce < tx.nonce
        → Each (IsAwake p.promote_requests) (counted b).accounts
    counted-IsAwake b h ahead =
        Each-insert_others (IsAwake p.promote_requests) tx.from b p.accounts
          (stays (i.awake tx.from a e)) (λ j v n f. i.awake j v f)
      where
        stays : IsAwake p.promote_requests tx.from a → IsAwake p.promote_requests tx.from b
        stays (inl s) = inl (Accepts-IsSettled a tx b h ahead s)
        stays (inr s) = inr s

    enqueue_end-IsInv :
        (r : Account.Enqueued) → EnqueueEnds a tx r → IsInv codec heads (enqueue_end codec p tx r)
    unfolding enqueue_end
    enqueue_end-IsInv r (full _) = unbooked-IsInv codec heads p _ _ _ _ _ _ _ i
    enqueue_end-IsInv r (too_low _ _) = unbooked-IsInv codec heads p _ _ _ _ _ _ _ i
    enqueue_end-IsInv r (accepted _ _ {b} h) =
        let s = counted-IsSound b h in
        if_elim (IsInv codec heads) (ltb b.next_nonce tx.nonce)
          (λ ahead. record {
            sound = record { accounts = s.accounts; gauge = s.gauge; pending = s.pending };
            awake = counted-IsAwake b h (ground (arith, h.next_nonce));
            arriving = insert-IsArriving tx.from b p.accounts p.enqueue_requests i.arriving;
            asked = insert-asked tx.from b p.accounts p.promote_requests i.asked;
          })
          (λ expected. record {
            sound = record { accounts = s.accounts; gauge = s.gauge; pending = s.pending };
            awake =
                Each-insert_others (IsAwake (p.promote_requests ++ tx.from ∷ [])) tx.from b
                  p.accounts (inr (contains-concat p.promote_requests tx.from))
                  (λ j v n f. IsAwake-more p.promote_requests (tx.from ∷ []) j v (i.awake j v f));
            arriving = insert-IsArriving tx.from b p.accounts p.enqueue_requests i.arriving;
            asked =
                All-append (IsKnown (insert tx.from b p.accounts)) p.promote_requests (tx.from ∷ [])
                  (insert-asked tx.from b p.accounts p.promote_requests i.asked)
                  (insert-IsKnown_self tx.from b p.accounts, tt);
          })

  -- An enqueue request is handled without a fault, and the invariant is kept.
  pub handle_enqueue_request-IsInv :
      (p : TxPool) (before after : Txs) (tx : Transaction)
      → IsInv codec heads p
      → p.enqueue_requests ≡ before ++ tx ∷ after
      → (q : TxPool) × (handle_enqueue_request codec
            (record p { enqueue_requests = before ++ after })
            tx
          ≡ some q)
        × IsInv codec heads q
  unfolding handle_enqueue_request
  handle_enqueue_request-IsInv p before after tx i e =
      let (request, others) =
        All-middle (IsArriving p.accounts) before tx after
          (subst (All (IsArriving p.accounts)) e i.arriving) in
      let q : TxPool = record p { enqueue_requests = before ++ after } in
      let j : IsInv codec heads q = record {
        sound = record {
          accounts = i.sound.accounts;
          gauge = i.sound.gauge;
          pending = i.sound.pending;
        };
        awake = i.awake;
        arriving = others;
        asked = i.asked;
      } in
      elim (Option-cases (get p tx.from)) [
        | inl unknown ↦ absurd (request.1 unknown)
        | inr (a, found) ↦ (
          enqueue_end codec q tx (enqueue a tx),
          rw (found, handle_enqueue_request),
          enqueue_end-IsInv q j tx a found (enqueue a tx)
              (enqueue_ends a tx (i.sound.accounts tx.from a found).valid request.0),
        )
      ]

  promote_end-IsSound :
      (p : TxPool) (addr : ℕ) (a : Account) (r : Account.Promoted)
      → get p addr ≡ some a
      → IsSound codec heads 0 0 p
      → Promotes a r
      → IsSound codec heads 0 0 (promote_end codec p addr r)
  unfolding promote_end
  promote_end-IsSound p addr a r e s h =
      let old = s.accounts addr a e in
      let kept = r.pruned ++ r.account.enqueued in
      let (sent, rest) = SentBy-split addr r.promoted kept a.enqueued h.split old.enqueued in
      let owned : IsOwned addr r.account = record {
        valid = h.valid;
        enqueued = All-append_right (λ t. t.from ≡ addr) r.pruned r.account.enqueued rest;
        promoted =
            SentBy-perm addr (Perm.symm h.moved)
              (All-append (λ t. t.from ≡ addr) r.promoted a.promoted sent old.promoted);
      } in
      let f = slots codec.size in
      let stored =
        store-IsSound codec heads addr a r.account (add_pending (length r.promoted) p) 0
          (length r.promoted) (total f r.pruned) 0 e owned
          (omega (
            arith,
            total-perm f h.split,
            total-perm f h.moved,
            total-append f r.promoted kept,
            total-append f r.pruned r.account.enqueued,
            total-append f r.promoted a.promoted,
          ))
          (omega (arith, length-perm h.moved, length-append {0} r.promoted a.promoted))
          (add_pending-IsSound codec heads (length r.promoted) p 0 s) in
      let cut =
        decrease-IsSound codec heads r.pruned _ 0 (total f r.pruned) 0 (omega arith) stored in
      record { accounts = cut.accounts; gauge = cut.gauge; pending = cut.pending }

  promoted-IsInv :
      (p : TxPool)
      → IsInv codec heads p
      → (before after : List ℕ) (addr : ℕ) → p.promote_requests ≡ before ++ addr ∷ after
      → All (IsKnown p.accounts) (before ++ after)
      → (r : Account.Promoted) → IsSettled r.account
      → IsSound codec heads 0 0
          (promote_end codec (record p { promote_requests = before ++ after }) addr r)
      → IsInv codec heads
          (promote_end codec (record p { promote_requests = before ++ after }) addr r)
  unfolding promote_end
  promoted-IsInv p i before after addr e others r settled s = record {
    sound = s;
    awake =
        Each-insert_others (IsAwake (before ++ after)) addr r.account p.accounts (inl settled)
          (λ j v n f. remains j v n (i.awake j v f));
    arriving = insert-IsArriving addr r.account p.accounts p.enqueue_requests i.arriving;
    asked = insert-asked addr r.account p.accounts (before ++ after) others;
  }
    where
      remains :
          (j : ℕ) (v : Account)
          → addr ≢ j
          → IsAwake p.promote_requests j v
          → IsAwake (before ++ after) j v
      remains j v n (inl w) = inl w
      remains j v n (inr w) =
          inr (contains-without before after j addr n (subst (λ rs. contains rs j ≡ true) e w))

  -- A promote request is handled without a fault, and the invariant is kept.
  pub handle_promote_request-IsInv :
      (p : TxPool) (before after : List ℕ) (addr : ℕ)
      → IsInv codec heads p
      → p.promote_requests ≡ before ++ addr ∷ after
      → (q : TxPool) × (handle_promote_request codec
            (record p { promote_requests = before ++ after })
            addr
          ≡ some q)
        × IsInv codec heads q
  unfolding handle_promote_request
  handle_promote_request-IsInv p before after addr i e =
      let (known, others) =
        All-middle (IsKnown p.accounts) before addr after
          (subst (All (IsKnown p.accounts)) e i.asked) in
      let q : TxPool = record p { promote_requests = before ++ after } in
      let s : IsSound codec heads 0 0 q = record {
        accounts = i.sound.accounts;
        gauge = i.sound.gauge;
        pending = i.sound.pending;
      } in
      elim (Option-cases (get p addr)) [
        | inl unknown ↦ absurd (known unknown)
        | inr (a, found) ↦
            let r = promote a in
            let h = promote-Promotes a (i.sound.accounts addr a found).valid in
            (
              promote_end codec q addr r,
              rw (found, handle_promote_request),
              promoted-IsInv p i before after addr e others r h.settled
                  (promote_end-IsSound q addr a r found s h),
            )
      ]
