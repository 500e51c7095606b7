-- ===== src/TxPool/Invariant/Building.antt =====
-- The invariant through Prepare, Peek, Pop, Drop and Demote.
use go_plgchain.Base.{
  ℕ, ◌+◌, ◌≡◌, [], ◌∷◌, some, total, length, total-perm, length-perm, Option-cases, Bool-cases, inl,
  inr, arith, Bool, true, false, ◌∙◌, ap, refl, leb, if_elim, subst, sym, Perm,
}
use mathlib.Core.List.Perm
use mathlib.Core.Option.{some_inj}
use go_plgchain.Base.Word.{add64}
use go_plgchain.Types.{Transaction}
use go_plgchain.Heap
use go_plgchain.TxPool.Queue.{Txs, peek, pop, pop_priced}
use go_plgchain.TxPool.Queue.Laws.{IsQueue, nil-IsQueue, pop_lem}
use go_plgchain.TxPool.Account.{Account, reset_demotions}
use go_plgchain.TxPool.Account.Run.{IsRun, nil-IsRun, head-IsRun}
use go_plgchain.TxPool.Gauge.{slots}
use go_plgchain.TxPool.State.{Codec, TxPool, get, store_account}
use go_plgchain.TxPool.Execution.{
  max_account_demotions, prepare, peek_executable, pop_head, pop_end, pop_tx, drop_end, drop_tx,
  demote_end, demote,
}
use go_plgchain.TxPool.Sound.{
  IsOwned, SentBy, SentBy-perm, IsSound, adjusted-IsSound, store-IsSound, decrease-IsSound,
  sub_pending-IsSound,
}
use go_plgchain.TxPool.Invariant.{
  IsInv, unbooked-IsInv, stored-IsInv, counters-IsInv, change_account-IsInv,
}

pop_head-empty : pop_head [] ≡ []
unfolding pop Heap.pop
pop_head-empty = refl

module _ (codec : Codec) (heads : Bool) where
  pub prepare-IsInv : (p : TxPool) → IsInv codec heads p → IsInv codec heads (prepare p)
  unfolding prepare
  prepare-IsInv p i = unbooked-IsInv codec heads p _ _ _ _ _ _ _ i

  pub peek_executable-IsInv :
      (p : TxPool) → IsInv codec heads p → IsInv codec heads (peek_executable p).0
  unfolding peek_executable
  peek_executable-IsInv p i = elim (Option-cases (pop_priced p.executables)) [
    | inl e ↦ rw (e, peek_executable) i
    | inr ((tx, rest), e) ↦ rw (e, peek_executable) (unbooked-IsInv codec heads p _ _ _ _ _ _ _ i)
  ]

  module _ (p : TxPool) (i : IsInv codec heads p) (tx : Transaction) (a : Account)
      (e : get p tx.from ≡ some a) where
    abbrev f : Transaction → ℕ
    f = slots codec.size

    -- Pop leaves this account in the pool.
    abbrev beheaded : Account
    beheaded = reset_demotions (record a { promoted = pop_head a.promoted })

    -- What is left of the account is stored, and what is out are the slots of the transaction given.
    taken-IsInv :
        IsOwned tx.from beheaded
        → IsSound codec heads (total f (tx ∷ [])) 1 (store_account tx.from beheaded p)
        → IsInv codec heads (pop_end codec p tx a)
    unfolding pop_end
    taken-IsInv owned stored =
        let less =
          decrease-IsSound codec heads (tx ∷ []) _ 0 (total f (tx ∷ [])) _ (omega arith) stored in
        let s = sub_pending-IsSound codec heads 1 _ 0 0 1 (omega arith) less in
        stored-IsInv codec heads p i tx.from beheaded _ _ _ _ _ (i.awake tx.from a e) s

    -- The head of the promoted queue leaves; its slots are those of the transaction given, where that
    -- is the head.
    popped-IsInv :
        (x : Transaction) (q : Txs)
        → a.promoted ≡ x ∷ q
        → (heads ≡ true → x ≡ tx)
        → IsInv codec heads (pop_end codec p tx a)
    popped-IsInv x q h is_head =
        let old = i.sound.accounts tx.from a e in
        let (rest, popped, heap, same) = pop_lem x q (subst IsQueue h old.valid.promoted) in
        let head : pop_head a.promoted ≡ rest = ground (arith, popped) in
        let left : Txs = pop_head a.promoted in
        let whole : Perm (x ∷ left) a.promoted =
          subst (Perm (x ∷ left)) (sym h) (Perm.cons x (subst (λ r. Perm r q) (sym head) same)) in
        let run =
          (head-IsRun a.next_nonce x q rest (subst IsQueue h old.valid.promoted) same
            (subst (IsRun a.next_nonce) h old.valid.run)).1 in
        let owned : IsOwned tx.from beheaded = record {
          valid = record {
            enqueued = old.valid.enqueued;
            promoted = subst IsQueue (sym head) heap;
            waiting = old.valid.waiting;
            small = old.valid.small;
            run = subst (IsRun a.next_nonce) (sym head) run;
            bounded = old.valid.bounded;
          };
          enqueued = old.enqueued;
          promoted = (SentBy-perm tx.from (Perm.symm whole) old.promoted).1;
        } in
        let stored =
          store-IsSound codec heads tx.from a beheaded p 0 0 (total f (x ∷ [])) 1 e owned
            (omega (arith, total-perm f whole)) (omega (arith, length-perm whole)) i.sound in
        taken-IsInv owned (
          adjusted-IsSound codec heads (store_account tx.from beheaded p) _ 1 _ 1
            (λ k. (ap (λ y. total f (y ∷ [])) (is_head k), refl)) stored)

    -- An empty queue stays empty.
    unpopped-IsInv : a.promoted ≡ [] → (heads ≡ false) → IsInv codec heads (pop_end codec p tx a)
    unpopped-IsInv h off =
        let old = i.sound.accounts tx.from a e in
        let same : pop_head a.promoted ≡ a.promoted = ap pop_head h ∙ pop_head-empty ∙ sym h in
        let owned : IsOwned tx.from beheaded = record {
          valid = record {
            enqueued = old.valid.enqueued;
            promoted = subst IsQueue (sym same) old.valid.promoted;
            waiting = old.valid.waiting;
            small = old.valid.small;
            run = subst (IsRun a.next_nonce) (sym same) old.valid.run;
            bounded = old.valid.bounded;
          };
          enqueued = old.enqueued;
          promoted = subst (SentBy tx.from) (sym same) old.promoted;
        } in
        let stored =
          store-IsSound codec heads tx.from a beheaded p 0 0 0 0 e owned
            (ap (λ r. total f a.enqueued + total f r + 0) (sym same))
            (ap (λ r. length r + 0) (sym same)) i.sound in
        taken-IsInv owned (
          adjusted-IsSound codec heads (store_account tx.from beheaded p) 0 0 _ 1
            (λ k. absurd (cc (k, off))) stored)

    abbrev cleared : Account
    cleared = record a { enqueued = []; promoted = []; next_nonce = tx.nonce }

    cleared-IsOwned : IsOwned tx.from cleared
    cleared-IsOwned = record {
      valid = record {
        enqueued = nil-IsQueue;
        promoted = nil-IsQueue;
        waiting = tt;
        small = tt;
        run = nil-IsRun tx.nonce;
        bounded = omega arith;
      };
      enqueued = tt;
      promoted = tt;
    }

    pub drop_end-IsInv : IsInv codec heads (drop_end codec p tx a)
    unfolding drop_end
    drop_end-IsInv =
        let stored =
          store-IsSound codec heads tx.from a cleared p 0 0
            (total f a.enqueued + total f a.promoted) (length a.promoted) e cleared-IsOwned
            (omega arith) (omega arith) i.sound in
        let fewer =
          decrease-IsSound codec heads a.promoted _ (total f a.enqueued) _ _ (omega arith) stored in
        let none_out =
          decrease-IsSound codec heads a.enqueued _ 0 (total f a.enqueued) _ (omega arith) fewer in
        let s =
          sub_pending-IsSound codec heads (length a.promoted) _ 0 0 (length a.promoted)
            (omega arith) none_out in
        stored-IsInv codec heads p i tx.from cleared _ _ _ _ _ (inl tt) s

    demote_end-IsInv : IsInv codec heads (demote_end codec p tx a)
    unfolding demote_end
    demote_end-IsInv =
        if_elim (IsInv codec heads) (leb max_account_demotions a.demotions)
          (λ often.
            change_account-IsInv codec heads (drop_end codec p tx a) drop_end-IsInv tx.from (λ b. 0)
              (λ b. b.skips))
          (λ rarely.
            let j = counters-IsInv codec heads p i tx.from a (add64 a.demotions 1) a.skips e in
            unbooked-IsInv codec heads _ _ _ _ _ _ _ _ j)

  -- Pop, of any transaction of a known account, keeps the invariant: with the counters, where the
  -- transaction is the head of the promoted queue.
  pub pop_tx-IsInv :
      (p : TxPool) (tx : Transaction) (a : Account)
      → IsInv codec heads p
      → get p tx.from ≡ some a
      → (heads ≡ true → peek a.promoted ≡ some tx)
      → (q : TxPool) × (pop_tx codec p tx ≡ some q) × IsInv codec heads q
  unfolding pop_tx
  pop_tx-IsInv p tx a i e h = (pop_end codec p tx a, rw (e, pop_tx), split a.promoted refl)
    where
      split : (r : Txs) → a.promoted ≡ r → IsInv codec heads (pop_end codec p tx a)
      split [] g = elim (Bool-cases heads) [
        | inl on ↦ absurd (cc (h on, ap peek g))
        | inr off ↦ unpopped-IsInv p i tx a e g off
      ]
      split (x ∷ q) g = popped-IsInv p i tx a e x q g (λ on. some_inj.0 (sym (ap peek g) ∙ h on))

  -- Drop, of any transaction of a known account, keeps the invariant.
  pub drop_tx-IsInv :
      (p : TxPool) (tx : Transaction) (a : Account)
      → IsInv codec heads p
      → get p tx.from ≡ some a
      → (q : TxPool) × (drop_tx codec p tx ≡ some q) × IsInv codec heads q
  unfolding drop_tx
  drop_tx-IsInv p tx a i e = (drop_end codec p tx a, rw (e, drop_tx), drop_end-IsInv p i tx a e)

  -- So does Demote.
  pub demote-IsInv :
      (p : TxPool) (tx : Transaction) (a : Account)
      → IsInv codec heads p
      → get p tx.from ≡ some a
      → (q : TxPool) × (demote codec p tx ≡ some q) × IsInv codec heads q
  unfolding demote
  demote-IsInv p tx a i e = (demote_end codec p tx a, rw (e, demote), demote_end-IsInv p i tx a e)
