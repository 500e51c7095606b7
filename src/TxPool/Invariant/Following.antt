-- ===== src/TxPool/Invariant/Following.antt =====
-- The invariant through processEvent and the pruning of nonce holes.
use go_plgchain.Base.{
  Bool, ℕ, ◌+◌, ◌≡◌, refl, subst, sym, List, [], ◌∷◌, ◌++◌, true, Option, none, some, All,
  All-append, total, total-perm, total-append, length-perm, length, length-append, Option-cases,
  inl, inr, arith, ltb, ◌==◌, if_elim,
}
use go_plgchain.Base.Dict.{lookup, insert, keys, Each-insert_others, lookup-insert}
use go_plgchain.Base.Word.{add64}
use go_plgchain.Types.{Transaction}
use go_plgchain.TxPool.Queue.{Txs, peek}
use go_plgchain.TxPool.Queue.Laws.{nil-IsQueue}
use go_plgchain.TxPool.Account.{
  Account, Reset, reset, reset_demotions, reset_skips, increment_skips, get_lowest_tx,
}
use go_plgchain.TxPool.Account.Invariant.{counters-IsValid}
use go_plgchain.TxPool.Account.Resets.{Resets, reset-Resets}
use go_plgchain.TxPool.Gauge.{slots, slots_required, decrease}
use go_plgchain.TxPool.Lookup
use native.Mathlib.Nat.{zero-add}
use go_plgchain.TxPool.State.{Codec, Store, TxPool, get, store_account, change_account}
use go_plgchain.TxPool.Sync.{
  max_account_skips, StateNonces, Stale, request_list, reset_one, reset_account, reset_all,
  clean_promoted, clean_enqueued, reset_accounts, collect_blocks, process_event, skip_account,
  drop_skipped, update_skips, update_all_skips, update_account_skips_counts, prune_hole,
  prune_holes, prune_accounts_with_nonce_holes,
}
use go_plgchain.TxPool.Sound.{
  IsSound, IsOwned, SentBy, SentBy-split, store-IsSound, decrease-IsSound, sub_pending-IsSound,
}
use go_plgchain.TxPool.Invariant.{
  IsOpen, IsInv, IsAwake, IsKnown, contains, contains-concat, contains-append_left, insert-asked,
  insert-IsArriving, insert-IsKnown_self, IsAwake-more, unbooked-IsInv, stored-IsInv,
  counters-IsInv, change_account-IsInv,
}
use go_plgchain.TxPool.Invariant.Building.{drop_tx-IsInv}

module _ (codec : Codec) (heads : Bool) where
  abbrev f : Transaction → ℕ
  f = slots codec.size

  -- The books while resetAccounts collects what it pruned.
  abbrev IsStale : Stale → Type 0
  IsStale s =
      IsOpen codec heads (total f s.promoted + total f s.enqueued) (length s.promoted) s.pool

  module _ (s : Stale) (i : IsStale s) (addr : ℕ) (a : Account) (e : get s.pool addr ≡ some a)
      (nonce : ℕ) where
    abbrev r : Reset
    r = reset nonce a

    abbrev b : Account
    b = reset_demotions r.account

    abbrev h : Resets nonce a r
    h = reset-Resets nonce a (i.sound.accounts addr a e).valid

    reset-IsOwned : IsOwned addr b
    reset-IsOwned =
        let old = i.sound.accounts addr a e in
        record {
          valid = counters-IsValid r.account 0 r.account.skips h.valid;
          enqueued =
              (SentBy-split addr r.pruned_enqueued r.account.enqueued a.enqueued h.enqueued.same
                old.enqueued).1;
          promoted =
              (SentBy-split addr r.pruned_promoted r.account.promoted a.promoted h.promoted.same
                old.promoted).1;
        }

    reset-IsSound :
        IsSound codec heads
          (total f (s.promoted ++ r.pruned_promoted) + total f (s.enqueued ++ r.pruned_enqueued))
          (length (s.promoted ++ r.pruned_promoted))
          (store_account addr b s.pool)
    reset-IsSound =
        store-IsSound codec heads addr a b s.pool _ _ _ _ e reset-IsOwned
          (omega (
            arith,
            total-perm f h.promoted.same,
            total-perm f h.enqueued.same,
            total-append f s.promoted r.pruned_promoted,
            total-append f s.enqueued r.pruned_enqueued,
            total-append f r.pruned_promoted r.account.promoted,
            total-append f r.pruned_enqueued r.account.enqueued,
          ))
          (omega (
            arith,
            length-perm h.promoted.same,
            length-append {0} s.promoted r.pruned_promoted,
            length-append {0} r.pruned_promoted r.account.promoted,
          ))
          i.sound

    -- The signal of a reset, which names the account itself.
    signal-names : (q : Option ℕ) → r.request ≡ q → (c : ℕ) → q ≡ some c → c ≡ addr
    signal-names q g c k = h.named addr c reset-IsOwned.enqueued (ground arith)

    reset-IsAwake :
        (q : Option ℕ) → r.request ≡ q → IsAwake (s.pool.promote_requests ++ request_list q) addr b
    unfolding request_list
    reset-IsAwake none g = stays (i.awake addr a e)
      where
        stays :
            IsAwake s.pool.promote_requests addr a → IsAwake (s.pool.promote_requests ++ []) addr b
        stays (inl w) = inl (h.settled g w)
        stays (inr w) = inr (contains-append_left s.pool.promote_requests [] addr w)
    reset-IsAwake (some c) g = inr (
        subst (λ d. contains (s.pool.promote_requests ++ d ∷ []) addr ≡ true)
          (sym (signal-names (some c) g c refl)) (contains-concat s.pool.promote_requests addr))

    request-IsKnown :
        (q : Option ℕ)
        → r.request ≡ q
        → All (IsKnown (insert addr b s.pool.accounts)) (request_list q)
    unfolding request_list
    request-IsKnown none g = tt
    request-IsKnown (some c) g = (
      subst (IsKnown (insert addr b s.pool.accounts)) (sym (signal-names (some c) g c refl))
          (insert-IsKnown_self addr b s.pool.accounts),
      tt,
    )

    reset_one-IsStale : IsStale (reset_one s addr r)
    unfolding reset_one
    reset_one-IsStale = record {
      sound = record {
        accounts = reset-IsSound.accounts;
        gauge = reset-IsSound.gauge;
        pending = reset-IsSound.pending;
      };
      awake =
          Each-insert_others (IsAwake (s.pool.promote_requests ++ request_list r.request)) addr b
            s.pool.accounts (reset-IsAwake r.request refl)
            (λ j v n g.
              IsAwake-more s.pool.promote_requests (request_list r.request) j v (i.awake j v g));
      arriving = insert-IsArriving addr b s.pool.accounts s.pool.enqueue_requests i.arriving;
      asked =
          All-append (IsKnown (insert addr b s.pool.accounts)) s.pool.promote_requests
            (request_list r.request)
            (insert-asked addr b s.pool.accounts s.pool.promote_requests i.asked)
            (request-IsKnown r.request refl);
    }

  reset_account-IsStale :
      (s : Stale) (addr nonce : ℕ) → IsStale s → IsStale (reset_account s addr nonce)
  unfolding reset_account
  reset_account-IsStale s addr nonce i = elim (Option-cases (get s.pool addr)) [
    | inl e ↦ rw (e, reset_account) i
    | inr (a, e) ↦ rw (e, reset_account) (reset_one-IsStale s i addr a e nonce)
  ]

  reset_all-IsStale : (s : Stale) (nonces : StateNonces) → IsStale s → IsStale (reset_all s nonces)
  unfolding reset_all
  reset_all-IsStale s [] i = i
  reset_all-IsStale s ((addr, nonce) ∷ rest) i =
      reset_all-IsStale (reset_account s addr nonce) rest (reset_account-IsStale s addr nonce i)

  clean_promoted-IsOpen :
      (txs : Txs) (p : TxPool) (x : ℕ)
      → IsOpen codec heads (total f txs + x) (length txs) p
      → IsOpen codec heads x 0 (clean_promoted codec txs p)
  unfolding clean_promoted
  clean_promoted-IsOpen [] p x i = subst (λ y. IsOpen codec heads y 0 p) (zero-add x) i
  clean_promoted-IsOpen (tx ∷ txs) p x i =
      let n : ℕ = length (tx ∷ txs) in
      let cut = decrease-IsSound codec heads (tx ∷ txs) p x _ n (omega arith) i.sound in
      let s = sub_pending-IsSound codec heads n _ x 0 n (omega arith) cut in
      record {
        sound = record { accounts = s.accounts; gauge = s.gauge; pending = s.pending };
        awake = i.awake;
        arriving = i.arriving;
        asked = i.asked;
      }

  clean_enqueued-IsInv :
      (txs : Txs) (p : TxPool)
      → IsOpen codec heads (total f txs) 0 p
      → IsInv codec heads (clean_enqueued codec txs p)
  unfolding clean_enqueued
  clean_enqueued-IsInv [] p i = i
  clean_enqueued-IsInv (tx ∷ txs) p i =
      let s = decrease-IsSound codec heads (tx ∷ txs) p 0 _ 0 (omega arith) i.sound in
      record {
        sound = record { accounts = s.accounts; gauge = s.gauge; pending = s.pending };
        awake = i.awake;
        arriving = i.arriving;
        asked = i.asked;
      }

  -- resetAccounts keeps the invariant.
  pub reset_accounts-IsInv :
      (nonces : StateNonces) (p : TxPool)
      → IsInv codec heads p
      → IsInv codec heads (reset_accounts codec nonces p)
  unfolding reset_accounts
  reset_accounts-IsInv nonces p i =
      let s = reset_all (record { pool = p; promoted = []; enqueued = [] }) nonces in
      let stale = reset_all-IsStale (record { pool = p; promoted = []; enqueued = [] }) nonces i in
      clean_enqueued-IsInv s.enqueued (clean_promoted codec s.promoted s.pool)
        (clean_promoted-IsOpen s.promoted s.pool (total f s.enqueued) stale)

  collect_blocks-IsInv :
      (store : Store) (hashes : List ℕ) (p : TxPool) (nonces : StateNonces)
      → IsInv codec heads p
      → IsInv codec heads (collect_blocks codec store hashes p nonces).0
  unfolding collect_blocks
  collect_blocks-IsInv store [] p nonces i = i
  collect_blocks-IsInv store (h ∷ hs) p nonces i =
      collect_blocks-IsInv store hs _ _ (unbooked-IsInv codec heads p _ _ _ _ _ _ _ i)

  -- A call ends well: without a fault, and with the invariant.
  abbrev Ends : Option TxPool → Type 0
  Ends r = (q : TxPool) × (r ≡ some q) × IsInv codec heads q

  drop_skipped-Ends :
      (p : TxPool) (addr : ℕ) (first : Transaction) (a : Account)
      → IsInv codec heads p
      → first.from ≡ addr
      → get p addr ≡ some a
      → Ends (drop_skipped codec p addr first)
  unfolding drop_skipped
  drop_skipped-Ends p addr first a i sent e =
      let (q, dropped, j) = drop_tx-IsInv codec heads p first a i (rw sent e) in
      (
        change_account reset_skips addr q,
        rw (dropped, drop_skipped),
        change_account-IsInv codec heads q j addr (λ b. b.demotions) (λ b. 0),
      )

  lowest-from :
      (addr : ℕ) (a : Account) (first : Transaction)
      → IsOwned addr a
      → get_lowest_tx a ≡ some first
      → first.from ≡ addr
  unfolding get_lowest_tx
  lowest-from addr a first o e = go a.promoted a.enqueued refl refl o.promoted o.enqueued
    where
      go :
          (xs ys : Txs)
          → a.promoted ≡ xs
          → a.enqueued ≡ ys
          → SentBy addr xs
          → SentBy addr ys
          → first.from ≡ addr
      go (x ∷ xs) ys g k m n = ground (arith, m.0)
      go [] (y ∷ ys) g k m n = ground (arith, n.0)
      go [] [] g k m n = ground arith

  skip_account-Ends :
      (p : TxPool) (addr : ℕ) (a : Account)
      → IsInv codec heads p
      → get p addr ≡ some a
      → Ends (skip_account codec p addr a)
  unfolding skip_account
  skip_account-Ends p addr a i e = elim (Option-cases (get_lowest_tx a)) [
    | inl g ↦ rw (g, skip_account) (p, refl, i)
    | inr (first, g) ↦
        let b : Account = increment_skips a in
        let j = counters-IsInv codec heads p i addr a a.demotions (add64 a.skips 1) e in
        rw (g, skip_account)
          (if_elim Ends (ltb b.skips max_account_skips) (λ few. (store_account addr b p, refl, j))
            (λ many.
              drop_skipped-Ends (store_account addr b p) addr first b j
                (lowest-from addr a first (i.sound.accounts addr a e) g)
                (ground (arith, lookup-insert addr addr b p.accounts))))
  ]

  update_skips-Ends :
      (active : StateNonces) (p : TxPool) (addr : ℕ)
      → IsInv codec heads p
      → Ends (update_skips codec active p addr)
  unfolding update_skips
  update_skips-Ends active p addr i = elim (Option-cases (get p addr)) [
    | inl e ↦ rw (e, update_skips) (p, refl, i)
    | inr (a, e) ↦ elim (Option-cases (lookup addr active)) [
      | inl g ↦ rw (e, g, update_skips) (skip_account-Ends p addr a i e)
      | inr (n, g) ↦
          rw (e, g, update_skips)
            (
              store_account addr (reset_skips a) p,
              refl,
              counters-IsInv codec heads p i addr a a.demotions 0 e,
            )
    ]
  ]

  update_all_skips-Ends :
      (active : StateNonces) (p : TxPool) (addrs : List ℕ)
      → IsInv codec heads p
      → Ends (update_all_skips codec active p addrs)
  unfolding update_all_skips
  update_all_skips-Ends active p [] i = (p, refl, i)
  update_all_skips-Ends active p (addr ∷ addrs) i =
      let (q, e, j) = update_skips-Ends active p addr i in
      rw (e, update_all_skips) (update_all_skips-Ends active q addrs j)

  -- processEvent never faults and keeps the invariant.
  pub process_event-Ends :
      (store : Store) (hashes : List ℕ) (p : TxPool)
      → IsInv codec heads p
      → Ends (process_event codec store hashes p)
  unfolding process_event update_account_skips_counts
  process_event-Ends store hashes p i =
      let c = collect_blocks codec store hashes p [] in
      let j = reset_accounts-IsInv c.1 c.0 (collect_blocks-IsInv store hashes p [] i) in
      let q = reset_accounts codec c.1 c.0 in
      if_elim Ends q.sealing (λ on. (q, refl, j))
        (λ off. update_all_skips-Ends c.1 q (keys q.accounts) j)

  -- An account whose enqueued queue is cleared.
  emptied :
      (p : TxPool) (addr : ℕ) (a : Account)
      → IsInv codec heads p
      → get p addr ≡ some a
      → IsInv codec heads (record (store_account addr (record a { enqueued = [] }) p) {
        index = Lookup.remove a.enqueued p.index;
        gauge = decrease (slots_required codec.size a.enqueued) p.gauge;
      })
  emptied p addr a i e =
      let old = i.sound.accounts addr a e in
      let b : Account = record a { enqueued = [] } in
      let owned : IsOwned addr b = record {
        valid = record {
          enqueued = nil-IsQueue;
          promoted = old.valid.promoted;
          waiting = tt;
          small = tt;
          run = old.valid.run;
          bounded = omega arith;
        };
        enqueued = tt;
        promoted = old.promoted;
      } in
      let stored =
        store-IsSound codec heads addr a b p 0 0 (total f a.enqueued) 0 e owned (omega arith) refl
          i.sound in
      let s =
        decrease-IsSound codec heads a.enqueued _ 0 (total f a.enqueued) 0 (omega arith) stored in
      stored-IsInv codec heads p i addr b _ _ _ _ _ (inl tt) s

  prune_hole-IsInv :
      (p : TxPool) (addr : ℕ) (a : Account)
      → IsInv codec heads p
      → get p addr ≡ some a
      → IsInv codec heads (prune_hole codec p addr a)
  unfolding prune_hole
  prune_hole-IsInv p addr a i e = elim (Option-cases (peek a.enqueued)) [
    | inl g ↦ rw (g, prune_hole) i
    | inr (first, g) ↦
        rw (g, prune_hole)
          (if_elim (IsInv codec heads) (first.nonce == a.next_nonce) (λ expected. i)
            (λ hole. emptied p addr a i e))
  ]

  prune_holes-IsInv :
      (p : TxPool) (addrs : List ℕ)
      → IsInv codec heads p
      → IsInv codec heads (prune_holes codec p addrs)
  unfolding prune_holes
  prune_holes-IsInv p [] i = i
  prune_holes-IsInv p (addr ∷ addrs) i = elim (Option-cases (get p addr)) [
    | inl e ↦ rw (e, prune_holes) (prune_holes-IsInv p addrs i)
    | inr (a, e) ↦
        rw (e, prune_holes)
          (prune_holes-IsInv (prune_hole codec p addr a) addrs (prune_hole-IsInv p addr a i e))
  ]

  -- So does pruneAccountsWithNonceHoles.
  pub prune_accounts-IsInv :
      (p : TxPool)
      → IsInv codec heads p
      → IsInv codec heads (prune_accounts_with_nonce_holes codec p)
  unfolding prune_accounts_with_nonce_holes
  prune_accounts-IsInv p i = prune_holes-IsInv p (keys p.accounts) i
