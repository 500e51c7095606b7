-- ===== src/TxPool/Invariant.antt =====
-- The invariant of the whole pool, and how each operation of txpool/txpool.go keeps it: one child
-- for each group of operations.
pub mod Intake
pub mod Building
pub mod Following
use go_plgchain.Base.{
  ℕ, ◌<◌, ◌≡◌, ◌≢◌, ◌⊎◌, refl, List, [], ◌∷◌, ◌++◌, Bool, true, false, none, some, All, All-mono,
  All-append, if◌then◌else◌, ◌==◌, inl, inr, arith, ==_iff, Bool-cases, Option-cases,
}
use go_plgchain.Base.Dict.{lookup, insert, Each, Each-insert_others, lookup-insert}
use go_plgchain.Base.Word.{max_u64}
use go_plgchain.Types.{Transaction}
use go_plgchain.TxPool.Queue.{Txs}
use go_plgchain.TxPool.Account.{Account}
use go_plgchain.TxPool.Account.Invariant.{IsSettled, counters-IsValid}
use go_plgchain.TxPool.State.{Codec, TxPool, EventType, get, store_account, change_account}
use go_plgchain.TxPool.Gauge.{SlotGauge}
use go_plgchain.TxPool.Lookup.{LookupMap}
use go_plgchain.TxPool.Sound.{IsSound, IsOwned, store-IsSound}

unfoldable pub contains : List ℕ → ℕ → Bool
contains [] b = false
contains (c ∷ cs) b = if c == b then true else contains cs b

pub contains-append_left :
    (xs ys : List ℕ) (b : ℕ) → contains xs b ≡ true → contains (xs ++ ys) b ≡ true
unfolding contains
contains-append_left [] ys b h = cc
contains-append_left (x ∷ xs) ys b h = ground (arith, contains-append_left xs ys b)

pub contains-concat : (xs : List ℕ) (b : ℕ) → contains (xs ++ b ∷ []) b ≡ true
unfolding contains
contains-concat [] b = ground arith
contains-concat (x ∷ xs) b = ground (arith, contains-concat xs b)

pub contains-without :
    (xs ys : List ℕ) (b c : ℕ)
    → c ≢ b
    → contains (xs ++ c ∷ ys) b ≡ true
    → contains (xs ++ ys) b ≡ true
unfolding contains
contains-without [] ys b c n h = ground arith
contains-without (x ∷ xs) ys b c n h = ground (arith, contains-without xs ys b c n)

-- The account waits for nothing, or a promotion was asked for it.
abbrev pub IsAwake : List ℕ → ℕ → Account → Type 0
IsAwake requests addr a = IsSettled a ⊎ (contains requests addr ≡ true)

abbrev pub IsKnown : List (ℕ × Account) → ℕ → Type 0
IsKnown accounts addr = lookup addr accounts ≢ none

-- A transaction that waits to be enqueued.
abbrev pub IsArriving : List (ℕ × Account) → Transaction → Type 0
IsArriving accounts tx = (tx.nonce < max_u64) × IsKnown accounts tx.from

-- The invariant, with transactions out of the books as `IsSound` has them.
pub record IsOpen (codec : Codec) (heads : Bool) (slots_out count_out : ℕ) (p : TxPool)
    : Type 0 where
  pub sound : IsSound codec heads slots_out count_out p
  pub awake : Each (IsAwake p.promote_requests) p.accounts
  pub arriving : All (IsArriving p.accounts) p.enqueue_requests
  pub asked : All (IsKnown p.accounts) p.promote_requests

abbrev pub IsInv : Codec → Bool → TxPool → Type 0
IsInv codec heads p = IsOpen codec heads 0 0 p

-- A store makes no address unknown.
pub insert-IsKnown :
    (k : ℕ) (a : Account) (m : List (ℕ × Account)) (addr : ℕ)
    → IsKnown m addr
    → IsKnown (insert k a m) addr
insert-IsKnown k a m addr h = ground (arith, lookup-insert k addr a m)

pub insert-IsKnown_self : (k : ℕ) (a : Account) (m : List (ℕ × Account)) → IsKnown (insert k a m) k
insert-IsKnown_self k a m = ground (arith, lookup-insert k k a m)

module _ (k : ℕ) (a : Account) (m : List (ℕ × Account)) where
  pub insert-asked : (rs : List ℕ) → All (IsKnown m) rs → All (IsKnown (insert k a m)) rs
  insert-asked = All-mono (IsKnown m) (IsKnown (insert k a m)) (insert-IsKnown k a m)

  pub insert-IsArriving : (txs : Txs) → All (IsArriving m) txs → All (IsArriving (insert k a m)) txs
  insert-IsArriving =
      All-mono (IsArriving m) (IsArriving (insert k a m))
        (λ tx h. (h.0, insert-IsKnown k a m tx.from h.1))

-- More requests wake nobody up.
pub IsAwake-more :
    (rs ss : List ℕ) (addr : ℕ) (a : Account) → IsAwake rs addr a → IsAwake (rs ++ ss) addr a
IsAwake-more rs ss addr a (inl s) = inl s
IsAwake-more rs ss addr a (inr s) = inr (contains-append_left rs ss addr s)

-- The fields that the invariant does not speak of.
pub unbooked-IsInv :
    (codec : Codec) (heads : Bool) (p : TxPool) (count : ℕ) (executables : Txs) (index : LookupMap)
    (prune_requested pruner_waiting sealing : Bool) (events : List (EventType × ℕ))
    → IsInv codec heads p
    → IsInv codec heads (record p {
      count = count;
      executables = executables;
      index = index;
      prune_requested = prune_requested;
      pruner_waiting = pruner_waiting;
      sealing = sealing;
      events = events;
    })
unbooked-IsInv codec heads p c x m r w s e i = record {
  sound = record { accounts = i.sound.accounts; gauge = i.sound.gauge; pending = i.sound.pending };
  awake = i.awake;
  arriving = i.arriving;
  asked = i.asked;
}

module _ (codec : Codec) (heads : Bool) (p : TxPool) (i : IsInv codec heads p) where
  -- A handler that stores one account, and leaves the requests as they are.
  pub stored-IsInv :
      (addr : ℕ) (b : Account) (executables : Txs) (index : LookupMap) (gauge : SlotGauge)
      (events : List (EventType × ℕ)) (pending : ℕ)
      → IsAwake p.promote_requests addr b
      → IsSound codec heads 0 0
          (record (store_account addr b p) { gauge = gauge; pending = pending })
      → IsInv codec heads (record (store_account addr b p) {
        executables = executables;
        index = index;
        gauge = gauge;
        events = events;
        pending = pending;
      })
  stored-IsInv addr b x m g e n w s = record {
    sound = record { accounts = s.accounts; gauge = s.gauge; pending = s.pending };
    awake =
        Each-insert_others (IsAwake p.promote_requests) addr b p.accounts w
          (λ j v d f. i.awake j v f);
    arriving = insert-IsArriving addr b p.accounts p.enqueue_requests i.arriving;
    asked = insert-asked addr b p.accounts p.promote_requests i.asked;
  }

  -- The counters of an account are not spoken of.
  pub counters-IsInv :
      (addr : ℕ) (a : Account) (demotions skips : ℕ)
      → get p addr ≡ some a
      → IsInv codec heads (store_account addr (record a { demotions = demotions; skips = skips }) p)
  counters-IsInv addr a d k e =
      let old = i.sound.accounts addr a e in
      let b : Account = record a { demotions = d; skips = k } in
      let owned : IsOwned addr b = record {
        valid = counters-IsValid a d k old.valid;
        enqueued = old.enqueued;
        promoted = old.promoted;
      } in
      stored-IsInv addr b p.executables p.index p.gauge p.events p.pending (i.awake addr a e)
        (store-IsSound codec heads addr a b p 0 0 0 0 e owned refl refl i.sound)

  pub change_account-IsInv :
      (addr : ℕ) (d k : Account → ℕ)
      → IsInv codec heads (change_account (λ a. record a { demotions = d a; skips = k a }) addr p)
  unfolding change_account
  change_account-IsInv addr d k = elim (Option-cases (get p addr)) [
    | inl e ↦ rw (e, change_account) i
    | inr (a, e) ↦ rw (e, change_account) (counters-IsInv addr a (d a) (k a) e)
  ]
