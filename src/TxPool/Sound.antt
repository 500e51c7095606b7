-- ===== src/TxPool/Sound.antt =====
-- The books of the pool, txpool/txpool.go: its accounts are well formed, each under the address of its
-- transactions, the gauge shows their slots, and `pending` counts the promoted ones.
use go_plgchain.Base.{
  ℕ, ◌+◌, ◌%◌, ◌≡◌, ◌++◌, Bool, true, none, some, Perm, length, total, All, All-append_left,
  All-append_right, All-perm, arith,
}
use go_plgchain.Base.Dict.{Each-insert, sum, sum-insert, sum-insert_new}
use go_plgchain.Base.Word.{u64_mod}
use mathlib.Core.List.Perm
use native.Mathlib.Nat.{ℕ_set}
use go_plgchain.TxPool.Queue.{Txs}
use go_plgchain.TxPool.Account.{Account}
use go_plgchain.TxPool.Account.Invariant.{IsValid}
use go_plgchain.TxPool.Gauge.{
  Shows, slots, slots_required, slots_required-total, increase, decrease, increase-Shows,
  decrease-Shows,
}
use go_plgchain.TxPool.State.{Codec, TxPool, get, store_account, add_pending, sub_pending}

abbrev pub SentBy : ℕ → Txs → Type 0
SentBy addr = All (λ t. t.from ≡ addr)

pub record IsOwned (addr : ℕ) (a : Account) : Type 0 where
  pub valid : IsValid a
  pub enqueued : SentBy addr a.enqueued
  pub promoted : SentBy addr a.promoted

pub SentBy-perm : (addr : ℕ) {q r : Txs} → Perm q r → SentBy addr q → SentBy addr r
SentBy-perm addr = All-perm (λ t. t.from ≡ addr) (λ t. ℕ_set t.from addr)

-- A part of what was split was sent by the same.
pub SentBy-split :
    (addr : ℕ) (q r s : Txs) → Perm (q ++ r) s → SentBy addr s → SentBy addr q × SentBy addr r
SentBy-split addr q r s p h =
    let both = SentBy-perm addr {q = s} (Perm.symm p) h in
    (All-append_left (λ t. t.from ≡ addr) q r both, All-append_right (λ t. t.from ≡ addr) q r both)

abbrev pub account_slots : Codec → Account → ℕ
account_slots codec a = total (slots codec.size) a.enqueued + total (slots codec.size) a.promoted

abbrev pub promoted_count : Codec → Account → ℕ
promoted_count codec a = length a.promoted

-- The counters are right where each Pop was given the head of its queue: `heads`.
module _ (codec : Codec) (heads : Bool) where
  -- `slots_out` and `count_out` are of transactions that have left their account, and that the gauge
  -- and `pending` still count: zero between the handlers.
  pub record IsSound (slots_out count_out : ℕ) (p : TxPool) : Type 0 where
    pub accounts : (addr : ℕ) (a : Account) → get p addr ≡ some a → IsOwned addr a
    pub gauge : heads ≡ true → Shows p.gauge (sum (account_slots codec) p.accounts + slots_out)
    pub pending :
        heads ≡ true → p.pending ≡ (sum (promoted_count codec) p.accounts + count_out) % u64_mod

  -- A new value of an account that trades slots and counts with what is out.
  pub store-IsSound :
      (addr : ℕ) (a b : Account) (p : TxPool) (x y x' y' : ℕ)
      → get p addr ≡ some a
      → IsOwned addr b
      → account_slots codec a + x ≡ account_slots codec b + x'
      → promoted_count codec a + y ≡ promoted_count codec b + y'
      → IsSound x y p
      → IsSound x' y' (store_account addr b p)
  store-IsSound addr a b p x y x' y' e o f g s = record {
    accounts = Each-insert IsOwned addr b p.accounts o s.accounts;
    gauge = λ h. omega (arith, s.gauge h, sum-insert (account_slots codec) addr a b p.accounts e);
    pending =
        λ h. omega (arith, s.pending h, sum-insert (promoted_count codec) addr a b p.accounts e);
  }

  -- A new account without transactions.
  pub create-IsSound :
      (addr : ℕ) (b : Account) (p : TxPool) (x y : ℕ)
      → get p addr ≡ none
      → IsOwned addr b
      → account_slots codec b ≡ 0
      → promoted_count codec b ≡ 0
      → IsSound x y p
      → IsSound x y (store_account addr b p)
  create-IsSound addr b p x y e o f g s = record {
    accounts = Each-insert IsOwned addr b p.accounts o s.accounts;
    gauge = λ h. omega (arith, s.gauge h, sum-insert_new (account_slots codec) addr b p.accounts e);
    pending =
        λ h. omega (arith, s.pending h, sum-insert_new (promoted_count codec) addr b p.accounts e);
  }

  -- Where the counters are not claimed, what is out does not matter.
  pub adjusted-IsSound :
      (p : TxPool) (x y x' y' : ℕ)
      → (heads ≡ true → (x ≡ x') × (y ≡ y'))
      → IsSound x y p
      → IsSound x' y' p
  adjusted-IsSound p x y x' y' e s = record {
    accounts = s.accounts;
    gauge = λ h. omega (arith, s.gauge h, (e h).0);
    pending = λ h. omega (arith, s.pending h, (e h).1);
  }

  -- The gauge gives up the slots of transactions that are out.
  pub decrease-IsSound :
      (txs : Txs) (p : TxPool) (x n y : ℕ)
      → n ≡ x + total (slots codec.size) txs
      → IsSound n y p
      → IsSound x y (record p { gauge = decrease (slots_required codec.size txs) p.gauge })
  decrease-IsSound txs p x n y e s = record {
    accounts = s.accounts;
    gauge = λ h.
        decrease-Shows p.gauge (sum (account_slots codec) p.accounts + x)
          (slots_required codec.size txs) (total (slots codec.size) txs)
          (slots_required-total codec.size txs) (omega (arith, s.gauge h));
    pending = s.pending;
  }

  -- The gauge counts the slots of transactions that come in.
  pub increase-IsSound :
      (txs : Txs) (p : TxPool) (y : ℕ)
      → IsSound 0 y p
      → IsSound
          (total (slots codec.size) txs)
          y
          (record p { gauge = increase (slots_required codec.size txs) p.gauge })
  increase-IsSound txs p y s = record {
    accounts = s.accounts;
    gauge = λ h.
        increase-Shows p.gauge (sum (account_slots codec) p.accounts)
          (slots_required codec.size txs) (total (slots codec.size) txs)
          (slots_required-total codec.size txs) (omega (arith, s.gauge h));
    pending = s.pending;
  }

  -- `pending` gives up transactions that are out.
  pub sub_pending-IsSound :
      (n : ℕ) (p : TxPool) (x y m : ℕ) → m ≡ y + n → IsSound x m p → IsSound x y (sub_pending n p)
  sub_pending-IsSound n p x y m e s = record {
    accounts = s.accounts;
    gauge = s.gauge;
    pending = λ h. omega (arith, s.pending h);
  }

  -- `pending` counts transactions that are to come.
  pub add_pending-IsSound :
      (n : ℕ) (p : TxPool) (x : ℕ) → IsSound x 0 p → IsSound x n (add_pending n p)
  add_pending-IsSound n p x s = record {
    accounts = s.accounts;
    gauge = s.gauge;
    pending = λ h. omega (arith, s.pending h);
  }
