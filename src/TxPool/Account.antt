-- ===== src/TxPool/Account.antt =====
-- txpool/account.go, the account of one address. Locks are left out: a method runs whole, as the
-- locks that it takes make it do. uint64 nonces wrap where the code adds.
pub mod Invariant
pub mod Run
pub mod Promotes
pub mod Resets
use go_plgchain.Base.{
  ℕ, zero, suc, ◌+◌, ◌%◌, List, [], ◌∷◌, ◌++◌, Bool, true, false, Option, none, some, length, ltb,
  leb, ◌==◌, if◌then◌else◌,
}
use go_plgchain.Base.Word.{add64}
use go_plgchain.Types.{Transaction}
use go_plgchain.TxPool.Queue.{Txs, peek, push, pop, prune}

pub record Account : Type 0 where
  pub enqueued : Txs
  pub promoted : Txs
  pub next_nonce : ℕ
  pub demotions : ℕ
  pub skips : ℕ
  pub max_enqueued : ℕ

-- The account that accountsMap.initOnce stores.
abbrev pub new_account : ℕ → ℕ → Account
new_account nonce max_enqueued_limit = record {
  enqueued = [];
  promoted = [];
  next_nonce = nonce;
  demotions = 0;
  skips = 0;
  max_enqueued = max_enqueued_limit;
}

abbrev pub set_nonce : ℕ → Account → Account
set_nonce nonce a = record a { next_nonce = nonce }

abbrev pub reset_demotions : Account → Account
reset_demotions a = record a { demotions = 0 }

abbrev pub increment_demotions : Account → Account
increment_demotions a = record a { demotions = add64 a.demotions 1 }

abbrev pub reset_skips : Account → Account
reset_skips a = record a { skips = 0 }

abbrev pub increment_skips : Account → Account
increment_skips a = record a { skips = add64 a.skips 1 }

-- What `reset` leaves, what it pruned, and the account of the promotion that it signals, if any.
pub record Reset : Type 0 where
  pub account : Account
  pub pruned_promoted : Txs
  pub pruned_enqueued : Txs
  pub request : Option ℕ

-- The signal at the end of `reset`: the first enqueued transaction is expected.
first_expected : Txs → ℕ → Option ℕ
first_expected q nonce = elim (peek q) [
  | none ↦ none
  | some first ↦ if first.nonce == nonce then some first.from else none
]

unfoldable pub reset : ℕ → Account → Reset
unfolding first_expected
reset nonce a =
    let (pruned_promoted, promoted) = prune nonce a.promoted in
    let (pruned_enqueued, enqueued) = prune nonce a.enqueued in
    if leb nonce a.next_nonce
    then record {
      account = record a { promoted = promoted };
      pruned_promoted = pruned_promoted;
      pruned_enqueued = [];
      request = none;
    }
    else record {
      account = record a { promoted = promoted; enqueued = enqueued; next_nonce = nonce };
      pruned_promoted = pruned_promoted;
      pruned_enqueued = pruned_enqueued;
      request = first_expected enqueued nonce;
    }

pub data EnqueueError : Type 0 where
  max_enqueued_limit_reached nonce_too_low : EnqueueError

pub data Enqueued : Type 0 where
  ok : Account → Enqueued
  err : EnqueueError → Enqueued

unfoldable pub enqueue : Account → Transaction → Enqueued
enqueue a tx =
    if length a.enqueued == a.max_enqueued
    then err max_enqueued_limit_reached
    else if ltb tx.nonce a.next_nonce
    then err nonce_too_low
    else ok (record a { enqueued = push a.enqueued tx })

-- The variables of the loop in `promote`.
pub record Promotion : Type 0 where
  pub enqueued : Txs
  pub promoted_queue : Txs
  pub next_nonce : ℕ
  pub promoted : Txs
  pub pruned : Txs

-- One round: tx was popped from the enqueued queue, which left rest.
promote_round : Promotion → Transaction → Txs → Promotion
promote_round s tx rest =
    let next : ℕ = add64 tx.nonce 1 in
    let (gone, left) = prune next rest in
    record {
      enqueued = left;
      promoted_queue = push s.promoted_queue tx;
      next_nonce = next;
      promoted = s.promoted ++ tx ∷ [];
      pruned = s.pruned ++ gone;
    }

-- Each round takes an enqueued transaction, so length + 1 rounds are enough.
promote_loop : ℕ → Promotion → Promotion
unfolding promote_round
promote_loop zero s = s
promote_loop (suc k) s = elim (peek s.enqueued) [
  | none ↦ s
  | some tx ↦ elim (tx.nonce == s.next_nonce) [
    | false ↦ s
    | true ↦ elim (pop s.enqueued) [
      | none ↦ s
      | some (t, rest) ↦ promote_loop k (promote_round s t rest)
    ]
  ]
]

-- What `promote` leaves, and the transactions that it promoted and pruned.
pub record Promoted : Type 0 where
  pub account : Account
  pub promoted : Txs
  pub pruned : Txs

-- The variables when the loop begins.
abbrev pub start : Account → ℕ → Promotion
start a nonce = record {
  enqueued = a.enqueued;
  promoted_queue = a.promoted;
  next_nonce = nonce;
  promoted = [];
  pruned = [];
}

-- After the loop: the nonce is updated only to a higher one.
finish : Account → Promotion → Promoted
finish a s = record {
  account = record a {
    enqueued = s.enqueued;
    promoted = s.promoted_queue;
    next_nonce = if ltb a.next_nonce s.next_nonce then s.next_nonce else a.next_nonce;
  };
  promoted = s.promoted;
  pruned = s.pruned;
}

promote_from : Account → Transaction → Promoted
unfolding promote_loop finish
promote_from a first =
    if ltb a.next_nonce first.nonce
    then record { account = a; promoted = []; pruned = [] }
    else finish a (promote_loop (length a.enqueued + 1) (start a first.nonce))

unfoldable pub promote : Account → Promoted
unfolding promote_from
promote a = elim (peek a.enqueued) [
  | none ↦ record { account = a; promoted = []; pruned = [] }
  | some first ↦ promote_from a first
]

unfoldable pub get_lowest_tx : Account → Option Transaction
get_lowest_tx a = elim (peek a.promoted) [ some first ↦ some first | none ↦ peek a.enqueued ]
