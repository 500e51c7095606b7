-- ===== src/TxPool/Tests.antt =====
-- The pool of txpool/ run on small inputs, and its theorems at such inputs.
use Prim.Native.Nat.{max}
use go_plgchain.Base.{
  ℕ, ◌+◌, ◌%◌, ◌<◌, ◌≡◌, ◌⊎◌, ◌↔◌, refl, [], ◌∷◌, true, false, Option, none, some, arith,
}
use go_plgchain.Base.Dict.{sum}
use go_plgchain.Base.Int.{pos}
use go_plgchain.Base.Word.{u64_mod}
use go_plgchain.Gas.{transaction_gas_cost}
use go_plgchain.Gas.Exact.{transaction_gas_cost-exact}
use go_plgchain.Heap.{push, pop}
use go_plgchain.Types.{Transaction, zero_transaction}
use go_plgchain.TxPool.Queue.{push as queue_push, pop as queue_pop, prune}
use go_plgchain.TxPool.Queue.Laws.{IsQueue, nil-IsQueue, push_lem, Pruned, prune-Pruned}
use go_plgchain.TxPool.Account.{Account, reset, enqueue as enqueue_tx, promote as promote_account}
use go_plgchain.TxPool.Account.Run.{nil-IsRun}
use go_plgchain.TxPool.Account.Invariant.{IsValid, IsSettled, EnqueueEnds, enqueue_ends}
use go_plgchain.TxPool.Account.Promotes.{Promotes, promote-Promotes}
use go_plgchain.TxPool.Account.Resets.{reset_aligns, reset_signals}
use go_plgchain.TxPool.Gauge.{slots}
use go_plgchain.TxPool.State.{
  Codec, Store, Config, ForksInTime, TxPool, new_tx_pool, get, get_primaries,
}
use go_plgchain.TxPool.Ingress.{
  add_tx, validate_tx, ok, overflows, handle_enqueue_request, handle_promote_request,
}
use go_plgchain.TxPool.Ingress.Validation.{IsAcceptable, validate_tx-IsAcceptable}
use go_plgchain.TxPool.Ingress.Capacity.{overflows-exact, overflows-wraps}
use go_plgchain.TxPool.Execution.{prepare, peek_executable}
use go_plgchain.TxPool.Execution.Best.{Peeks, prepare_then_peek}
use go_plgchain.TxPool.Sync.{process_event}
use go_plgchain.TxPool.Sound.{account_slots, promoted_count}
use go_plgchain.TxPool.Invariant.{contains}
use go_plgchain.TxPool.Steps.{
  Reach, here, next, add, enqueue, promote, no_promotion_lost, gauge_counts_slots,
  pending_counts_promoted, accounts-IsValid, enqueue_never_faults, promote_never_faults,
  process_event_never_faults,
}

abbrev codec : Codec
codec = record { size = λ tx. 100; sender = λ tx. some 7; hash_of = λ tx. 1000 + tx.nonce }

abbrev store : Store
store = record {
  get_nonce = λ addr. 0;
  get_balance = λ addr. some 10000000;
  gas_limit = 30000000;
  get_block_by_hash = λ hash. none;
}

abbrev forks : ForksInTime
forks = record { homestead = true; istanbul = true; eip158 = true }

abbrev config : Config
config = record {
  price_limit = 1;
  max_slots = 1;
  max_account_enqueued = 4;
  deployment_whitelist = [];
}

abbrev transfer : ℕ → Transaction
transfer nonce = record zero_transaction {
  nonce = nonce;
  gas_price = 5;
  gas = 21000;
  to = some 9;
  value = pos 1;
}

abbrev empty_pool : TxPool
empty_pool = new_tx_pool forks config

abbrev or_same : TxPool → Option TxPool → TxPool
or_same p none = p
or_same p (some q) = q

abbrev pooled : Transaction
pooled = record (transfer 0) { hash = 1000; from = 7 }

-- The pool with one transaction on its way, then enqueued, then promoted.
added : TxPool
added = (add_tx codec store empty_pool (transfer 0)).0

enqueued : TxPool
enqueued =
    or_same added (handle_enqueue_request codec (record added { enqueue_requests = [] }) pooled)

promoted : TxPool
promoted =
    or_same enqueued (handle_promote_request codec (record enqueued { promote_requests = [] }) 7)

added_request : added.enqueue_requests ≡ pooled ∷ []
unfolding added add_tx new_tx_pool
added_request = refl

enqueued_lem :
    handle_enqueue_request codec (record added { enqueue_requests = [] }) pooled ≡ some enqueued
unfolding enqueued added add_tx new_tx_pool handle_enqueue_request
enqueued_lem = refl

enqueued_request : enqueued.promote_requests ≡ 7 ∷ []
unfolding enqueued added add_tx new_tx_pool handle_enqueue_request
enqueued_request = refl

promoted_lem :
    handle_promote_request codec (record enqueued { promote_requests = [] }) 7 ≡ some promoted
unfolding promoted enqueued added add_tx new_tx_pool handle_enqueue_request handle_promote_request
    pop push queue_push queue_pop prune
promoted_lem = refl

Reach-added : Reach codec true empty_pool added
unfolding added
Reach-added = next here (add store (transfer 0) (omega arith))

Reach-enqueued : Reach codec true empty_pool enqueued
Reach-enqueued = next Reach-added (enqueue [] [] pooled enqueued added_request enqueued_lem)

Reach-promoted : Reach codec true empty_pool promoted
Reach-promoted = next Reach-enqueued (promote [] [] 7 promoted enqueued_request promoted_lem)

abbrev waiting_account : Account
waiting_account = record {
  enqueued = pooled ∷ [];
  promoted = [];
  next_nonce = 0;
  demotions = 0;
  skips = 0;
  max_enqueued = 4;
}

abbrev promoted_account : Account
promoted_account = record waiting_account { enqueued = []; promoted = pooled ∷ []; next_nonce = 1 }

waiting : get enqueued 7 ≡ some waiting_account
unfolding enqueued added add_tx new_tx_pool handle_enqueue_request push queue_push
waiting = refl

ready : get promoted 7 ≡ some promoted_account
unfolding promoted enqueued added add_tx new_tx_pool handle_enqueue_request handle_promote_request
    pop push queue_push queue_pop prune
ready = refl

no_promotion_lost_example :
    IsSettled waiting_account ⊎ (contains enqueued.promote_requests 7 ≡ true)
no_promotion_lost_example =
    no_promotion_lost codec true forks config enqueued Reach-enqueued 7 waiting_account waiting

gauge_counts_slots_example :
    promoted.gauge.height ≡ sum (account_slots codec) promoted.accounts % u64_mod
gauge_counts_slots_example = gauge_counts_slots codec forks config promoted Reach-promoted

pending_counts_promoted_example :
    promoted.pending ≡ sum (promoted_count codec) promoted.accounts % u64_mod
pending_counts_promoted_example = pending_counts_promoted codec forks config promoted Reach-promoted

accounts-IsValid_example : IsValid promoted_account
accounts-IsValid_example =
    accounts-IsValid codec true forks config promoted Reach-promoted 7 promoted_account ready

enqueue_never_faults_example :
    (q : TxPool) × (handle_enqueue_request codec (record added { enqueue_requests = [] }) pooled
      ≡ some q)
enqueue_never_faults_example =
    enqueue_never_faults codec true forks config added Reach-added [] [] pooled added_request

promote_never_faults_example :
    (q : TxPool) × (handle_promote_request codec (record enqueued { promote_requests = [] }) 7
      ≡ some q)
promote_never_faults_example =
    promote_never_faults codec true forks config enqueued Reach-enqueued [] [] 7 enqueued_request

process_event_never_faults_example :
    (q : TxPool) × (process_event codec store (1 ∷ []) promoted ≡ some q)
process_event_never_faults_example =
    process_event_never_faults codec true forks config promoted Reach-promoted store (1 ∷ [])

waiting-IsValid : IsValid waiting_account
waiting-IsValid =
    accounts-IsValid codec true forks config enqueued Reach-enqueued 7 waiting_account waiting

ready-IsValid : IsValid promoted_account
ready-IsValid =
    accounts-IsValid codec true forks config promoted Reach-promoted 7 promoted_account ready

promote-Promotes_example : Promotes waiting_account (promote_account waiting_account)
promote-Promotes_example = promote-Promotes waiting_account waiting-IsValid

reset_aligns_example :
    let r = reset 1 promoted_account in
    IsValid r.account
    × (r.account.next_nonce ≡ max 1 1)
    × Pruned 1 promoted_account.promoted (r.pruned_promoted, r.account.promoted)
    × Pruned 1 promoted_account.enqueued (r.pruned_enqueued, r.account.enqueued)
reset_aligns_example = reset_aligns 1 promoted_account ready-IsValid

enqueue_ends_example :
    EnqueueEnds promoted_account (transfer 3) (enqueue_tx promoted_account (transfer 3))
enqueue_ends_example = enqueue_ends promoted_account (transfer 3) ready-IsValid (omega arith)

prune-Pruned_example : Pruned 1 (pooled ∷ []) (prune 1 (pooled ∷ []))
prune-Pruned_example = prune-Pruned 1 (pooled ∷ []) ready-IsValid.promoted

validate_tx-IsAcceptable_example :
    (validate_tx codec store empty_pool (transfer 0) ≡ ok (record (transfer 0) { from = 7 }))
    ↔ IsAcceptable store empty_pool codec (transfer 0) (record (transfer 0) { from = 7 })
validate_tx-IsAcceptable_example =
    validate_tx-IsAcceptable store empty_pool codec (transfer 0) (record (transfer 0) { from = 7 })

overflows-exact_example :
    (overflows codec promoted (transfer 1) ≡ true)
    ↔ (promoted.gauge.max < promoted.gauge.height + slots codec.size (transfer 1))
unfolding promoted enqueued added add_tx new_tx_pool handle_enqueue_request handle_promote_request
    pop push queue_push queue_pop prune
overflows-exact_example = overflows-exact codec promoted (transfer 1) (omega arith) (omega arith)

-- The gauge of a pool of one slot that two transactions entered before either was counted.
abbrev crowded : TxPool
crowded = record empty_pool { gauge = record { height = 2; max = 1 } }

overflows-wraps_example : overflows codec crowded (transfer 2) ≡ false
overflows-wraps_example =
    overflows-wraps codec crowded (transfer 2) (omega arith) (omega arith) (omega arith)

prepare_then_peek_example : Peeks (get_primaries promoted) (peek_executable (prepare promoted))
prepare_then_peek_example = prepare_then_peek promoted

transaction_gas_cost-exact_example :
    transaction_gas_cost (record (transfer 0) { input = 0 ∷ 7 ∷ [] }) true true ≡ some 21020
unfolding transaction_gas_cost
transaction_gas_cost-exact_example =
    transaction_gas_cost-exact (record (transfer 0) { input = 0 ∷ 7 ∷ [] }) true true

-- An account that waits for the nonces 2 to 4, with the transaction of nonce 5 enqueued.
abbrev ahead_account : Account
ahead_account = record waiting_account { enqueued = transfer 5 ∷ []; next_nonce = 2 }

alone-IsQueue : IsQueue (transfer 5 ∷ [])
unfolding push queue_push
alone-IsQueue = (push_lem [] (transfer 5) nil-IsQueue).0

ahead-IsValid : IsValid ahead_account
ahead-IsValid = record {
  enqueued = alone-IsQueue;
  promoted = nil-IsQueue;
  waiting = (omega arith, tt);
  small = (omega arith, tt);
  run = nil-IsRun 2;
  bounded = omega arith;
}

reset_signals_example :
    ((reset 5 ahead_account).request ≡ none) ↔ IsSettled (reset 5 ahead_account).account
reset_signals_example = reset_signals 5 ahead_account ahead-IsValid (omega arith, tt)

-- This reset signals, and one to another nonce does not.
signals : (reset 5 ahead_account).request ≡ some 0
unfolding reset prune
signals = refl

signals_not : (reset 3 ahead_account).request ≡ none
unfolding reset prune
signals_not = refl
