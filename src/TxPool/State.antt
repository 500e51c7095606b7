-- ===== src/TxPool/State.antt =====
-- txpool/txpool.go: the state of the pool, what it reads of the chain, and its accounts map.
--
-- The two request channels are unbuffered, and each request received runs in a goroutine of its own:
-- what was sent and not yet handled is a list, handled in any order. The logger, the network topic
-- and the gRPC server are left out. Metrics are left out but for `pending`, which is an int64 kept
-- in two's complement.
use go_plgchain.Base.{
  ℕ, ◌%◌, List, [], ◌∷◌, ◌++◌, Bool, true, false, Option, none, some, map, length, ◌==◌,
  if◌then◌else◌,
}
use go_plgchain.Base.Dict.{lookup, insert, keys}
use go_plgchain.Base.Word.{add64, sub64, u64_mod}
use go_plgchain.Types.{Transaction}
use go_plgchain.TxPool.Queue.{Txs, peek}
use go_plgchain.TxPool.Account.{Account, new_account}
use go_plgchain.TxPool.Gauge.{SlotGauge}
use go_plgchain.TxPool.Lookup.{LookupMap}

-- What crypto and RLP, which other libraries write, say of a transaction: the length of its encoding,
-- its signer (`none` is a bad signature), and the hash of its encoding.
pub record Codec : Type 0 where
  pub size : Transaction → ℕ
  pub sender : Transaction → Option ℕ
  pub hash_of : Transaction → ℕ

-- The store interface, read at the header's state root.
pub record Store : Type 0 where
  pub get_nonce : ℕ → ℕ
  pub get_balance : ℕ → Option ℕ
  pub gas_limit : ℕ
  pub get_block_by_hash : ℕ → Option Txs

pub record ForksInTime : Type 0 where
  pub homestead : Bool
  pub istanbul : Bool
  pub eip158 : Bool

pub data EventType : Type 0 where
  added enqueued promoted dropped demoted pruned_promoted pruned_enqueued : EventType

pub record TxPool : Type 0 where
  pub forks : ForksInTime
  pub accounts : List (ℕ × Account)
  pub count : ℕ
  pub max_enqueued_limit : ℕ
  pub executables : Txs
  pub index : LookupMap
  pub gauge : SlotGauge
  pub price_limit : ℕ
  pub enqueue_requests : Txs
  pub promote_requests : List ℕ
  pub prune_requested : Bool
  pub pruner_waiting : Bool
  pub sealing : Bool
  pub events : List (EventType × ℕ)
  pub deployment_whitelist : List ℕ
  pub pending : ℕ

pub record Config : Type 0 where
  pub price_limit : ℕ
  pub max_slots : ℕ
  pub max_account_enqueued : ℕ
  pub deployment_whitelist : List ℕ

-- NewTxPool, after Start: the pruning handler waits for a signal.
unfoldable pub new_tx_pool : ForksInTime → Config → TxPool
new_tx_pool forks config = record {
  forks = forks;
  accounts = [];
  count = 0;
  max_enqueued_limit = config.max_account_enqueued;
  executables = [];
  index = [];
  gauge = record { height = 0; max = config.max_slots };
  price_limit = config.price_limit;
  enqueue_requests = [];
  promote_requests = [];
  prune_requested = false;
  pruner_waiting = true;
  sealing = false;
  events = [];
  deployment_whitelist = config.deployment_whitelist;
  pending = 0;
}

is_listed : List ℕ → ℕ → Bool
is_listed [] addr = false
is_listed (b ∷ bs) addr = if b == addr then true else is_listed bs addr

-- An empty whitelist lets everybody deploy.
unfoldable pub allowed : List ℕ → ℕ → Bool
unfolding is_listed
allowed whitelist addr = elim whitelist [ [] ↦ true | b ∷ bs ↦ is_listed (b ∷ bs) addr ]

-- accountsMap.get and exists.
abbrev pub get : TxPool → ℕ → Option Account
get p addr = lookup addr p.accounts

-- An account is a pointer: what a method changes is seen by every holder.
abbrev pub store_account : ℕ → Account → TxPool → TxPool
store_account addr a p = record p { accounts = insert addr a p.accounts }

-- A method call through a pointer to the account of an address.
unfoldable pub change_account : (Account → Account) → ℕ → TxPool → TxPool
unfolding lookup insert
change_account f addr p = elim (get p addr) [ none ↦ p | some a ↦ store_account addr (f a) p ]

-- createAccountOnce with accountsMap.initOnce.
unfoldable pub create_account_once : Store → ℕ → TxPool → TxPool
unfolding lookup insert
create_account_once store addr p = elim (get p addr) [
  | some a ↦ p
  | none ↦ record p {
    accounts = insert addr (new_account (store.get_nonce addr) p.max_enqueued_limit) p.accounts;
    count = add64 p.count 1;
  }
]

-- accountsMap.getPrimaries.
primary : Option Account → Txs
primary none = []
primary (some a) = elim (peek a.promoted) [ none ↦ [] | some tx ↦ tx ∷ [] ]

primaries_of : TxPool → List ℕ → Txs
unfolding primary lookup
primaries_of p [] = []
primaries_of p (addr ∷ addrs) = primary (get p addr) ++ primaries_of p addrs

unfoldable pub get_primaries : TxPool → Txs
unfolding primaries_of
get_primaries p = primaries_of p (keys p.accounts)

-- accountsMap.promoted.
promoted_from : List (ℕ × Account) → ℕ
promoted_from [] = 0
promoted_from ((addr, a) ∷ rest) = add64 (length a.promoted) (promoted_from rest)

unfoldable pub promoted_length : TxPool → ℕ
unfolding promoted_from
promoted_length p = promoted_from p.accounts

abbrev pub add_pending : ℕ → TxPool → TxPool
add_pending n p = record p { pending = add64 p.pending n }

-- updatePending of -n.
abbrev pub sub_pending : ℕ → TxPool → TxPool
sub_pending n p = record p { pending = sub64 p.pending (n % u64_mod) }

abbrev pub to_hash : Txs → List ℕ
to_hash = map (λ tx. tx.hash)

-- eventManager.signalEvent, as a log with the newest event last.
abbrev pub signal_event : EventType → List ℕ → TxPool → TxPool
signal_event e hashes p = record p { events = p.events ++ map (λ h. (e, h)) hashes }

-- signalPruning: the signal is lost unless the handler waits for it.
unfoldable pub signal_pruning : TxPool → TxPool
signal_pruning p =
    if p.pruner_waiting then record p { prune_requested = true; pruner_waiting = false } else p

abbrev pub set_sealing : Bool → TxPool → TxPool
set_sealing sealing p = record p { sealing = sealing }
