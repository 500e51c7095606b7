-- ===== src/State/Account.antt =====
-- The accounts of state/state.go: Account, StateObject and what a commit hands on. A code hash, a
-- storage root, a key and a value are numbers; a balance is a math/big value that is never negative.
use go_plgchain.Base.{ℕ, List, [], Bool, false, ◌&&◌, Option, none, ◌==◌}

pub record Account : Type 0 where
  pub nonce : ℕ
  pub balance : ℕ
  pub root : ℕ
  pub code_hash : ℕ

-- Txn of the source, a radix tree over the changed slots whose nil is a slot that was cleared.
pub record StateObject : Type 0 where
  pub account : Account
  pub code : List ℕ
  pub suicide : Bool
  pub deleted : Bool
  pub dirty_code : Bool
  pub slots : Option (List (ℕ × Option ℕ))

pub record Log : Type 0 where
  pub address : ℕ
  pub topics : List ℕ
  pub bytes : List ℕ

-- What the state reads of other packages: the last committed trie, with nil also for an error, the
-- answers of the LRU cache of code, the hash function and the root of an empty storage.
pub record ReadSnapshot : Type 0 where
  pub get_account : ℕ → Option Account
  pub get_storage : ℕ → ℕ → ℕ → ℕ
  pub stored_code : ℕ → List ℕ
  pub cached_code : ℕ → Option (List ℕ)
  pub keccak : List ℕ → ℕ
  pub empty_state_hash : ℕ

abbrev pub zero_hash : ℕ
zero_hash = 0

unfoldable pub is_empty : ReadSnapshot → StateObject → Bool
is_empty base s =
    s.account.nonce == 0 && (s.account.balance == 0 && s.account.code_hash == base.keccak [])

unfoldable pub new_state_object : ReadSnapshot → StateObject
new_state_object base = record {
  account = record {
    nonce = 0;
    balance = 0;
    root = base.empty_state_hash;
    code_hash = base.keccak [];
  };
  code = [];
  suicide = false;
  deleted = false;
  dirty_code = false;
  slots = none;
}
