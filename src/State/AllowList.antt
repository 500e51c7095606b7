-- ===== src/State/AllowList.antt =====
-- state/runtime/allowlist/allowlist.go, a contract of the node's own: roles of addresses, kept as the
-- storage of the list's address. The selectors come from the ABI library.
pub mod Laws
use go_plgchain.Base.{
  ℕ, zero, suc, ◌+◌, ◌-◌, ◌*◌, ◌%◌, ◌^◌, List, [], ◌∷◌, Bool, true, false, ◌||◌, not, Option, none,
  some, length, take, ltb, ◌==◌, if◌then◌else◌,
}
use go_plgchain.Base.Bytes.{drop, Bytes, bytes_equal}
use go_plgchain.State.Account.{ReadSnapshot}
use go_plgchain.State.Txn.{Txn}
use go_plgchain.State.Storage.{set_state, get_state}

pub record Selectors : Type 0 where
  pub set_admin : Bytes
  pub set_enabled : Bytes
  pub set_none : Bytes
  pub read_allow_list : Bytes

-- The roles, as the hashes that stand for them.
abbrev pub no_role : ℕ
no_role = 0

abbrev pub enabled_role : ℕ
enabled_role = 1

abbrev pub admin_role : ℕ
admin_role = 2

abbrev pub is_enabled : ℕ → Bool
is_enabled role = role == admin_role || role == enabled_role

abbrev pub write_allow_list_cost : ℕ
write_allow_list_cost = 20000

abbrev pub read_allow_list_cost : ℕ
read_allow_list_cost = 5000

pub data AllowListError : Type 0 where
  no_function_signature input_too_short function_not_found write_protection : AllowListError
  out_of_gas not_auth : AllowListError

-- types.BytesToAddress: the last twenty bytes.
unfoldable pub address_from : ℕ → Bytes → ℕ
address_from acc [] = acc % 2 ^ 160
address_from acc (b ∷ bs) = address_from (acc * 256 + b) bs

abbrev pub bytes_to_address : Bytes → ℕ
bytes_to_address = address_from 0

-- What runInputCall returns: the role that was read, the gas used and the error.
pub record Reply : Type 0 where
  pub value : Option ℕ
  pub used : ℕ
  pub err : Option AllowListError

abbrev pub refused : ℕ → AllowListError → Reply
refused used e = record { value = none; used = used; err = some e }

-- The role that a writing function sets.
unfoldable pub update_role : Selectors → Bytes → Option ℕ
update_role s sig =
    if bytes_equal sig s.set_admin
    then some admin_role
    else if bytes_equal sig s.set_enabled
    then some enabled_role
    else if bytes_equal sig s.set_none
    then some no_role
    else none

module _ (base : ReadSnapshot) (list : ℕ) where
  unfoldable pub get_role : Txn → ℕ → ℕ
  get_role t addr = get_state base t list addr

  unfoldable pub set_role : ℕ → ℕ → Txn → Txn
  set_role addr role = set_state base list addr role

  -- The part of runInputCall that writes, by the role that the function sets.
  abbrev pub writes : Option ℕ → ℕ → ℕ → ℕ → Bool → Txn → Reply × Txn
  writes none caller target gas is_static t = (refused 0 AllowListError.function_not_found, t)
  writes (some role) caller target gas is_static t =
      if ltb gas write_allow_list_cost
      then (refused 0 AllowListError.out_of_gas, t)
      else if is_static
      then (refused write_allow_list_cost AllowListError.write_protection, t)
      else if not (get_role t caller == admin_role)
      then (refused write_allow_list_cost AllowListError.not_auth, t)
      else (
        record { value = none; used = write_allow_list_cost; err = none },
        set_role target role t,
      )

  unfoldable pub write_call : Selectors → ℕ → Bytes → ℕ → ℕ → Bool → Txn → Reply × Txn
  write_call s caller sig target gas is_static t =
      writes (update_role s sig) caller target gas is_static t

  unfoldable pub run_input_call : Selectors → ℕ → Bytes → ℕ → Bool → Txn → Reply × Txn
  run_input_call s caller input gas is_static t =
      let sig = take 4 input in
      let target : ℕ = bytes_to_address (drop 4 input) in
      if ltb (length input) 4
      then (refused 0 AllowListError.no_function_signature, t)
      else if not (length (drop 4 input) == 32)
      then (refused 0 AllowListError.input_too_short, t)
      else if bytes_equal sig s.read_allow_list
      then if ltb gas read_allow_list_cost then (refused 0 AllowListError.out_of_gas, t) else (
        record { value = some (get_role t target); used = read_allow_list_cost; err = none },
        t,
      )
      else write_call s caller sig target gas is_static t
