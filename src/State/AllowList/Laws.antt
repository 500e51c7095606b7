-- ===== src/State/AllowList/Laws.antt =====
-- Who changes the roles of an allow list, and to what.
use go_plgchain.Base.{
  ℕ, ◌≤◌, ◌≡◌, ◌≢◌, ◌⊎◌, inl, inr, ap, ◌∙◌, Bool, true, false, some, length, take, ◌==◌,
  if◌then◌else◌, arith, Option-cases,
}
use go_plgchain.Base.Bytes.{Bytes, drop, length-drop, bytes_equal}
use go_plgchain.State.Account.{ReadSnapshot, zero_hash}
use go_plgchain.State.Txn.{Txn, get_balance}
use go_plgchain.State.Txn.Balances.{
  object_or_new_live, get_balance-upsert_account, object_or_new-balance,
}
use go_plgchain.State.Txn.Reverts.{snapshots-upsert_account}
use go_plgchain.State.Storage.{set_state, get_state, write_slot}
use go_plgchain.State.Storage.Slots.{get_state-set_state}
use go_plgchain.State.AllowList.{
  Selectors, bytes_to_address, update_role, get_role, set_role, write_call, run_input_call,
  admin_role, write_allow_list_cost,
}

module _ (base : ReadSnapshot) (list : ℕ) (s : Selectors) where
  -- A call of the allow list that is static or whose caller does not have the admin role leaves the
  -- state exactly as it was.
  pub only_admins_write :
      (caller gas : ℕ) (input : Bytes) (is_static : Bool) (t : Txn)
      → (get_role base list t caller ≢ admin_role) ⊎ (is_static ≡ true)
      → (run_input_call base list s caller input gas is_static t).1 ≡ t
  unfolding run_input_call write_call
  only_admins_write caller gas input is_static t h = ground arith

  -- What a call costs it can pay.
  pub used-le-gas :
      (caller gas : ℕ) (input : Bytes) (is_static : Bool) (t : Txn)
      → (run_input_call base list s caller input gas is_static t).0.used ≤ gas
  unfolding run_input_call write_call
  used-le-gas caller gas input is_static t = ground (arith)

  -- For a trie whose empty storage has no slots: a call by an admin, not static, with an input of 36
  -- bytes whose selector is of a writing function and not of the reading one, and enough gas, gives
  -- the target the role of the function, and every other address keeps its role.
  pub admin_sets_role :
      (no_storage : (a k : ℕ) → base.get_storage a base.empty_state_hash k ≡ zero_hash)
      (caller gas role : ℕ) (input : Bytes) (t : Txn)
      → length input ≡ 36
      → bytes_equal (take 4 input) s.read_allow_list ≡ false
      → update_role s (take 4 input) ≡ some role
      → get_role base list t caller ≡ admin_role
      → write_allow_list_cost ≤ gas
      → (a : ℕ)
      → get_role base list (run_input_call base list s caller input gas false t).1 a
        ≡ (if bytes_to_address (drop 4 input) == a then role else get_role base list t a)
  unfolding run_input_call write_call get_role set_role
  admin_sets_role no_storage caller gas role input t len read set admin paid a =
      let ran : (run_input_call base list s caller input gas false t).1
          ≡ set_state base list (bytes_to_address (drop 4 input)) role t =
        ground (arith, len, length-drop 4 input, read, set, admin, paid) in
      ap (λ u. get_state base u list a) ran
      ∙ ground (
        arith,
        get_state-set_state base no_storage t list (bytes_to_address (drop 4 input)) role list a,
      )

  -- What a call leaves alone: the snapshots and every balance.
  pub snapshots-run_input_call :
      (caller gas : ℕ) (input : Bytes) (is_static : Bool) (t : Txn)
      → (run_input_call base list s caller input gas is_static t).1.snapshots ≡ t.snapshots
  unfolding run_input_call write_call set_role set_state
  snapshots-run_input_call caller gas input is_static t =
      elim (Option-cases (update_role s (take 4 input))) [
        | inl e ↦ ground (arith, e)
        | inr (role, e) ↦ ground (
          arith,
          e,
          snapshots-upsert_account base list true
              (write_slot base (bytes_to_address (drop 4 input)) role) t,
        )
      ]

  get_balance-set_role :
      (target role : ℕ) (t : Txn) (a : ℕ)
      → get_balance base (set_role base list target role t) a ≡ get_balance base t a
  unfolding set_role set_state write_slot
  get_balance-set_role target role t a = ground (
    arith,
    get_balance-upsert_account base t list a (write_slot base target role)
        (object_or_new_live base t list),
    object_or_new-balance base t list,
    λ (e : list ≡ a). ap (get_balance base t) e,
  )

  pub get_balance-run_input_call :
      (caller gas : ℕ) (input : Bytes) (is_static : Bool) (t : Txn) (a : ℕ)
      → get_balance base (run_input_call base list s caller input gas is_static t).1 a
        ≡ get_balance base t a
  unfolding run_input_call write_call
  get_balance-run_input_call caller gas input is_static t a =
      elim (Option-cases (update_role s (take 4 input))) [
        | inl e ↦ ground (arith, e)
        | inr (role, e) ↦
            ground (arith, e, get_balance-set_role (bytes_to_address (drop 4 input)) role t a)
      ]
