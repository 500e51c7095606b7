-- ===== src/State/Txn/Balances.antt =====
-- What the operations of state/txn.go do to balances and nonces, one by one and over many accounts.
use go_plgchain.Base.{
  ℕ, ◌+◌, ◌≤◌, ◌≡◌, inl, inr, refl, ap, ◌∙◌, List, [], ◌∷◌, Bool, true, false, ◌&&◌, ◌||◌, none,
  some, ◌==◌, if◌then◌else◌, arith, Bool-cases, Option-cases,
}
use go_plgchain.Base.Dict.{lookup, lookup-insert}
use go_plgchain.State.Account.{StateObject, ReadSnapshot, new_state_object, is_empty}
use go_plgchain.State.Txn.{
  Txn, put_object, get_state_object, upsert_account, add_balance, get_balance, sub_balance,
  incr_nonce, credit, debit, bump_nonce, coded, with_account, create_account, clean_delete_objects,
  mark_deleted, touch_account, set_code, suicide,
}

module _ (base : ReadSnapshot) where
  -- What an address finds after an object was put in.
  pub get_state_object-put_object :
      (t : Txn) (addr a : ℕ) (object : StateObject)
      → object.deleted ≡ false
      → get_state_object base (put_object addr object t) a
        ≡ (if addr == a then some object else get_state_object base t a)
  unfolding get_state_object put_object
  get_state_object-put_object t addr a object h =
      ground (arith, h, lookup-insert addr a object t.tree.objects)

  -- An object that is found is not deleted.
  pub found_not_deleted :
      (t : Txn) (a : ℕ) (object : StateObject)
      → get_state_object base t a ≡ some object
      → object.deleted ≡ false
  unfolding get_state_object new_state_object
  found_not_deleted t a object h = ground (arith, h)

  -- The object that a callback is given.
  unfoldable pub object_or_new : Txn → ℕ → StateObject
  object_or_new t a = elim (get_state_object base t a) [ none ↦ new_state_object base | some o ↦ o ]

  -- An upsert puts the object in that its callback makes.
  pub upsert_account_lem :
      (t : Txn) (addr : ℕ) (f : StateObject → StateObject)
      → upsert_account base addr true f t ≡ put_object addr (f (object_or_new t addr)) t
  unfolding upsert_account object_or_new
  upsert_account_lem t addr f = ground arith

  pub object_or_new_live : (t : Txn) (a : ℕ) → (object_or_new t a).deleted ≡ false
  unfolding object_or_new new_state_object
  object_or_new_live t a = ground (arith, found_not_deleted t a (object_or_new t a))

  pub object_or_new-balance :
      (t : Txn) (a : ℕ) → (object_or_new t a).account.balance ≡ get_balance base t a
  unfolding object_or_new get_balance new_state_object
  object_or_new-balance t a = ground arith

  get_balance-put_object :
      (t : Txn) (addr a : ℕ) (object : StateObject)
      → object.deleted ≡ false
      → get_balance base (put_object addr object t) a
        ≡ (if addr == a then object.account.balance else get_balance base t a)
  unfolding get_balance
  get_balance-put_object t addr a object h =
      ground (arith, get_state_object-put_object t addr a object h)

  -- An upsert whose callback keeps the object in place, by what it does to the balance.
  pub get_balance-upsert_account :
      (t : Txn) (addr a : ℕ) (f : StateObject → StateObject)
      → (f (object_or_new t addr)).deleted ≡ false
      → get_balance base (upsert_account base addr true f t) a
        ≡ (if addr == a then (f (object_or_new t addr)).account.balance else get_balance base t a)
  get_balance-upsert_account t addr a f h =
      ap (λ u. get_balance base u a) (upsert_account_lem t addr f)
      ∙ get_balance-put_object t addr a (f (object_or_new t addr)) h

  pub get_balance-add_balance :
      (t : Txn) (addr amount a : ℕ)
      → get_balance base (add_balance base addr amount t) a
        ≡ get_balance base t a + (if addr == a then amount else 0)
  unfolding add_balance
  get_balance-add_balance t addr amount a =
      let same : addr ≡ a → get_balance base t addr ≡ get_balance base t a =
        λ e. ap (get_balance base t) e in
      ground (
        arith,
        same,
        get_balance-upsert_account t addr a (credit amount) (object_or_new_live t addr),
        object_or_new-balance t addr,
      )

  pub get_balance-sub_balance :
      (t u : Txn) (addr amount a : ℕ)
      → sub_balance base addr amount t ≡ some u
      → get_balance base t a ≡ get_balance base u a + (if addr == a then amount else 0)
  unfolding sub_balance
  get_balance-sub_balance t u addr amount a h =
      let same : addr ≡ a → get_balance base t addr ≡ get_balance base t a =
        λ e. ap (get_balance base t) e in
      elim (Bool-cases (amount == 0)) [
        | inl e ↦
            let it : t ≡ u = ground (arith, h, e) in
            ground (arith, e, ap (λ x. get_balance base x a) it)
        | inr e ↦
            let it : upsert_account base addr true (debit amount) t ≡ u = ground (arith, h, e) in
            let enough : amount ≤ get_balance base t addr = ground (arith, h, e) in
            ground (
              arith,
              same,
              enough,
              ap (λ x. get_balance base x a) it,
              get_balance-upsert_account t addr a (debit amount) (object_or_new_live t addr),
              object_or_new-balance t addr,
            )
      ]

  -- What keeps balances: nonces, code, storage, a touch and a creation.
  pub get_balance-incr_nonce :
      (t : Txn) (addr a : ℕ) → get_balance base (incr_nonce base addr t) a ≡ get_balance base t a
  unfolding incr_nonce
  get_balance-incr_nonce t addr a = ground (
    arith,
    get_balance-upsert_account t addr a bump_nonce (object_or_new_live t addr),
    object_or_new-balance t addr,
    λ (e : addr ≡ a). ap (get_balance base t) e,
  )

  pub get_balance-touch_account :
      (t : Txn) (addr a : ℕ) → get_balance base (touch_account base addr t) a ≡ get_balance base t a
  get_balance-touch_account t addr a = ground (
    arith,
    get_balance-upsert_account t addr a (λ o. o) (object_or_new_live t addr),
    object_or_new-balance t addr,
    λ (e : addr ≡ a). ap (get_balance base t) e,
  )

  pub get_balance-set_code :
      (t : Txn) (addr a : ℕ) (code : List ℕ)
      → get_balance base (set_code base addr code t) a ≡ get_balance base t a
  unfolding set_code
  get_balance-set_code t addr a code = ground (
    arith,
    get_balance-upsert_account t addr a (coded base code) (object_or_new_live t addr),
    object_or_new-balance t addr,
    λ (e : addr ≡ a). ap (get_balance base t) e,
  )

  pub get_balance-create_account :
      (t : Txn) (addr a : ℕ)
      → get_balance base (create_account base addr t) a ≡ get_balance base t a
  unfolding create_account new_state_object
  get_balance-create_account t addr a = ground (
    arith,
    get_balance-put_object t addr a
        (with_account (λ x. record x { balance = get_balance base t addr }) (new_state_object base))
        refl,
    λ (e : addr ≡ a). ap (get_balance base t) e,
  )

  pub get_balance-suicide :
      (t : Txn) (addr a : ℕ)
      → get_balance base (suicide base addr t).1 a ≡ (if addr == a then 0 else get_balance base t a)
  unfolding suicide upsert_account get_balance
  get_balance-suicide t addr a =
      let same : addr ≡ a → get_balance base t addr ≡ get_balance base t a =
        λ e. ap (get_balance base t) e in
      elim (Option-cases (get_state_object base t addr)) [
        | inl e ↦
            let it : (suicide base addr t).1 ≡ t = ground (arith, e) in
            let nothing : get_balance base t addr ≡ 0 = ground (arith, e) in
            ground (arith, same, nothing, ap (λ u. get_balance base u a) it)
        | inr (object, e) ↦
            let marked = record object {
              suicide = true;
              account = record object.account { balance = 0 };
            } in
            let it : (suicide base addr t).1 ≡ put_object addr marked t = ground (arith, e) in
            ground (
              arith,
              ap (λ u. get_balance base u a) it,
              get_balance-put_object t addr a marked (found_not_deleted t addr object e),
            )
      ]

  lookup-mark_deleted :
      (delete_empty : Bool) (a : ℕ) (objects : List (ℕ × StateObject))
      → lookup a (mark_deleted base delete_empty objects) ≡ elim (lookup a objects) [
        | none ↦ none
        | some o ↦ some (
            if o.suicide || (is_empty base o && delete_empty)
            then record o { deleted = true }
            else o)
      ]
  unfolding lookup mark_deleted
  lookup-mark_deleted delete_empty a [] = refl
  lookup-mark_deleted delete_empty a ((b, o) ∷ objects) =
      ground (arith, lookup-mark_deleted delete_empty a objects)

  -- Cleaning takes the balance of suicided accounts away, and changes no other.
  pub get_balance-clean_delete_objects :
      (t : Txn) (delete_empty : Bool) (a : ℕ)
      → get_balance base (clean_delete_objects base delete_empty t) a ≤ get_balance base t a
  unfolding get_balance get_state_object clean_delete_objects
  get_balance-clean_delete_objects t delete_empty a =
      ground (arith, lookup-mark_deleted delete_empty a t.tree.objects)
