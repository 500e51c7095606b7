-- ===== src/State/Storage/Slots.antt =====
-- What a slot reads after SetState.
use go_plgchain.Base.{
  ℕ, ◌≡◌, inl, inr, refl, sym, ap, ◌∙◌, [], Option, none, some, ◌==◌, if◌then◌else◌, arith,
  Option-cases,
}
use go_plgchain.Base.Dict.{lookup, lookup-insert}
use go_plgchain.State.Account.{StateObject, ReadSnapshot, new_state_object, zero_hash}
use go_plgchain.State.Txn.{Txn, get_state_object, put_object}
use go_plgchain.State.Txn.Balances.{
  object_or_new, object_or_new_live, upsert_account_lem, get_state_object-put_object,
}
use go_plgchain.State.Storage.{set_state, get_state, changed_slot, write_slot}

module _ (base : ReadSnapshot) where
  -- What an object of an address holds in a slot.
  abbrev pub slot_of : ℕ → StateObject → ℕ → ℕ
  slot_of addr object key = elim (changed_slot base object key) [
    | some none ↦ zero_hash
    | some (some value) ↦ value
    | none ↦ base.get_storage addr object.account.root key
  ]

  abbrev slot_in : ℕ → Option StateObject → ℕ → ℕ
  slot_in addr none key = zero_hash
  slot_in addr (some object) key = slot_of addr object key

  get_state_lem :
      (t : Txn) (a k : ℕ) → get_state base t a k ≡ slot_in a (get_state_object base t a) k
  unfolding get_state
  get_state_lem t a k = ground arith

  slot_of-write_slot :
      (addr : ℕ) (object : StateObject) (key k value : ℕ)
      → slot_of addr (write_slot base key value object) k
        ≡ (if key == k then value else slot_of addr object k)
  unfolding changed_slot write_slot lookup
  slot_of-write_slot addr object key k value = elim (Option-cases object.slots) [
    | inl e ↦
        ground (arith, e, lookup-insert key k (if value == zero_hash then none else some value) [])
    | inr (m, e) ↦
        ground (arith, e, lookup-insert key k (if value == zero_hash then none else some value) m)
  ]

  deleted-write_slot :
      (object : StateObject) (key value : ℕ)
      → (write_slot base key value object).deleted ≡ object.deleted
  unfolding write_slot
  deleted-write_slot object key value = refl

  module _ (no_storage : (a k : ℕ) → base.get_storage a base.empty_state_hash k ≡ zero_hash) where
    slot_of-object_or_new :
        (t : Txn) (a k : ℕ) → slot_of a (object_or_new base t a) k ≡ get_state base t a k
    unfolding object_or_new get_state new_state_object changed_slot
    slot_of-object_or_new t a k = ground (arith, no_storage a k)

    -- For a trie whose empty storage has no slots: after SetState of a slot, GetState gives the value
    -- for it and what it gave before for every other slot.
    pub get_state-set_state :
        (t : Txn) (addr key value a k : ℕ)
        → get_state base (set_state base addr key value t) a k ≡ (
            if addr == a
            then (if key == k then value else get_state base t a k)
            else get_state base t a k)
    unfolding set_state
    get_state-set_state t addr key value a k =
        let object = object_or_new base t addr in
        let made = write_slot base key value object in
        let found =
          get_state_object-put_object base t addr a made
            (deleted-write_slot object key value ∙ object_or_new_live base t addr) in
        let here : addr ≡ a → slot_of a made k ≡ slot_of addr made k =
          λ e. ap (λ b. slot_of b made k) (sym e) in
        let there : addr ≡ a → get_state base t a k ≡ get_state base t addr k =
          λ e. ap (λ b. get_state base t b k) (sym e) in
        ap (λ u. get_state base u a k) (upsert_account_lem base t addr (write_slot base key value))
        ∙ get_state_lem (put_object addr made t) a k
        ∙ ap (λ o. slot_in a o k) found
        ∙ ground (
          arith,
          here,
          there,
          get_state_lem t a k,
          slot_of-write_slot addr object key k value,
          slot_of-object_or_new t addr k,
        )
