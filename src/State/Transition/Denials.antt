-- ===== src/State/Transition/Denials.antt =====
-- What a creation that the deployment list denies leaves.
use go_plgchain.Base.{
  ℕ, ◌+◌, ◌≤◌, ◌≡◌, ◌≢◌, refl, sym, ap, ◌∙◌, true, false, some, ltb, ◌==◌, if◌then◌else◌, if_elim,
  arith, Option-cases, inl, inr,
}
use go_plgchain.State.Account.{ReadSnapshot}
use go_plgchain.State.Txn.{
  Txn, snapshot, get_state_object, get_balance, add_balance, sub_balance, incr_nonce,
  create_account,
}
use go_plgchain.State.Txn.Balances.{
  get_balance-add_balance, get_balance-sub_balance, get_balance-incr_nonce,
  get_balance-create_account,
}
use go_plgchain.State.Transition.{
  Environment, Contract, failure, err_not_auth, is_shut_out, transfer, has_code_or_nonce,
  open_account, run_constructor, apply_create,
}

module _ (base : ReadSnapshot) (env : Environment) where
  get_balance-snapshot :
      (t : Txn) (a : ℕ) → get_balance base (snapshot t).1 a ≡ get_balance base t a
  unfolding snapshot get_balance get_state_object
  get_balance-snapshot t a = refl

  get_balance-open_account :
      (t : Txn) (addr a : ℕ)
      → get_balance base (open_account base env addr t) a ≡ get_balance base t a
  get_balance-open_account t addr a =
      if_elim (λ u. get_balance base u a ≡ get_balance base t a) env.forks.eip158
        (λ _.
          get_balance-incr_nonce base (create_account base addr t) addr a
          ∙ get_balance-create_account base t addr a)
        (λ _. refl)

  get_balance-transfer :
      (from to amount : ℕ) (t u : Txn)
      → from ≢ to
      → transfer base env from to amount t ≡ some u
      → (get_balance base u to ≡ get_balance base t to + amount)
        × (get_balance base u from + amount ≡ get_balance base t from)
  unfolding transfer
  get_balance-transfer from to amount t u apart h =
      elim (Option-cases (sub_balance base from amount t)) [
        | inl e ↦ absurd (ground (arith, h, e))
        | inr (v, e) ↦
            let it : add_balance base to amount v ≡ u = ground (arith, h, e) in
            let at : (a : ℕ)
                → get_balance base u a ≡ get_balance base v a + (if to == a then amount else 0) =
              λ a.
                ap (λ x. get_balance base x a) (sym it)
                ∙ get_balance-add_balance base v to amount a in
            (
              ground (arith, apart, at to, get_balance-sub_balance base t v from amount to e),
              ground (arith, apart, at from, get_balance-sub_balance base t v from amount from e),
            )
      ]

  -- A creation within the depth, at an address that is free and not the caller's, of a value that the
  -- caller has, whose caller the deployment list does not enable: applyCreate answers that it is not
  -- authorized, and the value has moved to the address all the same.
  pub denied_deployment :
      (c : Contract) (t paid : Txn)
      → c.depth ≤ 1025
      → c.caller ≢ c.address
      → has_code_or_nonce base env c.address (incr_nonce base c.caller t) ≡ false
      → transfer base env c.caller c.address c.value
          (open_account base env c.address (snapshot (incr_nonce base c.caller t)).1)
        ≡ some paid
      → is_shut_out base env env.deployment_allow_list c.caller paid ≡ true
      → (apply_create base env c t ≡ some (failure 0 err_not_auth, paid))
        × (get_balance base paid c.address ≡ get_balance base t c.address + c.value)
        × (get_balance base paid c.caller + c.value ≡ get_balance base t c.caller)
  unfolding apply_create run_constructor
  denied_deployment c t paid depth apart free pays shut =
      let called = incr_nonce base c.caller t in
      let before : (a : ℕ)
          → get_balance base (open_account base env c.address (snapshot called).1) a
            ≡ get_balance base t a =
        λ a.
          get_balance-open_account (snapshot called).1 c.address a
          ∙ get_balance-snapshot called a
          ∙ get_balance-incr_nonce base t c.caller a in
      let (credited, debited) =
        get_balance-transfer c.caller c.address c.value
          (open_account base env c.address (snapshot called).1) paid apart pays in
      let shallow : ltb 1025 c.depth ≡ false = ground (arith, depth) in
      (
        rw (shallow, free, pays, shut) refl,
        credited ∙ ap (λ b. b + c.value) (before c.address),
        debited ∙ before c.caller,
      )
