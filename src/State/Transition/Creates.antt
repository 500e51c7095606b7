-- ===== src/State/Transition/Creates.antt =====
-- How a creation ends, and the calls and creations that a transaction makes.
use go_plgchain.Base.{
  ℕ, ◌*◌, ◌≤◌, ◌<◌, inl, inr, refl, true, ◌&&◌, length, ltb, if_elim, arith, Option-cases,
}
use go_plgchain.Base.Bytes.{Bytes}
use go_plgchain.Base.Word.{u64_mod}
use go_plgchain.State.Account.{ReadSnapshot}
use go_plgchain.State.Txn.{
  Txn, snapshot, incr_nonce, create_account, set_code, bump_nonce, coded, put_object,
}
use go_plgchain.State.Txn.Balances.{
  get_balance-incr_nonce, get_balance-create_account, get_balance-set_code,
}
use go_plgchain.State.Txn.Wealth.{Poorer, refl-Poorer, same-Poorer, tree-Poorer, trans-Poorer}
use go_plgchain.State.Txn.Reverts.{
  Keeps, refl-Keeps, trans-Keeps, same-Keeps, snapshot-Keeps, tree-snapshot,
  snapshots-upsert_account,
}
use go_plgchain.State.Transition.{
  Environment, Contract, ExecutionResult, failed, failure, is_shut_out, run, transfer,
  has_code_or_nonce, open_account, out_of_gas_for_code, store_code, run_constructor, apply_create,
  create_top, call_top, spurious_dragon_max_code_size,
}
use go_plgchain.State.Transition.Run.{
  IsRuntime, Ends, same-Ended, after-Ends, reverts, run-Ended, transfer_lem, apply_call-Ends,
}

module _ (base : ReadSnapshot) (env : Environment) where
  out_of_gas_for_code-Ends :
      (gas : ℕ) (t u : Txn) (out : ExecutionResult)
      → Keeps (snapshot t).1 u
      → Poorer base t u
      → out.gas_left ≤ gas
      → Ends base env gas t (out_of_gas_for_code base env (snapshot t).0 out u)
  unfolding out_of_gas_for_code
  out_of_gas_for_code-Ends gas t u out k w h =
      if_elim (Ends base env gas t) env.forks.homestead
        (λ _. reverts base env gas t u (record out { gas_left = 0 }) k (omega arith))
        (λ _. record {
          gas_bound = h;
          kept = trans-Keeps t (snapshot t).1 u (snapshot-Keeps t) k;
          poorer = w;
        })

  store_code-Ends :
      (c : Contract) (result : ExecutionResult) (t u : Txn)
      → Keeps (snapshot t).1 u
      → Poorer base t u
      → result.gas_left ≤ c.gas
      → Ends base env c.gas t (store_code base env (snapshot t).0 c result u)
  unfolding store_code set_code
  store_code-Ends c result t u k w h =
      if_elim (Ends base env c.gas t)
        (env.forks.eip158 && ltb spurious_dragon_max_code_size (length result.return_value))
        (λ _. reverts base env c.gas t u (failure 0 _) k (omega arith))
        (λ _.
          if_elim (Ends base env c.gas t) (ltb result.gas_left (length result.return_value * 200))
            (λ _. out_of_gas_for_code-Ends c.gas t u _ k w h)
            (λ _. record {
              gas_bound = omega (arith, h);
              kept =
                  trans-Keeps t (snapshot t).1 (set_code base c.address result.return_value u)
                    (snapshot-Keeps t)
                    (trans-Keeps (snapshot t).1 u (set_code base c.address result.return_value u) k
                      (same-Keeps u (set_code base c.address result.return_value u) (
                        snapshots-upsert_account base c.address true
                          (coded base result.return_value) u)));
              poorer = trans-Poorer base t u (set_code base c.address result.return_value u) w (
                  same-Poorer base u (set_code base c.address result.return_value u)
                    (λ a. get_balance-set_code base u c.address a result.return_value));
            }))

  -- The nonce of the caller and the account that is made touch no balance and no snapshot.
  pub incr_nonce_lem :
      (t : Txn) (addr : ℕ)
      → Keeps t (incr_nonce base addr t) × Poorer base t (incr_nonce base addr t)
  unfolding incr_nonce
  incr_nonce_lem t addr = (
    same-Keeps t (incr_nonce base addr t) (snapshots-upsert_account base addr true bump_nonce t),
    same-Poorer base t (incr_nonce base addr t) (get_balance-incr_nonce base t addr),
  )

  create_account_lem :
      (t : Txn) (addr : ℕ)
      → Keeps t (create_account base addr t) × Poorer base t (create_account base addr t)
  unfolding create_account put_object
  create_account_lem t addr = (
    same-Keeps t (create_account base addr t) refl,
    same-Poorer base t (create_account base addr t) (get_balance-create_account base t addr),
  )

  open_account_lem :
      (t : Txn) (addr : ℕ)
      → Keeps t (open_account base env addr t) × Poorer base t (open_account base env addr t)
  open_account_lem t addr =
      let (k, w) = create_account_lem t addr in
      let (k', w') = incr_nonce_lem (create_account base addr t) addr in
      if_elim (λ (u : Txn). Keeps t u × Poorer base t u) env.forks.eip158
        (λ _. (
          trans-Keeps t (create_account base addr t)
              (incr_nonce base addr (create_account base addr t)) k k',
          trans-Poorer base t (create_account base addr t)
              (incr_nonce base addr (create_account base addr t)) w w',
        ))
        (λ _. (refl-Keeps t, refl-Poorer base t))

  module _ (rules : IsRuntime base env) where
    run_constructor-Ends :
        (c : Contract) (t u : Txn)
        → c.gas < u64_mod
        → Keeps (snapshot t).1 u
        → Poorer base t u
        → Ends base env c.gas t (run_constructor base env (snapshot t).0 c u)
    unfolding run_constructor
    run_constructor-Ends c t u small k w =
        let ended = run-Ended base env rules c u small in
        let kept : Keeps (snapshot t).1 (run base env c u).1 =
          trans-Keeps (snapshot t).1 u (run base env c u).1 k ended.kept in
        if_elim (Ends base env c.gas t) (is_shut_out base env env.deployment_allow_list c.caller u)
          (λ _. record {
            gas_bound = omega arith;
            kept = trans-Keeps t (snapshot t).1 u (snapshot-Keeps t) k;
            poorer = w;
          })
          (λ _.
            if_elim (Ends base env c.gas t) (failed (run base env c u).0)
              (λ _.
                reverts base env c.gas t (run base env c u).1 (run base env c u).0 kept
                  ended.gas_bound)
              (λ _.
                store_code-Ends c (run base env c u).0 t (run base env c u).1 kept
                  (trans-Poorer base t u (run base env c u).1 w ended.poorer) ended.gas_bound))

    pub apply_create-Ends :
        (c : Contract) (t : Txn)
        → c.gas < u64_mod
        → Ends base env c.gas t (apply_create base env c t)
    unfolding apply_create
    apply_create-Ends c t small =
        let called = incr_nonce base c.caller t in
        let (kc, wc) = incr_nonce_lem t c.caller in
        let s = (snapshot called).1 in
        let (km, wm) = open_account_lem s c.address in
        let w : Poorer base called (open_account base env c.address s) =
          trans-Poorer base called s (open_account base env c.address s)
            (tree-Poorer base called s (tree-snapshot called)) wm in
        if_elim (Ends base env c.gas t) (ltb 1025 c.depth)
          (λ _. same-Ended base env c.gas t _ (omega arith))
          (λ _.
            if_elim (Ends base env c.gas t) (has_code_or_nonce base env c.address called)
              (λ _. record { gas_bound = omega arith; kept = kc; poorer = wc })
              (λ _.
                after-Ends base env c.gas t called _ kc wc
                  (elim (Option-cases (
                    transfer base env c.caller c.address c.value
                      (open_account base env c.address s))) [
                        | inl e ↦ rw e (record {
                          gas_bound = omega arith;
                          kept =
                              trans-Keeps called s (open_account base env c.address s)
                                (snapshot-Keeps called) km;
                          poorer = w;
                        })
                        | inr (paid, e) ↦
                            let (kp, wp) =
                              transfer_lem base env c.caller c.address c.value
                                (open_account base env c.address s) paid e in
                            rw e (
                              run_constructor-Ends c called paid small
                                (trans-Keeps s (open_account base env c.address s) paid km kp)
                                (trans-Poorer base called (open_account base env c.address s) paid w
                                  wp))
                      ])))

    pub create_top-Ends :
        (caller value gas : ℕ) (code : Bytes) (t : Txn)
        → gas < u64_mod
        → Ends base env gas t (create_top base env caller code value gas t)
    unfolding create_top
    create_top-Ends caller value gas code t small = apply_create-Ends _ t small

    pub call_top-Ends :
        (caller to value gas : ℕ) (input : Bytes) (t : Txn)
        → gas < u64_mod
        → Ends base env gas t (call_top base env caller to input value gas t)
    unfolding call_top
    call_top-Ends caller to value gas input t small = apply_call-Ends base env rules _ t small
