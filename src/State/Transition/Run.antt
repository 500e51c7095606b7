-- ===== src/State/Transition/Run.antt =====
-- How a call and a creation end, for a runtime that keeps the rules: they do not panic, leave no more
-- gas than they were given, keep the snapshots, and do not make balances out of nothing.
use go_plgchain.Base.{
  ℕ, ◌≤◌, ◌<◌, ◌≡◌, inl, inr, sym, ap, ◌∙◌, [], ◌∷◌, true, ◌&&◌, not, Option, none, some, ltb, ◌==◌,
  if_elim, arith, Option-cases,
}
use go_plgchain.Base.Word.{u64_mod}
use go_plgchain.State.Account.{ReadSnapshot}
use go_plgchain.State.Txn.{
  Txn, snapshot, revert_to_snapshot, add_balance, sub_balance, touch_account, credit,
}
use go_plgchain.State.Txn.Balances.{get_balance-touch_account}
use go_plgchain.State.Txn.Wealth.{
  wealth, wealth-add_balance, wealth-sub_balance, Poorer, refl-Poorer, same-Poorer, tree-Poorer,
  trans-Poorer,
}
use go_plgchain.State.Txn.Reverts.{
  Keeps, refl-Keeps, trans-Keeps, same-Keeps, snapshot-Keeps, tree-snapshot, revert_to_snapshot_lem,
  snapshots-upsert_account, snapshots-sub_balance,
}
use go_plgchain.State.AllowList.{run_input_call}
use go_plgchain.State.AllowList.Laws.{
  used-le-gas, snapshots-run_input_call, get_balance-run_input_call,
}
use go_plgchain.State.Transition.{
  Environment, Contract, CallType, ExecutionResult, failed, failure, is_list, is_shut_out,
  run_allow_list, run, transfer, run_or_revert, apply_call, caller_not_authorized,
}

-- What is asked of the virtual machine and the precompiled contracts: that a run leaves no more gas
-- than it was given, keeps the snapshots, and moves balance between finitely many accounts, which are its
-- own to choose, without making any.
pub record IsRuntime (base : ReadSnapshot) (env : Environment) : Type 0 where
  pub gas : (c : Contract) (t : Txn) → (env.runtime c t).0.gas_left ≤ c.gas
  pub keeps : (c : Contract) (t : Txn) → Keeps t (env.runtime c t).1
  pub thrifty : (c : Contract) (t : Txn) → Poorer base t (env.runtime c t).1

module _ (base : ReadSnapshot) (env : Environment) where
  -- How a run on `t` with some gas ends.
  pub record Ended (gas : ℕ) (t : Txn) (r : ExecutionResult) (u : Txn) : Type 0 where
    pub gas_bound : r.gas_left ≤ gas
    pub kept : Keeps t u
    pub poorer : Poorer base t u

  abbrev pub EndedAt : ℕ → Txn → ExecutionResult × Txn → Type 0
  EndedAt gas t (r, u) = Ended gas t r u

  -- It does end, and so.
  abbrev pub Ends : ℕ → Txn → Option (ExecutionResult × Txn) → Type 0
  Ends gas t none = ⊥
  Ends gas t (some (r, u)) = Ended gas t r u

  pub same-Ended : (gas : ℕ) (t : Txn) (r : ExecutionResult) → r.gas_left ≤ gas → Ended gas t r t
  same-Ended gas t r h = record { gas_bound = h; kept = refl-Keeps t; poorer = refl-Poorer base t }

  -- A change before the run that keeps the snapshots and makes no balance.
  pub after-Ends :
      (gas : ℕ) (t u : Txn) (o : Option (ExecutionResult × Txn))
      → Keeps t u
      → Poorer base t u
      → Ends gas u o
      → Ends gas t o
  after-Ends gas t u none k w e = e
  after-Ends gas t u (some (r, v)) k w e = record {
    gas_bound = e.gas_bound;
    kept = trans-Keeps t u v k e.kept;
    poorer = trans-Poorer base t u v w e.poorer;
  }

  pub more-Ends :
      (gas more : ℕ) (t : Txn) (o : Option (ExecutionResult × Txn))
      → gas ≤ more
      → Ends gas t o
      → Ends more t o
  more-Ends gas more t none h e = e
  more-Ends gas more t (some (r, v)) h e = record {
    gas_bound = omega (arith, h, e.gas_bound);
    kept = e.kept;
    poorer = e.poorer;
  }

  -- A revert to a snapshot that was taken ends well.
  pub reverts :
      (gas : ℕ) (t u : Txn) (r : ExecutionResult)
      → Keeps (snapshot t).1 u
      → r.gas_left ≤ gas
      → Ends gas t
          (elim (revert_to_snapshot (snapshot t).0 u) [ none ↦ none | some v ↦ some (r, v) ])
  reverts gas t u r k h =
      let (v, done, tree, same) = revert_to_snapshot_lem t u k in
      rw done (record {
        gas_bound = h;
        kept =
            trans-Keeps t u v (trans-Keeps t (snapshot t).1 u (snapshot-Keeps t) k)
              (same-Keeps u v same);
        poorer = tree-Poorer base t v tree;
      })

  -- A transfer moves balance between two accounts.
  pub transfer_lem :
      (from to amount : ℕ) (t u : Txn)
      → transfer base env from to amount t ≡ some u
      → Keeps t u × Poorer base t u
  unfolding transfer add_balance
  transfer_lem from to amount t u h = elim (Option-cases (sub_balance base from amount t)) [
    | inl e ↦ absurd (ground (arith, h, e))
    | inr (v, e) ↦
        let it : add_balance base to amount v ≡ u = ground (arith, h, e) in
        (
          same-Keeps t u (
              ap (λ x. x.snapshots) (sym it)
              ∙ snapshots-upsert_account base to true (credit amount) v
              ∙ snapshots-sub_balance base from amount t v e),
          record {
            touched = from ∷ to ∷ [];
            bound = λ addresses named. omega (
              arith,
              ap (wealth base addresses) it,
              wealth-add_balance base addresses v to amount named.1.0,
              wealth-sub_balance base addresses t v from amount named.0 e,
            );
          },
        )
  ]

  module _ (rules : IsRuntime base env) where
    run_allow_list-Ended :
        (list : ℕ) (c : Contract) (t : Txn)
        → c.gas < u64_mod
        → Ended c.gas t (run_allow_list base env list c t).0 (run_allow_list base env list c t).1
    unfolding run_allow_list
    run_allow_list-Ended list c t small = record {
      gas_bound =
          omega (arith, used-le-gas base list env.selectors c.caller c.gas c.input c.is_static t);
      kept =
          same-Keeps t
            (run_input_call base list env.selectors c.caller c.input c.gas c.is_static t).1
            (snapshots-run_input_call base list env.selectors c.caller c.gas c.input c.is_static t);
      poorer =
          same-Poorer base t
            (run_input_call base list env.selectors c.caller c.input c.gas c.is_static t).1
            (get_balance-run_input_call base list env.selectors c.caller c.gas c.input c.is_static
              t);
    }

    pub run-Ended : (c : Contract) (t : Txn) → c.gas < u64_mod → EndedAt c.gas t (run base env c t)
    unfolding run
    run-Ended c t small =
        let machine : Ended c.gas t (env.runtime c t).0 (env.runtime c t).1 = record {
          gas_bound = rules.gas c t;
          kept = rules.keeps c t;
          poorer = rules.thrifty c t;
        } in
        let listed = run_allow_list-Ended c.code_address c t small in
        if_elim (EndedAt c.gas t) (is_list base env env.deployment_allow_list c.code_address)
          (λ _. listed)
          (λ _.
            if_elim (EndedAt c.gas t) (is_list base env env.txn_allow_list c.code_address)
              (λ _. listed)
              (λ _.
                if_elim (EndedAt c.gas t)
                  (not (c.caller == env.system_caller)
                    && is_shut_out base env env.txn_allow_list c.caller t)
                  (λ _. same-Ended c.gas t (failure 0 caller_not_authorized) (omega arith))
                  (λ _. machine)))

    pub run_or_revert-Ends :
        (c : Contract) (t u : Txn)
        → c.gas < u64_mod
        → Keeps (snapshot t).1 u
        → Poorer base t u
        → Ends c.gas t (run_or_revert base env (snapshot t).0 c u)
    unfolding run_or_revert
    run_or_revert-Ends c t u small k w =
        let ended = run-Ended c u small in
        if_elim (Ends c.gas t) (failed (run base env c u).0)
          (λ _.
            reverts c.gas t (run base env c u).1 (run base env c u).0
              (trans-Keeps (snapshot t).1 u (run base env c u).1 k ended.kept) ended.gas_bound)
          (λ _. record {
            gas_bound = ended.gas_bound;
            kept =
                trans-Keeps t u (run base env c u).1
                  (trans-Keeps t (snapshot t).1 u (snapshot-Keeps t) k) ended.kept;
            poorer = trans-Poorer base t u (run base env c u).1 w ended.poorer;
          })

    pub apply_call-Ends :
        (c : Contract) (t : Txn)
        → c.gas < u64_mod
        → Ends c.gas t (apply_call base env c CallType.call t)
    unfolding apply_call
    apply_call-Ends c t small =
        let s = (snapshot t).1 in
        let touched = touch_account base c.address s in
        let k : Keeps s touched =
          same-Keeps s touched (snapshots-upsert_account base c.address true (λ o. o) s) in
        let w : Poorer base t touched =
          trans-Poorer base t s touched (tree-Poorer base t s (tree-snapshot t))
            (same-Poorer base s touched (get_balance-touch_account base s c.address)) in
        if_elim (Ends c.gas t) (ltb 1025 c.depth) (λ _. same-Ended c.gas t _ (omega arith))
          (λ _. elim (Option-cases (transfer base env c.caller c.address c.value touched)) [
            | inl e ↦ rw e (record {
              gas_bound = omega arith;
              kept = trans-Keeps t s touched (snapshot-Keeps t) k;
              poorer = w;
            })
            | inr (paid, e) ↦
                let (kp, wp) = transfer_lem c.caller c.address c.value touched paid e in
                rw e (
                  run_or_revert-Ends c t paid small (trans-Keeps s touched paid k kp)
                    (trans-Poorer base t touched paid w wp))
          ])
