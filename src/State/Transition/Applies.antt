-- ===== src/State/Transition/Applies.antt =====
-- What applying one message does to the gas of the block, to the balances and to the snapshots.
use go_plgchain.Base.{
  ℕ, ◌+◌, ◌-◌, ◌*◌, ◌%◌, ◌≤◌, ◌<◌, ◌≡◌, ◌⊎◌, inl, inr, refl, sym, ap, ◌∙◌, List, [], ◌∷◌, true,
  Option, none, some, ltb, if_elim, arith, Option-cases,
}
use go_plgchain.Base.Int.{pos_part}
use go_plgchain.Base.Word.{u64_mod, sub64}
use go_plgchain.Types.{Transaction, TxType, legacy_tx, state_tx}
use go_plgchain.Gas.{transaction_gas_cost}
use go_plgchain.State.Account.{ReadSnapshot}
use go_plgchain.State.Txn.{Txn, add_balance, sub_balance, incr_nonce, get_refund, credit}
use go_plgchain.State.Txn.Wealth.{
  wealth, wealth-add_balance, wealth-sub_balance, Names, Poorer, refl-Poorer,
}
use go_plgchain.State.Txn.Reverts.{
  Keeps, refl-Keeps, trans-Keeps, same-Keeps, snapshots-upsert_account, snapshots-sub_balance,
}
use go_plgchain.State.Transition.{Environment, ExecutionResult, update_gas_used}
use go_plgchain.State.Transition.Run.{IsRuntime, Ended, Ends, after-Ends, more-Ends}
use go_plgchain.State.Transition.Creates.{incr_nonce_lem, create_top-Ends, call_top-Ends}
use go_plgchain.State.Transition.Write.{
  Transition, ApplyError, Applied, ok, err, check, check_legacy_tx, check_state_tx, settle, execute,
  apply_checked, apply_message, block_limit_reached, intrinsic_gas_overflow,
  not_enough_intrinsic_gas,
}

-- For gas left that is at most a gas limit below 2^64, UpdateGasUsed makes the gas used and the gas
-- left add up to the limit, charges no more than the run used, at least half of it, and at least the
-- run less the refund.
pub update_gas_used_lem :
    (gas_limit refund : ℕ) (r : ExecutionResult)
    → r.gas_left ≤ gas_limit
    → gas_limit < u64_mod
    → ((update_gas_used gas_limit refund r).gas_used + (update_gas_used gas_limit refund r).gas_left
        ≡ gas_limit)
      × ((update_gas_used gas_limit refund r).gas_used ≤ gas_limit - r.gas_left)
      × (gas_limit - r.gas_left ≤ 2 * (update_gas_used gas_limit refund r).gas_used)
      × (gas_limit - r.gas_left ≤ (update_gas_used gas_limit refund r).gas_used + refund)
unfolding update_gas_used
update_gas_used_lem gas_limit refund r h small =
    let used : (gas_limit + u64_mod - r.gas_left) % u64_mod ≡ gas_limit - r.gas_left =
      omega (arith, h, small) in
    ground (arith, h, small, used)

TxType-cases : (x : TxType) → (x ≡ legacy_tx) ⊎ (x ≡ state_tx)
TxType-cases legacy_tx = inl refl
TxType-cases state_tx = inr refl

-- The gas that an outcome charges to the block.
abbrev pub spent : Applied → ℕ
spent (ok result) = result.gas_used
spent (err e) = 0

module _ (base : ReadSnapshot) (env : Environment) where
  -- A step of a block that used some gas.
  pub record Goes (t u : Transition) (used : ℕ) : Type 0 where
    pub pool : u.gas_pool + used ≤ t.gas_pool
    pub total : u.total_gas ≡ t.total_gas
    pub receipts : u.receipts ≡ t.receipts
    pub kept : Keeps t.state u.state
    pub poorer : Poorer base t.state u.state

  abbrev pub GoesOn : Transition → Option (Applied × Transition) → Type 0
  GoesOn t none = ⊥
  GoesOn t (some (a, u)) = Goes t u (spent a)

  -- What the checks leave, with the gas they sold to the payer.
  record Bought (payer price : ℕ) (t u : Txn) : Type 0 where
    kept : Keeps t u
    paid :
        (addresses : List ℕ)
        → Names addresses payer
        → wealth base addresses t ≡ wealth base addresses u + price

  check_legacy_tx-Bought :
      (msg : Transaction) (t bought : Txn)
      → (check_legacy_tx base env msg t).1 ≡ some bought
      → Bought msg.from (msg.gas_price * msg.gas) t bought
  unfolding check_legacy_tx
  check_legacy_tx-Bought msg t bought h =
      let it : sub_balance base msg.from (msg.gas_price * msg.gas) t ≡ some bought =
        ground (arith, h) in
      record {
        kept =
            same-Keeps t bought
              (snapshots-sub_balance base msg.from (msg.gas_price * msg.gas) t bought it);
        paid = λ addresses once.
            wealth-sub_balance base addresses t bought msg.from (msg.gas_price * msg.gas) once it;
      }

  free_state_tx : (msg : Transaction) → check_state_tx base env msg ≡ none → msg.gas_price ≡ 0
  unfolding check_state_tx
  free_state_tx msg h = ground (arith, h)

  check-Bought :
      (msg : Transaction) (t bought : Txn)
      → (check base env msg t).1 ≡ some bought
      → Bought msg.from (msg.gas_price * msg.gas) t bought
  unfolding check
  check-Bought msg t bought h = elim (TxType-cases msg.tx_type) [
    | inl e ↦ check_legacy_tx-Bought msg t bought (ground (arith, h, e))
    | inr e ↦
        let free : check_state_tx base env msg ≡ none = ground (arith, h, e) in
        let it : t ≡ bought = ground (arith, h, e) in
        let none_due : msg.gas_price * msg.gas ≡ 0 * msg.gas =
          ap (λ p. p * msg.gas) (free_state_tx msg free) in
        record {
          kept = same-Keeps t bought (ap (λ x. x.snapshots) (sym it));
          paid = λ addresses once. omega (arith, ap (wealth base addresses) it, none_due);
        }
  ]

  -- A message that stops before its run.
  stopped :
      {payer price : ℕ} (e : ApplyError) (bought : Txn) (t : Transition) (pool : ℕ)
      → Bought payer price t.state bought
      → pool ≤ t.gas_pool
      → GoesOn t (some (err e, record t { state = bought; gas_pool = pool }))
  stopped {payer} e bought t pool buys h = record {
    pool = omega (arith, h);
    total = refl;
    receipts = refl;
    kept = buys.kept;
    poorer = record {
      touched = payer ∷ [];
      bound = λ addresses named. omega (arith, buys.paid addresses named.0);
    };
  }

  module _ (rules : IsRuntime base env) where
    execute-Ends :
        (msg : Transaction) (gas : ℕ) (t : Txn)
        → gas < u64_mod
        → Ends base env gas t (execute base env msg gas t)
    unfolding execute
    execute-Ends msg gas t small = elim (Option-cases msg.to) [
      | inl e ↦
          rw e (create_top-Ends base env rules msg.from (pos_part msg.value) gas msg.input t small)
      | inr (to, e) ↦ rw e (
          after-Ends base env gas t (incr_nonce base msg.from t) _
            (incr_nonce_lem base env t msg.from).0 (incr_nonce_lem base env t msg.from).1
            (call_top-Ends base env rules msg.from to (pos_part msg.value) gas msg.input
              (incr_nonce base msg.from t) small))
    ]

    settle-Goes :
        (msg : Transaction) (result : ExecutionResult) (bought u : Txn) (t : Transition)
        → t.gas_pool < u64_mod
        → msg.gas ≤ t.gas_pool
        → Bought msg.from (msg.gas_price * msg.gas) t.state bought
        → Ended base env msg.gas bought result u
        → GoesOn t (some (settle base env msg result u (t.gas_pool - msg.gas) t))
    unfolding settle add_balance
    settle-Goes msg result bought u t small enough buys ended =
        let final = update_gas_used msg.gas (get_refund u) result in
        let paid = add_balance base msg.from (final.gas_left * msg.gas_price) u in
        let (whole, _, _, _) =
          update_gas_used_lem msg.gas (get_refund u) result ended.gas_bound
            (omega (arith, enough, small)) in
        record {
          pool = omega (arith, whole, enough, small);
          total = refl;
          receipts = refl;
          kept =
              trans-Keeps t.state bought
                (add_balance base env.coinbase (final.gas_used * msg.gas_price) paid) buys.kept
                (trans-Keeps bought u
                  (add_balance base env.coinbase (final.gas_used * msg.gas_price) paid) ended.kept
                  (same-Keeps u
                    (add_balance base env.coinbase (final.gas_used * msg.gas_price) paid)
                    (snapshots-upsert_account base env.coinbase true
                        (credit (final.gas_used * msg.gas_price)) paid
                      ∙ snapshots-upsert_account base msg.from true
                          (credit (final.gas_left * msg.gas_price)) u)));
          poorer = record {
            touched = msg.from ∷ env.coinbase ∷ ended.poorer.touched;
            bound = λ addresses named. omega (
              arith,
              ended.poorer.bound addresses named.1.1,
              buys.paid addresses named.0,
              wealth-add_balance base addresses paid env.coinbase (final.gas_used * msg.gas_price)
                  named.1.0,
              wealth-add_balance base addresses u msg.from (final.gas_left * msg.gas_price) named.0,
              ap (λ g. g * msg.gas_price) whole,
            );
          };
        }

    run-Goes :
        (msg : Transaction) (bought : Txn) (t : Transition) (o : Option (ExecutionResult × Txn))
        → t.gas_pool < u64_mod
        → msg.gas ≤ t.gas_pool
        → Bought msg.from (msg.gas_price * msg.gas) t.state bought
        → Ends base env msg.gas bought o
        → GoesOn t (elim o [
          | none ↦ none
          | some (result, u) ↦ some (settle base env msg result u (t.gas_pool - msg.gas) t)
        ])
    run-Goes msg bought t none small enough buys ends = ends
    run-Goes msg bought t (some (result, u)) small enough buys ends =
        settle-Goes msg result bought u t small enough buys ends

    apply_checked-Goes :
        (msg : Transaction) (bought : Txn) (t : Transition)
        → t.gas_pool < u64_mod
        → Bought msg.from (msg.gas_price * msg.gas) t.state bought
        → GoesOn t (apply_checked base env msg bought t)
    unfolding apply_checked
    apply_checked-Goes msg bought t small buys =
        if_elim (GoesOn t) (ltb t.gas_pool msg.gas)
          (λ _. stopped block_limit_reached bought t t.gas_pool buys (omega arith))
          (λ e.
            let enough : msg.gas ≤ t.gas_pool = ground (arith, e) in
            elim (Option-cases (transaction_gas_cost msg env.forks.homestead env.forks.istanbul)) [
              | inl f ↦ rw f (
                  stopped intrinsic_gas_overflow bought t (t.gas_pool - msg.gas) buys (omega arith))
              | inr (cost, f) ↦ rw f (
                  if_elim (GoesOn t) (ltb msg.gas (sub64 msg.gas cost))
                    (λ _.
                      stopped not_enough_intrinsic_gas bought t (t.gas_pool - msg.gas) buys
                        (omega arith))
                    (λ g.
                      let left : sub64 msg.gas cost ≤ msg.gas = ground (arith, g) in
                      run-Goes msg bought t (execute base env msg (sub64 msg.gas cost) bought) small
                        enough buys
                        (more-Ends base env (sub64 msg.gas cost) msg.gas bought _ left (
                          execute-Ends msg (sub64 msg.gas cost) bought
                            (omega (arith, small, enough, left))))))
            ])

    checked-Goes :
        (msg : Transaction) (t : Transition) (e : ApplyError) (checked : Option Txn)
        → t.gas_pool < u64_mod
        → ((bought : Txn)
            → checked ≡ some bought
            → Bought msg.from (msg.gas_price * msg.gas) t.state bought)
        → GoesOn t (elim checked [
          | none ↦ some (err e, t)
          | some bought ↦ apply_checked base env msg bought t
        ])
    checked-Goes msg t e none small buys = record {
      pool = omega arith;
      total = refl;
      receipts = refl;
      kept = refl-Keeps t.state;
      poorer = refl-Poorer base t.state;
    }
    checked-Goes msg t e (some bought) small buys =
        apply_checked-Goes msg bought t small (buys bought refl)

    pub apply_message-Goes :
        (msg : Transaction) (t : Transition)
        → t.gas_pool < u64_mod
        → GoesOn t (apply_message base env msg t)
    unfolding apply_message
    apply_message-Goes msg t small =
        checked-Goes msg t (check base env msg t.state).0 (check base env msg t.state).1 small
          (λ bought e. check-Bought msg t.state bought e)
