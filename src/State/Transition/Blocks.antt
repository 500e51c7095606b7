-- ===== src/State/Transition/Blocks.antt =====
-- The transactions of a block: the gas they use, the receipts they get, the balances they leave.
use go_plgchain.Base.{
  ℕ, ◌+◌, ◌≤◌, ◌<◌, ◌≡◌, inl, inr, refl, sym, ap, ◌∙◌, subst, List, [], ◌∷◌, ◌++◌, true, false, not,
  Option, none, some, length, length-append, total, total-append, if_elim, arith, Option-cases,
}
use go_plgchain.Base.Word.{u64_mod}
use go_plgchain.Types.{Transaction, exceeds_block_gas_limit}
use go_plgchain.State.Account.{ReadSnapshot}
use go_plgchain.State.Txn.{Txn, new_txn, take_logs, get_balance, get_state_object}
use go_plgchain.State.Txn.Balances.{get_balance-clean_delete_objects}
use go_plgchain.State.Txn.Wealth.{Poorer, refl-Poorer, mono-Poorer, same-Poorer, trans-Poorer}
use go_plgchain.State.Transition.{Environment, ExecutionResult, failed}
use go_plgchain.State.Transition.Run.{IsRuntime}
use go_plgchain.State.Transition.Applies.{Goes}
use go_plgchain.State.Transition.Answers.{IsHook, Answers, apply-Answers}
use go_plgchain.State.Transition.Write.{
  Transition, Receipt, ApplyError, Applied, ok, err, apply, with_sender, receipt_of, fail_for,
  write_from, write_receipt, write, write_failed_receipt, process_one, process_all, process_block,
}

-- Each receipt's cumulative gas is the gas of the receipts up to it.
abbrev pub IsCumulative : ℕ → List Receipt → Type 0
IsCumulative before [] = Unit
IsCumulative before (r ∷ rs) =
    (r.cumulative_gas_used ≡ before + r.gas_used) × IsCumulative (before + r.gas_used) rs

abbrev pub gas_of : List Receipt → ℕ
gas_of rs = total (λ (r : Receipt). r.gas_used) rs

IsCumulative-append :
    (before : ℕ) (rs : List Receipt) (r : Receipt)
    → IsCumulative before rs
    → r.cumulative_gas_used ≡ before + gas_of rs + r.gas_used
    → IsCumulative before (rs ++ r ∷ [])
IsCumulative-append before [] r h e = (omega (arith, e), tt)
IsCumulative-append before (x ∷ rs) r h e =
    (h.0, IsCumulative-append (before + x.gas_used) rs r h.1 (omega (arith, e)))

take_logs-Poorer : (base : ReadSnapshot) (t : Txn) → Poorer base t (take_logs t).1
unfolding take_logs get_balance get_state_object
take_logs-Poorer base t = elim (Option-cases t.tree.logs) [
  | inl e ↦
      let it : (take_logs t).1 ≡ t = ground (arith, e) in
      subst (Poorer base t) (sym it) (refl-Poorer base t)
  | inr (logs, e) ↦
      let u : Txn = record t { tree = record t.tree { logs = none } } in
      let it : (take_logs t).1 ≡ u = ground (arith, e) in
      subst (Poorer base t) (sym it) (same-Poorer base t u (λ a. refl))
]

module _ (base : ReadSnapshot) (env : Environment) where
  -- What holds between the transactions of a block.
  pub record IsBalanced (gas_limit : ℕ) (t : Transition) : Type 0 where
    pub gas : gas_of t.receipts ≡ t.total_gas
    pub bound : t.total_gas + t.gas_pool ≤ gas_limit
    pub cumulative : IsCumulative 0 t.receipts
    pub poorer : Poorer base new_txn t.state

  -- It answers with a transition that is balanced, and each transaction without an error has a receipt.
  abbrev pub Balances : ℕ → ℕ → Option (Option ApplyError × Transition) → Type 0
  Balances gas_limit count none = ⊥
  Balances gas_limit count (some (e, u)) =
      IsBalanced gas_limit u × (e ≡ none → length u.receipts ≡ count)

  -- A transition with one receipt more.
  with_receipt_lem :
      (gas_limit : ℕ) (t v : Transition) (r : Receipt)
      → IsBalanced gas_limit t
      → v.receipts ≡ t.receipts ++ r ∷ []
      → v.total_gas ≡ t.total_gas + r.gas_used
      → r.cumulative_gas_used ≡ v.total_gas
      → v.gas_pool + r.gas_used ≤ t.gas_pool
      → Poorer base t.state v.state
      → Balances gas_limit (length t.receipts + 1) (some (none, v))
  with_receipt_lem gas_limit t v r b e total c p w = (
    record {
      gas = omega (
        arith,
        ap gas_of e,
        total-append (λ (x : Receipt). x.gas_used) t.receipts (r ∷ []),
        b.gas,
        total,
      );
      bound = omega (arith, b.bound, total, p);
      cumulative =
          subst (IsCumulative 0) (sym e)
            (IsCumulative-append 0 t.receipts r b.cumulative (omega (arith, c, total, b.gas)));
      poorer = trans-Poorer base new_txn t.state v.state b.poorer w;
    },
    λ _. ap length e ∙ length-append t.receipts (r ∷ []),
  )

  module _ (post_hook : Transition → Transition) (sender : Transaction → Option ℕ) where
    write_receipt-Balances :
        (gas_limit : ℕ) (msg : Transaction) (result : ExecutionResult) (t u : Transition)
        → IsBalanced gas_limit t
        → gas_limit < u64_mod
        → Goes base env t u result.gas_used
        → Balances gas_limit
            (length t.receipts + 1)
            (some (none, write_receipt base env post_hook sender msg result u))
    unfolding write_receipt
    write_receipt-Balances gas_limit msg result t u b small goes =
        let v = write_receipt base env post_hook sender msg result u in
        let total : v.total_gas ≡ t.total_gas + result.gas_used =
          omega (arith, goes.total, goes.pool, b.bound, small) in
        let r : Receipt =
          receipt_of base env post_hook sender msg v.total_gas result.gas_used (not (failed result))
            (take_logs u.state).0 in
        with_receipt_lem gas_limit t v r b (ap (λ rs. rs ++ r ∷ []) goes.receipts) total refl
          goes.pool
          (trans-Poorer base t.state u.state v.state goes.poorer (
            trans-Poorer base u.state (take_logs u.state).1 v.state (take_logs-Poorer base u.state)
              (mono-Poorer base (take_logs u.state).1 v.state
                (get_balance-clean_delete_objects base (take_logs u.state).1 true))))

    failed-Balances :
        (gas_limit : ℕ) (t : Transition) (o : Option Transaction)
        → IsBalanced gas_limit t
        → Balances gas_limit (length t.receipts + 1) (some (fail_for base env post_hook sender o t))
    unfolding fail_for
    failed-Balances gas_limit t none b = (b, λ f. absurd (cc))
    failed-Balances gas_limit t (some msg) b =
        with_receipt_lem gas_limit t (fail_for base env post_hook sender (some msg) t).1
          (receipt_of base env post_hook sender msg t.total_gas 0 false (take_logs t.state).0) b
          refl (omega arith) refl (omega arith) (take_logs-Poorer base t.state)

    module _ (rules : IsRuntime base env) (hook : IsHook post_hook) where
      applied-Balances :
          (gas_limit : ℕ) (msg : Transaction) (t : Transition) (o : Option (Applied × Transition))
          → gas_limit < u64_mod
          → IsBalanced gas_limit t
          → Answers base env t o
          → Balances gas_limit (length t.receipts + 1) (elim o [
            | none ↦ none
            | some (Applied.err e, u) ↦ some (some e, u)
            | some (Applied.ok result, u) ↦
                some (none, write_receipt base env post_hook sender msg result u)
          ])
      applied-Balances gas_limit msg t none small b answers = answers
      applied-Balances gas_limit msg t (some (ok result, u)) small b (goes, _) =
          write_receipt-Balances gas_limit msg result t u b small goes
      applied-Balances gas_limit msg t (some (err e, u)) small b (goes, _) = (
        record {
          gas = omega (arith, ap gas_of goes.receipts, goes.total, b.gas);
          bound = omega (arith, goes.total, goes.pool, b.bound);
          cumulative = subst (IsCumulative 0) (sym goes.receipts) b.cumulative;
          poorer = trans-Poorer base new_txn t.state u.state b.poorer goes.poorer;
        },
        λ f. absurd (cc),
      )

      sent-Balances :
          (gas_limit : ℕ) (t : Transition) (o : Option Transaction)
          → gas_limit < u64_mod
          → IsBalanced gas_limit t
          → Balances gas_limit (length t.receipts + 1) (write_from base env post_hook sender o t)
      unfolding write_from
      sent-Balances gas_limit t none small b = (b, λ f. absurd (cc))
      sent-Balances gas_limit t (some msg) small b =
          applied-Balances gas_limit msg t (apply base env post_hook sender msg t) small b (
            apply-Answers base env post_hook sender hook msg t rules
              (omega (arith, b.bound, small)))

      process_one-Balances :
          (gas_limit : ℕ) (tx : Transaction) (t : Transition)
          → gas_limit < u64_mod
          → IsBalanced gas_limit t
          → Balances gas_limit
              (length t.receipts + 1)
              (process_one base env post_hook sender gas_limit tx t)
      unfolding process_one write write_failed_receipt
      process_one-Balances gas_limit tx t small b =
          if_elim (Balances gas_limit (length t.receipts + 1))
            (exceeds_block_gas_limit tx gas_limit)
            (λ _. failed-Balances gas_limit t (with_sender base env post_hook sender tx) b)
            (λ _. sent-Balances gas_limit t (with_sender base env post_hook sender tx) small b)

      next-Balances :
          (gas_limit count all : ℕ) (o : Option (Option ApplyError × Transition))
          (f : Transition → Option (Option ApplyError × Transition))
          → Balances gas_limit count o
          → ((u : Transition)
              → IsBalanced gas_limit u
              → length u.receipts ≡ count
              → Balances gas_limit all (f u))
          → Balances gas_limit all
              (elim o [ none ↦ none | some (some e, u) ↦ some (some e, u) | some (none, u) ↦ f u ])
      next-Balances gas_limit count all none f b h = b
      next-Balances gas_limit count all (some (some e, u)) f b h = (b.0, λ g. absurd (cc))
      next-Balances gas_limit count all (some (none, u)) f b h = h u b.0 (b.1 refl)

      process_all-Balances :
          (gas_limit count : ℕ) (txs : List Transaction) (t : Transition)
          → gas_limit < u64_mod
          → length t.receipts + length txs ≡ count
          → IsBalanced gas_limit t
          → Balances gas_limit count (process_all base env post_hook sender gas_limit txs t)
      unfolding process_all
      process_all-Balances gas_limit count [] t small n b = (b, λ _. omega (arith, n))
      process_all-Balances gas_limit count (tx ∷ txs) t small n b =
          next-Balances gas_limit (length t.receipts + 1) count
            (process_one base env post_hook sender gas_limit tx t)
            (process_all base env post_hook sender gas_limit txs)
            (process_one-Balances gas_limit tx t small b)
            (λ u c e. process_all-Balances gas_limit count txs u small (omega (arith, n, e)) c)

      -- ProcessBlock does not panic, for a virtual machine that leaves no more gas than it was given,
      -- keeps the snapshots and moves balance between finitely many accounts in each run without
      -- making any, a gas limit below 2^64, and a hook that changes nothing. In the transition that it
      -- leaves, also after an error, the gas of the receipts adds up to the total gas, each cumulative
      -- gas is the sum up to its receipt, the total gas and the gas left in the pool are together at
      -- most the limit, and there are finitely many accounts such that any addresses that name each of
      -- these once have together no more balance than before the block. Without an error there is a
      -- receipt for each transaction.
      pub process_block-Balances :
          (gas_limit : ℕ) (txs : List Transaction)
          → gas_limit < u64_mod
          → Balances gas_limit (length txs) (process_block base env post_hook sender gas_limit txs)
      unfolding process_block
      process_block-Balances gas_limit txs small =
          process_all-Balances gas_limit (length txs) txs
            (record { state = new_txn; gas_pool = gas_limit; total_gas = 0; receipts = [] }) small
            (omega arith)
            (record {
              gas = refl;
              bound = omega arith;
              cumulative = tt;
              poorer = refl-Poorer base new_txn;
            })
