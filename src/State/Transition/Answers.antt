-- ===== src/State/Transition/Answers.antt =====
-- Apply as a whole: what it answers, with the revert of a message that is refused.
use go_plgchain.Base.{ℕ, ◌<◌, ◌≡◌, ap, ◌∙◌, Option, none, some, arith}
use go_plgchain.Base.Word.{u64_mod}
use go_plgchain.Types.{Transaction}
use go_plgchain.State.Account.{ReadSnapshot}
use go_plgchain.State.Txn.{Txn, snapshot, revert_to_snapshot}
use go_plgchain.State.Txn.Wealth.{tree-Poorer, trans-Poorer}
use go_plgchain.State.Txn.Reverts.{
  trans-Keeps, same-Keeps, snapshot-Keeps, tree-snapshot, revert_to_snapshot_lem,
}
use go_plgchain.State.Transition.{Environment}
use go_plgchain.State.Transition.Run.{IsRuntime}
use go_plgchain.State.Transition.Applies.{Goes, GoesOn, spent, apply_message-Goes}
use go_plgchain.State.Transition.Write.{Transition, Applied, ok, err, apply_message, apply}

-- The hook after a transaction changes nothing of these.
pub record IsHook (post_hook : Transition → Transition) : Type 0 where
  pub state : (t : Transition) → (post_hook t).state ≡ t.state
  pub pool : (t : Transition) → (post_hook t).gas_pool ≡ t.gas_pool
  pub total : (t : Transition) → (post_hook t).total_gas ≡ t.total_gas
  pub receipts : (t : Transition) → (post_hook t).receipts ≡ t.receipts

-- A message that is refused leaves the state as it was.
abbrev pub Untouched : Applied → Txn → Txn → Type 0
Untouched (ok result) t u = Unit
Untouched (err e) t u = u.tree ≡ t.tree

module _ (base : ReadSnapshot) (env : Environment) where
  -- It answers, and how the transition goes on.
  abbrev pub Answers : Transition → Option (Applied × Transition) → Type 0
  Answers t none = ⊥
  Answers t (some (a, u)) = Goes base env t u (spent a) × Untouched a t.state u.state

  module _ (post_hook : Transition → Transition) (sender : Transaction → Option ℕ)
      (hook : IsHook post_hook) where
    hooked-Goes :
        (t u : Transition) (used : ℕ) → Goes base env t u used → Goes base env t (post_hook u) used
    hooked-Goes t u used goes = record {
      pool = omega (arith, goes.pool, hook.pool u);
      total = hook.total u ∙ goes.total;
      receipts = hook.receipts u ∙ goes.receipts;
      kept =
          trans-Keeps t.state u.state (post_hook u).state goes.kept
            (same-Keeps u.state (post_hook u).state (ap (λ x. x.snapshots) (hook.state u)));
      poorer =
          trans-Poorer base t.state u.state (post_hook u).state goes.poorer
            (tree-Poorer base u.state (post_hook u).state (ap (λ x. x.tree) (hook.state u)));
    }

    -- Apply past its snapshot.
    ended-Answers :
        (t : Transition) (o : Option (Applied × Transition))
        → GoesOn base env (record t { state = (snapshot t.state).1 }) o
        → Answers t (elim o [
          | none ↦ none
          | some (Applied.ok result, u) ↦ some (Applied.ok result, post_hook u)
          | some (Applied.err e, u) ↦ elim (revert_to_snapshot (snapshot t.state).0 u.state) [
            | none ↦ none
            | some v ↦ some (Applied.err e, post_hook (record u { state = v }))
          ]
        ])
    ended-Answers t none goes = goes
    ended-Answers t (some (ok result, u)) goes = (
      hooked-Goes t u result.gas_used (record {
        pool = goes.pool;
        total = goes.total;
        receipts = goes.receipts;
        kept = trans-Keeps t.state (snapshot t.state).1 u.state (snapshot-Keeps t.state) goes.kept;
        poorer =
            trans-Poorer base t.state (snapshot t.state).1 u.state
              (tree-Poorer base t.state (snapshot t.state).1 (tree-snapshot t.state)) goes.poorer;
      }),
      tt,
    )
    ended-Answers t (some (err e, u)) goes =
        let (v, done, tree, same) = revert_to_snapshot_lem t.state u.state goes.kept in
        rw done (
          hooked-Goes t (record u { state = v }) 0
              (record {
                pool = goes.pool;
                total = goes.total;
                receipts = goes.receipts;
                kept =
                    trans-Keeps t.state u.state v
                      (trans-Keeps t.state (snapshot t.state).1 u.state (snapshot-Keeps t.state)
                        goes.kept)
                      (same-Keeps u.state v same);
                poorer = tree-Poorer base t.state v tree;
              }),
          ap (λ x. x.tree) (hook.state (record u { state = v })) ∙ tree,
        )

    -- Apply does not panic, for a virtual machine that leaves no more gas than it was given, keeps the
    -- snapshots and moves balance between finitely many accounts in each run without making any, a gas
    -- pool below 2^64, and a hook that changes nothing. Afterwards the pool is lower by at least the
    -- gas used, the total gas and the receipts are the same, every snapshot is kept, there are
    -- finitely many accounts such that any addresses that name each of these once have together no
    -- more balance than before, and a message that is refused leaves the state as it was.
    pub apply-Answers :
        (msg : Transaction) (t : Transition)
        → IsRuntime base env
        → t.gas_pool < u64_mod
        → Answers t (apply base env post_hook sender msg t)
    unfolding apply
    apply-Answers msg t rules small =
        ended-Answers t (apply_message base env msg (record t { state = (snapshot t.state).1 }))
          (apply_message-Goes base env rules msg (record t { state = (snapshot t.state).1 }) small)
