-- ===== src/State/Transition/Destroys.antt =====
-- What a contract that destroys itself leaves to whom.
use go_plgchain.Base.{ℕ, ◌+◌, ◌≡◌, refl, ◌==◌, if◌then◌else◌, if_elim, arith}
use go_plgchain.State.Account.{ReadSnapshot}
use go_plgchain.State.Txn.{
  Txn, get_state_object, get_balance, add_balance, add_refund, has_suicided,
}
use go_plgchain.State.Txn.Balances.{get_balance-add_balance, get_balance-suicide}
use go_plgchain.State.Transition.{selfdestruct}

module _ (base : ReadSnapshot) where
  get_balance-add_refund :
      (gas : ℕ) (t : Txn) (a : ℕ) → get_balance base (add_refund gas t) a ≡ get_balance base t a
  unfolding add_refund get_balance get_state_object
  get_balance-add_refund gas t a = refl

  -- After Selfdestruct the account has no balance, also where it is its own beneficiary; another
  -- beneficiary has what the account had besides its own; every other balance is the same.
  pub get_balance-selfdestruct :
      (addr beneficiary : ℕ) (t : Txn) (a : ℕ)
      → get_balance base (selfdestruct base addr beneficiary t) a ≡ (
          if addr == a
          then 0
          else get_balance base t a + (if beneficiary == a then get_balance base t addr else 0))
  unfolding selfdestruct
  get_balance-selfdestruct addr beneficiary t a =
      let refunded = if has_suicided base t addr then t else add_refund 24000 t in
      let same : (b : ℕ) → get_balance base refunded b ≡ get_balance base t b = λ b.
        if_elim (λ u. get_balance base u b ≡ get_balance base t b) (has_suicided base t addr)
          (λ _. refl) (λ _. get_balance-add_refund 24000 t b) in
      ground (
        arith,
        same a,
        same addr,
        get_balance-suicide base
            (add_balance base beneficiary (get_balance base refunded addr) refunded) addr a,
        get_balance-add_balance base refunded beneficiary (get_balance base refunded addr) a,
      )
