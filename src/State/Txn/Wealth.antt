-- ===== src/State/Txn/Wealth.antt =====
-- The sum of the balances of some addresses, each named once, and changes that do not let it grow.
use go_plgchain.Base.{
  ℕ, ◌+◌, ◌≤◌, ◌≡◌, ◌++◌, refl, ap, List, [], some, All, All-append_left, All-append_right, total,
  times, total-add, total-le, total_once, ◌==◌, if◌then◌else◌, arith,
}
use go_plgchain.State.Account.{ReadSnapshot}
use go_plgchain.State.Txn.{Txn, Tree, get_state_object, get_balance, add_balance, sub_balance}
use go_plgchain.State.Txn.Balances.{get_balance-add_balance, get_balance-sub_balance}

module _ (base : ReadSnapshot) (addresses : List ℕ) where
  unfoldable pub wealth : Txn → ℕ
  wealth t = total (get_balance base t) addresses

  pub wealth-add_balance :
      (t : Txn) (addr amount : ℕ)
      → times addr addresses ≡ 1
      → wealth (add_balance base addr amount t) ≡ wealth t + amount
  unfolding wealth
  wealth-add_balance t addr amount h = omega (
    arith,
    total-add (get_balance base (add_balance base addr amount t)) (get_balance base t)
        (λ a. if addr == a then amount else 0) addresses
        (get_balance-add_balance base t addr amount),
    total_once addr amount addresses h,
  )

  pub wealth-sub_balance :
      (t u : Txn) (addr amount : ℕ)
      → times addr addresses ≡ 1
      → sub_balance base addr amount t ≡ some u
      → wealth t ≡ wealth u + amount
  unfolding wealth
  wealth-sub_balance t u addr amount h s = omega (
    arith,
    total-add (get_balance base t) (get_balance base u) (λ a. if addr == a then amount else 0)
        addresses (λ a. get_balance-sub_balance base t u addr amount a s),
    total_once addr amount addresses h,
  )

  -- A change that takes no balance up takes the sum not up.
  pub wealth_mono :
      (t u : Txn) → ((a : ℕ) → get_balance base u a ≤ get_balance base t a) → wealth u ≤ wealth t
  unfolding wealth
  wealth_mono t u h = total-le (get_balance base u) (get_balance base t) addresses h

  pub wealth_same :
      (t u : Txn) → ((a : ℕ) → get_balance base u a ≡ get_balance base t a) → wealth u ≡ wealth t
  wealth_same t u h =
      omega (
        arith,
        wealth_mono t u (λ a. omega (arith, h a)),
        wealth_mono u t (λ a. omega (arith, h a)),
      )

-- Among the addresses the account is named once.
abbrev pub Names : List ℕ → ℕ → Type 0
Names addresses addr = times addr addresses ≡ 1

-- A change that makes no balance out of nothing: it moves balance between finitely many accounts only,
-- and where all these are among the addresses, the sum does not grow.
pub record Poorer (base : ReadSnapshot) (t u : Txn) : Type 0 where
  pub touched : List ℕ
  pub bound :
      (addresses : List ℕ)
      → All (Names addresses) touched
      → wealth base addresses u ≤ wealth base addresses t

module _ (base : ReadSnapshot) where
  pub mono-Poorer :
      (t u : Txn) → ((a : ℕ) → get_balance base u a ≤ get_balance base t a) → Poorer base t u
  mono-Poorer t u h = record {
    touched = [];
    bound = λ addresses _. wealth_mono base addresses t u h;
  }

  pub same-Poorer :
      (t u : Txn) → ((a : ℕ) → get_balance base u a ≡ get_balance base t a) → Poorer base t u
  same-Poorer t u h = mono-Poorer t u (λ a. omega (arith, h a))

  -- Balances are a matter of the tree.
  pub tree-Poorer : (t u : Txn) → u.tree ≡ t.tree → Poorer base t u
  unfolding get_balance get_state_object
  tree-Poorer t u e =
      same-Poorer t u
        (λ a. ap (λ (tree : Tree). get_balance base (record { snapshots = []; tree = tree }) a) e)

  pub refl-Poorer : (t : Txn) → Poorer base t t
  refl-Poorer t = tree-Poorer t t refl

  pub trans-Poorer : (t u v : Txn) → Poorer base t u → Poorer base u v → Poorer base t v
  trans-Poorer t u v p q = record {
    touched = p.touched ++ q.touched;
    bound = λ addresses named. omega (
      arith,
      p.bound addresses (All-append_left (Names addresses) p.touched q.touched named),
      q.bound addresses (All-append_right (Names addresses) p.touched q.touched named),
    );
  }
