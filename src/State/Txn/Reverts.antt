-- ===== src/State/Txn/Reverts.antt =====
-- Snapshots of the state: a tree that was taken stays, whatever happens after it.
use go_plgchain.Base.{
  ℕ, zero, suc, ◌≡◌, refl, ap, ◌∙◌, List, [], ◌∷◌, ◌++◌, Bool, true, some, length, arith,
}
use go_plgchain.State.Account.{StateObject, ReadSnapshot}
use go_plgchain.State.Txn.{
  Txn, Tree, snapshot, revert_to_snapshot, get_elem?, put_object, upsert_account, debit,
  sub_balance, suicide,
}

-- Every snapshot of `t` is one of `u` under the same id.
abbrev pub Keeps : Txn → Txn → Type 0
Keeps t u =
    (id : ℕ) (tree : Tree)
    → get_elem? t.snapshots id ≡ some tree
    → get_elem? u.snapshots id ≡ some tree

pub refl-Keeps : (t : Txn) → Keeps t t
refl-Keeps t id tree h = h

pub trans-Keeps : (t u v : Txn) → Keeps t u → Keeps u v → Keeps t v
trans-Keeps t u v p q id tree h = q id tree (p id tree h)

pub same-Keeps : (t u : Txn) → u.snapshots ≡ t.snapshots → Keeps t u
same-Keeps t u e id tree h = ap (λ s. get_elem? s id) e ∙ h

get_elem?-append {ℓ} :
    {A : Type ℓ} (xs ys : List A) (i : ℕ) (x : A)
    → get_elem? xs i ≡ some x
    → get_elem? (xs ++ ys) i ≡ some x
get_elem?-append [] ys i x h = absurd (cc)
get_elem?-append (y ∷ xs) ys zero x h = h
get_elem?-append (y ∷ xs) ys (suc i) x h = get_elem?-append xs ys i x h

get_elem?_last {ℓ} :
    {A : Type ℓ} (xs : List A) (x : A) → get_elem? (xs ++ x ∷ []) (length xs) ≡ some x
get_elem?_last [] x = refl
get_elem?_last (y ∷ xs) x = get_elem?_last xs x

pub snapshot-Keeps : (t : Txn) → Keeps t (snapshot t).1
unfolding snapshot
snapshot-Keeps t id tree h = get_elem?-append t.snapshots (t.tree ∷ []) id tree h

-- A snapshot is under the id that it was given.
pub get_elem?-snapshot : (t : Txn) → get_elem? (snapshot t).1.snapshots (snapshot t).0 ≡ some t.tree
unfolding snapshot
get_elem?-snapshot t = get_elem?_last t.snapshots t.tree

-- Taking a snapshot changes nothing that is read.
pub tree-snapshot : (t : Txn) → (snapshot t).1.tree ≡ t.tree
unfolding snapshot
tree-snapshot t = refl

-- A revert to a snapshot that was taken brings its tree back and keeps the snapshots.
pub revert_to_snapshot_lem :
    (t u : Txn)
    → Keeps (snapshot t).1 u
    → (v : Txn) × (revert_to_snapshot (snapshot t).0 u ≡ some v)
      × (v.tree ≡ t.tree)
      × (v.snapshots ≡ u.snapshots)
unfolding revert_to_snapshot
revert_to_snapshot_lem t u k = (
  record u { tree = t.tree },
  ground (arith, k (snapshot t).0 t.tree (get_elem?-snapshot t)),
  refl,
  refl,
)

module _ (base : ReadSnapshot) where
  pub snapshots-upsert_account :
      (addr : ℕ) (create : Bool) (f : StateObject → StateObject) (t : Txn)
      → (upsert_account base addr create f t).snapshots ≡ t.snapshots
  unfolding upsert_account put_object
  snapshots-upsert_account addr create f t = ground arith

  pub snapshots-sub_balance :
      (addr amount : ℕ) (t u : Txn)
      → sub_balance base addr amount t ≡ some u
      → u.snapshots ≡ t.snapshots
  unfolding sub_balance
  snapshots-sub_balance addr amount t u h =
      ground (arith, h, snapshots-upsert_account addr true (debit amount) t)

  pub snapshots-suicide : (addr : ℕ) (t : Txn) → (suicide base addr t).1.snapshots ≡ t.snapshots
  unfolding suicide upsert_account put_object
  snapshots-suicide addr t = ground arith
