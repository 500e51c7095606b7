-- ===== src/State/Txn/Book.antt =====
-- The operations of state/txn.go against a book of balances: a function from addresses to balances, and
-- the functions that snapshots saved.
use go_plgchain.Base.{
  ℕ, zero, suc, ◌+◌, ◌-◌, ◌<◌, ◌≡◌, inl, inr, refl, sym, ◌∙◌, subst, List, [], ◌∷◌, ◌++◌, true,
  false, Option, none, some, ltb, ◌==◌, if◌then◌else◌, arith, Option-cases,
}
use go_plgchain.State.Account.{ReadSnapshot, StateObject}
use go_plgchain.State.Txn.{
  Txn, Tree, snapshot, revert_to_snapshot, get_elem?, get_state_object, get_balance, add_balance,
  sub_balance, set_balance, incr_nonce, set_code, touch_account, create_account, suicide,
  upsert_account, with_account, credit, bump_nonce, coded, put_object,
}
use go_plgchain.State.Txn.Balances.{
  get_balance-sub_balance, get_balance-incr_nonce, get_balance-touch_account,
  get_balance-create_account, get_balance-set_code, get_balance-upsert_account, get_balance-suicide,
  object_or_new, object_or_new_live, object_or_new-balance,
}
use go_plgchain.State.Txn.Reverts.{
  snapshots-upsert_account, snapshots-suicide, snapshots-sub_balance,
}

pub data Operation : Type 0 where
  adds subs sets : ℕ → ℕ → Operation
  nonces touches creates suicides : ℕ → Operation
  codes : ℕ → List ℕ → Operation
  saves : Operation
  reverts : ℕ → Operation

pub record Book : Type 0 where
  pub balances : ℕ → ℕ
  pub saved : List (ℕ → ℕ)

abbrev pub put : ℕ → ℕ → (ℕ → ℕ) → ℕ → ℕ
put addr amount f a = if addr == a then amount else f a

-- What each operation promises. `none` is the panic of a revert to a snapshot that was never taken.
unfoldable pub write_book : Operation → Book → Option Book
write_book (adds addr amount) b =
    some (record b { balances = put addr (b.balances addr + amount) b.balances })
write_book (subs addr amount) b = some (
    if ltb (b.balances addr) amount
    then b
    else record b { balances = put addr (b.balances addr - amount) b.balances })
write_book (sets addr amount) b = some (record b { balances = put addr amount b.balances })
write_book (suicides addr) b = some (record b { balances = put addr 0 b.balances })
write_book (nonces addr) b = some b
write_book (touches addr) b = some b
write_book (creates addr) b = some b
write_book (codes addr code) b = some b
write_book saves b = some (record b { saved = b.saved ++ b.balances ∷ [] })
write_book (reverts id) b = elim (get_elem? b.saved id) [
  | none ↦ none
  | some f ↦ some (record b { balances = f })
]

unfoldable pub write_books : List Operation → Book → Option Book
write_books [] b = some b
write_books (o ∷ os) b = elim (write_book o b) [ none ↦ none | some c ↦ write_books os c ]

module _ (base : ReadSnapshot) where
  -- The same operation of the code; a sub_balance that fails leaves the state.
  unfoldable pub operate : Operation → Txn → Option Txn
  operate (adds addr amount) t = some (add_balance base addr amount t)
  operate (subs addr amount) t = elim (sub_balance base addr amount t) [
    | none ↦ some t
    | some u ↦ some u
  ]
  operate (sets addr amount) t = some (set_balance base addr amount t)
  operate (suicides addr) t = some (suicide base addr t).1
  operate (nonces addr) t = some (incr_nonce base addr t)
  operate (touches addr) t = some (touch_account base addr t)
  operate (creates addr) t = some (create_account base addr t)
  operate (codes addr code) t = some (set_code base addr code t)
  operate saves t = some (snapshot t).1
  operate (reverts id) t = revert_to_snapshot id t

  unfoldable pub operate_all : List Operation → Txn → Option Txn
  operate_all [] t = some t
  operate_all (o ∷ os) t = elim (operate o t) [ none ↦ none | some u ↦ operate_all os u ]

  abbrev pub Shows : Tree → (ℕ → ℕ) → Type 0
  Shows tree f = (a : ℕ) → get_balance base (record { snapshots = []; tree = tree }) a ≡ f a

  abbrev pub ShowsAll : List Tree → List (ℕ → ℕ) → Type 0
  ShowsAll [] [] = Unit
  ShowsAll [] (f ∷ fs) = ⊥
  ShowsAll (tree ∷ trees) [] = ⊥
  ShowsAll (tree ∷ trees) (f ∷ fs) = Shows tree f × ShowsAll trees fs

  -- The state stands for the book.
  abbrev pub StandsFor : Txn → Book → Type 0
  StandsFor t b = Shows t.tree b.balances × ShowsAll t.snapshots b.saved

  abbrev pub Refines : Option Txn → Option Book → Type 0
  Refines none none = Unit
  Refines none (some b) = ⊥
  Refines (some t) none = ⊥
  Refines (some t) (some b) = StandsFor t b

  bind-Refines :
      (x : Option Txn) (y : Option Book) (f : Txn → Option Txn) (g : Book → Option Book)
      → Refines x y
      → ((t : Txn) (b : Book) → StandsFor t b → Refines (f t) (g b))
      → Refines (elim x [ none ↦ none | some t ↦ f t ]) (elim y [ none ↦ none | some b ↦ g b ])
  bind-Refines none none f g h k = tt
  bind-Refines none (some b) f g h k = elim h [ ]
  bind-Refines (some t) none f g h k = elim h [ ]
  bind-Refines (some t) (some b) f g h k = k t b h

  ShowsAll-append :
      (trees : List Tree) (fs : List (ℕ → ℕ)) (tree : Tree) (f : ℕ → ℕ)
      → ShowsAll trees fs
      → Shows tree f
      → ShowsAll (trees ++ tree ∷ []) (fs ++ f ∷ [])
  ShowsAll-append [] [] tree f s h = (h, tt)
  ShowsAll-append [] (g ∷ fs) tree f s h = elim s [ ]
  ShowsAll-append (x ∷ trees) [] tree f s h = elim s [ ]
  ShowsAll-append (x ∷ trees) (g ∷ fs) tree f s h = (s.0, ShowsAll-append trees fs tree f s.1 h)

  reverts-Refines :
      (id : ℕ) (trees : List Tree) (fs : List (ℕ → ℕ)) (t : Txn) (b : Book)
      → ShowsAll trees fs
      → ShowsAll t.snapshots b.saved
      → Refines
          (elim (get_elem? trees id) [ none ↦ none | some tree ↦ some (record t { tree = tree }) ])
          (elim (get_elem? fs id) [ none ↦ none | some f ↦ some (record b { balances = f }) ])
  reverts-Refines id [] [] t b s w = tt
  reverts-Refines id [] (f ∷ fs) t b s w = elim s [ ]
  reverts-Refines zero (tree ∷ trees) [] t b s w = elim s [ ]
  reverts-Refines (suc id) (tree ∷ trees) [] t b s w = elim s [ ]
  reverts-Refines zero (tree ∷ trees) (f ∷ fs) t b s w = (s.0, w)
  reverts-Refines (suc id) (tree ∷ trees) (f ∷ fs) t b s w = reverts-Refines id trees fs t b s.1 w

  shown :
      (t : Txn) (a : ℕ)
      → get_balance base (record { snapshots = []; tree = t.tree }) a ≡ get_balance base t a
  unfolding get_balance get_state_object
  shown t a = refl

  -- A change of the tree alone, and what it does to the balances.
  changes :
      (t u : Txn) (b : Book) (f : ℕ → ℕ)
      → StandsFor t b
      → u.snapshots ≡ t.snapshots
      → ((a : ℕ) → get_balance base u a ≡ f a)
      → StandsFor u (record b { balances = f })
  changes t u b f s same h =
      (λ a. shown u a ∙ h a, subst (λ trees. ShowsAll trees b.saved) (sym same) s.1)

  -- One that sets one balance, from what it was, through upsert_account.
  upserts :
      (t : Txn) (b : Book) (addr amount : ℕ) (f : StateObject → StateObject)
      → StandsFor t b
      → (f (object_or_new base t addr)).deleted ≡ false
      → (f (object_or_new base t addr)).account.balance ≡ amount
      → StandsFor
          (upsert_account base addr true f t)
          (record b { balances = put addr amount b.balances })
  upserts t b addr amount f s live e =
      changes t (upsert_account base addr true f t) b (put addr amount b.balances) s
        (snapshots-upsert_account base addr true f t)
        (λ a.
          ground
            (arith, e, get_balance-upsert_account base t addr a f live, sym (shown t a) ∙ s.0 a))

  keeps :
      (t u : Txn) (b : Book)
      → StandsFor t b
      → u.snapshots ≡ t.snapshots
      → ((a : ℕ) → get_balance base u a ≡ get_balance base t a)
      → StandsFor u b
  keeps t u b s same h = changes t u b b.balances s same (λ a. h a ∙ sym (shown t a) ∙ s.0 a)

  too_short :
      (t : Txn) (addr amount : ℕ)
      → sub_balance base addr amount t ≡ none
      → get_balance base t addr < amount
  unfolding sub_balance
  too_short t addr amount h = ground (arith, h)

  subs-Refines :
      (t : Txn) (b : Book) (addr amount : ℕ)
      → StandsFor t b
      → Refines
          (elim (sub_balance base addr amount t) [ none ↦ some t | some u ↦ some u ])
          (some (
            if ltb (b.balances addr) amount
            then b
            else record b { balances = put addr (b.balances addr - amount) b.balances }))
  subs-Refines t b addr amount s =
      let now : get_balance base t addr ≡ b.balances addr = sym (shown t addr) ∙ s.0 addr in
      elim (Option-cases (sub_balance base addr amount t)) [
        | inl e ↦
            let short : ltb (b.balances addr) amount ≡ true =
              ground (arith, now, too_short t addr amount e) in
            rw (e, short) s
        | inr (u, e) ↦
            let moved : (a : ℕ)
                → get_balance base t a ≡ get_balance base u a + (if addr == a then amount else 0) =
              λ a. get_balance-sub_balance base t u addr amount a e in
            let long : ltb (b.balances addr) amount ≡ false = ground (arith, now, moved addr) in
            rw (e, long)
              (changes t u b (put addr (b.balances addr - amount) b.balances) s
                (snapshots-sub_balance base addr amount t u e)
                (λ a. ground (arith, now, moved a, long, sym (shown t a) ∙ s.0 a, moved addr)))
      ]

  suicides-StandsFor :
      (t : Txn) (b : Book) (addr : ℕ)
      → StandsFor t b
      → StandsFor (suicide base addr t).1 (record b { balances = put addr 0 b.balances })
  suicides-StandsFor t b addr s =
      changes t (suicide base addr t).1 b (put addr 0 b.balances) s (snapshots-suicide base addr t)
        (λ a. ground (arith, get_balance-suicide base t addr a, sym (shown t a) ∙ s.0 a))

  operate-Refines :
      (o : Operation) (t : Txn) (b : Book) → StandsFor t b → Refines (operate o t) (write_book o b)
  unfolding operate write_book add_balance set_balance incr_nonce set_code create_account put_object
      snapshot revert_to_snapshot
  operate-Refines (adds addr amount) t b s =
      upserts t b addr (b.balances addr + amount) (credit amount) s (object_or_new_live base t addr)
        (omega (arith, object_or_new-balance base t addr, shown t addr, s.0 addr))
  operate-Refines (subs addr amount) t b s = subs-Refines t b addr amount s
  operate-Refines (sets addr amount) t b s =
      upserts t b addr amount (with_account (λ a. record a { balance = amount })) s
        (object_or_new_live base t addr) refl
  operate-Refines (suicides addr) t b s = suicides-StandsFor t b addr s
  operate-Refines (nonces addr) t b s =
      keeps t (incr_nonce base addr t) b s (snapshots-upsert_account base addr true bump_nonce t)
        (get_balance-incr_nonce base t addr)
  operate-Refines (touches addr) t b s =
      keeps t (touch_account base addr t) b s (snapshots-upsert_account base addr true (λ o. o) t)
        (get_balance-touch_account base t addr)
  operate-Refines (creates addr) t b s =
      keeps t (create_account base addr t) b s refl (get_balance-create_account base t addr)
  operate-Refines (codes addr code) t b s =
      keeps t (set_code base addr code t) b s
        (snapshots-upsert_account base addr true (coded base code) t)
        (λ a. get_balance-set_code base t addr a code)
  operate-Refines saves t b s = (s.0, ShowsAll-append t.snapshots b.saved t.tree b.balances s.1 s.0)
  operate-Refines (reverts id) t b s = reverts-Refines id t.snapshots b.saved t b s.1 s.1

  -- Any sequence of balance changes, nonce, code, touch, creation and suicide operations, snapshots
  -- and reverts, from a state that stands for a book of balances, panics exactly when the book does,
  -- which is on a revert to a snapshot that was never taken, and otherwise leaves a state that stands
  -- for the book that is left: the same balances, and the saved ones under each snapshot.
  pub operate_all-Refines :
      (os : List Operation) (t : Txn) (b : Book)
      → StandsFor t b
      → Refines (operate_all os t) (write_books os b)
  unfolding operate_all write_books
  operate_all-Refines [] t b s = s
  operate_all-Refines (o ∷ os) t b s =
      bind-Refines (operate o t) (write_book o b) (operate_all os) (write_books os)
        (operate-Refines o t b s) (λ u c h. operate_all-Refines os u c h)
