-- ===== src/TxPool/Account/Resets.antt =====
-- What `reset` does: it aligns the account with the nonce of the state.
use Prim.Native.Nat.{max}
use mathlib.Core.List.Perm
use native.Mathlib.Bridge.{le_prop}
use go_plgchain.Base.{
  ℕ, zero, suc, ◌+◌, ◌≤◌, ◌<◌, ◌≡◌, ◌↔◌, refl, sym, subst, [], ◌∷◌, Bool-cases, inl, inr, length,
  length-append, length-perm, arith, All, All-mono, All-perm, All-append_right, leb, none, some,
}
use go_plgchain.Base.Word.{max_u64}
use go_plgchain.TxPool.Queue.{Txs, prune, prune_loop}
use go_plgchain.TxPool.Queue.Laws.{IsQueue, From, Below, Pruned, prune-Pruned, head-least, pop_lem}
use go_plgchain.TxPool.Account.{Account, Reset, reset, first_expected}
use go_plgchain.TxPool.Account.Run.{IsRun, IsRun-below, nil-IsRun, head-IsRun}
use go_plgchain.TxPool.Account.Invariant.{IsValid, IsSettled}

-- Where the transactions are past the nonce, none has it.
first_expected-settled :
    (q : Txs) (nonce : ℕ) → All (λ t. nonce < t.nonce) q → first_expected q nonce ≡ none
unfolding first_expected
first_expected-settled [] nonce h = refl
first_expected-settled (x ∷ q) nonce h = ground (arith, h.0)

prune_loop-IsRun :
    (k n next : ℕ) (q : Txs) → IsQueue q → IsRun next q → IsRun next (prune_loop k n q).1
unfolding prune_loop
prune_loop-IsRun zero n next q h r = r
prune_loop-IsRun (suc k) n next [] h r = r
prune_loop-IsRun (suc k) n next (x ∷ q) h r = elim (Bool-cases (leb n x.nonce)) [
  | inl stop ↦ rw (stop, prune_loop) r
  | inr more ↦
      let (rest, popped, heap, same) = pop_lem x q h in
      rw (more, popped, prune_loop)
        (prune_loop-IsRun k n next rest heap (head-IsRun next x q rest h same r).1)
]

-- A run is pruned from below, so what is left is a run.
prune-IsRun : (n next : ℕ) (q : Txs) → IsQueue q → IsRun next q → IsRun next (prune n q).1
unfolding prune
prune-IsRun n next q h r = prune_loop-IsRun (length q + 1) n next q h r

Pruned-shorter : (n : ℕ) (q : Txs) (r : Txs × Txs) → Pruned n q r → length r.1 ≤ length q
Pruned-shorter n q r p = omega (arith, length-perm p.same, length-append {0} r.0 r.1)

Pruned-Below : (n m : ℕ) (q : Txs) (r : Txs × Txs) → Pruned n q r → Below m q → Below m r.1
Pruned-Below n m q r p b =
    All-append_right (λ t. t.nonce < m) r.0 r.1
      (All-perm (λ t. t.nonce < m) (λ t. le_prop) (Perm.symm p.same) b)

none_between : (n m : ℕ) (q : Txs) → From n q → Below m q → m ≤ n → q ≡ []
none_between n m [] f b h = refl
none_between n m (x ∷ q) f b h = absurd (omega (arith, f.0, b.0))

-- No signal: nothing enqueued has the new nonce.
unsignalled :
    (q : Txs) (nonce : ℕ)
    → IsQueue q
    → From nonce q
    → first_expected q nonce ≡ none
    → All (λ t. nonce < t.nonce) q
unfolding first_expected
unsignalled [] nonce h f e = tt
unsignalled (x ∷ q) nonce h f e =
    let ahead : nonce < x.nonce = ground (arith, f.0) in
    All-mono (λ t. x.nonce ≤ t.nonce) (λ t. nonce < t.nonce) (λ t p. omega arith) (x ∷ q)
      (head-least x q h)

-- A signal names the sender of an enqueued transaction.
signal_names :
    (q : Txs) (nonce b c : ℕ) → All (λ t. t.from ≡ b) q → first_expected q nonce ≡ some c → c ≡ b
unfolding first_expected
signal_names [] nonce b c f e = cc
signal_names (x ∷ q) nonce b c f e = ground (arith, f.0)

-- What `reset` promises of a well-formed account.
pub record Resets (nonce : ℕ) (a : Account) (r : Reset) : Type 0 where
  pub valid : IsValid r.account
  pub next_nonce : r.account.next_nonce ≡ max a.next_nonce nonce
  pub promoted : Pruned nonce a.promoted (r.pruned_promoted, r.account.promoted)
  pub enqueued : Pruned nonce a.enqueued (r.pruned_enqueued, r.account.enqueued)
  pub settled : r.request ≡ none → IsSettled a → IsSettled r.account
  pub named : (b c : ℕ) → All (λ t. t.from ≡ b) r.account.enqueued → r.request ≡ some c → c ≡ b

module _ (nonce : ℕ) (a : Account) (v : IsValid a) where
  abbrev cut_promoted : Txs × Txs
  cut_promoted = prune nonce a.promoted

  abbrev cut_enqueued : Txs × Txs
  cut_enqueued = prune nonce a.enqueued

  known_nonce :
      nonce ≤ a.next_nonce
      → Resets nonce a (record {
        account = record a { promoted = cut_promoted.1 };
        pruned_promoted = cut_promoted.0;
        pruned_enqueued = [];
        request = none;
      })
  known_nonce h = record {
    valid = record {
      enqueued = v.enqueued;
      promoted = (prune-Pruned nonce a.promoted v.promoted).heap;
      waiting = v.waiting;
      small = v.small;
      run = prune-IsRun nonce a.next_nonce a.promoted v.promoted v.run;
      bounded = v.bounded;
    };
    next_nonce = omega arith;
    promoted = prune-Pruned nonce a.promoted v.promoted;
    enqueued = record {
      heap = v.enqueued;
      same = Perm.rfl;
      gone = tt;
      kept =
          All-mono (λ t. a.next_nonce ≤ t.nonce) (λ t. nonce ≤ t.nonce) (λ t p. omega arith)
            a.enqueued v.waiting;
    };
    settled = λ e s. s;
    named = λ b c f e. cc;
  }

  new_nonce :
      a.next_nonce < nonce
      → Resets nonce a (record {
        account = record a {
          promoted = cut_promoted.1;
          enqueued = cut_enqueued.1;
          next_nonce = nonce;
        };
        pruned_promoted = cut_promoted.0;
        pruned_enqueued = cut_enqueued.0;
        request = first_expected cut_enqueued.1 nonce;
      })
  new_nonce h =
      let p = prune-Pruned nonce a.promoted v.promoted in
      let e = prune-Pruned nonce a.enqueued v.enqueued in
      let below =
        Pruned-Below nonce a.next_nonce a.promoted cut_promoted p
          (IsRun-below a.next_nonce a.promoted v.run) in
      let empty = none_between nonce a.next_nonce cut_promoted.1 p.kept below (omega arith) in
      record {
        valid = record {
          enqueued = e.heap;
          promoted = p.heap;
          waiting = e.kept;
          small = Pruned-Below nonce max_u64 a.enqueued cut_enqueued e v.small;
          run = subst (IsRun nonce) (sym empty) (nil-IsRun nonce);
          bounded = omega (arith, Pruned-shorter nonce a.enqueued cut_enqueued e, v.bounded);
        };
        next_nonce = omega arith;
        promoted = p;
        enqueued = e;
        settled = λ f s. unsignalled cut_enqueued.1 nonce e.heap e.kept f;
        named = λ b c f g. signal_names cut_enqueued.1 nonce b c f g;
      }

  pub reset-Resets : Resets nonce a (reset nonce a)
  unfolding reset
  reset-Resets = elim (Bool-cases (leb nonce a.next_nonce)) [
    | inl old ↦ rw old (known_nonce (ground arith))
    | inr new ↦ rw new (new_nonce (ground arith))
  ]

  -- reset leaves a well-formed account well formed, expecting the greater of its nonce and the new
  -- one; it prunes from both queues exactly the transactions below the new nonce.
  pub reset_aligns :
      let r = reset nonce a in
      IsValid r.account
      × (r.account.next_nonce ≡ max a.next_nonce nonce)
      × Pruned nonce a.promoted (r.pruned_promoted, r.account.promoted)
      × Pruned nonce a.enqueued (r.pruned_enqueued, r.account.enqueued)
  reset_aligns = let h = reset-Resets in (h.valid, h.next_nonce, h.promoted, h.enqueued)

  settled_is_quiet : IsSettled (reset nonce a).account → (reset nonce a).request ≡ none
  unfolding reset
  settled_is_quiet = elim (Bool-cases (leb nonce a.next_nonce)) [
    | inl old ↦ rw old (λ s. refl)
    | inr new ↦ rw new (λ s. first_expected-settled cut_enqueued.1 nonce s)
  ]

  -- reset of a well-formed account with nothing to promote signals no promotion exactly when it leaves
  -- nothing to promote.
  pub reset_signals :
      IsSettled a → ((reset nonce a).request ≡ none) ↔ IsSettled (reset nonce a).account
  reset_signals s = (λ e. reset-Resets.settled e s, settled_is_quiet)
