-- ===== src/TxPool/Account/Promotes.antt =====
-- What `promote` does: it moves the run of expected nonces, and drops what that run makes stale.
use mathlib.Core.List.{perm_middle, map-append}
use mathlib.Core.List.Perm
use native.Mathlib.Bridge.{le_prop}
use go_plgchain.Base.{
  ℕ, zero, suc, ◌+◌, ◌≤◌, ◌<◌, ◌≡◌, refl, sym, subst, ◌∙◌, [], ◌∷◌, ◌++◌, Perm, append_assoc,
  Bool-cases, inl, inr, length, length-append, length-perm, arith, All, All-mono, All-perm,
  All-append, All-append_right, some, ltb, if◌then◌else◌, ◌==◌, true, false,
}
use go_plgchain.Base.Word.{max_u64, add64}
use go_plgchain.Types.{Transaction}
use go_plgchain.TxPool.Queue.{Txs, push, pop, prune}
use go_plgchain.TxPool.Queue.Laws.{
  IsQueue, From, Below, prune-Pruned, head-least, push_lem, pop_lem,
}
use go_plgchain.TxPool.Account.{
  Account, Promotion, Promoted, promote_round, promote_loop, promote_from, promote, start, finish,
}
use go_plgchain.TxPool.Account.Run.{IsRun, nonces, range_from, range_from-snoc, push-IsRun}
use go_plgchain.TxPool.Account.Invariant.{IsValid, IsSettled}

-- The loop's invariant, for the account that it started from.
record LoopInv (a : Account) (s : Promotion) : Type 0 where
  enqueued : IsQueue s.enqueued
  promoted_queue : IsQueue s.promoted_queue
  waiting : From s.next_nonce s.enqueued
  small : Below max_u64 s.enqueued
  run : IsRun s.next_nonce s.promoted_queue
  consecutive : nonces s.promoted ≡ range_from a.next_nonce (length s.promoted)
  advanced : s.next_nonce ≡ a.next_nonce + length s.promoted
  moved : Perm s.promoted_queue (s.promoted ++ a.promoted)
  split : Perm (s.promoted ++ (s.pruned ++ s.enqueued)) a.enqueued
  stale : Below s.next_nonce s.pruned

length-concat : (xs : Txs) (x : Transaction) → length (xs ++ x ∷ []) ≡ suc (length xs)
length-concat xs x = omega (arith, length-append xs (x ∷ []))

concat-consecutive :
    (start : ℕ) (xs : Txs) (x : Transaction)
    → nonces xs ≡ range_from start (length xs)
    → x.nonce ≡ start + length xs
    → nonces (xs ++ x ∷ []) ≡ range_from start (length (xs ++ x ∷ []))
concat-consecutive start xs x e f =
    map-append (λ t. t.nonce) xs (x ∷ [])
    ∙ rw (length-concat xs x, e, f) (sym (range_from-snoc start (length xs)))

round-moved :
    (pq xs old : Txs) (x : Transaction)
    → IsQueue pq
    → Perm pq (xs ++ old)
    → Perm (push pq x) ((xs ++ x ∷ []) ++ old)
round-moved pq xs old x h p =
    rw append_assoc
      (Perm.trans (push_lem pq x h).1 (Perm.trans (Perm.cons x p) (Perm.symm (perm_middle xs old))))

round-split :
    (xs ys q gone left all : Txs) (x : Transaction)
    → Perm (gone ++ left) q
    → Perm (xs ++ (ys ++ x ∷ q)) all
    → Perm ((xs ++ x ∷ []) ++ ((ys ++ gone) ++ left)) all
round-split xs ys q gone left all x p h =
    rw (append_assoc, append_assoc)
      (Perm.trans
        (Perm.append (Perm.refl xs)
          (Perm.trans (Perm.cons x (Perm.append (Perm.refl ys) p)) (Perm.symm (perm_middle ys q))))
        h)

round-LoopInv :
    (a : Account) (s : Promotion) (x : Transaction) (q rest : Txs)
    → LoopInv a s
    → s.enqueued ≡ x ∷ q
    → x.nonce ≡ s.next_nonce
    → IsQueue rest
    → Perm rest q
    → LoopInv a (promote_round s x rest)
unfolding promote_round
round-LoopInv a s x q rest v e f h p =
    let split : Perm (s.promoted ++ (s.pruned ++ x ∷ q)) a.enqueued = rw e at v.split in
    let below : Below max_u64 (x ∷ q) = rw e at v.small in
    let next : add64 x.nonce 1 ≡ s.next_nonce + 1 = omega (arith, below.0) in
    let cut = prune-Pruned (s.next_nonce + 1) rest h in
    let kept = Perm.trans cut.same p in
    rw next (record {
      enqueued = cut.heap;
      promoted_queue = (push_lem s.promoted_queue x v.promoted_queue).0;
      waiting = cut.kept;
      small =
          All-append_right (λ t. t.nonce < max_u64) (prune (s.next_nonce + 1) rest).0 _
            (All-perm (λ t. t.nonce < max_u64) (λ t. le_prop) (Perm.symm kept) below.1);
      run = push-IsRun s.next_nonce s.promoted_queue x v.promoted_queue v.run f;
      consecutive = concat-consecutive a.next_nonce s.promoted x v.consecutive (f ∙ v.advanced);
      advanced = omega (arith, v.advanced, length-concat s.promoted x);
      moved = round-moved s.promoted_queue s.promoted a.promoted x v.promoted_queue v.moved;
      split = round-split s.promoted s.pruned q _ _ a.enqueued x kept split;
      stale =
          All-append (λ t. t.nonce < s.next_nonce + 1) s.pruned _
            (All-mono (λ t. t.nonce < s.next_nonce) (λ t. t.nonce < s.next_nonce + 1)
              (λ t l. omega arith) s.pruned v.stale)
            cut.gone;
    })

round-shorter :
    (s : Promotion) (x : Transaction) (rest : Txs)
    → IsQueue rest
    → length (promote_round s x rest).enqueued ≤ length rest
unfolding promote_round
round-shorter s x rest h =
    let cut = prune-Pruned (add64 x.nonce 1) rest h in
    omega (
      arith,
      length-perm cut.same,
      length-append {0} (prune (add64 x.nonce 1) rest).0 (prune (add64 x.nonce 1) rest).1,
    )

-- Nothing with the expected nonce is left.
abbrev IsDone : Promotion → Type 0
IsDone s = All (λ t. s.next_nonce < t.nonce) s.enqueued

module _ (k : ℕ) (s : Promotion) where
  stops_empty : s.enqueued ≡ [] → promote_loop (suc k) s ≡ s
  unfolding promote_loop
  stops_empty e = ground arith

  module _ (x : Transaction) (q : Txs) (e : s.enqueued ≡ x ∷ q) where
    stops_ahead : (x.nonce == s.next_nonce) ≡ false → promote_loop (suc k) s ≡ s
    unfolding promote_loop
    stops_ahead f = ground arith

    goes_on :
        (rest : Txs)
        → (x.nonce == s.next_nonce) ≡ true
        → pop (x ∷ q) ≡ some (x, rest)
        → promote_loop (suc k) s ≡ promote_loop k (promote_round s x rest)
    unfolding promote_loop
    goes_on rest f g = ground (arith, rw (← e) at g)

loop-LoopInv :
    (k : ℕ) (a : Account) (s : Promotion) (es : Txs)
    → s.enqueued ≡ es
    → length es < k
    → LoopInv a s
    → LoopInv a (promote_loop k s) × IsDone (promote_loop k s)
loop-LoopInv zero a s es e f v = absurd (omega arith)
loop-LoopInv (suc k) a s [] e f v =
    subst (λ r. LoopInv a r × IsDone r) (sym (stops_empty k s e))
      (v, subst (All (λ t. s.next_nonce < t.nonce)) (sym e) tt)
loop-LoopInv (suc k) a s (x ∷ q) e f v = elim (Bool-cases (x.nonce == s.next_nonce)) [
  | inr stop ↦
      let waiting : From s.next_nonce (x ∷ q) = subst (From s.next_nonce) e v.waiting in
      let done =
        All-mono (λ t. x.nonce ≤ t.nonce) (λ t. s.next_nonce < t.nonce) (λ t p. ground arith)
          (x ∷ q) (head-least x q (subst IsQueue e v.enqueued)) in
      subst (λ r. LoopInv a r × IsDone r) (sym (stops_ahead k s x q e stop))
        (v, subst (All (λ t. s.next_nonce < t.nonce)) (sym e) done)
  | inl more ↦
      let (rest, popped, heap, same) = pop_lem x q (subst IsQueue e v.enqueued) in
      let round = round-LoopInv a s x q rest v e (ground arith) heap same in
      subst (λ r. LoopInv a r × IsDone r) (sym (goes_on k s x q e rest more popped))
        (loop-LoopInv k a (promote_round s x rest) _ refl
          (omega (arith, round-shorter s x rest heap, length-perm same)) round)
]

-- What `promote` promises of a well-formed account.
pub record Promotes (a : Account) (r : Promoted) : Type 0 where
  pub valid : IsValid r.account
  pub consecutive : nonces r.promoted ≡ range_from a.next_nonce (length r.promoted)
  pub advanced : r.account.next_nonce ≡ a.next_nonce + length r.promoted
  pub moved : Perm r.account.promoted (r.promoted ++ a.promoted)
  pub split : Perm (r.promoted ++ (r.pruned ++ r.account.enqueued)) a.enqueued
  pub stale : Below r.account.next_nonce r.pruned
  pub settled : IsSettled r.account

nothing_promoted :
    (a : Account)
    → IsValid a
    → IsSettled a
    → Promotes a (record { account = a; promoted = []; pruned = [] })
nothing_promoted a v s = record {
  valid = v;
  consecutive = refl;
  advanced = omega arith;
  moved = Perm.rfl;
  split = Perm.rfl;
  stale = tt;
  settled = s;
}

start-LoopInv : (a : Account) → IsValid a → LoopInv a (start a a.next_nonce)
start-LoopInv a v = record {
  enqueued = v.enqueued;
  promoted_queue = v.promoted;
  waiting = v.waiting;
  small = v.small;
  run = v.run;
  consecutive = refl;
  advanced = omega arith;
  moved = Perm.rfl;
  split = Perm.rfl;
  stale = tt;
}

finish-Promotes :
    (a : Account) (s : Promotion) → IsValid a → LoopInv a s → IsDone s → Promotes a (finish a s)
unfolding finish
finish-Promotes a s v l d =
    let next : (if ltb a.next_nonce s.next_nonce then s.next_nonce else a.next_nonce)
        ≡ s.next_nonce =
      ground (arith, l.advanced) in
    rw next (record {
      valid = record {
        enqueued = l.enqueued;
        promoted = l.promoted_queue;
        waiting = l.waiting;
        small = l.small;
        run = l.run;
        bounded = omega (
          arith,
          v.bounded,
          length-perm l.split,
          length-append {0} s.promoted (s.pruned ++ s.enqueued),
          length-append {0} s.pruned s.enqueued,
        );
      };
      consecutive = l.consecutive;
      advanced = l.advanced;
      moved = l.moved;
      split = l.split;
      stale = l.stale;
      settled = d;
    })

promote_from-Promotes :
    (a : Account) (x : Transaction) (q : Txs)
    → a.enqueued ≡ x ∷ q
    → IsValid a
    → Promotes a (promote_from a x)
unfolding promote_from
promote_from-Promotes a x q e v =
    let waiting : From a.next_nonce (x ∷ q) = subst (From a.next_nonce) e v.waiting in
    let least = head-least x q (subst IsQueue e v.enqueued) in
    elim (Bool-cases (ltb a.next_nonce x.nonce)) [
      | inl ahead ↦ rw ahead (
          nothing_promoted a v (
            subst (All (λ t. a.next_nonce < t.nonce)) (sym e) (
              All-mono (λ t. x.nonce ≤ t.nonce) (λ t. a.next_nonce < t.nonce) (λ t p. ground arith)
                (x ∷ q) least)))
      | inr now ↦
          let expected : a.next_nonce ≡ x.nonce = ground (arith, waiting.0) in
          let l =
            loop-LoopInv (length a.enqueued + 1) a (start a a.next_nonce) a.enqueued refl
              (omega arith) (start-LoopInv a v) in
          rw now (
            subst (λ n. Promotes a (finish a (promote_loop (length a.enqueued + 1) (start a n))))
              expected (finish-Promotes a _ v l.0 l.1))
    ]

promote_on : (a : Account) (es : Txs) → a.enqueued ≡ es → IsValid a → Promotes a (promote a)
unfolding promote
promote_on a [] e v =
    subst (Promotes a) (ground arith)
      (nothing_promoted a v (subst (All (λ t. a.next_nonce < t.nonce)) (sym e) tt))
promote_on a (x ∷ q) e v = subst (Promotes a) (ground arith) (promote_from-Promotes a x q e v)

-- promote moves, of a well-formed account, the enqueued transactions with consecutive nonces from
-- the expected one; it splits the enqueued queue into these, the pruned and the kept; and it leaves
-- a well-formed account with nothing more to promote.
pub promote-Promotes : (a : Account) → IsValid a → Promotes a (promote a)
promote-Promotes a v = promote_on a a.enqueued refl v
