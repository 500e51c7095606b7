-- ===== src/TxPool/Account/Run.antt =====
-- Runs of nonces: a promoted queue holds consecutive nonces, each once, up to the expected one.
use mathlib.Core.List.Perm
use go_plgchain.Base.{
  ℕ, zero, suc, ◌+◌, ◌-◌, ◌≤◌, ◌<◌, ◌≡◌, ap, sym, subst, ◌∙◌, List, [], ◌∷◌, ◌++◌, Perm, map,
  length, length-perm, append_one-perm, arith, All, All-mono, All-perm,
}
use native.Mathlib.Bridge.{le_prop}
use go_plgchain.Types.{Transaction}
use go_plgchain.TxPool.Queue.{Txs, push}
use go_plgchain.TxPool.Queue.Laws.{IsQueue, head-least, push_lem}

abbrev pub nonces : Txs → List ℕ
nonces = map (λ t. t.nonce)

-- lo, lo + 1, and so on, n numbers.
abbrev pub range_from : ℕ → ℕ → List ℕ
range_from lo zero = []
range_from lo (suc n) = lo ∷ range_from (lo + 1) n

-- The nonces of q are the last ones before `next`, each once.
pub record IsRun (next : ℕ) (q : Txs) : Type 0 where
  pub fits : length q ≤ next
  pub run : Perm (nonces q) (range_from (next - length q) (length q))

pub nil-IsRun : (next : ℕ) → IsRun next []
nil-IsRun next = record { fits = omega arith; run = Perm.nil }

pub range_from-snoc : (lo n : ℕ) → range_from lo (suc n) ≡ range_from lo n ++ (lo + n) ∷ []
range_from-snoc lo zero = ap (λ (m : ℕ). m ∷ []) (omega arith)
range_from-snoc lo (suc n) =
    ap (◌∷◌ lo)
      (range_from-snoc (lo + 1) n ∙ ap (λ (m : ℕ). range_from (lo + 1) n ++ m ∷ []) (omega arith))

range_from-above : (lo n : ℕ) → All (λ m. lo ≤ m) (range_from lo n)
range_from-above lo zero = tt
range_from-above lo (suc n) = (
  omega arith,
  All-mono (λ m. lo + 1 ≤ m) (λ m. lo ≤ m) (λ m p. omega arith) _ (range_from-above (lo + 1) n),
)

range_from-below : (lo n : ℕ) → All (λ m. m < lo + n) (range_from lo n)
range_from-below lo zero = tt
range_from-below lo (suc n) = (
  omega arith,
  All-mono (λ m. m < lo + 1 + n) (λ m. m < lo + suc n) (λ m p. omega arith) _
      (range_from-below (lo + 1) n),
)

All-nonces : (P : ℕ → Type 0) (q : Txs) → All (λ t. P t.nonce) q → All P (nonces q)
All-nonces P [] p = tt
All-nonces P (x ∷ q) p = (p.0, All-nonces P q p.1)

nonces-All : (P : ℕ → Type 0) (q : Txs) → All P (nonces q) → All (λ t. P t.nonce) q
nonces-All P [] p = tt
nonces-All P (x ∷ q) p = (p.0, nonces-All P q p.1)

-- A run ends below the expected nonce.
pub IsRun-below : (next : ℕ) (q : Txs) → IsRun next q → All (λ t. t.nonce < next) q
IsRun-below next q r =
    nonces-All (λ m. m < next) q
      (All-perm (λ m. m < next) (λ m. le_prop) (Perm.symm r.run)
        (All-mono (λ m. m < next - length q + length q) (λ m. m < next)
          (λ m p. omega (arith, r.fits)) _ (range_from-below (next - length q) (length q))))

IsRun-intro :
    (next lo n : ℕ) (q : Txs)
    → length q ≡ n
    → lo + n ≡ next
    → Perm (nonces q) (range_from lo n)
    → IsRun next q
IsRun-intro next lo n q e f p =
    let start : lo ≡ next - n = omega arith in
    record {
      fits = omega arith;
      run =
          subst (λ m. Perm (nonces q) (range_from (next - m) m)) (sym e)
            (subst (λ l. Perm (nonces q) (range_from l n)) start p);
    }

-- The expected transaction extends a run.
pub push-IsRun :
    (next : ℕ) (q : Txs) (tx : Transaction)
    → IsQueue q
    → IsRun next q
    → tx.nonce ≡ next
    → IsRun (next + 1) (push q tx)
push-IsRun next q tx h r e =
    let pushed = (push_lem q tx h).1 in
    let lo : ℕ = next - length q in
    let top : lo + length q ≡ tx.nonce = omega (arith, r.fits) in
    IsRun-intro (next + 1) lo (suc (length q)) (push q tx) (length-perm pushed)
      (omega (arith, r.fits))
      (Perm.trans (Perm.map _ pushed) (
        Perm.trans (Perm.cons tx.nonce r.run)
          (rw (range_from-snoc lo (length q), top) (Perm.symm (append_one-perm _ tx.nonce)))))

-- The head of a run has its least nonce, and the others are a run.
pub head-IsRun :
    (next : ℕ) (x : Transaction) (q rest : Txs)
    → IsQueue (x ∷ q)
    → Perm rest q
    → IsRun next (x ∷ q)
    → (x.nonce ≡ next - suc (length q)) × IsRun next rest
head-IsRun next x q rest h p r =
    let n : ℕ = length q in
    let lo : ℕ = next - suc n in
    let above =
      All-perm (λ m. lo ≤ m) (λ m. le_prop) (Perm.symm r.run) (range_from-above lo (suc n)) in
    let below =
      All-perm (λ m. x.nonce ≤ m) (λ m. le_prop) r.run
        (All-nonces (λ m. x.nonce ≤ m) (x ∷ q) (head-least x q h)) in
    let e : x.nonce ≡ lo = omega (arith, above.0, below.0) in
    let tail = Perm.cons_inv (rw e at r.run) in
    (
      e,
      IsRun-intro next (lo + 1) n rest (length-perm p) (omega (arith, r.fits))
          (Perm.trans (Perm.map _ p) tail),
    )
