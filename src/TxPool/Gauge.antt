-- ===== src/TxPool/Gauge.antt =====
-- txpool/slot_gauge.go: how many slots the pool's transactions take, in uint64 arithmetic. The size
-- of a transaction is the length of its RLP encoding, which another library writes.
use go_plgchain.Base.{ℕ, ◌+◌, ◌*◌, ◌/◌, ◌%◌, ◌<◌, ◌≡◌, [], ◌∷◌, Bool, ltb, total, arith}
use go_plgchain.Base.Word.{u64_mod, add64, sub64, not64}
use go_plgchain.Types.{Transaction}
use go_plgchain.TxPool.Queue.{Txs}

abbrev pub high_pressure_mark : ℕ
high_pressure_mark = 80

abbrev pub tx_slot_size : ℕ
tx_slot_size = 32 * 1024

pub record SlotGauge : Type 0 where
  pub height : ℕ
  pub max : ℕ

unfoldable pub increase : ℕ → SlotGauge → SlotGauge
increase slots g = record g { height = add64 g.height slots }

-- Adding ^(slots - 1) is how Go's atomic package subtracts.
unfoldable pub decrease : ℕ → SlotGauge → SlotGauge
decrease slots g = record g { height = add64 g.height (not64 (sub64 slots 1)) }

unfoldable pub high_pressure : SlotGauge → Bool
high_pressure g = ltb (((high_pressure_mark * g.max) % u64_mod) / 100) g.height

module _ (size : Transaction → ℕ) where
  -- The slots of one transaction.
  abbrev pub slots : Transaction → ℕ
  slots tx = sub64 (add64 (size tx) tx_slot_size) 1 / tx_slot_size

  slots_from : ℕ → Txs → ℕ
  slots_from acc [] = acc
  slots_from acc (tx ∷ txs) = slots_from (add64 acc (slots tx)) txs

  unfoldable pub slots_required : Txs → ℕ
  unfolding slots_from
  slots_required txs = slots_from 0 txs

  slots_from-total :
      (acc : ℕ) (txs : Txs) → acc < u64_mod → slots_from acc txs ≡ (acc + total slots txs) % u64_mod
  unfolding slots_from
  slots_from-total acc [] h = omega arith
  slots_from-total acc (tx ∷ txs) h =
      omega (arith, slots_from-total (add64 acc (slots tx)) txs (omega arith))

  -- The slots of some transactions are the sum of theirs, up to the wrap-around.
  pub slots_required-total : (txs : Txs) → slots_required txs ≡ total slots txs % u64_mod
  unfolding slots_required
  slots_required-total txs = omega (arith, slots_from-total 0 txs)

-- The gauge shows a number of slots.
abbrev pub Shows : SlotGauge → ℕ → Type 0
Shows g n = g.height ≡ n % u64_mod

-- increase adds slots to what the gauge shows.
pub increase-Shows :
    (g : SlotGauge) (n k m : ℕ) → k ≡ m % u64_mod → Shows g n → Shows (increase k g) (n + m)
unfolding increase
increase-Shows g n k m e h = omega arith

-- decrease takes slots away from what the gauge shows, no slots too.
pub decrease-Shows :
    (g : SlotGauge) (n k m : ℕ) → k ≡ m % u64_mod → Shows g (n + m) → Shows (decrease k g) n
unfolding decrease
decrease-Shows g n k m e h = omega arith
