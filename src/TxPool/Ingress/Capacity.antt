-- ===== src/TxPool/Ingress/Capacity.antt =====
-- The overflow check of addTx, txpool/txpool.go, and where its uint64 subtraction wraps.
use go_plgchain.Base.{◌+◌, ◌≤◌, ◌<◌, ◌≡◌, ◌↔◌, true, false, arith}
use go_plgchain.Base.Word.{u64_mod}
use go_plgchain.Types.{Transaction}
use go_plgchain.TxPool.Gauge.{slots, slots_required}
use go_plgchain.TxPool.State.{Codec, TxPool}
use go_plgchain.TxPool.Ingress.{overflows}

module _ (codec : Codec) (p : TxPool) (tx : Transaction) where
  -- While the gauge is within its limit, a transaction overflows the pool exactly if the slots that
  -- the gauge shows and its own are more than the limit.
  pub overflows-exact :
      p.gauge.height ≤ p.gauge.max
      → p.gauge.max < u64_mod
      → (overflows codec p tx ≡ true) ↔ (p.gauge.max < p.gauge.height + slots codec.size tx)
  unfolding overflows slots_required
  overflows-exact h m = ground arith

  -- Once the gauge, below 2^64, is above its limit, the unsigned subtraction wraps: a transaction does
  -- not overflow the pool as long as the gauge and its slots are together at most 2^64 plus the limit.
  pub overflows-wraps :
      p.gauge.max < p.gauge.height
      → p.gauge.height < u64_mod
      → p.gauge.height + slots codec.size tx ≤ u64_mod + p.gauge.max
      → overflows codec p tx ≡ false
  unfolding overflows slots_required
  overflows-wraps h m s = ground arith
