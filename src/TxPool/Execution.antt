-- ===== src/TxPool/Execution.antt =====
-- txpool/txpool.go: what block building does with the pool, Prepare, Peek, Pop, Drop and Demote.
pub mod Best
use go_plgchain.Base.{
  ℕ, ◌+◌, List, [], ◌∷◌, ◌++◌, Bool, Option, none, some, length, leb, if◌then◌else◌,
}
use go_plgchain.Base.Dict.{lookup, insert}
use go_plgchain.Types.{Transaction}
use go_plgchain.TxPool.Queue.{Txs, peek, pop, push_priced, pop_priced}
use go_plgchain.TxPool.Account.{Account, reset_demotions, increment_demotions}
use go_plgchain.TxPool.Gauge.{decrease, slots_required}
use go_plgchain.TxPool.Lookup
use go_plgchain.TxPool.State.{
  Codec, TxPool, dropped, demoted, get, store_account, change_account, get_primaries, sub_pending,
  signal_event,
}

abbrev pub max_account_demotions : ℕ
max_account_demotions = 10

unfoldable pub push_all : Txs → Txs → Txs
unfolding push_priced
push_all q [] = q
push_all q (tx ∷ txs) = push_all (push_priced q tx) txs

-- Prepare: last round's executables are cleared, and every primary is pushed.
unfoldable pub prepare : TxPool → TxPool
unfolding push_all get_primaries
prepare p = record p { executables = push_all [] (get_primaries p) }

-- Peek pops the executables, and no transaction of the pool.
unfoldable pub peek_executable : TxPool → TxPool × Option Transaction
unfolding pop_priced
peek_executable p = elim (pop_priced p.executables) [
  | none ↦ (p, none)
  | some (tx, rest) ↦ (record p { executables = rest }, some tx)
]

-- accountQueue.pop: an empty queue stays empty.
abbrev pub pop_head : Txs → Txs
pop_head q = elim (pop q) [ none ↦ q | some (tx, rest) ↦ rest ]

unfoldable pub push_next : Option Transaction → Txs → Txs
unfolding push_priced
push_next none q = q
push_next (some tx) q = push_priced q tx

module _ (codec : Codec) where
  unfoldable pub pop_end : TxPool → Transaction → Account → TxPool
  unfolding decrease slots_required insert push_next pop
  pop_end p tx a =
      let b = reset_demotions (record a { promoted = pop_head a.promoted }) in
      sub_pending 1 (record (store_account tx.from b p) {
        gauge = decrease (slots_required codec.size (tx ∷ [])) p.gauge;
        executables = push_next (peek b.promoted) p.executables;
      })

  -- Pop. A transaction of no account would be a nil dereference: `none`.
  unfoldable pub pop_tx : TxPool → Transaction → Option TxPool
  unfolding pop_end lookup
  pop_tx p tx = elim (get p tx.from) [ none ↦ none | some a ↦ some (pop_end p tx a) ]

  -- Drop of the account that was found: both queues are cleared and the nonce is rolled back.
  unfoldable pub drop_end : TxPool → Transaction → Account → TxPool
  unfolding Lookup.remove decrease slots_required insert
  drop_end p tx a =
      let b = record a { enqueued = []; promoted = []; next_nonce = tx.nonce } in
      let gauge = decrease (slots_required codec.size a.promoted) p.gauge in
      signal_event dropped (tx.hash ∷ []) (
        sub_pending (length a.promoted) (record (store_account tx.from b p) {
          index = Lookup.remove a.enqueued (Lookup.remove a.promoted p.index);
          gauge = decrease (slots_required codec.size a.enqueued) gauge;
        }))

  unfoldable pub drop_tx : TxPool → Transaction → Option TxPool
  unfolding drop_end lookup
  drop_tx p tx = elim (get p tx.from) [ none ↦ none | some a ↦ some (drop_end p tx a) ]

  -- The account is a pointer: its demotions are reset after Drop changed it.
  unfoldable pub demote_end : TxPool → Transaction → Account → TxPool
  unfolding drop_end change_account
  demote_end p tx a =
      if leb max_account_demotions a.demotions
      then change_account reset_demotions tx.from (drop_end p tx a)
      else signal_event demoted (tx.hash ∷ []) (store_account tx.from (increment_demotions a) p)

  unfoldable pub demote : TxPool → Transaction → Option TxPool
  unfolding demote_end lookup
  demote p tx = elim (get p tx.from) [ none ↦ none | some a ↦ some (demote_end p tx a) ]
