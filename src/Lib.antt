-- ===== src/Lib.antt =====
-- A model of go-plgchain, the node of an Ethereum-compatible chain, with theorems about it. Paths
-- below are from the repository's root.
--
-- The transaction pool, txpool/, takes transactions from users and peers, sorts them per account by
-- nonce, and hands block building the best-priced ones.
--
-- - Types.antt: types/transaction.go, the transaction and its pure methods.
-- - Gas.antt: TransactionGasCost of state/executor.go.
-- - Heap.antt and below: Go's container/heap, which both queues of the pool run on: its loops up and
--   down with fuel j + 1 and length + 1, which the theorems on Push and Pop show to be enough.
-- - TxPool/Queue.antt: txpool/queue.go, accountQueue (peek, push, pop, prune, clear) and pricedQueue.
-- - TxPool/Account.antt: txpool/account.go, the account with enqueue, promote, reset and getLowestTx.
--   The loops of prune and promote take a transaction each round, so length + 1 rounds are enough.
-- - TxPool/Gauge.antt and TxPool/Lookup.antt: txpool/slot_gauge.go and txpool/lookup_map.go.
-- - TxPool/State.antt: the TxPool struct of txpool/txpool.go, its accounts map, signals and events.
-- - TxPool/Ingress.antt: validateTx, addTx, addGossipTx and the two request handlers.
-- - TxPool/Execution.antt: Prepare, Peek, Pop, Drop and Demote, which consensus calls.
-- - TxPool/Sync.antt: processEvent, resetAccounts, updateAccountSkipsCounts and
--   pruneAccountsWithNonceHoles.
-- - TxPool/Sound.antt, TxPool/Invariant.antt and below: the invariant and how each handler keeps it.
-- - TxPool/Steps.antt: any interleaving of the handlers, as a step relation, and what holds of every
--   pool that can be reached from the new one. TxPool/Tests.antt runs the pool on small inputs.
--
-- PLGBFT, consensus/plgbft, agrees on blocks by validators with voting power. The validator set changes
-- between epochs by deltas in the blocks' extra data, and bitmaps say who signed.
--
-- - Plgbft/Bitmap.antt: consensus/plgbft/bitmap/bitmap.go, sets of indices.
-- - Plgbft/AccountSet.antt: validators and sets of them, of validator_metadata.go.
-- - Plgbft/Delta.antt and below: createValidatorSetDelta of extra.go and ApplyDelta.
-- - Plgbft/Quorum.antt: validator_set.go, HasQuorum. Plgbft/Tests.antt runs these on small inputs.
--
-- - Merkle.antt and below: merkle-tree/merkle_tree.go, the trees that exits and commitments are proved
--   with. A tree is its levels, from the leaves up; building takes no more rounds than there are leaves.
--
-- The state, state/, is what a block's transactions do to the accounts.
--
-- - State/Account.antt and State/Txn.antt: state/state.go and state/txn.go, accounts over the last
--   committed trie with snapshots. The radix tree is an association list; it is persistent, so a
--   snapshot is the tree. The trie and the LRU cache of code are the parameter ReadSnapshot.
-- - State/Txn/Balances.antt, Wealth.antt, Reverts.antt and Book.antt: balances under each operation, their
--   sum, and the abstract book that all of them implement.
-- - State/Storage.antt: SetState, GetState and the net gas metering of SetStorage.
-- - State/AllowList.antt: state/runtime/allowlist/allowlist.go, a contract of the node's own.
-- - State/Transition.antt: state/executor.go, one call or creation. The virtual machine and the
--   precompiled contracts are the parameter runtime of Environment; IsRuntime says what is asked of
--   them, and the machine itself is modelled in State/Evm. A panic of RevertToSnapshot is `none`.
-- - State/Transition/Write.antt: Apply, Write, WriteFailedReceipt and ProcessBlock.
-- - State/Evm.antt and below: state/runtime/evm, the machine of state.go with its stack as a list of
--   numbers, the arithmetic of words (Words.antt), the instructions of instructions.go (Instructions,
--   Hosted and Calls.antt), dispatch_table.go and the loop (Table.antt). A run of another contract and
--   the block's context are the parameter Host; IsHost says what is asked of it. The loop runs on rounds,
--   of which gas + 1 are enough. A nil dereference, an index out of range or a want of rounds is `none`.
-- - State/Transition/Run.antt and its siblings, what these do; State/Tests.antt runs them.
--
-- Numbers of 64 bits are natural numbers with the wrap-around written out (Base/Word.antt). Addresses
-- and hashes are numbers, bytes in the Merkle tree. A nil dereference is `none`. Locks are not
-- modelled: a method runs whole; the request channels are lists whose requests are handled in any
-- order. What holds between handlers need not hold within one: the handlers of requests and of events
-- change the gauge and pending after they release an account's locks. The RLP encoding, signatures and
-- hashes come from other libraries and are the parameters of a Codec; the chain's state is the
-- parameter Store. A BLS key is a number, the same where reflect.DeepEqual finds the keys the same.
-- Transactions are assumed not to carry the last nonce of a uint64.
--
-- Not modelled: logging, gossip publishing, the gRPC operator and metrics of the pool; and the other
-- parts of the node (the rest of consensus, precompiled contracts, networking, storage, JSON-RPC, commands).
-- Of state/: WriteGenesis, Commit, SetAccountDirectly, SetCodeDirectly, the tracer and the bloom filters.
-- A value, an amount or a balance of math/big is never negative there, as after decoding.
pub mod Base
pub mod Heap
pub mod Types
pub mod Gas
pub mod TxPool
pub mod Plgbft
pub mod Merkle
pub mod State
