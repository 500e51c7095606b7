-- ===== src/TxPool.antt =====
-- The transaction pool, txpool/. One child for each of its parts.
pub mod Queue
pub mod Account
pub mod Gauge
pub mod Lookup
pub mod State
pub mod Ingress
pub mod Execution
pub mod Sync
pub mod Sound
pub mod Invariant
pub mod Steps
mod Tests
