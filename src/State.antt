-- ===== src/State.antt =====
-- state/, what a block does to the accounts.
pub mod Account
pub mod Txn
pub mod Storage
pub mod AllowList
pub mod Transition
pub mod Evm
mod Tests
