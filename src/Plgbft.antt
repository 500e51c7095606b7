-- ===== src/Plgbft.antt =====
-- consensus/plgbft: the validators of the PLGBFT consensus.
pub mod Bitmap
pub mod AccountSet
pub mod Delta
pub mod Quorum
mod Tests
