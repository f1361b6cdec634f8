-- ===== src/Ethcoder.antt =====
-- The coder package, ethcoder/.
pub mod Bytes
pub mod Text
pub mod AbiSig
pub mod Merkle
pub mod Pack
mod Tests
