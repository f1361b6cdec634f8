-- ===== src/Ethmonitor.antt =====
-- The packages of the chain monitor, ethmonitor/.
pub mod Types
pub mod Block
pub mod Chain
pub mod Replay
pub mod Queue
pub mod Build
pub mod Logs
pub mod Publish
pub mod Fetch
pub mod Cycle
mod Tests
