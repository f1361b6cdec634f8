-- ===== src/Util.antt =====
-- The helpers, util/.
pub mod Channel
mod Tests
