-- ===== src/Ethreceipts.antt =====
-- Package ethreceipts: receipts, the filters that subscribers set, and the wait for finality.
pub mod Types
pub mod Filter
pub mod Receipt
pub mod Finalizer
pub mod Subscriber
pub mod Listener
mod Tests
