-- ===== src/Sync.antt =====
-- src/sync: locks between CPUs.
pub mod Spinlock
mod Tests
