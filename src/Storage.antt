-- ===== src/Storage.antt =====
-- The storage layer, crates/storage/src.
pub mod Cache
