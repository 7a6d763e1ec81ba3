-- ===== src/Storage.antt =====
-- services/preprocessor/internal/storage: the partial bars in Redis, and the sinks.
pub mod Adapter
pub mod Sinks
