-- ===== src/Cache.antt =====
-- packages/cache: the write model's keys and files.
pub mod Keys
pub mod Journal
