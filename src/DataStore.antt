-- ===== src/DataStore.antt =====
-- apps/workers/src/lib: the persistence port and its in-memory implementation.
pub mod Values
pub mod Port
pub mod Memory
pub mod Files
mod Examples
