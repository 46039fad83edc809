-- ===== src/Core.antt =====
-- packages/core: the types that the workers share, the vocabulary, and the algebra of reads.
pub mod Events
pub mod Taxonomy
pub mod Read
pub mod Schema
mod Examples
