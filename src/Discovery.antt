-- ===== src/Discovery.antt =====
-- apps/workers/src/discovery: GitHub Search to the discovery collections.
pub mod Dates
pub mod Clock
pub mod Windows
pub mod Plan
pub mod Collections
pub mod Store
pub mod Sweep
pub mod Run
mod Examples
