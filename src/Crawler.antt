-- ===== src/Crawler.antt =====
-- apps/workers/src/crawler: which repositories are fetched, how, and the record of a run.
pub mod Worklist
pub mod Skip
pub mod History
pub mod Queue
pub mod Fetch
pub mod Run
mod Examples
