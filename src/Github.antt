-- ===== src/Github.antt =====
-- packages/github: the clients of GitHub's API.
pub mod Item
pub mod Client
pub mod Shard
pub mod Quota
mod Examples
