-- ===== src/Web.antt =====
-- apps/web/src/lib: what the portal computes without a DOM.
pub mod Spelling
pub mod Suggest
mod Examples
