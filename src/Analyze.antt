-- ===== src/Analyze.antt =====
-- packages/analyze/src: how one repository is classified.
pub mod Patterns
pub mod Rules
pub mod Llm
pub mod InstallMethods
pub mod Pipeline
mod Examples
