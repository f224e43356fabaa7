-- ===== src/Bridge/Tests.antt =====
-- Runs of the bridge on concrete messages and files.
pub mod Sample
mod Classes
mod Publishing
mod Matching
