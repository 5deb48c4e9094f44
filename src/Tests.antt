-- ===== src/Tests.antt =====
-- The theorems applied to concrete inputs.
pub mod Sample
pub mod Accessors
pub mod Commands
pub mod Dump
pub mod Tool
