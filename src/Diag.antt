-- ===== src/Diag.antt =====
-- diag_cnt.c: the diagnostic counters.
pub mod Cap
pub mod Params
pub mod Counters
pub mod Flags
pub mod Commands
