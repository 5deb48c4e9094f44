-- ===== src/Caps.antt =====
-- devcaps.c.
pub mod Types
pub mod Shown
pub mod Print
pub mod Table
pub mod Run
pub mod Args
