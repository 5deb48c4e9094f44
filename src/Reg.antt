-- ===== src/Reg.antt =====
-- reg.c and reg.h: the access registers.
pub mod Ids
pub mod Table
pub mod Lookup
pub mod Access
pub mod Show
pub mod Dump
pub mod Args
