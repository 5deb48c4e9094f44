-- ===== src/Query.antt =====
-- query_obj.c.
pub mod Filled
pub mod Transport
pub mod Device
pub mod Table
pub mod Run
pub mod Args
