-- ===== src/Rscdump.antt =====
-- rscdump.c: the resource dump and the core dump.
pub mod Iter
pub mod Collect
pub mod Segments
pub mod Umem
pub mod Args
pub mod Run
