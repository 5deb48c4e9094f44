-- ===== src/Prm/Registers.antt =====
-- Layouts from mlx5_ifc.h: the registers of the table in reg.c.
pub mod Part1
pub mod Part2
pub mod Part3
pub mod Part4
pub mod Part5
pub mod Part6
pub mod Part7
