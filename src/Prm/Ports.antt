-- ===== src/Prm/Ports.antt =====
-- Layouts from mlx5_ifc.h: the union of the port registers.
pub mod Part1
pub mod Part2
pub mod Part3
