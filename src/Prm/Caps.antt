-- ===== src/Prm/Caps.antt =====
-- Layouts from mlx5_ifc.h: the capabilities.
pub mod Part1
pub mod Part2
pub mod Part3
pub mod Part4
pub mod Part5
