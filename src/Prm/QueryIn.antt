-- ===== src/Prm/QueryIn.antt =====
-- Layouts from mlx5_ifc.h: the inputs of the query commands of query_obj.c.
pub mod Part1
pub mod Part2
