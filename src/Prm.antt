-- ===== src/Prm.antt =====
-- The layouts of mlx5_ifc.h, and those of ifcutil.h, diag_cnt.c and reg.c, that the program uses: each
-- `struct mlx5_ifc_<name>_bits` field by field, in order.
pub mod Commands
pub mod Dump
pub mod Diag
pub mod Registers
pub mod QueryIn
pub mod QueryOut
pub mod Caps
pub mod Ports
pub mod Opcodes
