-- ===== src/Umem.antt =====
-- mlx5lib.c and mlx5lib.h: protection domains, memory keys and the buffers that the device writes.
pub mod Mkey
pub mod Buff
