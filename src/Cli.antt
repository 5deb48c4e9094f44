-- ===== src/Cli.antt =====
-- mlx5ctlu.c: the choice of a command and the program's main function.
pub mod Select
pub mod Options
pub mod Main
