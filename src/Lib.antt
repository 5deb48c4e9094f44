-- ===== src/Lib.antt =====
-- mlx5ctl, a command line tool for the firmware of mlx5 devices: it builds firmware commands in
-- byte buffers, sends them through the fwctl character device, and prints the answers.
--
-- Memory models a C buffer as a list of bytes, and Ifc the accessor macros of ifcutil.h
-- (MLX5_GET, MLX5_SET, MLX5_GET64, MLX5_SET64, MLX5_ADDR_OF and the sizes). A layout of mlx5_ifc.h is a
-- list of field names with their widths in bits; Prm holds the layouts and opcodes that the program
-- uses. Os is what the program asks of the C library and of the kernel: malloc, memalign, realloc,
-- free, the FWCTL_RPC ioctl and output. These are not part of the repository; they are the parameter
-- `os`, which may answer anything and may look at all calls made before. A run is a function on the
-- trace of those calls. Os.Live counts in a trace the blocks allocated and not freed.
-- Parameters too are what sysfs, glob, readlink and open answer (Sysfs in Device.Find), the info ioctl
-- (InfoApi in Device.Info), the options that getopt_long finds (Getopt in Cli.Options), and what a
-- device writes to a registered buffer (Dma in Rscdump.Umem). Cstring has the functions of the C
-- library on strings that the program relies on (atoi, strtoul, sscanf of a word), as documented.
--
-- The program's parts, and the file that models each:
-- mlx5ctl_misc.c: Device (mlx5u_cmd), Device.Find (the scan for devices, find_dev, mlx5u_lsdevs,
--   mlx5u_open, mlx5u_close), Device.Info (mlx5u_devinfo), and in Umem.Buff mlx5u_umem_reg as
--   compiled, which always fails.
-- reg.c: Reg.Ids and Reg.Table (the register table), Reg.Lookup (reg2str, get_reg_size,
--   get_reg_id_from_str), Reg.Access (mlx5_access_reg, with which the tool reads and writes
--   registers), Reg.Show (the pretty print functions), Reg.Dump (mlx5_reg_dump), Reg.Args (parse_args
--   and do_reg).
-- mlx5lib.c, mlx5lib.h: Umem.Mkey (protection domains and memory keys) and Umem.Buff (buffers that
--   the device writes), both by mlx5u_cmd.
-- rscdump.c: Rscdump.Iter (one access of the RESOURCE_DUMP register, by mlx5_access_reg),
--   Rscdump.Collect (rscdump_collect, the loop over it; its child Protocol says what a dump is by the
--   protocol of the register), Rscdump.Umem (rscdump_collect_umem), Rscdump.Segments
--   (parse_resource_dump), Rscdump.Args (the arguments) and Rscdump.Run (mlx5_rsc_dump,
--   mlx5_core_dump, do_rscdump).
-- query_obj.c: Query.Transport, Query.Device and Query.Table (the QUERY_FUNC functions and their
--   table), Query.Run (query_obj) and Query.Args (its arguments).
-- devcaps.c: Caps.Types, Caps.Shown, Caps.Print and Caps.Table (the capabilities and the fields
--   printed of each), Caps.Run (query_caps, do_devcap) and Caps.Args (its arguments).
-- diag_cnt.c: Diag.Cap (the capability query), Diag.Params (the parameters set and queried),
--   Diag.Counters (the samples), Diag.Flags (parse_flags) and Diag.Commands (the commands of diagcnt).
-- mlx5ctlu.c: Cli.Select (cmd_select), Cli.Options (the loop of the option parsers) and Cli.Main (the
--   table of commands, which ties all the parts together, do_sleep and main).
-- Print has the print macros that these share, Print.Hex the function hexdump of ifcutil.h, and Tests
-- runs the theorems on a sample machine.
--
-- Numbers are unbounded, with the wrap-around of the source written out. Two `int` sums of
-- rscdump_collect, the total and the size of the block, are not cut: they would pass 2^31 only after
-- more than ten million calls. A copy outside its buffers, which is undefined in C, is a result of
-- its own there. Elsewhere a read outside a buffer gives 0 and a write is dropped. A command ends in
-- one of four ways: it returns, it exits, it reads a null pointer or overruns a buffer, or its fuel
-- is spent.
-- Three loops take fuel: rscdump_collect and rscdump_collect_umem go on as long as the device says that
-- there is more, and parse_resource_dump goes on to the next segment. A run whose fuel is spent has not
-- ended, so it frees nothing and returns nothing. One more than the replies of the device is enough for
-- rscdump_collect, and the number of bytes for the walk, when the segments have lengths. `sleep`
-- commands nest, and the number of arguments is depth enough.
--
-- Not modelled: messages on stderr, debug messages and INFO lines (those of the core dump are kept),
-- the wait of `sleep`, the floating-point sample period of diagcnt, the closing of file descriptors,
-- the list that the scan for devices allocates (which is freed on every path), and the structs of
-- mlx5_ifc.h that no code of the program names.
pub mod Base
pub mod Cstring
pub mod Memory
pub mod Ifc
pub mod Prm
pub mod Os
pub mod Device
pub mod Reg
pub mod Umem
pub mod Print
pub mod Rscdump
pub mod Query
pub mod Caps
pub mod Diag
pub mod Cli
pub mod Tests
