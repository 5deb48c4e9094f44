-- ===== src/Rscdump/Run.antt =====
-- mlx5_rsc_dump, mlx5_core_dump and do_rscdump of rscdump.c.
pub mod Laws
use mlx5ctl.Base.{
  ℕ, zero, suc, ◌*◌, ◌%◌, ◌^◌, ltb, leb, if◌then◌else◌, str_eq, String, Option, none, some, List,
  [], ◌∷◌, length, take,
}
use mlx5ctl.Base.Int.{ℤ, pos, negsuc, neg, is_nonzero, to_int, to_unsigned}
use mlx5ctl.Memory.{zeroed}
use mlx5ctl.Ifc.{fld, set_fields, mlx5_get, mlx5_get64, mlx5_set, mlx5_set64, mlx5_st_sz_bytes}
use mlx5ctl.Os.{Os, Block, number, bytes_hex, M, ◌>>=◌, ◌>>◌, pure, show, free}
use mlx5ctl.Prm.Dump.{core_dump_reg}
use mlx5ctl.Reg.Ids.{reg_core_dump}
use mlx5ctl.Reg.Access.{mlx5_access_reg}
use mlx5ctl.Umem.Mkey.{mlx5lib_alloc_pd, mlx5lib_dealloc_pd}
use mlx5ctl.Umem.Buff.{UmemBuff, UmemApi, mlx5lib_alloc_umem_mkey_buff, mlx5lib_free_umem_mkey_buff}
use mlx5ctl.Cli.Options.{Parsed, done, exits, crash}
use mlx5ctl.Cli.Select
use mlx5ctl.Cli.Select.{Ended, returned, exited, crashed}
use mlx5ctl.Rscdump.Collect.{Args, Collected, rscdump_collect}
use mlx5ctl.Rscdump.Segments.{Walk, ended, overflowed, unfinished, parse_resource_dump}
use mlx5ctl.Rscdump.Umem.{Dma, rscdump_collect_umem}
use mlx5ctl.Rscdump.Args.{DumpArgs, no_args, parse_args_from, default_type}

abbrev pub enomem : ℕ
enomem = 12

-- What becomes of a dump: it is there and its segments walked, there is none, memory outside a buffer
-- is used, or the fuel is spent.
pub data DumpRun : Type 0 where
  dumped : Walk → DumpRun
  no_dump : DumpRun
  outside : DumpRun
  out_of_fuel : DumpRun

-- MLX5_CORE_DUMP_REG_CORE_DUMP_TYPE_CR_DUMP_TO_MEM.
abbrev pub cr_dump_to_mem : ℕ
cr_dump_to_mem = 0x2

unfoldable pub core_dump_request : UmemBuff → List ℕ
core_dump_request u =
    let typed =
      set_fields core_dump_reg (zeroed (mlx5_st_sz_bytes core_dump_reg)) 0
        (("core_dump_type", cr_dump_to_mem) ∷ []) in
    set_fields core_dump_reg (mlx5_set64 typed 0 (fld core_dump_reg "address") u.buff.addr) 0
      (("size", u.size) ∷ ("mkey", u.umem_mkey) ∷ [])

-- The arguments as rscdump_collect takes them.
abbrev pub dump_args : DumpArgs → Args
dump_args a = record {
  umem = to_unsigned 32 a.umem;
  type = to_unsigned 32 (default_type a.type);
  index1 = a.index1;
  index2 = a.index2;
  vhca_id = to_unsigned 32 a.vhca_id;
}

-- `size_t umem_buff_size = args.umem * 1024`: a product of `int`, extended with its sign.
abbrev pub umem_size : ℤ → ℕ
umem_size umem = to_unsigned 64 (to_int (to_unsigned 32 umem * 1024 % 2 ^ 32))

-- What follows the dump.
abbrev pub finish : M Ended → DumpRun → M Ended
finish rest (dumped w) = rest
finish rest no_dump = rest
finish rest outside = pure crashed
finish rest out_of_fuel = pure Ended.unfinished

-- Behind the walk; one whose fuel is spent is still going on, and nothing follows it.
abbrev pub after_walk : M (Unit {0}) → Walk → M DumpRun
after_walk release ended = release >> pure (dumped ended)
after_walk release (overflowed p) = release >> pure (dumped (overflowed p))
after_walk release unfinished = pure out_of_fuel

module _ (os : Os) (fuel : ℕ) where
  -- The data in the heap are walked and freed.
  unfoldable pub parse_heap : Collected → M DumpRun
  parse_heap (Collected.returned none total) = pure no_dump
  parse_heap (Collected.returned (some b) total) = do
    walk ← parse_resource_dump fuel b.bytes total
    after_walk (free (some b)) walk
  parse_heap Collected.overran = pure outside
  parse_heap Collected.spent = pure out_of_fuel

  -- The data behind a buffer are walked, up to the size of that buffer.
  unfoldable pub parse_temp : UmemBuff → Collected → M DumpRun
  parse_temp u (Collected.returned none total) = pure no_dump
  parse_temp u (Collected.returned (some b) total) = do
    walk ← parse_resource_dump fuel b.bytes u.size
    after_walk (pure tt) walk
  parse_temp u Collected.overran = pure outside
  parse_temp u Collected.spent = pure out_of_fuel

  module _ (dma : Dma) where
    unfoldable pub mlx5_rsc_dump : Option UmemBuff → Args → M DumpRun
    unfolding parse_heap parse_temp
    mlx5_rsc_dump none args = do collected ← rscdump_collect os fuel args 0; parse_heap collected
    mlx5_rsc_dump (some u) args = do
      collected ← rscdump_collect_umem os dma fuel args u
      parse_temp u collected

    -- What is shown of a core dump, from a buffer with these bytes; hexdump takes the size as an `int`,
    -- and shows nothing when it is negative.
    abbrev pub show_core_dump : List ℕ → List ℕ → M DumpRun
    show_core_dump buff out = do
      let size : ℕ = mlx5_get out 0 (fld core_dump_reg "size")
      let hex_size : ℕ = if leb (2 ^ 31) size then 0 else size
      if ltb (length buff) hex_size then pure outside else (do
        show (bytes_hex (take hex_size buff))
        show (number "Core dump size" size)
        show (number "Core dump address" (mlx5_get64 out 0 (fld core_dump_reg "address")))
        show (number "Core dump cookie" (mlx5_get64 out 0 (fld core_dump_reg "cookie")))
        show (number "More Dump" (mlx5_get out 0 (fld core_dump_reg "more_dump")))
        pure no_dump)

    unfoldable pub mlx5_core_dump : Option UmemBuff → M DumpRun
    unfolding core_dump_request
    mlx5_core_dump none = pure no_dump
    mlx5_core_dump (some u) = do
      (err, out) ←
          mlx5_access_reg os (core_dump_request u) (zeroed (mlx5_st_sz_bytes core_dump_reg))
            reg_core_dump 0 0
      if is_nonzero err
          then pure no_dump
          else (do buff ← λ t. (dma t u.buff, t); show_core_dump buff out)

    -- The command by its name.
    unfoldable pub dump_cmd : String → Option UmemBuff → Args → M DumpRun
    unfolding mlx5_rsc_dump mlx5_core_dump
    dump_cmd cmd u args =
        if str_eq cmd "rscdump"
        then mlx5_rsc_dump u args
        else if str_eq cmd "coredump"
        then mlx5_core_dump u
        else pure no_dump

    module _ (api : UmemApi) where
      -- With the protection domain.
      unfoldable pub dump_in : String → Args → ℕ → Option UmemBuff → M Ended
      unfolding dump_cmd
      dump_in cmd args pdn none = mlx5lib_dealloc_pd os pdn 0 >> pure (returned (neg enomem))
      dump_in cmd args pdn (some u) =
          dump_cmd cmd (some u) args
          >>= finish (do
            mlx5lib_free_umem_mkey_buff os api u
            mlx5lib_dealloc_pd os pdn 0
            pure (returned (pos 0)))

      -- The branch for `args.umem`.
      unfoldable pub dump_umem : String → DumpArgs → M Ended
      unfolding dump_in
      dump_umem cmd a = do
        (err, pdn) ← mlx5lib_alloc_pd os 0 0
        if is_nonzero err then pure (returned err) else (do
          u ← mlx5lib_alloc_umem_mkey_buff os api (umem_size a.umem) pdn
          dump_in cmd (dump_args a) pdn u)

      abbrev pub show_args : DumpArgs → M (Unit {0})
      show_args a = do
        show (number "umem" (to_unsigned 32 a.umem))
        show (number "type" (dump_args a).type)
        show (number "index1" a.index1)
        show (number "index2" a.index2)
        show (number "vhca_id" (to_unsigned 32 a.vhca_id))

      unfoldable pub dump_parsed : String → Parsed DumpArgs → M Ended
      unfolding dump_umem dump_cmd
      dump_parsed cmd (done a) = do
        show_args a
        if is_nonzero a.umem
            then dump_umem cmd a
            else (dump_cmd cmd none (dump_args a) >>= finish (pure (returned (pos 0))))
      dump_parsed cmd (exits n) = pure (exited n)
      dump_parsed cmd crash = pure crashed

      -- `argv[0]` is the command's name.
      unfoldable pub do_rscdump : List String → M Ended
      unfolding dump_parsed parse_args_from
      do_rscdump [] = pure crashed
      do_rscdump (cmd ∷ args) = parse_args_from cmd args no_args >>= dump_parsed cmd
