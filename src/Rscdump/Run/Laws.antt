-- ===== src/Rscdump/Run/Laws.antt =====
-- What a dump leaves allocated, and --umem with the registration that is compiled.
use mlx5ctl.Base.{
  ℕ, ◌+◌, ◌≡◌, ap, refl, ◌⊎◌, inl, inr, arith, true, false, Bool-cases, String, none, some, List,
  [], ◌∷◌,
}
use mlx5ctl.Base.Int.{neg, is_nonzero}
use mlx5ctl.Memory.{zeroed}
use mlx5ctl.Ifc.{set_fields, mlx5_st_sz_bytes}
use mlx5ctl.Os.{Os, Block, Trace, free}
use mlx5ctl.Os.Live.{live, is_at, requests}
use mlx5ctl.Device.{mlx5u_cmd}
use mlx5ctl.Prm.Commands.{dealloc_pd_in}
use mlx5ctl.Prm.Opcodes.{cmd_op_dealloc_pd}
use mlx5ctl.Umem.Mkey.{mlx5lib_alloc_pd, mlx5lib_dealloc_pd}
use mlx5ctl.Umem.Buff.{mlx5u_umem}
use mlx5ctl.Umem.Buff.Laws.{alloc_umem_mkey_buff_fails, alloc_umem-Quiet}
use mlx5ctl.Cli.Select.{returned}
use mlx5ctl.Rscdump.Collect.{Args, Collected, rscdump_collect}
use mlx5ctl.Rscdump.Collect.Live.{Holds, rscdump_collect-Holds}
use mlx5ctl.Rscdump.Segments.{Walk, ended, overflowed, unfinished, parse_resource_dump}
use mlx5ctl.Rscdump.Segments.Live.{parse_resource_dump-live}
use mlx5ctl.Rscdump.Umem.{Dma}
use mlx5ctl.Rscdump.Args.{DumpArgs}
use mlx5ctl.Rscdump.Run.{
  enomem, DumpRun, dumped, no_dump, outside, out_of_fuel, umem_size, after_walk, parse_heap,
  mlx5_rsc_dump, dump_in, dump_umem,
}

-- After a dump that is walked, the blocks at an address are `base`.
abbrev pub Leaves : ℕ → ℕ → DumpRun × Trace → Type 0
Leaves a base (dumped w, t) = live a t ≡ base
Leaves a base (no_dump, t) = Unit {0}
Leaves a base (outside, t) = Unit {0}
Leaves a base (out_of_fuel, t) = Unit {0}

-- DEALLOC_PD of a domain.
abbrev pub dealloc_request : ℕ → List ℕ
dealloc_request pdn =
    set_fields dealloc_pd_in (zeroed (mlx5_st_sz_bytes dealloc_pd_in)) 0
      (("opcode", cmd_op_dealloc_pd) ∷ ("pd", pdn) ∷ ("uid", 0) ∷ [])

after_walk-Leaves :
    (a base : ℕ) (b : Block) (walk : Walk) (t : Trace)
    → live a t ≡ base + is_at a (some b.addr)
    → Leaves a base (after_walk (free (some b)) walk t)
after_walk-Leaves a base b ended t h = omega (arith, h)
after_walk-Leaves a base b (overflowed p) t h = omega (arith, h)
after_walk-Leaves a base b unfinished t h = tt

module _ (os : Os) (fuel : ℕ) where
  parse_heap-Leaves :
      (a base : ℕ) (c : Collected) (t : Trace)
      → Holds a base (c, t)
      → Leaves a base (parse_heap os fuel c t)
  unfolding parse_heap
  parse_heap-Leaves a base (Collected.returned none total) t h = tt
  parse_heap-Leaves a base (Collected.returned (some b) total) t h =
      let (walk, t1) = parse_resource_dump fuel b.bytes total t in
      after_walk-Leaves a base b walk t1
        (omega (arith, h, parse_resource_dump-live fuel b.bytes total a t))
  parse_heap-Leaves a base Collected.overran t h = tt
  parse_heap-Leaves a base Collected.spent t h = tt

  -- A dump without user memory whose data mlx5_rsc_dump walks to an end leaves as many blocks
  -- allocated at every address as before, whatever the device and the memory do.
  pub rsc_dump-Leaves :
      (dma : Dma) (args : Args) (a : ℕ) (t : Trace)
      → Leaves a (live a t) (mlx5_rsc_dump os fuel dma none args t)
  unfolding mlx5_rsc_dump
  rsc_dump-Leaves dma args a t =
      let (c, t1) = rscdump_collect os fuel args 0 t in
      parse_heap-Leaves a (live a t) c t1 (rscdump_collect-Holds os fuel args a 0 t)

module _ (os : Os) where
  module _ (fuel : ℕ) (dma : Dma) (cmd : String) (x : DumpArgs) where
    -- How the branch for --umem ends: the error of the allocation of a protection domain, or -ENOMEM
    -- with the domain given back as the only command after that, and in both cases no memory left.
    abbrev pub Unavailable : Trace → Type 0
    Unavailable t =
        let ((err, pdn), t1) = mlx5lib_alloc_pd os 0 0 t in
        let (r, t2) = dump_umem os fuel dma mlx5u_umem cmd x t in
        ((is_nonzero err ≡ true) × (r ≡ returned err) × (t2 ≡ t1))
        ⊎ ((is_nonzero err ≡ false)
            × (r ≡ returned (neg enomem))
            × (requests t2 ≡ dealloc_request pdn ∷ requests t1)
            × ((a : ℕ) → live a t2 ≡ live a t1))

    -- With the registration that mlx5ctl_misc.c compiles, a dump with --umem fails: it returns
    -- the error of the allocation of the protection domain with nothing else done, or -ENOMEM,
    -- with the deallocation of that domain as the only other command and no block left.
    pub dump_umem-Unavailable : (t : Trace) → Unavailable t
    unfolding dump_umem dump_in mlx5lib_dealloc_pd mlx5u_cmd
    dump_umem-Unavailable t =
        let ((err, pdn), t1) = mlx5lib_alloc_pd os 0 0 t in
        let size : ℕ = umem_size x.umem in
        let none_there = alloc_umem_mkey_buff_fails os size pdn t1 in
        let (lives, sent) = alloc_umem-Quiet os size pdn t1 in
        elim (Bool-cases (is_nonzero err)) [
          | inl failed ↦ inl (failed, rw failed refl, rw failed refl)
          | inr fine ↦ inr (
            fine,
            rw (fine, none_there) refl,
            rw (fine, none_there) (ap (λ r. dealloc_request pdn ∷ r) sent),
            rw (fine, none_there) lives,
          )
        ]
