-- ===== src/Rscdump/Umem.antt =====
-- rscdump_collect_umem of rscdump.c: the loop that collects a resource dump in a buffer that the device
-- writes.
pub mod Laws
use mlx5ctl.Base.{
  ℕ, zero, suc, ◌+◌, ◌-◌, ◌*◌, ◌^◌, ◌==◌, ◌||◌, ltb, leb, if◌then◌else◌, Bool, Option, none, some,
  List, [], ◌∷◌, length, take,
}
use mlx5ctl.Base.Int.{ℤ, is_negative, is_nonzero}
use mlx5ctl.Memory.{zeroed, splice}
use mlx5ctl.Ifc.{fld, set_fields, mlx5_set, mlx5_set64, mlx5_st_sz_bytes}
use mlx5ctl.Os.{Os, Block, Trace, bytes_hex, M, ◌>>=◌, ◌>>◌, pure, show, malloc}
use mlx5ctl.Umem.Buff.{UmemBuff}
use mlx5ctl.Prm.Dump.{resource_dump}
use mlx5ctl.Rscdump.Iter.{Iteration, dump_get, mlx5_rsc_dump_iter}
use mlx5ctl.Rscdump.Collect.{Args, Collected, returned, overran, spent}

-- What a buffer holds at some point of the run; the device writes it behind the program's back.
abbrev pub Dma : Type 0
Dma = Trace → Block → List ℕ

abbrev pub temp_size : ℕ
temp_size = 1024 * 1024

-- The request before the loop.
unfoldable pub umem_request : Args → UmemBuff → List ℕ
umem_request args u =
    let ids = set_fields resource_dump (zeroed (mlx5_st_sz_bytes resource_dump)) 0 (
      ("segment_type", args.type)
      ∷ ("index1", args.index1)
      ∷ ("index2", args.index2)
      ∷ ("vhca_id", args.vhca_id)
      ∷ ("inline_dump", 0)
      ∷ ("mkey", u.umem_mkey)
      ∷ []) in
    mlx5_set (mlx5_set64 ids 0 (fld resource_dump "address") u.buff.addr) 0
      (fld resource_dump "size") u.size

-- `if (iter_size < remain) remain -= iter_size`.
abbrev pub remaining : ℕ → ℕ → ℕ
remaining remain iter_size = if ltb iter_size remain then remain - iter_size else remain

-- The variables of the loop.
pub record Filling : Type 0 where
  pub temp_buffer : Block
  pub remain : ℕ
  pub total : ℕ

-- A size that is negative as an `int`, or a `memcpy` outside the buffer or `temp_buffer`.
abbrev pub outside : Filling → List ℕ → ℕ → Bool
outside s buff iter_size =
    leb (2 ^ 31) iter_size || (ltb (length buff) iter_size || ltb temp_size (s.total + iter_size))

abbrev pub filled : Filling → List ℕ → ℕ → Filling
filled s buff iter_size = record {
  temp_buffer = record {
    addr = s.temp_buffer.addr;
    bytes = splice s.temp_buffer.bytes s.total (take iter_size buff);
  };
  remain = remaining s.remain iter_size;
  total = s.total + iter_size;
}

-- The body behind the test of the error; `next` is the next round.
unfoldable pub fill_round : (Filling → M Collected) → Filling → ℤ → List ℕ → ℕ → M Collected
fill_round next s err buff iter_size = if outside s buff iter_size then pure overran else (do
  show (bytes_hex (take iter_size buff))
  let s1 : Filling = filled s buff iter_size
  if s1.remain == 0
      then pure (returned (some s1.temp_buffer) s1.total)
      else if is_nonzero err
      then next s1
      else pure (returned (some s1.temp_buffer) s1.total))

module _ (os : Os) (dma : Dma) where
  unfoldable pub fill_loop : ℕ → UmemBuff → Filling → List ℕ → List ℕ → M Collected
  unfolding fill_round
  fill_loop zero u s input out = pure spent
  fill_loop (suc fuel) u s input out = do
    r ← mlx5_rsc_dump_iter os input out
    if is_negative r.ret
        then pure (returned (if s.total == 0 then none else some s.temp_buffer) s.total)
        else (do
          buff ← λ t. (dma t u.buff, t)
          fill_round (λ s1. fill_loop fuel u s1 r.input r.out) s r.ret buff (dump_get r.out "size"))

  abbrev pub fill_temp : ℕ → Args → UmemBuff → Option Block → M Collected
  fill_temp fuel args u none = pure (returned none 0)
  fill_temp fuel args u (some b) =
      fill_loop fuel u (record { temp_buffer = b; remain = u.size; total = 0 })
        (umem_request args u) (zeroed (mlx5_st_sz_bytes resource_dump))

  unfoldable pub rscdump_collect_umem : ℕ → Args → UmemBuff → M Collected
  unfolding fill_loop umem_request
  rscdump_collect_umem fuel args u = do
    temp_buffer ← malloc os temp_size
    fill_temp fuel args u temp_buffer
