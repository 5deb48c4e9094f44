-- ===== src/Rscdump/Collect.antt =====
-- rscdump_collect of rscdump.c: the loop that collects a resource dump in the heap.
pub mod Chunk
pub mod Laws
pub mod Fuel
pub mod Protocol
pub mod Stream
pub mod Total
pub mod Live
use mlx5ctl.Base.{
  ℕ, zero, suc, ◌+◌, ◌*◌, ◌^◌, ◌==◌, ◌&&◌, ltb, if◌then◌else◌, Bool, Option, none, some, List, [],
  ◌∷◌, length,
}
use mlx5ctl.Base.Int.{ℤ, is_negative, is_nonzero}
use mlx5ctl.Memory.{zeroed, splice, slice}
use mlx5ctl.Ifc.{fld, set_fields, mlx5_st_sz_bytes, mlx5_byte_off}
use mlx5ctl.Os.{Os, Block, M, ◌>>=◌, ◌>>◌, pure, malloc, realloc}
use mlx5ctl.Prm.Dump.{resource_dump}
use mlx5ctl.Rscdump.Iter.{Iteration, dump_get, mlx5_rsc_dump_iter}

pub record Args : Type 0 where
  pub umem : ℕ
  pub type : ℕ
  pub index1 : ℕ
  pub index2 : ℕ
  pub vhca_id : ℕ

-- What a run comes to: the pointer returned with `*total`, a `memcpy` outside its two buffers, which
-- is undefined in C, or a device that still had more to dump when the fuel was spent.
pub data Collected : Type 0 where
  returned : Option Block → ℕ → Collected
  overran : Collected
  spent : Collected

-- The variables of the loop.
pub record Collecting : Type 0 where
  pub data_block : Block
  pub size : ℕ
  pub total : ℕ

abbrev pub inline_data : ℕ
inline_data = mlx5_byte_off (fld resource_dump "inline_data")

-- `*total + iter_size > size` on `int`: a size field from 2^31 on is negative there.
abbrev pub no_room : Collecting → ℕ → Bool
no_room s iter_size = ltb iter_size (2 ^ 31) && ltb s.size (s.total + iter_size)

-- `memcpy(data + *total, iter_data, iter_size); *total += iter_size`, where both ends lie inside
-- their buffers.
unfoldable pub store_chunk : Collecting → List ℕ → ℕ → Option Collecting
store_chunk s out iter_size =
    if ltb s.size (s.total + iter_size)
    then none
    else if ltb (length out) (inline_data + iter_size)
    then none
    else some record {
      data_block = record {
        addr = s.data_block.addr;
        bytes = splice s.data_block.bytes s.total (slice out inline_data iter_size);
      };
      size = s.size;
      total = s.total + iter_size;
    }

-- The request as it stands before the loop.
unfoldable pub dump_request : Args → List ℕ
dump_request args = set_fields resource_dump (zeroed (mlx5_st_sz_bytes resource_dump)) 0 (
    ("segment_type", args.type)
    ∷ ("index1", args.index1)
    ∷ ("index2", args.index2)
    ∷ ("vhca_id", args.vhca_id)
    ∷ ("inline_dump", 1)
    ∷ [])

-- The end of the body: what was stored, or not, and then the `while` test.
unfoldable pub after_store : (Collecting → M Collected) → ℤ → Option Collecting → M Collected
after_store next err none = pure overran
after_store next err (some s) =
    if is_nonzero err then next s else pure (returned (some s.data_block) s.total)

unfoldable pub after_room :
    (Collecting → M Collected) → Collecting → Iteration → Option Collecting → M Collected
unfolding after_store store_chunk
after_room next s r none = pure (returned (some s.data_block) s.total)
after_room next s r (some s1) =
    after_store next r.ret (store_chunk s1 r.out (dump_get r.out "size"))

module _ (os : Os) where
  -- The body between the register access and the `memcpy`: doubles the block when the new data have
  -- no room. `none` is a `realloc` that failed.
  unfoldable pub make_room : Collecting → ℕ → M (Option Collecting)
  make_room s iter_size =
      if no_room s iter_size
      then (do
        new_data ← realloc os s.data_block (s.size * 2)
        pure (elim new_data [
          | none ↦ none
          | some b ↦ some (record { data_block = b; size = s.size * 2; total = s.total })
        ]))
      else pure (some s)

  unfoldable pub collect_loop : ℕ → Collecting → List ℕ → List ℕ → M Collected
  unfolding make_room after_room
  collect_loop zero s input out = pure spent
  collect_loop (suc fuel) s input out = do
    r ← mlx5_rsc_dump_iter os input out
    if is_negative r.ret
        then pure (returned (if s.total == 0 then none else some s.data_block) s.total)
        else (do
          roomy ← make_room s (dump_get r.out "size")
          after_room (λ s2. collect_loop fuel s2 r.input r.out) s r roomy)

  unfoldable pub rscdump_collect : ℕ → Args → ℕ → M Collected
  unfolding collect_loop dump_request
  rscdump_collect fuel args total = do
    let size : ℕ = if total == 0 then 4069 else total
    block ← malloc os size
    elim block [
      | none ↦ pure (returned none total)
      | some b ↦
          collect_loop fuel (record { data_block = b; size = size; total = total })
            (dump_request args) (zeroed (mlx5_st_sz_bytes resource_dump))
    ]
