-- ===== src/Umem/Mkey.antt =====
-- The commands for protection domains and memory keys of mlx5lib.c.
pub mod Laws
use mlx5ctl.Base.{ℕ, ◌+◌, ◌*◌, ◌/◌, ◌%◌, ◌^◌, bit_and, bit_or, if◌then◌else◌, String, List, [], ◌∷◌}
use mlx5ctl.Base.Int.{ℤ, pos, is_nonzero}
use mlx5ctl.Memory.{zeroed}
use mlx5ctl.Ifc.{fld, sub_field, set_fields, mlx5_get, mlx5_set64, mlx5_st_sz_bytes, mlx5_byte_off}
use mlx5ctl.Os.{Os, M, ◌>>=◌, ◌>>◌, pure}
use mlx5ctl.Device.{mlx5u_cmd}
use mlx5ctl.Prm.Commands.{
  alloc_pd_in, alloc_pd_out, dealloc_pd_in, dealloc_pd_out, mkc, create_mkey_in, create_mkey_out,
  destroy_mkey_in, destroy_mkey_out,
}
use mlx5ctl.Prm.Opcodes.{
  cmd_op_alloc_pd, cmd_op_dealloc_pd, cmd_op_create_mkey, cmd_op_destroy_mkey,
}

-- `mkey >> 8`, `mkey_idx << 8` and `mkey & 0xff` on `u32`.
pub mlx5_mkey_to_idx : ℕ → ℕ
mlx5_mkey_to_idx mkey = mkey / 2 ^ 8

pub mlx5_idx_to_mkey : ℕ → ℕ
mlx5_idx_to_mkey mkey_idx = mkey_idx * 2 ^ 8 % 2 ^ 32

pub mlx5_mkey_variant : ℕ → ℕ
mlx5_mkey_variant mkey = bit_and mkey 0xff

-- The input of CREATE_MKEY.
abbrev pub mkey_entry : ℕ
mkey_entry = mlx5_byte_off (fld create_mkey_in "memory_key_mkey_entry")

abbrev pub mkc_sets : ℕ → List (String × ℕ)
mkc_sets pdn =
    ("access_mode_1_0", 0x1)
    ∷ ("umr_en", 0)
    ∷ ("pd", pdn)
    ∷ ("lr", 1)
    ∷ ("lw", 1)
    ∷ ("qpn", 0xffffff)
    ∷ []

pub create_mkey_request : ℕ → ℕ → ℕ → ℕ → List ℕ
create_mkey_request pdn umem_id addr len =
    let start =
      set_fields create_mkey_in (zeroed (mlx5_st_sz_bytes create_mkey_in)) 0
        (("opcode", cmd_op_create_mkey) ∷ []) in
    let entry = set_fields mkc start mkey_entry (mkc_sets pdn) in
    let placed = mlx5_set64 entry mkey_entry (fld mkc "start_addr") addr in
    let sized = mlx5_set64 placed mkey_entry (fld mkc "len") len in
    set_fields create_mkey_in sized 0 (("mkey_umem_valid", 1) ∷ ("mkey_umem_id", umem_id) ∷ [])

-- `*mkey` after a successful CREATE_MKEY.
pub new_mkey : List ℕ → List ℕ → ℕ
new_mkey input out =
    bit_or
      (mlx5_get input 0
        (sub_field (fld create_mkey_in "memory_key_mkey_entry") (fld mkc "mkey_7_0")))
      (mlx5_idx_to_mkey (mlx5_get out 0 (fld create_mkey_out "mkey_index")))

module _ (os : Os) where
  -- The error and `*pdn`, which an error leaves as it was.
  unfoldable pub mlx5lib_alloc_pd : ℕ → ℕ → M (ℤ × ℕ)
  mlx5lib_alloc_pd pdn uid = do
    (err, out) ←
        mlx5u_cmd os
          (set_fields alloc_pd_in (zeroed (mlx5_st_sz_bytes alloc_pd_in)) 0
            (("opcode", cmd_op_alloc_pd) ∷ ("uid", uid) ∷ []))
          (zeroed (mlx5_st_sz_bytes alloc_pd_out))
    pure (err, if is_nonzero err then pdn else mlx5_get out 0 (fld alloc_pd_out "pd"))

  unfoldable pub mlx5lib_dealloc_pd : ℕ → ℕ → M ℤ
  mlx5lib_dealloc_pd pdn uid = do
    (err, out) ←
        mlx5u_cmd os
          (set_fields dealloc_pd_in (zeroed (mlx5_st_sz_bytes dealloc_pd_in)) 0
            (("opcode", cmd_op_dealloc_pd) ∷ ("pd", pdn) ∷ ("uid", uid) ∷ []))
          (zeroed (mlx5_st_sz_bytes dealloc_pd_out))
    pure err

  -- The error and `*mkey`, which an error leaves as it was.
  unfoldable pub mlx5lib_create_umem_mkey : ℕ → ℕ → ℕ → ℕ → ℕ → M (ℤ × ℕ)
  mlx5lib_create_umem_mkey pdn umem_id addr len mkey = do
    (err, out) ←
        mlx5u_cmd os (create_mkey_request pdn umem_id addr len)
          (zeroed (mlx5_st_sz_bytes create_mkey_out))
    if is_nonzero err
        then pure (err, mkey)
        else pure (pos 0, new_mkey (create_mkey_request pdn umem_id addr len) out)

  unfoldable pub mlx5lib_destroy_mkey : ℕ → M (Unit {0})
  unfolding mlx5_mkey_to_idx
  mlx5lib_destroy_mkey mkey = do
    r ←
        mlx5u_cmd os
          (set_fields destroy_mkey_in (zeroed (mlx5_st_sz_bytes destroy_mkey_in)) 0
            (("opcode", cmd_op_destroy_mkey) ∷ ("mkey_index", mlx5_mkey_to_idx mkey) ∷ []))
          (zeroed (mlx5_st_sz_bytes destroy_mkey_out))
    pure tt
