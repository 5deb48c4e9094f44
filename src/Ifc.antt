-- ===== src/Ifc.antt =====
-- The accessors of ifcutil.h: MLX5_GET, MLX5_SET, MLX5_GET64, MLX5_SET64, MLX5_ADDR_OF and the
-- size macros, over the layouts that mlx5_ifc.h declares as `struct mlx5_ifc_*_bits`. There a
-- field is a `u8` array with one element for each bit, so that `sizeof` counts bits and
-- `offsetof` is the bit position: here a layout lists the fields with their widths in bits.
pub mod Laws
pub mod Disjoint
pub mod Fields
use mlx5ctl.Base.{
  ℕ, ◌+◌, ◌-◌, ◌*◌, ◌/◌, ◌%◌, ◌^◌, ◌≤◌, bit_and, bit_or, max, String, List, [], ◌∷◌, if◌then◌else◌,
  str_eq,
}
use mlx5ctl.Memory.{read_be32, write_be32, read_be64, write_be64}

-- `struct mlx5_ifc_<typ>_bits`: field names with `sizeof` in declaration order. A nested struct is
-- one entry of its whole size, a flexible array one of size 0.
abbrev pub Layout : Type 0
Layout = List (String × ℕ)

-- What the macros read of `(typ, fld)`: `__mlx5_bit_off` and `__mlx5_bit_sz`.
pub record Field : Type 0 where
  pub bit_off : ℕ
  pub bit_sz : ℕ

-- The bits of `fld` in a struct, which starts `off` bits on. Every name that the program uses is
-- declared; for another the answer is an empty field at the end.
pub find_field : ℕ → Layout → String → Field
find_field off [] name = record { bit_off = off; bit_sz = 0 }
find_field off ((n, sz) ∷ rest) name =
    if str_eq n name then record { bit_off = off; bit_sz = sz } else find_field (off + sz) rest name

unfoldable pub fld : Layout → String → Field
unfolding find_field
fld typ name = find_field 0 typ name

-- `outer.inner`: a field of a nested struct. `typ.fld[i].inner` is the same with `i` entries passed.
abbrev pub sub_field : Field → Field → Field
sub_field outer inner = record { bit_off = outer.bit_off + inner.bit_off; bit_sz = inner.bit_sz }

-- `__mlx5_st_sz_bits`, MLX5_ST_SZ_BYTES and MLX5_ST_SZ_DW.
abbrev pub mlx5_st_sz_bits : Layout → ℕ
mlx5_st_sz_bits [] = 0
mlx5_st_sz_bits ((_, sz) ∷ rest) = sz + mlx5_st_sz_bits rest

abbrev pub mlx5_st_sz_bytes : Layout → ℕ
mlx5_st_sz_bytes typ = mlx5_st_sz_bits typ / 8

-- `sizeof` of a union of layouts, and MLX5_UN_SZ_BYTES.
abbrev pub mlx5_un_sz_bits : Layout → ℕ
mlx5_un_sz_bits [] = 0
mlx5_un_sz_bits ((_, sz) ∷ rest) = max sz (mlx5_un_sz_bits rest)

abbrev pub mlx5_un_sz_bytes : Layout → ℕ
mlx5_un_sz_bytes typ = mlx5_un_sz_bits typ / 8

-- `__mlx5_dw_off`, `__mlx5_dw_bit_off`, `__mlx5_mask`, `__mlx5_dw_mask` and `__mlx5_64_off`. The
-- subtraction is only right for a field inside one 32-bit word (`IsWord`).
abbrev pub dw_off : Field → ℕ
dw_off f = f.bit_off / 32

abbrev pub dw_bit_off : Field → ℕ
dw_bit_off f = 32 - f.bit_sz - bit_and f.bit_off 0x1f

abbrev pub mask : Field → ℕ
mask f = (2 ^ f.bit_sz - 1) % 2 ^ 32

abbrev pub dw_mask : Field → ℕ
dw_mask f = mask f * 2 ^ dw_bit_off f % 2 ^ 32

abbrev pub off_64 : Field → ℕ
off_64 f = f.bit_off / 64

-- MLX5_BYTE_OFF, MLX5_FLD_SZ_BYTES. MLX5_ADDR_OF(typ, p, fld) is `p + mlx5_byte_off f`.
abbrev pub mlx5_byte_off : Field → ℕ
mlx5_byte_off f = f.bit_off / 8

abbrev pub mlx5_fld_sz_bytes : Field → ℕ
mlx5_fld_sz_bytes f = f.bit_sz / 8

-- `~x` of a `u32`.
abbrev pub not32 : ℕ → ℕ
not32 x = 2 ^ 32 - 1 - x

-- MLX5_GET(typ, buf + p, fld).
unfoldable pub mlx5_get : List ℕ → ℕ → Field → ℕ
mlx5_get buf p f = bit_and (read_be32 buf (p + 4 * dw_off f) / 2 ^ dw_bit_off f) (mask f)

-- MLX5_SET(typ, buf + p, fld, v); `v` is first converted to `u32`.
unfoldable pub mlx5_set : List ℕ → ℕ → Field → ℕ → List ℕ
unfolding write_be32
mlx5_set buf p f v =
    let at = p + 4 * dw_off f in
    write_be32 buf at (
      bit_or (bit_and (read_be32 buf at) (not32 (dw_mask f)))
        (bit_and (v % 2 ^ 32) (mask f) * 2 ^ dw_bit_off f % 2 ^ 32))

-- MLX5_GET64(typ, buf + p, fld) and MLX5_SET64.
unfoldable pub mlx5_get64 : List ℕ → ℕ → Field → ℕ
mlx5_get64 buf p f = read_be64 buf (p + 8 * off_64 f)

unfoldable pub mlx5_set64 : List ℕ → ℕ → Field → ℕ → List ℕ
unfolding write_be64
mlx5_set64 buf p f v = write_be64 buf (p + 8 * off_64 f) (v % 2 ^ 64)

-- A run of MLX5_SET(typ, buf + p, name, value) statements, in order.
unfoldable pub set_fields : Layout → List ℕ → ℕ → List (String × ℕ) → List ℕ
unfolding mlx5_set
set_fields typ buf p [] = buf
set_fields typ buf p ((name, v) ∷ rest) = set_fields typ (mlx5_set buf p (fld typ name) v) p rest

-- The field lies inside one 32-bit word, which MLX5_GET and MLX5_SET need.
abbrev pub IsWord : Field → Type 0
IsWord f = f.bit_off % 32 + f.bit_sz ≤ 32

-- The word of the field lies inside the buffer.
abbrev pub Holds : ℕ → ℕ → Field → Type 0
Holds len p f = p + 4 * dw_off f + 4 ≤ len
