-- ===== src/Reg/Access.antt =====
-- mlx5_access_reg of reg.c: reads or writes an access register by the ACCESS_REG command.
pub mod Laws
use mlx5ctl.Base.{
  ℕ, zero, suc, ◌+◌, ◌==◌, if◌then◌else◌, String, Option, none, some, List, [], ◌∷◌, length, take,
  drop,
}
use mlx5ctl.Base.Int.{ℤ, neg, is_nonzero}
use mlx5ctl.Memory.{zeroed, splice, slice}
use mlx5ctl.Ifc.{fld, set_fields, mlx5_st_sz_bytes, mlx5_byte_off}
use mlx5ctl.Os.{Os, Block, M, ◌>>=◌, ◌>>◌, pure, malloc, free}
use mlx5ctl.Device.{mlx5u_cmd}
use mlx5ctl.Prm.Commands.{access_register_in, access_register_out}
use mlx5ctl.Prm.Opcodes.{cmd_op_access_reg}

abbrev pub enomem : ℕ
enomem = 12

-- The zeroed input buffer with the register data copied behind the command header.
abbrev pub register_input : List ℕ → List ℕ
register_input data_in =
    let raw = zeroed (mlx5_st_sz_bytes access_register_in + length data_in) in
    if length data_in == 0
    then raw
    else splice raw (mlx5_byte_off (fld access_register_in "register_data")) data_in

-- The C `!write`.
abbrev pub lnot : ℕ → ℕ
lnot zero = 1
lnot (suc n) = 0

abbrev pub header_sets : ℕ → ℕ → ℕ → List (String × ℕ)
header_sets reg_id arg write =
    ("opcode", cmd_op_access_reg)
    ∷ ("op_mod", lnot write)
    ∷ ("argument", arg)
    ∷ ("register_id", reg_id)
    ∷ []

-- The whole input of the command.
unfoldable pub access_request : List ℕ → ℕ → ℕ → ℕ → List ℕ
access_request data_in reg_id arg write =
    set_fields access_register_in (register_input data_in) 0 (header_sets reg_id arg write)

-- After the command: an error is passed on, and else the register data are copied to `data_out`.
abbrev pub copy_register : List ℕ → ℤ × List ℕ → ℤ × List ℕ
copy_register data_out (err, out) = if is_nonzero err then (err, data_out) else (
  err,
  splice data_out 0
      (slice out (mlx5_byte_off (fld access_register_out "register_data")) (length data_out)),
)

module _ (os : Os) where
  -- The part between the two `malloc` and the label `out`.
  unfoldable pub access_between : Option Block → Option Block → List ℕ → List ℕ → M (ℤ × List ℕ)
  access_between (some input) (some out) request data_out = do
    r ← mlx5u_cmd os request (zeroed (mlx5_st_sz_bytes access_register_out + length data_out))
    pure (copy_register data_out r)
  access_between (some input) none request data_out = pure (neg enomem, data_out)
  access_between none out request data_out = pure (neg enomem, data_out)

  -- `data_in` and `data_out` stand for the two buffers with their sizes; the result is the error and
  -- `data_out` after the call.
  unfoldable pub mlx5_access_reg : List ℕ → List ℕ → ℕ → ℕ → ℕ → M (ℤ × List ℕ)
  unfolding access_between
  mlx5_access_reg data_in data_out reg_id arg write = do
    input ← malloc os (mlx5_st_sz_bytes access_register_in + length data_in)
    out ← malloc os (mlx5_st_sz_bytes access_register_out + length data_out)
    r ← access_between input out (access_request data_in reg_id arg write) data_out
    free out
    free input
    pure r
