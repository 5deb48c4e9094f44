-- ===== src/Reg/Dump.antt =====
-- mlx5_reg_dump of reg.c: reads an access register and prints it.
pub mod Laws
use mlx5ctl.Base.{ℕ, ◌%◌, ◌^◌, if◌then◌else◌, Option, none, some, List, [], ◌∷◌}
use mlx5ctl.Base.Int.{ℤ, pos, is_nonzero}
use mlx5ctl.Memory.{zeroed, slice}
use mlx5ctl.Ifc.{set_fields}
use mlx5ctl.Os.{Os, bytes_hex, bytes_raw, M, ◌>>=◌, ◌>>◌, pure, show}
use mlx5ctl.Prm.Registers.Part1.{local_port_reg}
use mlx5ctl.Reg.Table.{Pretty, document_size}
use mlx5ctl.Reg.Lookup.{get_reg_size, get_print_func_for_reg}
use mlx5ctl.Reg.Access.{mlx5_access_reg}
use mlx5ctl.Reg.Show.{print_fn}

-- `enum pr_format`.
pub data PrFormat : Type 0 where
  pr_hex pr_bin pr_pretty : PrFormat

-- The register data that are sent.
abbrev pub port_data : ℕ → List ℕ
port_data port = set_fields local_port_reg (zeroed document_size) 0 (("local_port", port) ∷ [])

-- The bytes of `out` that are printed for a register.
abbrev pub dumped : ℕ → List ℕ → List ℕ
dumped reg_id out = slice out 0 (get_reg_size reg_id)

-- `case PR_PRETTY` falls through to `case PR_HEX` without a print function.
abbrev pub show_pretty : Option Pretty → ℕ → List ℕ → M (Unit {0})
show_pretty (some f) reg_id out = print_fn f out
show_pretty none reg_id out = show (bytes_hex (dumped reg_id out))

-- The `switch (pr_format)`.
unfoldable pub show_reg : PrFormat → ℕ → List ℕ → M (Unit {0})
show_reg pr_pretty reg_id out = show_pretty (get_print_func_for_reg reg_id) reg_id out
show_reg pr_hex reg_id out = show (bytes_hex (dumped reg_id out))
show_reg pr_bin reg_id out = show (bytes_raw (dumped reg_id out))

module _ (os : Os) where
  -- The register id is passed on as a `u16`.
  unfoldable pub mlx5_reg_dump : PrFormat → ℕ → ℕ → ℕ → M ℤ
  unfolding show_reg
  mlx5_reg_dump pr_format reg_id port argument = do
    (err, out) ←
        mlx5_access_reg os (port_data port) (zeroed document_size) (reg_id % 2 ^ 16) argument 0
    if is_nonzero err then pure err else (do show_reg pr_format reg_id out; pure (pos 0))
