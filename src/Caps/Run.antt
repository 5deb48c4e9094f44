-- ===== src/Caps/Run.antt =====
-- get_cap_type, get_cap_print, query_caps and do_devcap of devcaps.c.
pub mod Laws
use mlx5ctl.Base.{
  ℕ, ◌+◌, ◌*◌, ◌%◌, ◌^◌, ◌==◌, bit_and, bit_or, if◌then◌else◌, str_eq, not, ◌||◌, String, Bool,
  Option, none, some, List, [], ◌∷◌, drop,
}
use mlx5ctl.Base.Int.{ℤ, is_nonzero}
use mlx5ctl.Memory.{zeroed, slice}
use mlx5ctl.Ifc.{fld, set_fields, mlx5_st_sz_bytes, mlx5_byte_off}
use mlx5ctl.Os.{
  Os, Block, text, number, bytes_hex, bytes_raw, M, ◌>>=◌, ◌>>◌, pure, show, malloc, free,
}
use mlx5ctl.Device.{mlx5u_cmd, status_of}
use mlx5ctl.Prm.Opcodes.{cmd_op_query_hca_cap}
use mlx5ctl.Prm.Caps.Part1.{cmd_hca_cap}
use mlx5ctl.Prm.Commands.{query_hca_cap_in}
use mlx5ctl.Prm.Caps.Part5.{query_hca_cap_out}
use mlx5ctl.Caps.Shown.{Printcap}
use mlx5ctl.Caps.Table.{CapInfo, caps}

-- `none` is the -1 of the source.
pub find_cap_type : List CapInfo → String → Option ℕ
find_cap_type [] name = none
find_cap_type (c ∷ rest) name = if str_eq c.name name then some c.type else find_cap_type rest name

unfoldable pub get_cap_type : String → Option ℕ
unfolding find_cap_type caps
get_cap_type name = find_cap_type caps name

pub find_cap_print : List CapInfo → ℕ → Option Printcap
find_cap_print [] cap_type = none
find_cap_print (c ∷ rest) cap_type =
    if c.type == cap_type then c.print else find_cap_print rest cap_type

unfoldable pub get_cap_print : ℕ → Option Printcap
unfolding find_cap_print caps
get_cap_print cap_type = find_cap_print caps cap_type

-- `u16 op_mod = (cap_type << 1) | (cap_mode & 0x01)`.
abbrev pub cap_op_mod : ℕ → ℕ → ℕ
cap_op_mod cap_type cap_mode = bit_or (cap_type * 2) (bit_and cap_mode 0x01) % 2 ^ 16

pub data PrFormat : Type 0 where
  pr_hex pr_bin pr_pretty : PrFormat

-- The pointer that query_caps returns for an output buffer: the capability, or NULL after an error.
abbrev pub cap_of : ℤ × List ℕ → Option (List ℕ)
cap_of (err, out) =
    if is_nonzero err || not (status_of out == 0)
    then none
    else some (drop (mlx5_byte_off (fld query_hca_cap_out "capability")) out)

unfoldable pub cap_request : ℕ → List ℕ
cap_request opmod =
    set_fields query_hca_cap_in (zeroed (mlx5_st_sz_bytes query_hca_cap_in)) 0
      (("opcode", cmd_op_query_hca_cap) ∷ ("op_mod", opmod) ∷ [])

abbrev show_cap_hex : List ℕ → M (Unit {0})
show_cap_hex cap = show (bytes_hex (slice cap 0 (mlx5_st_sz_bytes cmd_hca_cap)))

-- The `switch (pr_format)`.
abbrev print_cap : PrFormat → Option Printcap → List ℕ → M (Unit {0})
print_cap pr_pretty (some print) cap = print cap
print_cap pr_pretty none cap = show_cap_hex cap
print_cap pr_hex print cap = show_cap_hex cap
print_cap pr_bin print cap = show (bytes_raw (slice cap 0 (mlx5_st_sz_bytes cmd_hca_cap)))

-- A capability with its heading; nothing for NULL.
abbrev print_one : CapInfo → Printcap → ℕ → Option (List ℕ) → M (Unit {0})
print_one c print cap_mode none = pure tt
print_one c print cap_mode (some bytes) = do
  show (text c.name)
  show (number (if cap_mode == 0 then "max" else "cur") c.type)
  print bytes

module _ (os : Os) where
  -- The capability, or `none` for NULL, and the output buffer after the call.
  pub query_caps : ℕ → List ℕ → M (Option (List ℕ) × List ℕ)
  unfolding cap_request
  query_caps opmod out = do r ← mlx5u_cmd os (cap_request opmod) out; pure (cap_of r, r.1)

  -- The branch for a type given with --type; `out` is not freed here.
  pub devcap_of : ℕ → ℕ → PrFormat → List ℕ → M ℕ
  unfolding query_caps get_cap_print
  devcap_of cap_type cap_mode pr_format out = do
    (cap, _) ← query_caps (cap_op_mod cap_type cap_mode) out
    elim cap [
      | none ↦ pure 1
      | some c ↦ (do print_cap pr_format (get_cap_print cap_type) c; pure 0)
    ]

  -- The body of the loop over all capabilities: the output buffer after it.
  print_step : CapInfo → Option Printcap → ℕ → List ℕ → M (List ℕ)
  unfolding query_caps
  print_step c none cap_mode out = pure out
  print_step c (some print) cap_mode out = do
    (cap, out') ← query_caps (cap_op_mod c.type cap_mode) out
    print_one c print cap_mode cap
    pure out'

  -- The loop. The buffer keeps what each call left.
  print_all : List CapInfo → ℕ → List ℕ → M (Unit {0})
  unfolding print_step
  print_all [] cap_mode out = pure tt
  print_all (c ∷ rest) cap_mode out = do
    out' ← print_step c c.print cap_mode out
    print_all rest cap_mode out'

  -- Behind the parsing of the arguments; a type is not negative.
  unfoldable pub devcap_in : Option ℕ → ℕ → PrFormat → Block → M ℕ
  unfolding devcap_of print_all caps
  devcap_in (some type) cap_mode pr_format out =
      devcap_of type cap_mode pr_format (zeroed (mlx5_st_sz_bytes query_hca_cap_out))
  devcap_in none cap_mode pr_format out = do
    print_all caps cap_mode (zeroed (mlx5_st_sz_bytes query_hca_cap_out))
    free (some out)
    pure 0

  -- With the arguments parsed.
  unfoldable pub do_devcap : Option ℕ → ℕ → PrFormat → M ℕ
  unfolding devcap_in
  do_devcap cap_type cap_mode pr_format = do
    block ← malloc os (mlx5_st_sz_bytes query_hca_cap_out)
    elim block [ none ↦ pure 12 | some out ↦ devcap_in cap_type cap_mode pr_format out ]
