-- ===== src/Caps/Args.antt =====
-- The arguments of the `cap` command: parse_args of devcaps.c, and do_devcap from its arguments on.
use mlx5ctl.Base.{
  ℕ, ◌%◌, ◌^◌, ◌==◌, if◌then◌else◌, str_eq, String, Option, none, some, List, [], ◌∷◌,
}
use mlx5ctl.Base.Int.{ℤ, pos, negsuc, to_int}
use mlx5ctl.Cstring.{codes, strtoul}
use mlx5ctl.Ifc.{mlx5_st_sz_bytes}
use mlx5ctl.Os.{Os, Block, number, text, M, ◌>>=◌, ◌>>◌, pure, show, malloc}
use mlx5ctl.Prm.Caps.Part5.{query_hca_cap_out}
use mlx5ctl.Cli.Options.{
  LongOption, Getopt, Parsed, done, exits, crash, with_arg, parse_loop, required_argument,
  optional_argument, no_argument,
}
use mlx5ctl.Cli.Select.{Ended, returned, exited, crashed}
use mlx5ctl.Caps.Table.{CapInfo, caps}
use mlx5ctl.Caps.Run.{PrFormat, pr_hex, pr_bin, pr_pretty, get_cap_type, devcap_in}

-- HCA_CAP_OPMOD_GET_MAX and HCA_CAP_OPMOD_GET_CUR.
abbrev pub opmod_get_max : ℕ
opmod_get_max = 0

abbrev pub opmod_get_cur : ℕ
opmod_get_cur = 1

-- The static variables of the file.
pub record CapArgs : Type 0 where
  pub cap_type : ℤ
  pub cap_mode : ℕ
  pub pr_format : PrFormat

abbrev pub initial : CapArgs
initial = record { cap_type = negsuc 0; cap_mode = opmod_get_cur; pr_format = pr_hex }

abbrev pub long_options : List LongOption
long_options =
    record { name = "id"; has_arg = required_argument; val = b'i' }
    ∷ record { name = "mode"; has_arg = optional_argument; val = b'm' }
    ∷ record { name = "bin"; has_arg = no_argument; val = b'B' }
    ∷ record { name = "hex"; has_arg = no_argument; val = b'H' }
    ∷ record { name = "pretty"; has_arg = no_argument; val = b'P' }
    ∷ record { name = "help"; has_arg = no_argument; val = b'h' }
    ∷ []

-- The loop of print_cap_types.
unfoldable pub print_cap_types : List CapInfo → M (Unit {0})
print_cap_types [] = pure tt
print_cap_types (c ∷ rest) = do show (number c.name c.type); print_cap_types rest

unfoldable pub help : M (Unit {0})
unfolding print_cap_types caps
help = do
  show (text "mlx5ctl <device> cap --id=<cap_type> --mode=[cur|max] -[B|H|P]")
  show (text "Query device capabilities, outputs PRM struct of the specific cap type")
  show (text "--id=<cap_type> - cap type id or name")
  show (text "--mode=[cur|max] - cap mode")
  show (text "-B - binary output")
  show (text "-H - hex output")
  show (text "-P - pretty output")
  show (text "-h - help")
  show (text "Supported cap types:")
  print_cap_types caps

abbrev pub type_or : Option ℕ → String → ℤ
type_or (some type) s = pos type
type_or none s = to_int (strtoul (codes s) % 2 ^ 32)

abbrev pub read_type : String → ℤ
read_type s = type_or (get_cap_type s) s

-- `case 'm'`.
unfoldable pub set_mode : Option String → CapArgs → M (Parsed CapArgs)
unfolding help
set_mode none a = pure crash
set_mode (some s) a =
    if str_eq s "max"
    then pure (done (record a { cap_mode = opmod_get_max }))
    else if str_eq s "cur"
    then pure (done (record a { cap_mode = opmod_get_cur }))
    else help >> pure (exits 1)

-- The `switch (c)`.
unfoldable pub apply_opt : ℕ → Option String → CapArgs → M (Parsed CapArgs)
unfolding set_mode
apply_opt c optarg a =
    if c == b'i'
    then with_arg (λ s. done (record a { cap_type = read_type s })) optarg
    else if c == b'm'
    then set_mode optarg a
    else if c == b'B'
    then pure (done (record a { pr_format = pr_bin }))
    else if c == b'H'
    then pure (done (record a { pr_format = pr_hex }))
    else if c == b'P'
    then pure (done (record a { pr_format = pr_pretty }))
    else if c == b'h'
    then help >> pure (exits 0)
    else pure (exits 1)

-- `cap_type >= 0`.
abbrev pub given_type : ℤ → Option ℕ
given_type (pos n) = some n
given_type (negsuc n) = none

module _ (getopt_long : Getopt) where
  unfoldable pub parse_args : List String → M (Parsed CapArgs)
  unfolding apply_opt
  parse_args argv = parse_loop apply_opt (getopt_long "i:m:BHPh" long_options argv) initial

  module _ (os : Os) where
    abbrev pub devcap_parsed : Block → Parsed CapArgs → M Ended
    devcap_parsed out (done a) = do
      r ← devcap_in os (given_type a.cap_type) a.cap_mode a.pr_format out
      pure (returned (pos r))
    devcap_parsed out (exits n) = pure (exited n)
    devcap_parsed out crash = pure crashed

    abbrev pub devcap_with : List String → Option Block → M Ended
    devcap_with argv none = pure (returned (pos 12))
    devcap_with argv (some out) = parse_args argv >>= devcap_parsed out

    -- do_devcap with its arguments, which are parsed behind the allocation.
    unfoldable pub devcap_cmd : List String → M Ended
    unfolding parse_args
    devcap_cmd argv = do out ← malloc os (mlx5_st_sz_bytes query_hca_cap_out); devcap_with argv out
