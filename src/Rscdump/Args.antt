-- ===== src/Rscdump/Args.antt =====
-- The arguments of the `rscdump` and `coredump` commands: parse_args of rscdump.c.
use mlx5ctl.Base.{ℕ, leb, if◌then◌else◌, str_eq, String, Option, none, some, List, [], ◌∷◌, length}
use mlx5ctl.Base.Int.{ℤ, pos, negsuc, is_negative, to_int}
use mlx5ctl.Cstring.{codes, atoi, after_prefix, scan_hex, first_word, skip_spaces}
use mlx5ctl.Os.{text, M, ◌>>=◌, ◌>>◌, pure, show}
use mlx5ctl.Cli.Options.{Parsed, done, exits, crash, then_parse}
use mlx5ctl.Rscdump.Segments.{sgmt_type_menu}

-- `Args`, with the numbers as they are read.
pub record DumpArgs : Type 0 where
  pub umem : ℤ
  pub type : ℤ
  pub index1 : ℕ
  pub index2 : ℕ
  pub vhca_id : ℤ

abbrev pub no_args : DumpArgs
no_args = record { umem = pos 0; type = negsuc 0; index1 = 0; index2 = 0; vhca_id = pos 0 }

-- str_starts_with, and what follows the prefix.
abbrev pub option_value : String → String → Option (List ℕ)
option_value name arg = after_prefix (codes name) (codes arg)

-- mlx5_rsc_sgmt_type_by_name: not implemented.
abbrev pub mlx5_rsc_sgmt_type_by_name : List ℕ → ℤ
mlx5_rsc_sgmt_type_by_name name = negsuc 0

-- The name of a type, which `%s` copies to 64 bytes with its NUL whatever its length; `none` where
-- it does not fit.
abbrev pub type_by_word : List ℕ → Option ℤ
type_by_word [] = some (pos 0)
type_by_word (c ∷ word) =
    if leb 64 (length (c ∷ word)) then none else some (mlx5_rsc_sgmt_type_by_name (c ∷ word))

abbrev pub type_or_word : Option ℕ → List ℕ → Option ℤ
type_or_word (some n) value = some (to_int n)
type_or_word none value = type_by_word (first_word (skip_spaces value))

-- parse_rsc_dump_type_arg on what follows `--type=`.
unfoldable pub parse_rsc_dump_type_arg : List ℕ → Option ℤ
unfolding scan_hex first_word skip_spaces
parse_rsc_dump_type_arg value = type_or_word (scan_hex value) value

abbrev pub with_type : DumpArgs → Option ℤ → M (Parsed DumpArgs)
with_type a none = pure crash
with_type a (some type) = pure (done (record a { type = type }))

-- `sscanf` leaves the value alone when it reads no number.
abbrev pub or_old : Option ℕ → ℕ → ℕ
or_old (some n) old = n
or_old none old = old

abbrev pub usage : String → String
usage cmd =
    if str_eq cmd "coredump"
    then "[--umem=<size KB>] [--help]"
    else "[--umem=<size KB>] [--type=<type>] [--idx1=<index1>] [--idx2=<index2>] [--vhcaid=<vhca_id>] [--help]"

abbrev pub print_usage : String → M (Unit {0})
print_usage cmd = show (text cmd) >> show (text (usage cmd))

-- The option at the head of the chain, if the argument has its prefix, and else the rest of the chain.
abbrev pub otherwise :
    Option (List ℕ) → (List ℕ → M (Parsed DumpArgs)) → M (Parsed DumpArgs) → M (Parsed DumpArgs)
otherwise none set rest = rest
otherwise (some value) set rest = set value

-- The body of the loop on one argument.
unfoldable pub parse_arg : String → String → DumpArgs → M (Parsed DumpArgs)
unfolding after_prefix parse_rsc_dump_type_arg
parse_arg cmd arg a =
    otherwise (option_value "--umem=" arg) (λ v. pure (done (record a { umem = atoi v })))
      (otherwise (option_value "--type=" arg) (λ v. with_type a (parse_rsc_dump_type_arg v))
        (otherwise (option_value "--idx1=" arg)
          (λ v. pure (done (record a { index1 = or_old (scan_hex v) a.index1 })))
          (otherwise (option_value "--idx2=" arg)
            (λ v. pure (done (record a { index2 = or_old (scan_hex v) a.index2 })))
            (otherwise (option_value "--vhcaid=" arg)
              (λ v. pure (done (record a { vhca_id = atoi v })))
              (otherwise (option_value "--help" arg) (λ v. print_usage cmd >> pure (exits 0))
                (show (text arg) >> (print_usage cmd >> pure (exits 1))))))))

unfoldable pub parse_args_from : String → List String → DumpArgs → M (Parsed DumpArgs)
unfolding parse_arg
parse_args_from cmd [] a = pure (done a)
parse_args_from cmd (arg ∷ rest) a =
    parse_arg cmd arg a >>= then_parse (λ b. parse_args_from cmd rest b)

-- `if (args.type < 0) args.type = MLX5_RSC_SGMT_TYPE_MENU`.
abbrev pub default_type : ℤ → ℤ
default_type type = if is_negative type then pos sgmt_type_menu else type
