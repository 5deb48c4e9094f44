-- ===== src/Reg/Args.antt =====
-- The arguments of the `reg` command: help, parse_args and do_reg of reg.c.
pub mod Laws
use mlx5ctl.Base.{ℕ, ◌%◌, ◌^◌, ◌==◌, if◌then◌else◌, String, Option, none, some, List, [], ◌∷◌}
use mlx5ctl.Base.Int.{ℤ, pos, negsuc, is_negative, to_int, to_unsigned}
use mlx5ctl.Cstring.{codes, tolower, strtoul}
use mlx5ctl.Os.{Os, number, text, chars, M, ◌>>=◌, ◌>>◌, pure, show}
use mlx5ctl.Cli.Options.{
  LongOption, Opt, Getopt, Parsed, done, exits, crash, then_parse, with_arg, required_argument,
  optional_argument, no_argument,
}
use mlx5ctl.Cli.Select.{Ended, returned, exited, crashed, returns}
use mlx5ctl.Reg.Table.{Pretty, RegInfo, regs}
use mlx5ctl.Reg.Lookup.{get_reg_id_from_str}
use mlx5ctl.Reg.Dump.{PrFormat, pr_hex, pr_bin, pr_pretty, mlx5_reg_dump}

-- The static variables of the file.
pub record RegArgs : Type 0 where
  pub reg_id : ℤ
  pub port : ℤ
  pub argument : ℤ
  pub pr_format : PrFormat

abbrev pub initial : RegArgs
initial = record { reg_id = negsuc 0; port = pos 0; argument = pos 0; pr_format = pr_hex }

abbrev pub long_options : List LongOption
long_options =
    record { name = "id"; has_arg = required_argument; val = b'i' }
    ∷ record { name = "port"; has_arg = optional_argument; val = b'p' }
    ∷ record { name = "argument"; has_arg = required_argument; val = b'a' }
    ∷ record { name = "bin"; has_arg = no_argument; val = b'B' }
    ∷ record { name = "hex"; has_arg = no_argument; val = b'H' }
    ∷ record { name = "pretty"; has_arg = no_argument; val = b'P' }
    ∷ record { name = "help"; has_arg = no_argument; val = b'h' }
    ∷ []

abbrev pub mark : Option Pretty → String
mark none = " "
mark (some f) = " (pretty print) "

abbrev pub to_lower : List ℕ → List ℕ
to_lower [] = []
to_lower (c ∷ rest) = tolower c ∷ to_lower rest

-- Every name is shorter than the 128 bytes of lower_reg_name.
unfoldable pub print_reg_names_ids : List RegInfo → M (Unit {0})
print_reg_names_ids [] = pure tt
print_reg_names_ids (r ∷ rest) = do
  show (number r.str r.reg_id)
  show (text (mark r.ppfun))
  show (text ", dump PRM name: ")
  show (chars (to_lower (codes r.str)))
  show (text "_reg")
  print_reg_names_ids rest

unfoldable pub help : M (Unit {0})
unfolding print_reg_names_ids
help = do
  show (text "mlx5ctl <device> reg --id=<reg_id> [--port=port] [--argument=argument]")
  show (text "--id=<reg_id> - register id in hex or decimal")
  show (text "--port=<port> - port number, default 1")
  show (text "--argument=<argument> - register argument, default 0")
  show (text "--bin - print register in binary format")
  show (text "--hex - print register in hex format")
  show (text "--pretty - print register in pretty format")
  show (text "--help - print this help")
  show (text "Known Registers:")
  print_reg_names_ids regs

-- `strtoul(optarg, NULL, 0)` assigned to an `int`.
abbrev pub int_of : String → ℤ
int_of s = to_int (strtoul (codes s) % 2 ^ 32)

-- The id of a register name, and else the number.
abbrev pub id_or : Option ℕ → String → ℤ
id_or (some id) s = pos id
id_or none s = int_of s

abbrev pub read_id : String → ℤ
read_id s = id_or (get_reg_id_from_str s) s

-- The `switch (c)`.
unfoldable pub apply_opt : ℕ → Option String → RegArgs → M (Parsed RegArgs)
unfolding help
apply_opt c optarg a =
    if c == b'i'
    then with_arg (λ s. done (record a { reg_id = read_id s })) optarg
    else if c == b'p'
    then with_arg (λ s. done (record a { port = int_of s })) optarg
    else if c == b'a'
    then with_arg (λ s. done (record a { argument = int_of s })) optarg
    else if c == b'B'
    then pure (done (record a { pr_format = pr_bin }))
    else if c == b'H'
    then pure (done (record a { pr_format = pr_hex }))
    else if c == b'P'
    then pure (done (record a { pr_format = pr_pretty }))
    else if c == b'h'
    then help >> pure (exits 0)
    else pure (exits 1)

-- The test behind the loop.
unfoldable pub check_id : RegArgs → M (Parsed RegArgs)
unfolding help
check_id a = if is_negative a.reg_id then help >> pure (exits 1) else pure (done a)

-- The loop from some option on.
unfoldable pub parse_opts : List Opt → RegArgs → M (Parsed RegArgs)
unfolding apply_opt check_id
parse_opts [] a = check_id a
parse_opts (o ∷ rest) a = apply_opt o.char o.optarg a >>= then_parse (λ b. parse_opts rest b)

module _ (getopt_long : Getopt) where
  unfoldable pub parse_args : List String → M (Parsed RegArgs)
  unfolding parse_opts
  parse_args argv = parse_opts (getopt_long "i:p:a:BHPh" long_options argv) initial

  module _ (os : Os) where
    abbrev pub reg_with : Parsed RegArgs → M Ended
    reg_with (done a) = returns (
        mlx5_reg_dump os a.pr_format (to_unsigned 32 a.reg_id) (to_unsigned 32 a.port)
          (to_unsigned 32 a.argument))
    reg_with (exits n) = pure (exited n)
    reg_with crash = pure crashed

    unfoldable pub do_reg : List String → M Ended
    unfolding parse_args
    do_reg argv = parse_args argv >>= reg_with
