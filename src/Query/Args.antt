-- ===== src/Query/Args.antt =====
-- The arguments of the `obj` command: parse_args of query_obj.c, and query_obj from its arguments on.
use mlx5ctl.Base.{
  ℕ, ◌%◌, ◌^◌, ◌==◌, if◌then◌else◌, String, Bool, true, false, Option, List, [], ◌∷◌,
}
use mlx5ctl.Base.Int.{pos}
use mlx5ctl.Cstring.{codes, strtoul}
use mlx5ctl.Os.{Os, text, M, ◌>>=◌, ◌>>◌, pure, show}
use mlx5ctl.Cli.Options.{
  LongOption, Getopt, Parsed, done, exits, crash, with_arg, parse_loop, optional_argument,
  no_argument,
}
use mlx5ctl.Cli.Select.{Ended, returned, exited, crashed}
use mlx5ctl.Query.Table.{ObjNameFunc, query_funcs}
use mlx5ctl.Query.Run.{query_obj}

-- The static variables of the file but the name.
pub record QueryArgs : Type 0 where
  pub obj_id : ℕ
  pub op_mod : ℕ
  pub bin_format : Bool

abbrev pub initial : QueryArgs
initial = record { obj_id = 0; op_mod = 0; bin_format = false }

abbrev pub long_options : List LongOption
long_options =
    record { name = "id"; has_arg = optional_argument; val = b'i' }
    ∷ record { name = "op_mod"; has_arg = optional_argument; val = b'o' }
    ∷ record { name = "bin"; has_arg = no_argument; val = b'B' }
    ∷ record { name = "help"; has_arg = no_argument; val = b'h' }
    ∷ []

-- The loop of print_query_funcs.
unfoldable pub print_query_funcs : List ObjNameFunc → M (Unit {0})
print_query_funcs [] = pure tt
print_query_funcs (f ∷ rest) = do
  show (text f.obj_name)
  show (text f.help)
  show (text ", dump PRM name: query_")
  show (text f.obj_name)
  show (text "_out")
  print_query_funcs rest

unfoldable pub help : M (Unit {0})
unfolding print_query_funcs query_funcs
help = do
  show (text "Usage: mlx5ctl <device> obj <obj_name> --id=<obj_id> [--op_mod=op_mod] [--bin]")
  show (text "executes PRM command query_<obj_name>_in")
  show (text "hex dumps query_<obj_name>_out, unless [--bin|-B], then binary dump")
  show (text "Supported obj_names:")
  print_query_funcs query_funcs

-- `strtoul(optarg, NULL, 0)` assigned to an `unsigned int`.
abbrev pub uint_of : String → ℕ
uint_of s = strtoul (codes s) % 2 ^ 32

-- The `switch (c)`.
unfoldable pub apply_opt : ℕ → Option String → QueryArgs → M (Parsed QueryArgs)
unfolding help
apply_opt c optarg a =
    if c == b'i'
    then with_arg (λ s. done (record a { obj_id = uint_of s })) optarg
    else if c == b'o'
    then with_arg (λ s. done (record a { op_mod = uint_of s })) optarg
    else if c == b'B'
    then pure (done (record a { bin_format = true }))
    else if c == b'h'
    then help >> pure (exits 0)
    else pure (exits 1)

-- Behind the test of the name. The short options give `i` no argument, whatever `--id` has.
abbrev pub query_parsed : Os → String → Parsed QueryArgs → M Ended
query_parsed os obj_name (done a) = do
  r ← query_obj os obj_name a.obj_id a.op_mod a.bin_format
  pure (returned (pos r))
query_parsed os obj_name (exits n) = pure (exited n)
query_parsed os obj_name crash = pure crashed

module _ (getopt_long : Getopt) where
  unfoldable pub query_cmd : Os → List String → M Ended
  unfolding apply_opt
  query_cmd os [] = help >> pure (exited 1)
  query_cmd os (cmd ∷ []) = help >> pure (exited 1)
  query_cmd os (cmd ∷ obj_name ∷ rest) =
      parse_loop apply_opt (getopt_long "io:Bh" long_options (cmd ∷ obj_name ∷ rest)) initial
      >>= query_parsed os obj_name
