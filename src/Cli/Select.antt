-- ===== src/Cli/Select.antt =====
-- cmd_select of mlx5ctlu.c and the type `cmd`: the choice of a command by its name.
pub mod Laws
use mlx5ctl.Base.{ℕ, String, Option, none, some, List, [], ◌∷◌, str_eq, if◌then◌else◌}
use mlx5ctl.Base.Int.{ℤ, negsuc}
use mlx5ctl.Os.{M, ◌>>=◌, ◌>>◌, pure}

-- How a function ends: it returns, calls `exit` with a code, leaves the memory it may use, or is
-- not at its end when the fuel is spent.
pub data Ended : Type 0 where
  returned : ℤ → Ended
  exited : ℕ → Ended
  crashed : Ended
  unfinished : Ended

abbrev pub returns : M ℤ → M Ended
returns m = do r ← m; pure (returned r)

-- `cmd`. The function takes `argv`; `argc` is its length.
pub record Cmd : Type 0 where
  pub name : String
  pub func : List String → M Ended
  pub desc : String

-- The entry whose name is the argument, in a table up to its entry without a name.
unfoldable pub find_cmd : List Cmd → String → Option Cmd
find_cmd [] arg = none
find_cmd (c ∷ rest) arg = if str_eq c.name arg then some c else find_cmd rest arg

-- `help` is do_help; a table has its first entry, the default, and the other ones.
unfoldable pub run_cmd : M ℤ → Option Cmd → List String → M Ended
run_cmd help none argv = help >> pure (returned (negsuc 0))
run_cmd help (some c) argv = c.func argv

unfoldable pub cmd_select : M ℤ → Cmd → List Cmd → List String → M Ended
unfolding run_cmd find_cmd
cmd_select help first rest [] = first.func []
cmd_select help first rest (arg ∷ args) = run_cmd help (find_cmd (first ∷ rest) arg) (arg ∷ args)
