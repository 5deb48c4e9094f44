-- ===== src/Cli/Options.antt =====
-- Options as getopt_long of the C library reads them from a command line, and the end of their
-- reading.
use mlx5ctl.Base.{ℕ, String, Option, none, some, List, [], ◌∷◌}
use mlx5ctl.Os.{M, ◌>>=◌, pure}

pub data HasArg : Type 0 where
  no_argument required_argument optional_argument : HasArg

-- `struct option`, without a flag.
pub record LongOption : Type 0 where
  pub name : String
  pub has_arg : HasArg
  pub val : ℕ

-- What one call returns, with `optarg`.
pub record Opt : Type 0 where
  pub char : ℕ
  pub optarg : Option String

-- getopt_long: the short options, the long ones and `argv`, to all it returns before its -1.
abbrev pub Getopt : Type 0
Getopt = String → List LongOption → List String → List Opt

-- A value that was read, or the end of the process: an exit code, or a read through NULL.
pub data Parsed (A : Type 0) : Type 0 where
  done : A → Parsed A
  exits : ℕ → Parsed A
  crash : Parsed A

-- The next step of a reading, unless the process has ended.
abbrev pub then_parse : {A B : Type 0} → (A → M (Parsed B)) → Parsed A → M (Parsed B)
then_parse next (done a) = next a
then_parse next (exits n) = pure (exits n)
then_parse next crash = pure crash

-- The loop over the options; `apply` is the `switch`.
abbrev pub parse_loop :
    {A : Type 0} → (ℕ → Option String → A → M (Parsed A)) → List Opt → A → M (Parsed A)
parse_loop apply [] a = pure (done a)
parse_loop apply (o ∷ rest) a =
    apply o.char o.optarg a >>= then_parse (λ b. parse_loop apply rest b)

-- A `case` that reads `optarg`.
abbrev pub with_arg : {A : Type 0} → (String → Parsed A) → Option String → M (Parsed A)
with_arg set none = pure crash
with_arg set (some s) = pure (set s)
