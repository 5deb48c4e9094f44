-- ===== src/Diag/Commands.antt =====
-- The commands of diag_cnt.c: the reading of their arguments and what each of them runs.
pub mod Laws
pub mod Sends
use mlx5ctl.Base.{
  ℕ, zero, suc, ◌+◌, ◌*◌, ◌%◌, ◌^◌, if◌then◌else◌, Bool, false, String, str_eq, Option, none, some,
  List, [], ◌∷◌, drop, length, get_or,
}
use mlx5ctl.Base.Int.{ℤ, pos, is_nonzero, is_negative, abs, to_unsigned}
use mlx5ctl.Memory.{byte_at}
use mlx5ctl.Cstring.{codes, atoi, strtoul, tokens, count_commas}
use mlx5ctl.Os.{Os, Block, number, element, text, M, ◌>>=◌, ◌>>◌, pure, show, malloc, free}
use mlx5ctl.Cli.Select.{Cmd, Ended, returns, cmd_select}
use mlx5ctl.Diag.Cap.{enomem, get_dev_freq, mlx5_diag_cnt_query_cap}
use mlx5ctl.Diag.Params.{SetDiagParams, mlx5_diag_cnt_set_param, mlx5_diag_cnt_query_param}
use mlx5ctl.Diag.Flags.{parse_flags}
use mlx5ctl.Diag.Counters.{query_diag_counters}

abbrev pub einval : ℕ
einval = 22

-- `argc > n`, and the argument there is the string.
abbrev pub arg_is : ℕ → String → List String → Bool
arg_is n name [] = false
arg_is zero name (a ∷ rest) = str_eq a name
arg_is (suc n) name (a ∷ rest) = arg_is n name rest

-- `atoi(argv[n])` where `argc > n`, and else the default.
abbrev pub int_arg : ℕ → ℤ → List String → ℤ
int_arg n default [] = default
int_arg zero default (a ∷ rest) = atoi (codes a)
int_arg (suc n) default (a ∷ rest) = int_arg n default rest

-- `struct set_diag_params params = {}`.
abbrev pub no_params : SetDiagParams
no_params = record {
  log_num_of_samples = pos 0;
  single = 0;
  repetitive = 0;
  sync = 0;
  clear = 0;
  on_demand = 0;
  enable = 0;
  log_sample_period = pos 0;
  counter_ids = [];
}

-- num_of_counters for an argument.
abbrev pub num_of_counters : List ℕ → ℕ
num_of_counters s = count_commas s + 1

-- The `u32` at a byte of a block, which the processor keeps with the low byte first.
abbrev pub stored_u32 : List ℕ → ℕ → ℕ
stored_u32 bytes p =
    byte_at bytes p
    + byte_at bytes (p + 1) * 2 ^ 8
    + byte_at bytes (p + 2) * 2 ^ 16
    + byte_at bytes (p + 3) * 2 ^ 24

-- `left` ids from number `i` on: the tokens first, and what `malloc` left in the block behind them.
unfoldable pub read_ids : List ℕ → List (List ℕ) → ℕ → ℕ → List ℕ
read_ids found toks i zero = []
read_ids found [] i (suc left) = stored_u32 found (4 * i) ∷ read_ids found [] (i + 1) left
read_ids found (tok ∷ toks) i (suc left) = strtoul tok % 2 ^ 32 ∷ read_ids found toks (i + 1) left

-- The parameters of the `set` command but its counters, from those of the flags.
abbrev pub set_arguments : SetDiagParams → String → String → List ℕ → SetDiagParams
set_arguments p samples period ids = record p {
  log_num_of_samples = atoi (codes samples);
  log_sample_period = atoi (codes period);
  enable = 1;
  counter_ids = ids;
}

-- The `printf` of the counter ids.
unfoldable pub show_counter_ids : ℕ → List ℕ → M (Unit {0})
show_counter_ids i [] = pure tt
show_counter_ids i (id ∷ rest) = do show (element "counter_id" i id); show_counter_ids (i + 1) rest

-- What `set` prints, but the sample period, a floating-point number.
unfoldable pub show_set : SetDiagParams → ℤ → M (Unit {0})
unfolding show_counter_ids
show_set p dev_freq = do
  show (number "single" p.single)
  show (number "repetitive" p.repetitive)
  show (number "sync" p.sync)
  show (number "clear" p.clear)
  show (number "on_demand" p.on_demand)
  show (number "enable" p.enable)
  show (number "num_of_counters" (length p.counter_ids))
  show (number "log_num_of_samples" (to_unsigned 32 p.log_num_of_samples))
  show (number "log_sample_period" (to_unsigned 32 p.log_sample_period))
  show (number "dev_freq" (abs dev_freq))
  show_counter_ids 0 p.counter_ids

-- A line of do_help for each command.
unfoldable pub show_commands : List (String × String) → M (Unit {0})
show_commands [] = pure tt
show_commands ((name, desc) ∷ rest) = do show (text name); show (text desc); show_commands rest

-- The names and descriptions of `commands`.
abbrev pub listed : List (String × String)
listed =
    ("cap", "show diag counters cap")
    ∷ ("help", "show this help")
    ∷ ("set", "set param")
    ∷ ("disable", "disable diag counters")
    ∷ ("param", "query param")
    ∷ ("dump", "dump samples")
    ∷ []

-- `help_cmd` is `argv[0]` of do_diag_cnt.
unfoldable pub do_help : String → M ℤ
unfolding show_commands
do_help help_cmd = do show (text help_cmd); show_commands listed; pure (pos 0)

module _ (os : Os) where
  unfoldable pub do_param : List String → M ℤ
  do_param argv =
      if arg_is 1 "help" argv
      then show (text "param [num counters currently enabled in HW or more..]") >> pure (pos 0)
      else (do
        show (number "query diag counter params with" (to_unsigned 32 (int_arg 1 (pos 20) argv)))
        mlx5_diag_cnt_query_param os (int_arg 1 (pos 20) argv))

  -- From the test of the frequency on; `counter_id` is the block of the ids.
  unfoldable pub send_set : SetDiagParams → Option Block → ℤ → M ℤ
  unfolding show_set
  send_set params counter_id dev_freq = if is_negative dev_freq then pure dev_freq else (do
    show_set params dev_freq
    err ← mlx5_diag_cnt_set_param os params
    free counter_id
    if is_nonzero err
        then pure err
        else show (text "set diagnostic params succeeded") >> pure (pos 0))

  -- From the allocation of the ids on. They are not freed when the frequency is not had.
  unfoldable pub set_counters : SetDiagParams → String → String → String → Option Block → M ℤ
  unfolding read_ids send_set
  set_counters flags samples period counters none = pure (pos enomem)
  set_counters flags samples period counters (some block) = do
    let ids : List ℕ =
        read_ids block.bytes (tokens (codes counters)) 0 (num_of_counters (codes counters))
    let params : SetDiagParams = set_arguments flags samples period ids
    dev_freq ← get_dev_freq os
    send_set params (some block) dev_freq

  -- From the test of the flags on.
  unfoldable pub set_accepted : SetDiagParams → String → String → String → M ℤ
  unfolding set_counters
  set_accepted flags samples period counters = do
    block ← malloc os (num_of_counters (codes counters) * 4)
    set_counters flags samples period counters block

  -- The four arguments that `argc < 5` asks for.
  unfoldable pub set_args : List String → M ℤ
  unfolding set_accepted
  set_args (cmd ∷ flags ∷ samples ∷ period ∷ counters ∷ more) = do
    (ret, params) ← parse_flags (codes flags) 0 no_params
    if is_nonzero ret then pure (pos einval) else set_accepted params samples period counters
  set_args argv = pure (pos einval)

  unfoldable pub do_set : List String → M ℤ
  unfolding set_args
  do_set argv =
      if arg_is 1 "help" argv
      then (do
        show
            (text "set [flags] <log num of samples> <sample period> <counter id1>,<counter id2>...")
        show (text "flags: -Scsro = (S)ync (c)lear (s)ingle (r)epetitive (o)n_demand")
        pure (pos 0))
      else set_args argv

  unfoldable pub do_dump : List String → M ℤ
  do_dump argv =
      if arg_is 1 "help" argv
      then show (text "dump [num lines] [sample index] [--bin]") >> pure (pos 0)
      else (do
        let print_lines : ℤ = int_arg 1 (pos 1) argv
        let sample_index : ℤ = int_arg 2 (pos 0) argv
        let bin_output : Bool = arg_is 3 "--bin" argv
        if bin_output
            then pure tt
            else show (number "lines" (to_unsigned 32 print_lines))
              >> show (number "sample_index" (to_unsigned 32 sample_index))
        query_diag_counters os print_lines sample_index bin_output)

  unfoldable pub do_disable : List String → M ℤ
  do_disable argv = do
    show (text "disabling diag counters and clearing HW buffer")
    mlx5_diag_cnt_set_param os (record no_params { clear = 1; enable = 0 })

  unfoldable pub do_cap : List String → M ℤ
  do_cap argv = mlx5_diag_cnt_query_cap os

  -- `commands`: the first entry and the others.
  abbrev pub first_command : Cmd
  first_command = record {
    name = "cap";
    func = λ argv. returns (do_cap argv);
    desc = "show diag counters cap";
  }

  abbrev pub other_commands : String → List Cmd
  other_commands help_cmd =
      record { name = "help"; func = λ argv. returns (do_help help_cmd); desc = "show this help" }
      ∷ record { name = "set"; func = λ argv. returns (do_set argv); desc = "set param" }
      ∷ record {
        name = "disable";
        func = λ argv. returns (do_disable argv);
        desc = "disable diag counters";
      }
      ∷ record { name = "param"; func = λ argv. returns (do_param argv); desc = "query param" }
      ∷ record { name = "dump"; func = λ argv. returns (do_dump argv); desc = "dump samples" }
      ∷ []

  -- `help` is do_help of mlx5ctlu.c, which cmd_select calls; `argv[0]` is always there.
  unfoldable pub do_diag_cnt : M ℤ → List String → M Ended
  unfolding cmd_select
  do_diag_cnt help argv =
      cmd_select help first_command (other_commands (get_or argv 0 "")) (drop 1 argv)
