-- ===== src/Cli/Main.antt =====
-- The commands of mlx5ctlu.c and its main function.
pub mod Laws
use mlx5ctl.Base.{
  ℕ, zero, suc, ◌||◌, if◌then◌else◌, str_eq, Bool, String, Option, none, some, List, [], ◌∷◌, ◌++◌,
  length,
}
use mlx5ctl.Base.Int.{ℤ, pos, negsuc, abs}
use mlx5ctl.Cstring.{codes}
use mlx5ctl.Os.{Os, text, M, ◌>>=◌, ◌>>◌, pure, show}
use mlx5ctl.Device.Find.{Sysfs, Dev, Opened, mlx5u_lsdevs, mlx5u_open, mlx5u_close}
use mlx5ctl.Device.Info.{InfoApi, mlx5u_devinfo}
use mlx5ctl.Umem.Buff.{UmemApi}
use mlx5ctl.Cli.Options.{Getopt}
use mlx5ctl.Cli.Select.{Cmd, Ended, returned, exited, crashed, unfinished, returns, cmd_select}
use mlx5ctl.Caps.Args.{devcap_cmd}
use mlx5ctl.Reg.Args.{do_reg}
use mlx5ctl.Query.Args.{query_cmd}
use mlx5ctl.Diag.Commands.{show_commands, do_diag_cnt}
use mlx5ctl.Rscdump.Umem.{Dma}
use mlx5ctl.Rscdump.Run.{do_rscdump}

-- The names and descriptions of `commands`.
abbrev pub listed : List (String × String)
listed =
    ("info", "Print device information")
    ∷ ("cap", "Query device caps")
    ∷ ("reg", "Dump access registers")
    ∷ ("obj", "Query objects")
    ∷ ("diagcnt", "Dump diagnostic counters")
    ∷ ("rscdump", "Dump resources")
    ∷ ("coredump", "CR core dump")
    ∷ ("help", "Show this help")
    ∷ ("sleep", "sleep")
    ∷ []

-- `help_cmd` is `argv[0]` of main.
unfoldable pub do_help : Sysfs → String → M ℤ
unfolding show_commands mlx5u_lsdevs
do_help sys help_cmd = do show (text help_cmd); show_commands listed; mlx5u_lsdevs sys; pure (pos 0)

-- What the outside world is to a run: the C library and the kernel, and the fuel of the loops that
-- wait for the device.
pub record World : Type 0 where
  pub os : Os
  pub sys : Sysfs
  pub info : InfoApi
  pub getopt_long : Getopt
  pub dma : Dma
  pub umem : UmemApi
  pub fuel : ℕ

-- The result of a command that `sleep` runs first is dropped, unless the process ends in it.
abbrev pub after_cmd : Ended → M Ended
after_cmd (returned r) = pure (returned (pos 0))
after_cmd (exited n) = pure (exited n)
after_cmd crashed = pure crashed
after_cmd unfinished = pure unfinished

-- do_sleep; `select` is cmd_select on `commands`. The wait itself does nothing that is modelled.
unfoldable pub do_sleep : (List String → M Ended) → List String → M Ended
do_sleep select [] = pure (returned (negsuc 0))
do_sleep select (cmd ∷ []) = pure (returned (negsuc 0))
do_sleep select (cmd ∷ sleep_time ∷ rest) = select rest >>= after_cmd

module _ (w : World) (help_cmd : String) (dev : Dev) where
  -- `commands`: the first entry and the others.
  abbrev pub info_command : Cmd
  info_command = record {
    name = "info";
    func = λ argv. returns (mlx5u_devinfo w.sys w.info dev);
    desc = "Print device information";
  }

  abbrev pub plain_commands : List Cmd
  plain_commands =
      record { name = "cap"; func = devcap_cmd w.getopt_long w.os; desc = "Query device caps" }
      ∷ record { name = "reg"; func = do_reg w.getopt_long w.os; desc = "Dump access registers" }
      ∷ record { name = "obj"; func = query_cmd w.getopt_long w.os; desc = "Query objects" }
      ∷ record {
        name = "diagcnt";
        func = do_diag_cnt w.os (do_help w.sys help_cmd);
        desc = "Dump diagnostic counters";
      }
      ∷ record {
        name = "rscdump";
        func = do_rscdump w.os w.fuel w.dma w.umem;
        desc = "Dump resources";
      }
      ∷ record {
        name = "coredump";
        func = do_rscdump w.os w.fuel w.dma w.umem;
        desc = "CR core dump";
      }
      ∷ record {
        name = "help";
        func = λ argv. returns (do_help w.sys help_cmd);
        desc = "Show this help";
      }
      ∷ []

  abbrev pub sleep_command : (List String → M Ended) → Cmd
  sleep_command select = record { name = "sleep"; func = do_sleep select; desc = "sleep" }

  abbrev pub other_commands : (List String → M Ended) → List Cmd
  other_commands select = plain_commands ++ (sleep_command select ∷ [])

  -- cmd_select on `commands`, with `sleep` nested `depth` times.
  unfoldable pub select : ℕ → List String → M Ended
  unfolding cmd_select do_sleep do_help
  select zero argv =
      cmd_select (do_help w.sys help_cmd) info_command (other_commands (λ rest. pure unfinished))
        argv
  select (suc depth) argv =
      cmd_select (do_help w.sys help_cmd) info_command (other_commands (select depth)) argv

-- mlx5u_close, where the command returned.
abbrev pub close_after : Opened → Ended → M Ended
close_after d (returned r) = mlx5u_close d >> pure (returned (pos (abs r)))
close_after d (exited n) = pure (exited n)
close_after d crashed = pure crashed
close_after d unfinished = pure unfinished

abbrev pub asks_help : String → Bool
asks_help arg = str_eq arg "-h" || (str_eq arg "--help" || str_eq arg "help")

module _ (w : World) (help_cmd : String) where
  -- With the device open or not; `argv` begins behind its name.
  unfoldable pub run_on : List String → Option Opened → M Ended
  unfolding select mlx5u_close
  run_on argv none = pure (returned (pos 1))
  run_on argv (some d) = select w help_cmd d.dev (length argv) argv >>= close_after d

  -- `argv` from the device's name on. With `-v` alone there is none, and mlx5u_open reads NULL.
  unfoldable pub open_and_run : List String → M Ended
  unfolding run_on mlx5u_open
  open_and_run [] = pure crashed
  open_and_run (name ∷ argv) = mlx5u_open w.os w.sys (codes name) >>= run_on argv

-- main; the result of a `return` is the exit code.
unfoldable pub main : World → List String → M Ended
unfolding open_and_run do_help
main w [] = returns (do_help w.sys "")
main w (cmd ∷ []) = returns (do_help w.sys cmd)
main w (cmd ∷ arg ∷ rest) =
    if asks_help arg
    then returns (do_help w.sys cmd)
    else if str_eq arg "-v"
    then open_and_run w cmd rest
    else open_and_run w cmd (arg ∷ rest)
