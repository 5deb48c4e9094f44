-- ===== src/Cli/Main/Laws.antt =====
-- The nesting of `sleep`, and the memory of a run of main.
use mlx5ctl.Base.{
  ℕ, zero, suc, ◌+◌, ◌≤◌, ◌≡◌, ◌∙◌, ap, refl, inl, inr, arith, false, Bool-cases, str_eq, String,
  Option, none, some, List, [], ◌∷◌, ◌++◌, length,
}
use mlx5ctl.Base.Int.{ℤ, pos}
use mlx5ctl.Cstring.{codes}
use mlx5ctl.Os.{Trace, M, pure}
use mlx5ctl.Os.Live.{live, is_at, KeepsLive}
use mlx5ctl.Device.Find.{Dev, Opened, mlx5u_open, mlx5u_close}
use mlx5ctl.Device.Find.Laws.{block_of, open-live}
use mlx5ctl.Cli.Select.{
  Cmd, Ended, returned, exited, crashed, unfinished, find_cmd, run_cmd, cmd_select,
}
use mlx5ctl.Reg.Args.Laws.{do_reg-live}
use mlx5ctl.Cli.Main.{
  World, do_help, do_sleep, after_cmd, info_command, plain_commands, sleep_command, other_commands,
  select, close_after, asks_help, run_on, open_and_run, main,
}

do_sleep-same :
    (f g : List String → M Ended) (argv : List String) (t : Trace)
    → ((rest : List String) (t1 : Trace) → length rest + 2 ≤ length argv → f rest t1 ≡ g rest t1)
    → do_sleep f argv t ≡ do_sleep g argv t
unfolding do_sleep
do_sleep-same f g [] t h = refl
do_sleep-same f g (cmd ∷ []) t h = refl
do_sleep-same f g (cmd ∷ sleep_time ∷ rest) t h =
    ap (λ (r : Ended × Trace). after_cmd r.0 r.1) (h rest t (omega arith))

-- Two tables that differ in the function of the last entry only.
last-same :
    (help : M ℤ) (before : List Cmd) (c d : Cmd) (arg : String) (argv : List String) (t : Trace)
    → c.name ≡ d.name
    → c.func argv t ≡ d.func argv t
    → run_cmd help (find_cmd (before ++ (c ∷ [])) arg) argv t
      ≡ run_cmd help (find_cmd (before ++ (d ∷ [])) arg) argv t
unfolding run_cmd find_cmd
last-same help [] c d arg argv t name func = elim (Bool-cases (str_eq d.name arg)) [
  | inl this ↦ rw (ap (λ n. str_eq n arg) name ∙ this, this) func
  | inr other ↦ rw (ap (λ n. str_eq n arg) name ∙ other, other) refl
]
last-same help (b ∷ before) c d arg argv t name func = elim (Bool-cases (str_eq b.name arg)) [
  | inl this ↦ rw this refl
  | inr other ↦ rw other (last-same help before c d arg argv t name func)
]

module _ (w : World) (help_cmd : String) (dev : Dev) where
  select-last :
      (f g : List String → M Ended) (argv : List String) (t : Trace)
      → ((rest : List String) (t1 : Trace) → length rest + 2 ≤ length argv → f rest t1 ≡ g rest t1)
      → cmd_select
          (do_help w.sys help_cmd)
          (info_command w help_cmd dev)
          (other_commands w help_cmd dev f)
          argv
          t
        ≡ cmd_select
            (do_help w.sys help_cmd)
            (info_command w help_cmd dev)
            (other_commands w help_cmd dev g)
            argv
            t
  unfolding cmd_select
  select-last f g [] t h = refl
  select-last f g (arg ∷ args) t h =
      last-same (do_help w.sys help_cmd)
        (info_command w help_cmd dev ∷ plain_commands w help_cmd dev)
        (sleep_command w help_cmd dev f) (sleep_command w help_cmd dev g) arg (arg ∷ args) t refl
        (do_sleep-same f g (arg ∷ args) t h)

  -- Any two depths for nested sleep commands that are at least the number of arguments give the
  -- same run of cmd_select on the commands of mlx5ctl.
  pub select_enough :
      (i j : ℕ) (argv : List String) (t : Trace)
      → length argv ≤ i
      → length argv ≤ j
      → select w help_cmd dev i argv t ≡ select w help_cmd dev j argv t
  unfolding select
  select_enough zero zero argv t p q = refl
  select_enough zero (suc j) argv t p q =
      select-last (λ rest. pure unfinished) (select w help_cmd dev j) argv t
        (λ rest t1 h. absurd (omega (arith, h, p)))
  select_enough (suc i) zero argv t p q =
      select-last (select w help_cmd dev i) (λ rest. pure unfinished) argv t
        (λ rest t1 h. absurd (omega (arith, h, q)))
  select_enough (suc i) (suc j) argv t p q =
      select-last (select w help_cmd dev i) (select w help_cmd dev j) argv t
        (λ rest t1 h. select_enough i j rest t1 (omega (arith, h, p)) (omega (arith, h, q)))

-- The result of `sleep` over a command: the process ends as it does there, or the result is 0.
abbrev pub asleep : Ended → Ended
asleep (returned r) = returned (pos 0)
asleep (exited n) = exited n
asleep crashed = crashed
asleep unfinished = unfinished

after_cmd_lem : (r : Ended) (t : Trace) → after_cmd r t ≡ (asleep r, t)
after_cmd_lem (returned r) t = refl
after_cmd_lem (exited n) t = refl
after_cmd_lem crashed t = refl
after_cmd_lem unfinished t = refl

asleep_twice : (r : Ended) → asleep (asleep r) ≡ asleep r
asleep_twice (returned r) = refl
asleep_twice (exited n) = refl
asleep_twice crashed = refl
asleep_twice unfinished = refl

-- A command with a `sleep` of every one of some times before it.
abbrev pub sleeping : List String → List String → List String
sleeping [] argv = argv
sleeping (time ∷ times) argv = "sleep" ∷ time ∷ sleeping times argv

module _ (w : World) (help_cmd : String) (dev : Dev) where
  select_sleep :
      (depth : ℕ) (time : String) (argv : List String) (t : Trace)
      → select w help_cmd dev (suc depth) ("sleep" ∷ time ∷ argv) t
        ≡ (let (r, t1) = select w help_cmd dev depth argv t in (asleep r, t1))
  unfolding select cmd_select do_sleep
  select_sleep depth time argv t =
      let (r, t1) = select w help_cmd dev depth argv t in after_cmd_lem r t1

  -- Any number of nested sleep commands in front of a command, at a depth that is at least the
  -- number of arguments, run that command once on its own arguments with the same trace, and the
  -- result is 0 where the command returns; a process that ends inside it ends all the same.
  pub select-sleeping :
      (depth : ℕ) (time : String) (times argv : List String) (t : Trace)
      → length (sleeping (time ∷ times) argv) ≤ depth
      → select w help_cmd dev depth (sleeping (time ∷ times) argv) t
        ≡ (let (r, t1) = select w help_cmd dev (length argv) argv t in (asleep r, t1))
  select-sleeping zero time times argv t le = absurd (omega (arith, le))
  select-sleeping (suc depth) time [] argv t le =
      select_sleep depth time argv t
      ∙ ap (λ (x : Ended × Trace). (asleep x.0, x.1))
          (select_enough w help_cmd dev depth (length argv) argv t (omega (arith, le))
            (omega arith))
  select-sleeping (suc depth) time (again ∷ times) argv t le =
      select_sleep depth time (sleeping (again ∷ times) argv) t
      ∙ ap (λ (x : Ended × Trace). (asleep x.0, x.1))
          (select-sleeping depth again times argv t (omega (arith, le)))
      ∙ ap (λ (e : Ended). (e, (select w help_cmd dev (length argv) argv t).1))
          (asleep_twice (select w help_cmd dev (length argv) argv t).0)

-- A run that returns leaves as many blocks at every address as there were.
abbrev pub Clean : Trace → Ended × Trace → Type 0
Clean t (returned r, t') = (a : ℕ) → live a t' ≡ live a t
Clean t (exited n, t') = Unit {0}
Clean t (crashed, t') = Unit {0}
Clean t (unfinished, t') = Unit {0}

close_after-Clean :
    (d : Opened) (r : Ended) (t t1 : Trace)
    → ((a : ℕ) → live a t1 ≡ live a t + is_at a (some d.self.addr))
    → Clean t (close_after d r t1)
unfolding mlx5u_close
close_after-Clean d (returned r) t t1 h = λ a. omega (arith, h a)
close_after-Clean d (exited n) t t1 h = tt
close_after-Clean d crashed t t1 h = tt
close_after-Clean d unfinished t t1 h = tt

module _ (w : World) (help_cmd : String) where
  run_on-Clean :
      (argv : List String) (o : Option Opened) (t t1 : Trace)
      → ((dev : Dev) → KeepsLive (select w help_cmd dev (length argv) argv))
      → ((a : ℕ) → live a t1 ≡ live a t + block_of a o)
      → Clean t (run_on w help_cmd argv o t1)
  unfolding run_on
  run_on-Clean argv none t t1 keeps h = λ a. omega (arith, h a)
  run_on-Clean argv (some d) t t1 keeps h =
      let (r, t2) = select w help_cmd d.dev (length argv) argv t1 in
      close_after-Clean d r t t2 (λ a. keeps d.dev a t1 ∙ h a)

  open_and_run-Clean :
      (name : String) (argv : List String) (t : Trace)
      → ((dev : Dev) → KeepsLive (select w help_cmd dev (length argv) argv))
      → Clean t (open_and_run w help_cmd (name ∷ argv) t)
  unfolding open_and_run
  open_and_run-Clean name argv t keeps =
      run_on-Clean argv (mlx5u_open w.os w.sys (codes name) t).0 t
        (mlx5u_open w.os w.sys (codes name) t).1 keeps (λ a. open-live w.os w.sys (codes name) a t)

  select_reg-live :
      (dev : Dev) (args : List String)
      → KeepsLive (select w help_cmd dev (length ("reg" ∷ args)) ("reg" ∷ args))
  unfolding select cmd_select
  select_reg-live dev args a t = do_reg-live w.getopt_long w.os ("reg" ∷ args) a t

-- A run of `mlx5ctl <device> reg ...` that returns leaves as many blocks allocated at every
-- address as before, whatever the options, the device and the memory do, when the name of the
-- device is not a word for help and not -v.
pub main_reg-Clean :
    (w : World) (cmd name : String) (args : List String) (t : Trace)
    → asks_help name ≡ false
    → str_eq name "-v" ≡ false
    → Clean t (main w (cmd ∷ name ∷ "reg" ∷ args) t)
unfolding main
main_reg-Clean w cmd name args t no_help no_verbose =
    rw (no_help, no_verbose)
      (open_and_run-Clean w cmd name ("reg" ∷ args) t (λ dev. select_reg-live w cmd dev args))
