-- ===== src/Reg/Args/Laws.antt =====
-- parse_args and do_reg: an id is there when a register is read, and no memory is left.
use mlx5ctl.Base.{
  ℕ, ◌≡◌, refl, inl, inr, ◌==◌, false, Bool-cases, String, Option, none, some, List, [], ◌∷◌,
}
use mlx5ctl.Base.Int.{is_negative, to_unsigned}
use mlx5ctl.Os.{Os, Trace, M}
use mlx5ctl.Os.Live.{KeepsLive, if-KeepsLive, then-KeepsLive}
use mlx5ctl.Cli.Options.{Opt, Getopt, Parsed, done, exits, crash, then_parse, with_arg}
use mlx5ctl.Reg.Table.{RegInfo, regs}
use mlx5ctl.Reg.Dump.Laws.{reg_dump-live}
use mlx5ctl.Reg.Args.{
  RegArgs, initial, long_options, print_reg_names_ids, help, apply_opt, check_id, parse_opts,
  parse_args, reg_with, do_reg,
}

-- What is asked of the arguments: the id is not negative; or the process has ended.
abbrev pub IsReady : Parsed RegArgs → Type 0
IsReady (done a) = is_negative a.reg_id ≡ false
IsReady (exits n) = Unit {0}
IsReady crash = Unit {0}

then_parse-IsReady :
    {A : Type 0} (next : A → M (Parsed RegArgs))
    → ((a : A) (t : Trace) → IsReady (next a t).0)
    → (r : Parsed A) (t : Trace) → IsReady (then_parse next r t).0
then_parse-IsReady next ready (done a) t = ready a t
then_parse-IsReady next ready (exits n) t = tt
then_parse-IsReady next ready crash t = tt

check_id-IsReady : (a : RegArgs) (t : Trace) → IsReady (check_id a t).0
unfolding check_id
check_id-IsReady a t = elim (Bool-cases (is_negative a.reg_id)) [
  | inl missing ↦ rw missing tt
  | inr given ↦ rw given given
]

parse_opts-IsReady : (opts : List Opt) (a : RegArgs) (t : Trace) → IsReady (parse_opts opts a t).0
unfolding parse_opts
parse_opts-IsReady [] a t = check_id-IsReady a t
parse_opts-IsReady (o ∷ rest) a t =
    then_parse-IsReady (λ b. parse_opts rest b) (parse_opts-IsReady rest)
      (apply_opt o.char o.optarg a t).0 (apply_opt o.char o.optarg a t).1

print_reg_names_ids-live : (rs : List RegInfo) → KeepsLive (print_reg_names_ids rs)
unfolding print_reg_names_ids
print_reg_names_ids-live [] a t = refl
print_reg_names_ids-live (r ∷ rest) a t = print_reg_names_ids-live rest a _

help-live : KeepsLive help
unfolding help
help-live a t = print_reg_names_ids-live regs a _

with_arg-live :
    (set : String → Parsed RegArgs) (optarg : Option String) → KeepsLive (with_arg set optarg)
with_arg-live set none a t = refl
with_arg-live set (some s) a t = refl

apply_opt-live : (c : ℕ) (optarg : Option String) (x : RegArgs) → KeepsLive (apply_opt c optarg x)
unfolding apply_opt
apply_opt-live c optarg x = if-KeepsLive (c == b'i') _ _ (with_arg-live _ optarg) (
    if-KeepsLive (c == b'p') _ _ (with_arg-live _ optarg) (
      if-KeepsLive (c == b'a') _ _ (with_arg-live _ optarg) (
        if-KeepsLive (c == b'B') _ _ (λ a t. refl)
          (if-KeepsLive (c == b'H') _ _ (λ a t. refl)
            (if-KeepsLive (c == b'P') _ _ (λ a t. refl)
              (if-KeepsLive (c == b'h') _ _ (λ a t. help-live a t) (λ a t. refl)))))))

then_parse-live :
    {A B : Type 0} (next : A → M (Parsed B))
    → ((a : A) → KeepsLive (next a))
    → (r : Parsed A) → KeepsLive (then_parse next r)
then_parse-live next h (done x) a t = h x a t
then_parse-live next h (exits n) a t = refl
then_parse-live next h crash a t = refl

parse_opts-live : (opts : List Opt) (x : RegArgs) → KeepsLive (parse_opts opts x)
unfolding parse_opts check_id
parse_opts-live [] x = if-KeepsLive (is_negative x.reg_id) _ _ (λ a t. help-live a t) (λ a t. refl)
parse_opts-live (o ∷ rest) x =
    then-KeepsLive (apply_opt o.char o.optarg x) (then_parse (λ b. parse_opts rest b))
      (apply_opt-live o.char o.optarg x)
      (then_parse-live (λ b. parse_opts rest b) (parse_opts-live rest))

module _ (getopt_long : Getopt) where
  pub parse_args-IsReady :
      (argv : List String) (t : Trace) → IsReady (parse_args getopt_long argv t).0
  unfolding parse_args
  parse_args-IsReady argv t =
      parse_opts-IsReady (getopt_long "i:p:a:BHPh" long_options argv) initial t

  module _ (os : Os) where
    reg_with-live : (r : Parsed RegArgs) → KeepsLive (reg_with getopt_long os r)
    reg_with-live (done x) a t =
        reg_dump-live os x.pr_format (to_unsigned 32 x.reg_id) (to_unsigned 32 x.port)
          (to_unsigned 32 x.argument) a t
    reg_with-live (exits n) a t = refl
    reg_with-live crash a t = refl

    pub do_reg-live : (argv : List String) → KeepsLive (do_reg getopt_long os argv)
    unfolding do_reg parse_args
    do_reg-live argv =
        then-KeepsLive (parse_args getopt_long argv) (reg_with getopt_long os)
          (parse_opts-live (getopt_long "i:p:a:BHPh" long_options argv) initial) reg_with-live
