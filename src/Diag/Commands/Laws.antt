-- ===== src/Diag/Commands/Laws.antt =====
-- What the commands of diag_cnt.c send, return and leave allocated.
use mlx5ctl.Base.{
  ℕ, zero, suc, ◌+◌, ◌-◌, ◌*◌, ◌%◌, ◌^◌, ◌≤◌, ◌<◌, ◌≡◌, ◌∙◌, refl, ap, sym, inl, inr, arith, Bool,
  true, false, Bool-cases, String, Option, none, some, List, [], ◌∷◌, length, get_or, if◌then◌else◌,
}
use mlx5ctl.Base.Int.{ℤ, pos, negsuc, is_nonzero, is_negative}
use mlx5ctl.Cstring.{codes, strtoul, tokens}
use mlx5ctl.Cstring.Laws.{length-tokens}
use mlx5ctl.Os.{Os, Block, Trace, address, allocated}
use mlx5ctl.Os.Live.{live, is_at, KeepsLive, Quiet}
use mlx5ctl.Device.{mlx5u_cmd}
use mlx5ctl.Diag.Cap.{get_dev_freq, devcap_request}
use mlx5ctl.Diag.Params.{SetDiagParams, mlx5_diag_cnt_set_param}
use mlx5ctl.Diag.Params.Laws.{set_param-live}
use mlx5ctl.Diag.Flags.{parse_flags}
use mlx5ctl.Diag.Flags.Laws.{all_flags, mentions, parse_flags_lem, parse_flags-Quiet, flags_ret}
use mlx5ctl.Caps.Run.{cap_request, cap_op_mod}
use mlx5ctl.Diag.Commands.{
  einval, no_params, read_ids, num_of_counters, show_counter_ids, show_set, send_set, set_counters,
  set_accepted, set_args,
}

-- The two places that ask for the current capabilities of a type send the same command.
pub devcap_request-cap_request : (type : ℕ) → devcap_request type ≡ cap_request (cap_op_mod type 1)
unfolding devcap_request cap_request
devcap_request-cap_request type = refl

length-read_ids :
    (found : List ℕ) (toks : List (List ℕ)) (i left : ℕ)
    → length (read_ids found toks i left) ≡ left
unfolding read_ids
length-read_ids found toks i zero = refl
length-read_ids found [] i (suc left) = omega (arith, length-read_ids found [] (i + 1) left)
length-read_ids found (tok ∷ toks) i (suc left) =
    omega (arith, length-read_ids found toks (i + 1) left)

get_or-read_ids :
    (found : List ℕ) (toks : List (List ℕ)) (i left j : ℕ)
    → j < length toks
    → length toks ≤ left
    → get_or (read_ids found toks i left) j 0 ≡ strtoul (get_or toks j []) % 2 ^ 32
unfolding read_ids
get_or-read_ids found [] i left j here fits = absurd (omega arith)
get_or-read_ids found (tok ∷ toks) i zero j here fits = absurd (omega arith)
get_or-read_ids found (tok ∷ toks) i (suc left) zero here fits = refl
get_or-read_ids found (tok ∷ toks) i (suc left) (suc j) here fits =
    get_or-read_ids found toks (i + 1) left j (omega arith) (omega arith)

-- Every token gets its id, inside the ids that are allocated.
pub set_ids :
    (found s : List ℕ)
    → (length (read_ids found (tokens s) 0 (num_of_counters s)) ≡ num_of_counters s)
      × ((j : ℕ)
          → j < length (tokens s)
          → get_or (read_ids found (tokens s) 0 (num_of_counters s)) j 0
            ≡ strtoul (get_or (tokens s) j []) % 2 ^ 32)
set_ids found s = (
  length-read_ids found (tokens s) 0 (num_of_counters s),
  λ j here. get_or-read_ids found (tokens s) 0 (num_of_counters s) j here (length-tokens s),
)

show_counter_ids-live : (i : ℕ) (ids : List ℕ) → KeepsLive (show_counter_ids i ids)
unfolding show_counter_ids
show_counter_ids-live i [] a t = refl
show_counter_ids-live i (id ∷ rest) a t = show_counter_ids-live (i + 1) rest a _

-- An argument of flags that `set` refuses: one with a character that is no flag, or with `o`.
abbrev pub refused : List ℕ → Bool
refused s = if all_flags s then mentions b'o' s else true

refused_by :
    (known on_demand : Bool)
    → is_nonzero (if known then pos (flags_ret on_demand) else negsuc 0)
      ≡ (if known then on_demand else true)
refused_by true true = refl
refused_by true false = refl
refused_by false on_demand = refl

refused_nonzero :
    (s : List ℕ) (t : Trace) → is_nonzero (parse_flags s 0 no_params t).0.0 ≡ refused s
refused_nonzero s t =
    ap is_nonzero (parse_flags_lem s false no_params t) ∙ refused_by (all_flags s) (mentions b'o' s)

show_set-live : (p : SetDiagParams) (freq : ℤ) → KeepsLive (show_set p freq)
unfolding show_set
show_set-live p freq a t = show_counter_ids-live 0 p.counter_ids a _

module _ (os : Os) where
  get_dev_freq-live : KeepsLive (get_dev_freq os)
  unfolding get_dev_freq mlx5u_cmd
  get_dev_freq-live a t = refl

  send_set-fails :
      (p : SetDiagParams) (block : Option Block) (freq : ℤ) (t : Trace)
      → is_negative freq ≡ true
      → is_negative (send_set os p block freq t).0 ≡ true
  unfolding send_set
  send_set-fails p block freq t negative = rw negative negative

  send_set-live :
      (p : SetDiagParams) (block : Option Block) (freq : ℤ) (a : ℕ) (t : Trace)
      → is_negative (send_set os p block freq t).0 ≡ false
      → live a (send_set os p block freq t).1 ≡ live a t - is_at a (address block)
  unfolding send_set
  send_set-live p block freq a t fine = elim (Bool-cases (is_negative freq)) [
    | inl negative ↦ absurd (cc (fine, send_set-fails p block freq t negative))
    | inr had ↦
        let (err, t') = mlx5_diag_cnt_set_param os p (show_set p freq t).1 in
        elim (Bool-cases (is_nonzero err)) [
          | inl refusal ↦
              rw (had, refusal)
                (omega
                  (arith, set_param-live os p a (show_set p freq t).1, show_set-live p freq a t))
          | inr done ↦
              rw (had, done)
                (omega
                  (arith, set_param-live os p a (show_set p freq t).1, show_set-live p freq a t))
        ]
  ]

  set_counters-live :
      (p : SetDiagParams) (samples period counters : String) (block : Option Block) (a : ℕ)
      (t : Trace)
      → is_negative (set_counters os p samples period counters block t).0 ≡ false
      → live a (set_counters os p samples period counters block t).1
        ≡ live a t - is_at a (address block)
  unfolding set_counters
  set_counters-live p samples period counters none a t fine = omega arith
  set_counters-live p samples period counters (some block) a t fine =
      send_set-live _ (some block) (get_dev_freq os t).0 a (get_dev_freq os t).1 fine
      ∙ omega (arith, get_dev_freq-live a t)

module _ (os : Os) (cmd flags samples period counters : String) (more : List String) where
  abbrev argv : List String
  argv = cmd ∷ flags ∷ samples ∷ period ∷ counters ∷ more

  -- With flags that parse_flags answers with a value that is not 0, as it does for every flag it
  -- does not know and for the flag of on_demand, `diagcnt set` returns EINVAL, sends nothing and
  -- changes no memory.
  pub set_args-refused :
      (t : Trace)
      → refused (codes flags) ≡ true
      → ((set_args os argv t).0 ≡ pos einval) × Quiet t (set_args os argv t).1
  unfolding set_args
  set_args-refused t bad =
      rw (refused_nonzero (codes flags) t ∙ bad)
        (refl, parse_flags-Quiet (codes flags) 0 no_params t)

  abbrev parsed : Trace → (ℤ × SetDiagParams) × Trace
  parsed t = parse_flags (codes flags) 0 no_params t

  pub set_args-accepted :
      (t : Trace)
      → refused (codes flags) ≡ false
      → set_args os argv t ≡ set_accepted os (parsed t).0.1 samples period counters (parsed t).1
  unfolding set_args
  set_args-accepted t good = rw (refused_nonzero (codes flags) t ∙ good) refl

  set_accepted-live :
      (p : SetDiagParams) (a : ℕ) (t : Trace)
      → is_negative (set_accepted os p samples period counters t).0 ≡ false
      → live a (set_accepted os p samples period counters t).1 ≡ live a t
  unfolding set_accepted
  set_accepted-live p a t fine =
      let n : ℕ = num_of_counters (codes counters) * 4 in
      let block : Option Block = os.alloc t n in
      set_counters-live os p samples period counters block a (allocated n (address block) ∷ t) fine
      ∙ omega arith

  -- When the result of `diagcnt set` with all its arguments is not negative, it leaves as many
  -- blocks allocated at every address as before.
  pub set_args-live :
      (t : Trace)
      → is_negative (set_args os argv t).0 ≡ false
      → (a : ℕ) → live a (set_args os argv t).1 ≡ live a t
  set_args-live t fine a = elim (Bool-cases (refused (codes flags))) [
    | inl bad ↦ (set_args-refused t bad).1.0 a
    | inr good ↦
        ap (λ r. live a r.1) (set_args-accepted t good)
        ∙ set_accepted-live (parsed t).0.1 a (parsed t).1
            (ap (λ r. is_negative r.0) (sym (set_args-accepted t good)) ∙ fine)
        ∙ (parse_flags-Quiet (codes flags) 0 no_params t).0 a
  ]
