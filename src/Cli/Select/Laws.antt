-- ===== src/Cli/Select/Laws.antt =====
-- Which command cmd_select runs.
use mlx5ctl.Base.{
  ◌≡◌, refl, ap, ◌⊎◌, inl, inr, Bool-cases, ◌≢◌, false, String, none, some, List, [], ◌∷◌, str_eq,
  eq_iff,
}
use mlx5ctl.Base.Int.{ℤ, negsuc}
use mlx5ctl.Os.{M, Trace}
use mlx5ctl.Cli.Select.{Cmd, returned, find_cmd, run_cmd, cmd_select}

-- `c` is the first entry that has the name.
abbrev pub IsFirstNamed : List Cmd → String → Cmd → Type 0
IsFirstNamed [] arg c = ⊥
IsFirstNamed (d ∷ rest) arg c =
    ((d.name ≡ arg) × (d ≡ c)) ⊎ ((d.name ≢ arg) × IsFirstNamed rest arg c)

-- No entry has the name.
abbrev pub IsAbsent : List Cmd → String → Type 0
IsAbsent [] arg = Unit {0}
IsAbsent (d ∷ rest) arg = (d.name ≢ arg) × IsAbsent rest arg

abbrev Found : List Cmd → String → Type 0
Found cmds arg =
    ((c : Cmd) × IsFirstNamed cmds arg c × (find_cmd cmds arg ≡ some c))
    ⊎ (IsAbsent cmds arg × (find_cmd cmds arg ≡ none))

other_name : (a b : String) → str_eq a b ≡ false → a ≢ b
other_name a b e same = absurd (cc (e, (eq_iff a b).1 same))

find_cmd-cases : (cmds : List Cmd) (arg : String) → Found cmds arg
unfolding find_cmd
find_cmd-cases [] arg = inr (tt, refl)
find_cmd-cases (d ∷ rest) arg = elim (Bool-cases (str_eq d.name arg)) [
  | inl same ↦ inl (d, inl ((eq_iff d.name arg).0 same, refl), rw same refl)
  | inr other ↦ elim (find_cmd-cases rest arg) [
    | inl (c, first, found) ↦ inl (c, inr (other_name d.name arg other, first), rw other found)
    | inr (absent, found) ↦ inr ((other_name d.name arg other, absent), rw other found)
  ]
]

-- cmd_select on arguments that are not empty runs the first entry of the table with the name of
-- the first argument, on all the arguments; when there is none it runs the help and returns -1.
pub cmd_select_lem :
    (help : M ℤ) (first : Cmd) (rest : List Cmd) (arg : String) (args : List String) (t : Trace)
    → ((c : Cmd) × IsFirstNamed (first ∷ rest) arg c
        × (cmd_select help first rest (arg ∷ args) t ≡ c.func (arg ∷ args) t))
      ⊎ (IsAbsent (first ∷ rest) arg
          × (cmd_select help first rest (arg ∷ args) t ≡ (returned (negsuc 0), (help t).1)))
unfolding cmd_select
cmd_select_lem help first rest arg args t = elim (find_cmd-cases (first ∷ rest) arg) [
  | inl (c, named, found) ↦ inl (c, named, ap (λ o. run_cmd help o (arg ∷ args) t) found)
  | inr (absent, found) ↦ inr (absent, ap (λ o. run_cmd help o (arg ∷ args) t) found)
]
