-- ===== src/Diag/Flags/Laws.antt =====
-- What parse_flags returns and sets.
use mlx5ctl.Base.{
  ℕ, ◌≡◌, ◌∙◌, refl, ap, sym, ==_iff, bit_or, inl, inr, ◌==◌, if◌then◌else◌, Bool, true, false,
  Bool-cases, ◌||◌, ◌&&◌, none, Option-cases, List, [], ◌∷◌,
}
use mathlib.Core.Path.{subst}
use mlx5ctl.Base.Int.{pos, negsuc}
use mlx5ctl.Os.{Trace}
use mlx5ctl.Os.Live.{Quiet}
use mlx5ctl.Diag.Params.{SetDiagParams}
use mlx5ctl.Diag.Flags.{flag, parse_flags}

-- The characters that the usage message lists, and the dash.
abbrev pub is_flag : ℕ → Bool
is_flag c =
    (c == b'-') || ((c == b'c') || ((c == b'S') || ((c == b's') || ((c == b'r') || (c == b'o')))))

abbrev pub all_flags : List ℕ → Bool
all_flags [] = true
all_flags (c ∷ rest) = is_flag c && all_flags rest

abbrev pub mentions : ℕ → List ℕ → Bool
mentions f [] = false
mentions f (c ∷ rest) = (c == f) || mentions f rest

-- 1 where the flag is given, and else what was there.
abbrev pub set_by : ℕ → List ℕ → ℕ → ℕ
set_by f s old = if mentions f s then 1 else old

abbrev pub flags_set : List ℕ → SetDiagParams → SetDiagParams
flags_set s p = record p {
  clear = set_by b'c' s p.clear;
  sync = set_by b'S' s p.sync;
  single = set_by b's' s p.single;
  repetitive = set_by b'r' s p.repetitive;
  on_demand = set_by b'o' s p.on_demand;
}

abbrev pub flags_ret : Bool → ℕ
flags_ret seen = if seen then 8 else 0

-- By the character: one of the six, or none of them.
by_flag :
    (P : ℕ → Type 0)
    → P b'-'
    → P b'c'
    → P b'S'
    → P b's'
    → P b'r'
    → P b'o'
    → ((c : ℕ)
        → (c == b'-') ≡ false
        → (c == b'c') ≡ false
        → (c == b'S') ≡ false
        → (c == b's') ≡ false
        → (c == b'r') ≡ false
        → (c == b'o') ≡ false
        → P c)
    → (c : ℕ) → P c
by_flag P dash clear sync single repetitive on_demand other c = elim (Bool-cases (c == b'-')) [
  | inl e ↦ subst P (sym ((==_iff c b'-').0 e)) dash
  | inr e1 ↦ elim (Bool-cases (c == b'c')) [
    | inl e ↦ subst P (sym ((==_iff c b'c').0 e)) clear
    | inr e2 ↦ elim (Bool-cases (c == b'S')) [
      | inl e ↦ subst P (sym ((==_iff c b'S').0 e)) sync
      | inr e3 ↦ elim (Bool-cases (c == b's')) [
        | inl e ↦ subst P (sym ((==_iff c b's').0 e)) single
        | inr e4 ↦ elim (Bool-cases (c == b'r')) [
          | inl e ↦ subst P (sym ((==_iff c b'r').0 e)) repetitive
          | inr e5 ↦ elim (Bool-cases (c == b'o')) [
            | inl e ↦ subst P (sym ((==_iff c b'o').0 e)) on_demand
            | inr e6 ↦ other c e1 e2 e3 e4 e5 e6
          ]
        ]
      ]
    ]
  ]
]

flag-other :
    (c ret : ℕ) (p : SetDiagParams)
    → (c == b'-') ≡ false
    → (c == b'c') ≡ false
    → (c == b'S') ≡ false
    → (c == b's') ≡ false
    → (c == b'r') ≡ false
    → (c == b'o') ≡ false
    → (flag c ret p ≡ none) × (is_flag c ≡ false)
unfolding flag
flag-other c ret p e1 e2 e3 e4 e5 e6 = rw (e1, e2, e3, e4, e5, e6) (refl, refl)

rejected :
    (c ret : ℕ) (rest : List ℕ) (p : SetDiagParams) (t : Trace)
    → flag c ret p ≡ none
    → (parse_flags (c ∷ rest) ret p t).0.0 ≡ negsuc 0
unfolding parse_flags
rejected c ret rest p t e = rw (parse_flags, e) refl

or_true : (b : Bool) → (b || true) ≡ true
or_true true = refl
or_true false = refl

ret_or : (seen : Bool) → bit_or (flags_ret seen) 8 ≡ 8
ret_or true = refl
ret_or false = refl

pub parse_flags_lem :
    (s : List ℕ) (seen : Bool) (p : SetDiagParams) (t : Trace)
    → (parse_flags s (flags_ret seen) p t).0.0
      ≡ (if all_flags s then pos (flags_ret (seen || mentions b'o' s)) else negsuc 0)
unfolding parse_flags flag
parse_flags_lem [] true p t = refl
parse_flags_lem [] false p t = refl
parse_flags_lem (c ∷ rest) seen p t =
    by_flag
      (λ c. (parse_flags (c ∷ rest) (flags_ret seen) p t).0.0 ≡ (
        if all_flags (c ∷ rest)
        then pos (flags_ret (seen || mentions b'o' (c ∷ rest)))
        else negsuc 0))
      (parse_flags_lem rest seen p t) (parse_flags_lem rest seen _ t)
      (parse_flags_lem rest seen _ t) (parse_flags_lem rest seen _ t)
      (parse_flags_lem rest seen _ t)
      (rw (ret_or seen, or_true seen) (parse_flags_lem rest true _ t))
      (λ c e1 e2 e3 e4 e5 e6.
        let (none_of, no_flag) = flag-other c (flags_ret seen) p e1 e2 e3 e4 e5 e6 in
        rejected c (flags_ret seen) rest p t none_of ∙ rw no_flag refl)
      c

set_by_one : (f : ℕ) (s : List ℕ) → set_by f s 1 ≡ 1
set_by_one f s = elim (Bool-cases (mentions f s)) [ inl e ↦ rw e refl | inr e ↦ rw e refl ]

-- For a string of known flags only, the parameters that parse_flags gives are those given with
-- the field of each flag set to 1 when the string has the flag, in whatever order and how often.
pub parse_flags_params :
    (s : List ℕ) (ret : ℕ) (p : SetDiagParams) (t : Trace)
    → all_flags s ≡ true
    → (parse_flags s ret p t).0.1 ≡ flags_set s p
unfolding parse_flags flag
parse_flags_params [] ret p t ok = refl
parse_flags_params (c ∷ rest) ret p t ok =
    by_flag
      (λ c.
        all_flags (c ∷ rest) ≡ true → (parse_flags (c ∷ rest) ret p t).0.1 ≡ flags_set (c ∷ rest) p)
      (λ ok. parse_flags_params rest ret p t ok)
      (λ ok. parse_flags_params rest ret _ t ok ∙ rw (set_by_one b'c' rest) refl)
      (λ ok. parse_flags_params rest ret _ t ok ∙ rw (set_by_one b'S' rest) refl)
      (λ ok. parse_flags_params rest ret _ t ok ∙ rw (set_by_one b's' rest) refl)
      (λ ok. parse_flags_params rest ret _ t ok ∙ rw (set_by_one b'r' rest) refl)
      (λ ok. parse_flags_params rest (bit_or ret 8) _ t ok ∙ rw (set_by_one b'o' rest) refl)
      (λ c e1 e2 e3 e4 e5 e6 accepted. absurd (
        cc (sym accepted ∙ ap (λ b. b && all_flags rest) (flag-other c ret p e1 e2 e3 e4 e5 e6).1)))
      c ok

-- A run sends and allocates nothing.
pub parse_flags-Quiet :
    (s : List ℕ) (ret : ℕ) (p : SetDiagParams) (t : Trace) → Quiet t (parse_flags s ret p t).1
unfolding parse_flags
parse_flags-Quiet [] ret p t = (λ a. refl, refl)
parse_flags-Quiet (c ∷ rest) ret p t = elim (Option-cases (flag c ret p)) [
  | inl e ↦ rw (parse_flags, e) (λ a. refl, refl)
  | inr ((r, q), e) ↦ rw (parse_flags, e) (parse_flags-Quiet rest r q t)
]
