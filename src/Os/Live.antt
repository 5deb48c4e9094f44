-- ===== src/Os/Live.antt =====
-- What a trace tells: the blocks not yet freed, and the commands sent.
use mlx5ctl.Base.{
  ◌≡◌, ℕ, ◌+◌, ◌-◌, Option, none, some, List, [], ◌∷◌, ◌==◌, if◌then◌else◌, Bool, true, false, ◌∙◌,
}
use mlx5ctl.Os.{allocated, reallocated, freed, called, shown, Trace, M, ◌>>=◌}

abbrev pub is_at : ℕ → Option ℕ → ℕ
is_at a none = 0
is_at a (some b) = if a == b then 1 else 0

-- How many blocks at address `a` are allocated and not freed.
abbrev pub live : ℕ → Trace → ℕ
live a [] = 0
live a (allocated n p ∷ t) = live a t + is_at a p
live a (reallocated old n none ∷ t) = live a t
live a (reallocated old n (some p) ∷ t) = live a t - is_at a (some old) + is_at a (some p)
live a (freed p ∷ t) = live a t - is_at a p
live a (called input ret out ∷ t) = live a t
live a (shown o ∷ t) = live a t

-- The inputs of the commands that were sent, the newest first.
abbrev pub requests : Trace → List (List ℕ)
requests [] = []
requests (allocated n p ∷ t) = requests t
requests (reallocated old n p ∷ t) = requests t
requests (freed p ∷ t) = requests t
requests (called input ret out ∷ t) = input ∷ requests t
requests (shown o ∷ t) = requests t

-- A call that allocates and frees nothing in the end.
abbrev pub KeepsLive : {A : Type 0} → M A → Type 0
KeepsLive m = (a : ℕ) (t : Trace) → live a (m t).1 ≡ live a t

-- From the first trace to the second, nothing was sent, and no block was taken or given back.
abbrev pub Quiet : Trace → Trace → Type 0
Quiet t t' = ((a : ℕ) → live a t' ≡ live a t) × (requests t' ≡ requests t)

pub if-KeepsLive :
    {A : Type 0} (b : Bool) (m k : M A) → KeepsLive m → KeepsLive k → KeepsLive (if b then m else k)
if-KeepsLive true m k hm hk = hm
if-KeepsLive false m k hm hk = hk

pub then-KeepsLive :
    {A B : Type 0} (m : M A) (k : A → M B)
    → KeepsLive m
    → ((a : A) → KeepsLive (k a))
    → KeepsLive (m >>= k)
then-KeepsLive m k hm hk a t = hk (m t).0 a (m t).1 ∙ hm a t
