-- ===== src/Ifc/Fields.antt =====
-- A run of MLX5_SET statements, read back field by field.
use mlx5ctl.Base.{
  ℕ, ◌+◌, ◌*◌, ◌≤◌, ◌<◌, ◌⊎◌, ◌%◌, ◌^◌, ◌≡◌, ◌∙◌, refl, ap, sym, String, List, [], ◌∷◌, length,
  eq_iff, str_eq, if◌then◌else◌, Bool-cases, inl, inr,
}
use mathlib.Core.Path.{subst}
use mathlib.Core.Bool.{false≢true}
use mlx5ctl.Memory.{byte_at, IsBytes}
use mlx5ctl.Ifc.{Layout, Field, fld, dw_off, mlx5_get, mlx5_set, set_fields, IsWord, Holds}
use mlx5ctl.Ifc.Laws.{get-set, length-mlx5_set, mlx5_set-IsBytes, byte_at-mlx5_set, get-set_far}
use mlx5ctl.Ifc.Disjoint.{get-set_other}

-- The value that the last statement for `name` sets, else `old`.
abbrev pub assigned : String → ℕ → Layout → List (String × ℕ) → ℕ
assigned name old typ [] = old
assigned name old typ ((n, v) ∷ rest) =
    assigned name (if str_eq n name then v % 2 ^ (fld typ name).bit_sz else old) typ rest

-- Every field set lies in one word, inside a buffer of `len` bytes.
abbrev pub Writable : Layout → ℕ → ℕ → List (String × ℕ) → Type 0
Writable typ len p [] = Unit {0}
Writable typ len p ((n, v) ∷ rest) =
    IsWord (fld typ n) × Holds len p (fld typ n) × Writable typ len p rest

-- One statement, read at any field.
get-set_named :
    (typ : Layout) (a b : String) (buf : List ℕ) (p v : ℕ)
    → IsWord (fld typ a)
    → IsWord (fld typ b)
    → Holds (length buf) p (fld typ a)
    → IsBytes buf
    → mlx5_get (mlx5_set buf p (fld typ a) v) p (fld typ b)
      ≡ (if str_eq a b then v % 2 ^ (fld typ b).bit_sz else mlx5_get buf p (fld typ b))
get-set_named typ a b buf p v ha hb inside bytes = elim (Bool-cases (str_eq a b)) [
  | inl same ↦
      rw (same, (eq_iff a b).0 same)
        (get-set buf p (fld typ b) v hb
          (subst (λ c. Holds (length buf) p (fld typ c)) ((eq_iff a b).0 same) inside) bytes)
  | inr other ↦ rw other (
      get-set_other typ a b buf p v (λ e. false≢true (sym other ∙ (eq_iff a b).1 e)) ha hb inside
        bytes)
]

-- After a run of MLX5_SET statements on one struct, MLX5_GET of a field gives the value, cut to
-- the width of the field, that the last statement for the field sets, and what the field held
-- before when none does; every field named lies inside a 32-bit word of the buffer, and the
-- buffer holds bytes.
pub set_fields_lem :
    (typ : Layout) (b : String) (buf : List ℕ) (p : ℕ) (sets : List (String × ℕ))
    → IsWord (fld typ b)
    → Writable typ (length buf) p sets
    → IsBytes buf
    → mlx5_get (set_fields typ buf p sets) p (fld typ b)
      ≡ assigned b (mlx5_get buf p (fld typ b)) typ sets
unfolding set_fields
set_fields_lem typ b buf p [] h w bytes = refl
set_fields_lem typ b buf p ((n, v) ∷ rest) h (word, inside, later) bytes =
    set_fields_lem typ b (mlx5_set buf p (fld typ n) v) p rest h
      (subst (λ len. Writable typ len p rest) (sym (length-mlx5_set buf p (fld typ n) v)) later)
      (mlx5_set-IsBytes buf p (fld typ n) v bytes)
    ∙ ap (λ old. assigned b old typ rest) (get-set_named typ n b buf p v word h inside bytes)

pub length-set_fields :
    (typ : Layout) (buf : List ℕ) (p : ℕ) (sets : List (String × ℕ))
    → length (set_fields typ buf p sets) ≡ length buf
unfolding set_fields
length-set_fields typ buf p [] = refl
length-set_fields typ buf p ((n, v) ∷ rest) =
    length-set_fields typ (mlx5_set buf p (fld typ n) v) p rest
    ∙ length-mlx5_set buf p (fld typ n) v

pub set_fields-IsBytes :
    (typ : Layout) (buf : List ℕ) (p : ℕ) (sets : List (String × ℕ))
    → IsBytes buf
    → IsBytes (set_fields typ buf p sets)
unfolding set_fields
set_fields-IsBytes typ buf p [] h = h
set_fields-IsBytes typ buf p ((n, v) ∷ rest) h =
    set_fields-IsBytes typ (mlx5_set buf p (fld typ n) v) p rest
      (mlx5_set-IsBytes buf p (fld typ n) v h)

-- No statement of the run writes byte `j`.
abbrev pub Untouched : Layout → ℕ → List (String × ℕ) → ℕ → Type 0
Untouched typ p [] j = Unit {0}
Untouched typ p ((n, v) ∷ rest) j =
    ((j < p + 4 * dw_off (fld typ n)) ⊎ (p + 4 * dw_off (fld typ n) + 4 ≤ j))
    × Untouched typ p rest j

pub byte_at-set_fields :
    (typ : Layout) (buf : List ℕ) (p : ℕ) (sets : List (String × ℕ)) (j : ℕ)
    → Untouched typ p sets j
    → byte_at (set_fields typ buf p sets) j ≡ byte_at buf j
unfolding set_fields
byte_at-set_fields typ buf p [] j h = refl
byte_at-set_fields typ buf p ((n, v) ∷ rest) j (away, later) =
    byte_at-set_fields typ (mlx5_set buf p (fld typ n) v) p rest j later
    ∙ byte_at-mlx5_set buf p (fld typ n) v j away

-- The word of `f` at `q` is apart from every word that the run writes.
abbrev pub FarFrom : Layout → ℕ → List (String × ℕ) → ℕ → Field → Type 0
FarFrom typ p [] q f = Unit {0}
FarFrom typ p ((n, v) ∷ rest) q f =
    ((q + 4 * dw_off f + 4 ≤ p + 4 * dw_off (fld typ n))
      ⊎ (p + 4 * dw_off (fld typ n) + 4 ≤ q + 4 * dw_off f))
    × FarFrom typ p rest q f

pub get-set_fields_far :
    (typ : Layout) (buf : List ℕ) (p : ℕ) (sets : List (String × ℕ)) (q : ℕ) (f : Field)
    → FarFrom typ p sets q f
    → mlx5_get (set_fields typ buf p sets) q f ≡ mlx5_get buf q f
unfolding set_fields
get-set_fields_far typ buf p [] q f h = refl
get-set_fields_far typ buf p ((n, v) ∷ rest) q f (apart, later) =
    get-set_fields_far typ (mlx5_set buf p (fld typ n) v) p rest q f later
    ∙ get-set_far buf p (fld typ n) v q f apart
