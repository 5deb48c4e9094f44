-- ===== src/Ifc/Disjoint.antt =====
-- Two fields of one struct never overlap, whatever the layout.
use mlx5ctl.Base.{ℕ, ◌+◌, ◌≤◌, ◌≡◌, ◌≢◌, String, List, [], ◌∷◌, length, arith, eq_iff, inl}
use mlx5ctl.Memory.{IsBytes}
use mlx5ctl.Ifc.{Layout, find_field, fld, mlx5_get, mlx5_set, IsWord, Holds}
use mlx5ctl.Ifc.Laws.{Disjoint, get-set_ne}

find_field-ge : (off : ℕ) (typ : Layout) (a : String) → off ≤ (find_field off typ a).bit_off
unfolding find_field
find_field-ge off [] a = omega arith
find_field-ge off ((n, sz) ∷ rest) a = ground (arith, find_field-ge (off + sz) rest a)

find_field-Disjoint :
    (off : ℕ) (typ : Layout) (a b : String)
    → a ≢ b
    → Disjoint (find_field off typ a) (find_field off typ b)
unfolding find_field
find_field-Disjoint off [] a b h = inl (omega arith)
find_field-Disjoint off ((n, sz) ∷ rest) a b h = ground (
  arith,
  eq_iff n a,
  eq_iff n b,
  find_field-ge (off + sz) rest a,
  find_field-ge (off + sz) rest b,
  find_field-Disjoint (off + sz) rest a b h,
)

-- In every struct, MLX5_SET of a field leaves what MLX5_GET reads of any other field as it was,
-- when each of the two lies inside a 32-bit word, the word written lies inside the buffer and
-- the buffer holds bytes.
pub get-set_other :
    (typ : Layout) (a b : String) (buf : List ℕ) (p v : ℕ)
    → a ≢ b
    → IsWord (fld typ a)
    → IsWord (fld typ b)
    → Holds (length buf) p (fld typ a)
    → IsBytes buf
    → mlx5_get (mlx5_set buf p (fld typ a) v) p (fld typ b) ≡ mlx5_get buf p (fld typ b)
unfolding fld
get-set_other typ a b buf p v ne ha hb inside bytes =
    get-set_ne buf p (find_field 0 typ a) (find_field 0 typ b) v ha hb
      (find_field-Disjoint 0 typ a b ne) inside bytes
