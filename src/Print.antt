-- ===== src/Print.antt =====
-- The `print_fld` macros: one line for each named field of a struct.
pub mod Laws
pub mod Hex
use mlx5ctl.Base.{ℕ, String, List, [], ◌∷◌, ◌==◌, if◌then◌else◌}
use mlx5ctl.Ifc.{Layout, fld, mlx5_get}
use mlx5ctl.Os.{number, M, ◌>>◌, pure, show}

-- `print_fld(name)` for each name, on the struct at `buf + p`.
unfoldable pub show_fields : Layout → List ℕ → ℕ → List String → M (Unit {0})
show_fields typ buf p [] = pure tt
show_fields typ buf p (name ∷ rest) = do
  show (number name (mlx5_get buf p (fld typ name)))
  show_fields typ buf p rest

-- The bytes before the first NUL, as `%s` prints them.
unfoldable pub c_string : List ℕ → List ℕ
c_string [] = []
c_string (b ∷ rest) = if b == 0 then [] else b ∷ c_string rest
