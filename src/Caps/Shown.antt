-- ===== src/Caps/Shown.antt =====
-- The `printcap` and `printcap64` macros of devcaps.c: one line for each field of a capability.
use mlx5ctl.Base.{ℕ, ◌+◌, ◌*◌, String, List, [], ◌∷◌}
use mlx5ctl.Ifc.{Layout, fld, mlx5_get, mlx5_get64}
use mlx5ctl.Os.{Output, number, element, M, ◌>>◌, pure, show}

-- `printcap(name)`, `printcap64(name)`, and `printcap(name[i])` over 32-bit elements.
pub data Shown : Type 0 where
  word : String → Shown
  long : String → Shown
  sub : String → ℕ → Shown

-- A `printcap_t`, on the bytes of the capability.
abbrev pub Printcap : Type 0
Printcap = List ℕ → M (Unit {0})

pub shown_value : Layout → List ℕ → Shown → Output
shown_value typ buf (word name) = number name (mlx5_get buf 0 (fld typ name))
shown_value typ buf (long name) = number name (mlx5_get64 buf 0 (fld typ name))
shown_value typ buf (sub name i) =
    element name i
      (mlx5_get buf 0 (record { bit_off = (fld typ name).bit_off + i * 0x20; bit_sz = 0x20 }))

unfoldable pub print_fields : Layout → List Shown → Printcap
unfolding shown_value
print_fields typ [] buf = pure tt
print_fields typ (s ∷ rest) buf = do show (shown_value typ buf s); print_fields typ rest buf
