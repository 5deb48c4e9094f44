-- ===== src/Print/Laws.antt =====
-- Printing allocates nothing.
use mlx5ctl.Base.{ℕ, refl, String, List, [], ◌∷◌}
use mlx5ctl.Ifc.{Layout}
use mlx5ctl.Os.Live.{KeepsLive}
use mlx5ctl.Print.{show_fields}

pub show_fields-live :
    (typ : Layout) (buf : List ℕ) (p : ℕ) (names : List String)
    → KeepsLive (show_fields typ buf p names)
unfolding show_fields
show_fields-live typ buf p [] a t = refl
show_fields-live typ buf p (name ∷ rest) a t = show_fields-live typ buf p rest a _
