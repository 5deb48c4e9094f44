-- ===== src/Diag/Flags.antt =====
-- parse_flags of diag_cnt.c.
pub mod Laws
use mlx5ctl.Base.{ℕ, bit_or, ◌==◌, if◌then◌else◌, Option, none, some, List, [], ◌∷◌, get_or}
use mlx5ctl.Base.Int.{ℤ, pos, negsuc}
use mlx5ctl.Os.{M, chars, ◌>>◌, pure, show}
use mlx5ctl.Diag.Params.{SetDiagParams}

-- The `switch`: the new `ret` and parameters, or `none` for the default case.
unfoldable pub flag : ℕ → ℕ → SetDiagParams → Option (ℕ × SetDiagParams)
flag c ret p =
    if c == b'-'
    then some (ret, p)
    else if c == b'c'
    then some (ret, record p { clear = 1 })
    else if c == b'S'
    then some (ret, record p { sync = 1 })
    else if c == b's'
    then some (ret, record p { single = 1 })
    else if c == b'r'
    then some (ret, record p { repetitive = 1 })
    else if c == b'o'
    then some (bit_or ret 0x8, record p { on_demand = 1 })
    else none

-- `flags` from some character on, with the `ret` so far. The message of the default case prints the
-- character that follows, since the index has been advanced.
unfoldable pub parse_flags : List ℕ → ℕ → SetDiagParams → M (ℤ × SetDiagParams)
unfolding flag
parse_flags [] ret p = pure (pos ret, p)
parse_flags (c ∷ rest) ret p = elim (flag c ret p) [
  | none ↦ show (chars (get_or rest 0 0 ∷ [])) >> pure (negsuc 0, p)
  | some (r, q) ↦ parse_flags rest r q
]
