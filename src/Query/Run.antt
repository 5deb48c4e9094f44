-- ===== src/Query/Run.antt =====
-- get_query_func and query_obj of query_obj.c.
pub mod Laws
use mlx5ctl.Base.{
  ℕ, ◌==◌, if◌then◌else◌, str_eq, String, Bool, Option, none, some, List, [], ◌∷◌, take,
}
use mlx5ctl.Base.Int.{ℤ, is_negative}
use mlx5ctl.Memory.{zeroed}
use mlx5ctl.Os.{Os, Output, bytes_hex, bytes_raw, M, ◌>>=◌, ◌>>◌, pure, show, malloc, free}
use mlx5ctl.Device.{mlx5u_cmd}
use mlx5ctl.Query.Filled.{Filled, QueryFunc}
use mlx5ctl.Query.Table.{ObjNameFunc, query_funcs}

-- The loop of get_query_func.
pub find_func : List ObjNameFunc → String → Option QueryFunc
find_func [] obj_name = none
find_func (f ∷ rest) obj_name =
    if str_eq obj_name f.obj_name then some f.obj_func else find_func rest obj_name

unfoldable pub get_query_func : String → Option QueryFunc
unfolding find_func query_funcs
get_query_func obj_name = find_func query_funcs obj_name

-- The global buffer `in`.
abbrev pub in_size : ℕ
in_size = 4096

-- `fwrite` with --bin, and else `hexdump`.
abbrev pub dumped : Bool → List ℕ → Output
dumped bin_format out = if bin_format then bytes_raw out else bytes_hex out

module _ (os : Os) where
  -- From the `malloc` on, for the command that the function filled in.
  pub send_query : Filled → Bool → M ℕ
  send_query filled bin_format = do
    block ← malloc os filled.out_sz
    elim block [
      | none ↦ pure 1
      | some out ↦ (do
        (err, answer) ← mlx5u_cmd os (take filled.in_sz filled.input) (zeroed filled.out_sz)
        if is_negative err
            then (do free (some out); pure 1)
            else (do show (dumped bin_format answer); free (some out); pure 0))
    ]

  -- From the test of `fun` on.
  pub query_with : Option QueryFunc → ℕ → ℕ → Bool → M ℕ
  unfolding send_query
  query_with none obj_id op_mod bin_format = pure 1
  query_with (some fun) obj_id op_mod bin_format =
      send_query (fun obj_id op_mod (zeroed in_size)) bin_format

  -- With the arguments parsed. The exit code.
  unfoldable pub query_obj : String → ℕ → ℕ → Bool → M ℕ
  unfolding get_query_func query_with
  query_obj obj_name obj_id op_mod bin_format =
      query_with (get_query_func obj_name) obj_id op_mod bin_format
