-- ===== src/Query/Run/Laws.antt =====
-- That a query frees its buffer, and that the commands fit the buffers they are made in.
use mlx5ctl.Base.{
  ℕ, ◌≤◌, ◌≡◌, refl, inl, inr, arith, Bool, String, Option, none, some, List, [], ◌∷◌, Bool-cases,
  str_eq,
}
use mlx5ctl.Memory.{zeroed}
use mlx5ctl.Ifc.{mlx5_st_sz_bytes}
use mlx5ctl.Prm.Commands.{mbox_out}
use mlx5ctl.Os.{Os, Trace}
use mlx5ctl.Os.Live.{live}
use mlx5ctl.Device.{mlx5u_cmd}
use mlx5ctl.Query.Filled.{Filled, QueryFunc}
use mlx5ctl.Query.Table.{ObjNameFunc, query_funcs}
use mlx5ctl.Query.Run.{find_func, get_query_func, in_size, send_query, query_with, query_obj}

module _ (os : Os) where
  send_query-live :
      (filled : Filled) (bin_format : Bool) (a : ℕ) (t : Trace)
      → live a (send_query os filled bin_format t).1 ≡ live a t
  unfolding send_query mlx5u_cmd
  send_query-live filled bin_format a t = ground arith

  query_with-live :
      (fun : Option QueryFunc) (obj_id op_mod : ℕ) (bin_format : Bool) (a : ℕ) (t : Trace)
      → live a (query_with os fun obj_id op_mod bin_format t).1 ≡ live a t
  unfolding query_with
  query_with-live none obj_id op_mod bin_format a t = refl
  query_with-live (some fun) obj_id op_mod bin_format a t =
      send_query-live (fun obj_id op_mod (zeroed in_size)) bin_format a t

  -- Whatever the name, the memory and the answer of the device, query_obj leaves as many blocks
  -- allocated at every address as before.
  pub query_obj-live :
      (obj_name : String) (obj_id op_mod : ℕ) (bin_format : Bool) (a : ℕ) (t : Trace)
      → live a (query_obj os obj_name obj_id op_mod bin_format t).1 ≡ live a t
  unfolding query_obj
  query_obj-live obj_name obj_id op_mod bin_format a t =
      query_with-live (get_query_func obj_name) obj_id op_mod bin_format a t

module _ (obj_id op_mod : ℕ) (input : List ℕ) where
  -- The command lies in the global input buffer, and the output has room for the status and the
  -- syndrome.
  abbrev pub Fits : QueryFunc → Type 0
  Fits fun =
      ((fun obj_id op_mod input).in_sz ≤ in_size)
      × (mlx5_st_sz_bytes mbox_out ≤ (fun obj_id op_mod input).out_sz)

  abbrev AllFit : List ObjNameFunc → Type 0
  AllFit [] = Unit {0}
  AllFit (f ∷ rest) = Fits f.obj_func × AllFit rest

  abbrev pub IfFits : Option QueryFunc → Type 0
  IfFits none = Unit {0}
  IfFits (some fun) = Fits fun

  find_func-Fits :
      (table : List ObjNameFunc) (obj_name : String)
      → AllFit table
      → IfFits (find_func table obj_name)
  unfolding find_func
  find_func-Fits [] obj_name h = tt
  find_func-Fits (f ∷ rest) obj_name (fits, later) =
      elim (Bool-cases (str_eq obj_name f.obj_name)) [
        | inl here ↦ rw here fits
        | inr other ↦ rw other (find_func-Fits rest obj_name later)
      ]

  query_funcs-fit : AllFit query_funcs
  unfolding query_funcs
  query_funcs-fit = omega arith

  -- For every name, the command that the function of get_query_func fills in has a size within
  -- the global buffer, and the size of its output has room for the fields of mbox_out that
  -- mlx5u_cmd reads.
  pub get_query_func-Fits : (obj_name : String) → IfFits (get_query_func obj_name)
  unfolding get_query_func
  get_query_func-Fits obj_name = find_func-Fits query_funcs obj_name query_funcs-fit
