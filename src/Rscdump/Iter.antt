-- ===== src/Rscdump/Iter.antt =====
-- mlx5_rsc_dump_iter of rscdump.c: one access of the RESOURCE_DUMP register.
pub mod Cases
pub mod Laws
pub mod Reply
use mlx5ctl.Base.{ℕ, ◌+◌, if◌then◌else◌, ◌==◌, ◌&&◌, not, Bool, String, List, [], ◌∷◌, map}
use mlx5ctl.Base.Int.{ℤ, pos, neg, is_nonzero}
use mlx5ctl.Ifc.{fld, set_fields, mlx5_get, mlx5_get64, mlx5_set64}
use mlx5ctl.Os.{Os, M, ◌>>=◌, ◌>>◌, pure}
use mlx5ctl.Prm.Dump.{resource_dump}
use mlx5ctl.Reg.Access.{mlx5_access_reg}
use mlx5ctl.Reg.Ids.{reg_resource_dump}

abbrev pub eio : ℕ
eio = 5

abbrev pub eremoteio : ℕ
eremoteio = 121

-- MLX5_GET(resource_dump, buf, name).
abbrev pub dump_get : List ℕ → String → ℕ
dump_get buf name = mlx5_get buf 0 (fld resource_dump name)

-- `out_seq_num && (in_seq_num + 1 != out_seq_num)`.
abbrev pub out_of_sequence : List ℕ → List ℕ → Bool
out_of_sequence input out =
    not (dump_get out "seq_num" == 0)
    && not (dump_get input "seq_num" + 1 == dump_get out "seq_num")

-- The fields that `cpy_out2in` copies.
abbrev pub copied : List ℕ → List (String × ℕ)
copied out =
    ("seq_num", dump_get out "seq_num")
    ∷ ("index1", dump_get out "index1")
    ∷ ("index2", dump_get out "index2")
    ∷ ("num_of_obj1", dump_get out "num_of_obj1")
    ∷ ("num_of_obj2", dump_get out "num_of_obj2")
    ∷ ("more_dump", dump_get out "more_dump")
    ∷ []

-- The input of the next call.
pub next_input : List ℕ → List ℕ → List ℕ
next_input input out =
    mlx5_set64 (set_fields resource_dump input 0 (copied out)) 0 (fld resource_dump "device_opaque")
      (mlx5_get64 out 0 (fld resource_dump "device_opaque"))

-- The result of an iteration with the two buffers after it.
pub record Iteration : Type 0 where
  pub ret : ℤ
  pub input : List ℕ
  pub out : List ℕ

-- What follows the register access: the result, and the two buffers.
unfoldable pub after_access : List ℕ → ℤ × List ℕ → Iteration
unfolding next_input
after_access input (err, out) =
    if is_nonzero err
    then record { ret = neg eio; input = input; out = out }
    else if out_of_sequence input out
    then record { ret = neg eremoteio; input = input; out = out }
    else if not (dump_get out "more_dump" == 0)
    then record { ret = pos 1; input = next_input input out; out = out }
    else record { ret = pos 0; input = input; out = out }

unfoldable pub mlx5_rsc_dump_iter : Os → List ℕ → List ℕ → M Iteration
unfolding after_access
mlx5_rsc_dump_iter os input out = do
  r ← mlx5_access_reg os input out reg_resource_dump 0 0
  pure (after_access input r)
