-- ===== src/Tests/Accessors.antt =====
-- The accessor theorems on small buffers.
use mlx5ctl.Base.{ℕ, ◌+◌, ◌%◌, ◌^◌, ◌≤◌, ◌<◌, ◌≡◌, arith, String, List, [], ◌∷◌}
use mathlib.Core.Bool.{false≢true}
use mathlib.Core.Logic.{◌≢◌}
use mlx5ctl.Base.{eq_iff}
use mlx5ctl.Ifc.{fld, mlx5_get, mlx5_set, mlx5_get64, mlx5_set64, set_fields}
use mlx5ctl.Ifc.Laws.{get-set, get64-set64}
use mlx5ctl.Ifc.Disjoint.{get-set_other}
use mlx5ctl.Ifc.Fields.{set_fields_lem, assigned}
use mlx5ctl.Prm.Commands.{alloc_pd_in, mkc}
use mlx5ctl.Umem.Buff.{align}
use mlx5ctl.Umem.Buff.Laws.{align_least}

abbrev command : List ℕ
command = 8 ∷ 0 ∷ 17 ∷ 34 ∷ 0 ∷ 0 ∷ 255 ∷ 238 ∷ 1 ∷ 2 ∷ 3 ∷ 4 ∷ 5 ∷ 6 ∷ 7 ∷ 8 ∷ []

get-set_example :
    mlx5_get (mlx5_set command 0 (fld alloc_pd_in "uid") 0x12345) 0 (fld alloc_pd_in "uid")
    ≡ 0x12345 % 2 ^ (fld alloc_pd_in "uid").bit_sz
unfolding fld
get-set_example =
    get-set command 0 (fld alloc_pd_in "uid") 0x12345 (omega arith) (omega arith) (omega arith)

uid≢opcode : ◌≢◌ {A = String} "uid" "opcode"
uid≢opcode e = false≢true ((eq_iff "uid" "opcode").1 e)

get-set_other_example :
    mlx5_get (mlx5_set command 0 (fld alloc_pd_in "uid") 0x12345) 0 (fld alloc_pd_in "opcode")
    ≡ mlx5_get command 0 (fld alloc_pd_in "opcode")
unfolding fld
get-set_other_example =
    get-set_other alloc_pd_in "uid" "opcode" command 0 0x12345 uid≢opcode (omega arith)
      (omega arith) (omega arith) (omega arith)

abbrev two_sets : List (String × ℕ)
two_sets = ("opcode", 0x800) ∷ ("uid", 3) ∷ []

set_fields_lem_example :
    mlx5_get (set_fields alloc_pd_in command 0 two_sets) 0 (fld alloc_pd_in "opcode")
    ≡ assigned "opcode" (mlx5_get command 0 (fld alloc_pd_in "opcode")) alloc_pd_in two_sets
unfolding fld
set_fields_lem_example =
    set_fields_lem alloc_pd_in "opcode" command 0 two_sets (omega arith) (omega arith) (omega arith)

abbrev key : List ℕ
key =
    1 ∷ 1 ∷ 1 ∷ 1 ∷ 1 ∷ 1 ∷ 1 ∷ 1 ∷ 1 ∷ 1 ∷ 1 ∷ 1 ∷ 1 ∷ 1 ∷ 1 ∷ 1 ∷ 1 ∷ 1 ∷ 1 ∷ 1 ∷ 1 ∷ 1 ∷ 1 ∷ 1
    ∷ 1 ∷ 1 ∷ 1 ∷ 1 ∷ 1 ∷ 1 ∷ 1 ∷ 1 ∷ []

get64-set64_example :
    mlx5_get64 (mlx5_set64 key 0 (fld mkc "start_addr") 0x7f00deadbeef) 0 (fld mkc "start_addr")
    ≡ 0x7f00deadbeef % 2 ^ 64
unfolding fld
get64-set64_example = get64-set64 key 0 (fld mkc "start_addr") 0x7f00deadbeef (omega arith)

align_least_example :
    (5000 ≤ align 5000 4096) × (align 5000 4096 < 5000 + 4096) × (align 5000 4096 % 4096 ≡ 0)
align_least_example = align_least 5000 (omega arith)
