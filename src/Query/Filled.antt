-- ===== src/Query/Filled.antt =====
-- What a `query_obj_func` of query_obj.c gives: it fills the input buffer and sets the two sizes.
use mlx5ctl.Base.{ℕ, List}

pub record Filled : Type 0 where
  pub input : List ℕ
  pub in_sz : ℕ
  pub out_sz : ℕ

-- On the globals `obj_id` and `op_mod`, and the input buffer.
abbrev pub QueryFunc : Type 0
QueryFunc = ℕ → ℕ → List ℕ → Filled
