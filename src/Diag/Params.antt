-- ===== src/Diag/Params.antt =====
-- mlx5_diag_cnt_set_param and mlx5_diag_cnt_query_param of diag_cnt.c.
pub mod Laws
use mlx5ctl.Base.{
  ℕ, zero, suc, ◌+◌, ◌*◌, ◌%◌, ◌^◌, if◌then◌else◌, String, Option, none, some, List, [], ◌∷◌,
  length,
}
use mlx5ctl.Base.Int.{ℤ, pos, is_nonzero, to_unsigned, rounds}
use mlx5ctl.Memory.{zeroed}
use mlx5ctl.Ifc.{Field, fld, set_fields, mlx5_get, mlx5_set, mlx5_st_sz_bytes, mlx5_byte_off}
use mlx5ctl.Os.{Os, Block, number, element, M, ◌>>=◌, ◌>>◌, pure, show, malloc, free}
use mlx5ctl.Device.{mlx5u_cmd}
use mlx5ctl.Print.{show_fields}
use mlx5ctl.Prm.Opcodes.{cmd_op_set_diagnostic_params, cmd_op_query_diagnostic_params}
use mlx5ctl.Prm.Diag.{
  counter_id, diagnostic_params_context, query_diagnostic_params_in, query_diagnostic_params_out,
  set_diagnostic_params_in, set_diagnostic_params_out,
}
use mlx5ctl.Diag.Cap.{enomem}

-- `struct set_diag_params`; num_of_counters is the length of `counter_id`.
pub record SetDiagParams : Type 0 where
  pub log_num_of_samples : ℤ
  pub single : ℕ
  pub repetitive : ℕ
  pub sync : ℕ
  pub clear : ℕ
  pub on_demand : ℕ
  pub enable : ℕ
  pub log_sample_period : ℤ
  pub counter_ids : List ℕ

-- The byte of the context in the input of SET_DIAGNOSTIC_PARAMS, and that of its first counter.
abbrev pub set_ctx : ℕ
set_ctx = mlx5_byte_off (fld set_diagnostic_params_in "diagnostic_params_context")

abbrev pub first_id : ℕ
first_id = mlx5_byte_off (fld diagnostic_params_context "counter_id")

-- The field of MLX5_SET(counter_id, cnt_id, counter_id, ...).
abbrev pub id_field : Field
id_field = fld counter_id "counter_id"

abbrev pub context_sets : SetDiagParams → List (String × ℕ)
context_sets p =
    ("log_num_of_samples", to_unsigned 32 p.log_num_of_samples)
    ∷ ("single", p.single)
    ∷ ("repetitive", p.repetitive)
    ∷ ("sync", p.sync)
    ∷ ("clear", p.clear)
    ∷ ("on_demand", p.on_demand)
    ∷ ("enable", p.enable)
    ∷ ("log_sample_period", to_unsigned 32 p.log_sample_period)
    ∷ ("num_of_counters", length p.counter_ids)
    ∷ []

-- The loop that writes the counter ids, the first of them at `buf + p`.
unfoldable pub set_counter_ids : List ℕ → ℕ → List ℕ → List ℕ
set_counter_ids buf p [] = buf
set_counter_ids buf p (id ∷ rest) =
    set_counter_ids (mlx5_set buf p id_field id) (p + mlx5_st_sz_bytes counter_id) rest

abbrev pub set_param_size : SetDiagParams → ℕ
set_param_size p =
    mlx5_st_sz_bytes set_diagnostic_params_in + length p.counter_ids * mlx5_st_sz_bytes counter_id

-- The input of the command, in a buffer that holds what `malloc` left there.
unfoldable pub set_param_request : SetDiagParams → List ℕ → List ℕ
unfolding set_counter_ids
set_param_request p buf =
    let start =
      set_fields set_diagnostic_params_in buf 0 (("opcode", cmd_op_set_diagnostic_params) ∷ []) in
    let context = set_fields diagnostic_params_context start set_ctx (context_sets p) in
    set_counter_ids context (set_ctx + first_id) p.counter_ids

-- `u16 out_sz` of the query: a negative number of counters is converted to `size_t` first.
abbrev pub param_out_sz : ℤ → ℕ
param_out_sz num_cnt =
    (mlx5_st_sz_bytes query_diagnostic_params_out
      + to_unsigned 64 num_cnt * mlx5_st_sz_bytes counter_id)
    % 2 ^ 16

abbrev pub query_ctx : ℕ
query_ctx = mlx5_byte_off (fld query_diagnostic_params_out "diagnostic_params_context")

abbrev pub query_request : List ℕ
query_request =
    set_fields query_diagnostic_params_in (zeroed (mlx5_st_sz_bytes query_diagnostic_params_in)) 0
      (("opcode", cmd_op_query_diagnostic_params) ∷ [])

-- `left` counter ids from number `i` on.
unfoldable pub show_ids : ℕ → ℕ → List ℕ → M (Unit {0})
show_ids zero i out = pure tt
show_ids (suc left) i out = do
  show (
      element "counter" i
        (mlx5_get out (query_ctx + first_id + i * mlx5_st_sz_bytes counter_id) id_field))
  show_ids left (i + 1) out

module _ (os : Os) where
  unfoldable pub send_params : SetDiagParams → Option Block → M ℤ
  unfolding set_param_request
  send_params p none = pure (pos enomem)
  send_params p (some block) = do
    (err, out) ←
        mlx5u_cmd os (set_param_request p block.bytes)
          (zeroed (mlx5_st_sz_bytes set_diagnostic_params_out))
    free (some block)
    pure err

  unfoldable pub mlx5_diag_cnt_set_param : SetDiagParams → M ℤ
  unfolding send_params
  mlx5_diag_cnt_set_param p = do block ← malloc os (set_param_size p); send_params p block

  -- From the `malloc` on: the output is freed after an error only.
  unfoldable pub ask_params : ℤ → Option Block → M ℤ
  unfolding show_ids
  ask_params num_cnt none = pure (pos enomem)
  ask_params num_cnt (some block) = do
    (err, out) ← mlx5u_cmd os query_request block.bytes
    if is_nonzero err then (do free (some block); pure err) else (do
      show_fields diagnostic_params_context out query_ctx (
          "sync" ∷ "clear" ∷ "enable" ∷ "single" ∷ "repetitive" ∷ "on_demand" ∷ "log_num_of_samples"
          ∷ "log_sample_period" ∷ [])
      show_ids (rounds num_cnt) 0 out
      pure (pos 0))

  unfoldable pub mlx5_diag_cnt_query_param : ℤ → M ℤ
  unfolding ask_params
  mlx5_diag_cnt_query_param num_cnt = do
    block ← malloc os (param_out_sz num_cnt)
    ask_params num_cnt block
