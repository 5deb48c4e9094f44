-- ===== src/Diag/Counters.antt =====
-- query_diag_counters of diag_cnt.c: the samples of the counters.
pub mod Laws
use mlx5ctl.Base.{
  ℕ, zero, suc, ◌+◌, ◌*◌, ◌%◌, ◌^◌, bit_or, if◌then◌else◌, String, Bool, Option, none, some, List,
  [], ◌∷◌,
}
use mlx5ctl.Base.Int.{ℤ, neg, is_nonzero, to_unsigned, rounds}
use mlx5ctl.Memory.{zeroed}
use mlx5ctl.Ifc.{fld, set_fields, mlx5_get, mlx5_st_sz_bytes, mlx5_byte_off}
use mlx5ctl.Os.{Os, Block, number, raw64, M, ◌>>=◌, ◌>>◌, pure, show, malloc, free}
use mlx5ctl.Device.{mlx5u_cmd}
use mlx5ctl.Prm.Opcodes.{cmd_op_query_diagnostic_counters}
use mlx5ctl.Prm.Diag.{diagnostic_cntr_struct, query_diagnostic_cntrs_in, query_diagnostic_cntrs_out}
use mlx5ctl.Diag.Cap.{enomem}

-- `u16 out_sz`.
abbrev pub counters_out_sz : ℤ → ℕ
counters_out_sz print_lines =
    (mlx5_st_sz_bytes query_diagnostic_cntrs_out
      + to_unsigned 64 print_lines * mlx5_st_sz_bytes diagnostic_cntr_struct)
    % 2 ^ 16

-- The byte of sample `i` in the output.
abbrev pub sample_at : ℕ → ℕ
sample_at i =
    mlx5_byte_off (fld query_diagnostic_cntrs_out "diag_counter")
    + i * mlx5_st_sz_bytes diagnostic_cntr_struct

-- `h << 31 | l` on `u32`, as the source has it.
pub counter_value : ℕ → ℕ → ℕ
counter_value h l = bit_or (h * 2 ^ 31 % 2 ^ 32) l

pub record Sample : Type 0 where
  pub counter_id : ℕ
  pub sample_id : ℕ
  pub time_stamp : ℕ
  pub value : ℕ

unfoldable pub read_sample : List ℕ → ℕ → Sample
unfolding counter_value
read_sample out p = record {
  counter_id = mlx5_get out p (fld diagnostic_cntr_struct "counter_id");
  sample_id = mlx5_get out p (fld diagnostic_cntr_struct "sample_id");
  time_stamp = mlx5_get out p (fld diagnostic_cntr_struct "time_stamp_31_0");
  value =
      counter_value (mlx5_get out p (fld diagnostic_cntr_struct "counter_value_h"))
        (mlx5_get out p (fld diagnostic_cntr_struct "counter_value_l"));
}

unfoldable pub show_sample : Bool → Sample → M (Unit {0})
show_sample bin_output s =
    if bin_output
    then (do
      show (raw64 s.counter_id)
      show (raw64 s.sample_id)
      show (raw64 s.time_stamp)
      show (raw64 s.value))
    else (do
      show (number "counter_id" s.counter_id)
      show (number "sample_id" s.sample_id)
      show (number "time_stamp" s.time_stamp)
      show (number "counter_value" s.value))

-- `left` samples from number `i` on.
unfoldable pub show_samples : ℕ → ℕ → Bool → List ℕ → M (Unit {0})
unfolding show_sample read_sample
show_samples zero i bin_output out = pure tt
show_samples (suc left) i bin_output out = do
  show_sample bin_output (read_sample out (sample_at i))
  show_samples left (i + 1) bin_output out

unfoldable pub counters_request : ℤ → ℤ → List ℕ
counters_request print_lines sample_index =
    set_fields query_diagnostic_cntrs_in (zeroed (mlx5_st_sz_bytes query_diagnostic_cntrs_in)) 0 (
      ("opcode", cmd_op_query_diagnostic_counters)
      ∷ ("num_of_samples", to_unsigned 32 print_lines)
      ∷ ("sample_index", to_unsigned 32 sample_index)
      ∷ [])

module _ (os : Os) where
  unfoldable pub ask_counters : ℤ → ℤ → Bool → Option Block → M ℤ
  unfolding counters_request show_samples
  ask_counters print_lines sample_index bin_output none = pure (neg enomem)
  ask_counters print_lines sample_index bin_output (some block) = do
    (err, out) ← mlx5u_cmd os (counters_request print_lines sample_index) block.bytes
    if is_nonzero err then pure tt else show_samples (rounds print_lines) 0 bin_output out
    free (some block)
    pure err

  unfoldable pub query_diag_counters : ℤ → ℤ → Bool → M ℤ
  unfolding ask_counters
  query_diag_counters print_lines sample_index bin_output = do
    block ← malloc os (counters_out_sz print_lines)
    ask_counters print_lines sample_index bin_output block
