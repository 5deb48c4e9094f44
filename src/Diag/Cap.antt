-- ===== src/Diag/Cap.antt =====
-- query_devcap, get_dev_freq and mlx5_diag_cnt_query_cap of diag_cnt.c.
use mlx5ctl.Base.{
  ℕ, zero, suc, ◌+◌, ◌*◌, ◌%◌, ◌^◌, ◌==◌, bit_and, bit_or, if◌then◌else◌, String, Option, none,
  some, List, [], ◌∷◌,
}
use mlx5ctl.Base.Int.{ℤ, pos, is_nonzero, is_negative, abs, to_int}
use mlx5ctl.Memory.{zeroed}
use mlx5ctl.Ifc.{fld, set_fields, mlx5_get, mlx5_st_sz_bytes, mlx5_byte_off}
use mlx5ctl.Os.{Os, Block, number, M, ◌>>=◌, ◌>>◌, pure, show, malloc}
use mlx5ctl.Device.{mlx5u_cmd}
use mlx5ctl.Print.{show_fields}
use mlx5ctl.Prm.Opcodes.{cmd_op_query_hca_cap}
use mlx5ctl.Prm.Commands.{query_hca_cap_in}
use mlx5ctl.Prm.Caps.Part1.{cmd_hca_cap}
use mlx5ctl.Prm.Caps.Part5.{query_hca_cap_out}
use mlx5ctl.Prm.Diag.{debug_cap_x, diagnostic_cntr_layout}

abbrev pub enotsup : ℕ
enotsup = 95

abbrev pub enomem : ℕ
enomem = 12

-- `enum mlx5_cap_type` of this file.
abbrev pub cap_general_type : ℕ
cap_general_type = 0

abbrev pub cap_debug_type : ℕ
cap_debug_type = 13

-- The input of QUERY_HCA_CAP for the current capabilities of a type.
unfoldable pub devcap_request : ℕ → List ℕ
devcap_request type = set_fields query_hca_cap_in (zeroed (mlx5_st_sz_bytes query_hca_cap_in)) 0 (
    ("opcode", cmd_op_query_hca_cap) ∷ ("op_mod", bit_or (type * 2) (bit_and 1 0x01) % 2 ^ 16) ∷ [])

-- The byte at which the capability starts in the output.
abbrev pub capability : ℕ
capability = mlx5_byte_off (fld query_hca_cap_out "capability")

-- MLX5_GET(cmd_hca_cap, capptr, name).
abbrev pub general_cap : List ℕ → String → ℕ
general_cap out name = mlx5_get out capability (fld cmd_hca_cap name)

module _ (os : Os) where
  -- The error and the output buffer after the call.
  unfoldable pub query_devcap : ℕ → List ℕ → M (ℤ × List ℕ)
  unfolding devcap_request
  query_devcap type out = mlx5u_cmd os (devcap_request type) out

  -- The frequency in kHz as an `int`, or an error.
  unfoldable pub get_dev_freq : M ℤ
  unfolding query_devcap
  get_dev_freq = do
    (err, out) ← query_devcap cap_general_type (zeroed (mlx5_st_sz_bytes query_hca_cap_out))
    pure (if is_nonzero err then err else to_int (general_cap out "device_frequency_khz"))

  -- `left` counters from number `i` on, of the debug capability in `out`.
  unfoldable pub show_counters : ℕ → ℕ → List ℕ → M (Unit {0})
  show_counters zero i out = pure tt
  show_counters (suc left) i out = do
    let cntr : ℕ =
        capability
        + mlx5_byte_off (fld debug_cap_x "diagnostic_counter")
        + i * mlx5_st_sz_bytes diagnostic_cntr_layout
    show (number "counter" i)
    show_fields diagnostic_cntr_layout out cntr ("counter_id" ∷ "sync" ∷ [])
    show_counters left (i + 1) out

  -- What is printed of the debug capability.
  unfoldable pub show_debug_caps : ℕ → List ℕ → M ℤ
  unfolding get_dev_freq show_counters
  show_debug_caps num_counters out2 = do
    show (number "num_of_diagnostic_counters" num_counters)
    show_fields debug_cap_x out2 capability
        ("single" ∷ "repetitive" ∷ "log_max_samples" ∷ "log_min_sample_period" ∷ [])
    dev_freq ← get_dev_freq
    if is_negative dev_freq then pure dev_freq else (do
      show (number "dev_freq" (abs dev_freq))
      show_counters num_counters 0 out2
      pure (pos 0))

  -- From the second allocation on; `out2` is not freed.
  unfoldable pub query_debug_cap : ℕ → Option Block → M ℤ
  unfolding query_devcap show_debug_caps
  query_debug_cap num_counters none = pure (pos enomem)
  query_debug_cap num_counters (some block) = do
    (err, out2) ← query_devcap cap_debug_type block.bytes
    if is_nonzero err then pure err else show_debug_caps num_counters out2

  unfoldable pub mlx5_diag_cnt_query_cap : M ℤ
  unfolding query_devcap query_debug_cap
  mlx5_diag_cnt_query_cap = do
    (err, out) ← query_devcap cap_general_type (zeroed (mlx5_st_sz_bytes query_hca_cap_out))
    if is_nonzero err
        then pure err
        else if general_cap out "debug" == 0
        then pure (pos enotsup)
        else (do
          let num_counters : ℕ = general_cap out "num_of_diagnostic_counters"
          out2 ← malloc os (
              mlx5_st_sz_bytes query_hca_cap_out
              + num_counters * mlx5_st_sz_bytes diagnostic_cntr_layout)
          query_debug_cap num_counters out2)
