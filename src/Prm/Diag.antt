-- ===== src/Prm/Diag.antt =====
-- Layouts from mlx5_ifc.h: the diagnostic counter commands, some of them private to diag_cnt.c.
use mlx5ctl.Base.{[], ◌∷◌}
use mlx5ctl.Ifc.{Layout, mlx5_st_sz_bits}

abbrev pub diagnostic_cntr_layout : Layout
diagnostic_cntr_layout = ("sync", 0x1) ∷ ("reserved_at_1", 0xf) ∷ ("counter_id", 0x10) ∷ []

abbrev pub debug_cap_x : Layout
debug_cap_x =
    ("core_dump_general", 0x1)
    ∷ ("core_dump_qp", 0x1)
    ∷ ("reserved_at_2", 0x7)
    ∷ ("resource_dump", 0x1)
    ∷ ("reserved_at_a", 0xe)
    ∷ ("log_max_samples", 0x8)
    ∷ ("single", 0x1)
    ∷ ("repetitive", 0x1)
    ∷ ("stall_detect", 0x1)
    ∷ ("reserved_at_23", 0x15)
    ∷ ("log_min_sample_period", 0x8)
    ∷ ("reserved_at_40", 0x1c0)
    ∷ ("diagnostic_counter", 0)
    ∷ []

abbrev pub counter_id : Layout
counter_id = ("reserved_at_0", 0x10) ∷ ("counter_id", 0x10) ∷ []

abbrev pub diagnostic_params_context : Layout
diagnostic_params_context =
    ("num_of_counters", 0x10)
    ∷ ("reserved_at_10", 0x8)
    ∷ ("log_num_of_samples", 0x8)
    ∷ ("single", 0x1)
    ∷ ("repetitive", 0x1)
    ∷ ("sync", 0x1)
    ∷ ("clear", 0x1)
    ∷ ("on_demand", 0x1)
    ∷ ("enable", 0x1)
    ∷ ("reserved_at_26", 0x12)
    ∷ ("log_sample_period", 0x8)
    ∷ ("reserved_at_40", 0x80)
    ∷ ("counter_id", 0)
    ∷ []

abbrev pub query_diagnostic_params_in : Layout
query_diagnostic_params_in =
    ("opcode", 0x10)
    ∷ ("reserved_at_10", 0x10)
    ∷ ("reserved_at_20", 0x10)
    ∷ ("op_mod", 0x10)
    ∷ ("reserved_at_40", 0x40)
    ∷ []

abbrev pub query_diagnostic_params_out : Layout
query_diagnostic_params_out =
    ("status", 0x8)
    ∷ ("reserved_at_8", 0x18)
    ∷ ("syndrome", 0x20)
    ∷ ("diagnostic_params_context", mlx5_st_sz_bits diagnostic_params_context)
    ∷ []

abbrev pub set_diagnostic_params_in : Layout
set_diagnostic_params_in =
    ("opcode", 0x10)
    ∷ ("reserved_at_10", 0x10)
    ∷ ("reserved_at_20", 0x10)
    ∷ ("op_mod", 0x10)
    ∷ ("diagnostic_params_context", mlx5_st_sz_bits diagnostic_params_context)
    ∷ []

abbrev pub set_diagnostic_params_out : Layout
set_diagnostic_params_out =
    ("status", 0x8) ∷ ("reserved_at_8", 0x18) ∷ ("syndrome", 0x20) ∷ ("reserved_at_40", 0x40) ∷ []

abbrev pub diagnostic_cntr_struct : Layout
diagnostic_cntr_struct =
    ("counter_id", 0x10)
    ∷ ("sample_id", 0x10)
    ∷ ("time_stamp_31_0", 0x20)
    ∷ ("counter_value_h", 0x20)
    ∷ ("counter_value_l", 0x20)
    ∷ []

abbrev pub query_diagnostic_cntrs_in : Layout
query_diagnostic_cntrs_in =
    ("opcode", 0x10)
    ∷ ("reserved_at_10", 0x10)
    ∷ ("reserved_at_20", 0x10)
    ∷ ("op_mod", 0x10)
    ∷ ("num_of_samples", 0x10)
    ∷ ("sample_index", 0x10)
    ∷ ("reserved_at_60", 0x20)
    ∷ []

abbrev pub query_diagnostic_cntrs_out : Layout
query_diagnostic_cntrs_out =
    ("status", 0x8)
    ∷ ("reserved_at_8", 0x18)
    ∷ ("syndrome", 0x20)
    ∷ ("reserved_at_40", 0x40)
    ∷ ("diag_counter", 0)
    ∷ []
