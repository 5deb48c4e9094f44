-- ===== src/Prm/QueryIn/Part2.antt =====
-- Layouts from mlx5_ifc.h: the inputs of the query commands of query_obj.c.
use mlx5ctl.Base.{[], ◌∷◌}
use mlx5ctl.Ifc.{Layout}

abbrev pub query_l2_table_entry_in : Layout
query_l2_table_entry_in =
    ("opcode", 0x10)
    ∷ ("reserved_at_10", 0x10)
    ∷ ("reserved_at_20", 0x10)
    ∷ ("op_mod", 0x10)
    ∷ ("reserved_at_40", 0x60)
    ∷ ("reserved_at_a0", 0x8)
    ∷ ("table_index", 0x18)
    ∷ ("reserved_at_c0", 0x140)
    ∷ []

abbrev pub query_issi_in : Layout
query_issi_in =
    ("opcode", 0x10)
    ∷ ("reserved_at_10", 0x10)
    ∷ ("reserved_at_20", 0x10)
    ∷ ("op_mod", 0x10)
    ∷ ("reserved_at_40", 0x40)
    ∷ []

abbrev pub query_vport_state_in : Layout
query_vport_state_in =
    ("opcode", 0x10)
    ∷ ("reserved_at_10", 0x10)
    ∷ ("reserved_at_20", 0x10)
    ∷ ("op_mod", 0x10)
    ∷ ("other_vport", 0x1)
    ∷ ("reserved_at_41", 0xf)
    ∷ ("vport_number", 0x10)
    ∷ ("reserved_at_60", 0x20)
    ∷ []

abbrev pub query_esw_vport_context_in : Layout
query_esw_vport_context_in =
    ("opcode", 0x10)
    ∷ ("reserved_at_10", 0x10)
    ∷ ("reserved_at_20", 0x10)
    ∷ ("op_mod", 0x10)
    ∷ ("other_vport", 0x1)
    ∷ ("reserved_at_41", 0xf)
    ∷ ("vport_number", 0x10)
    ∷ ("reserved_at_60", 0x20)
    ∷ []

abbrev pub query_vport_counter_in : Layout
query_vport_counter_in =
    ("opcode", 0x10)
    ∷ ("reserved_at_10", 0x10)
    ∷ ("reserved_at_20", 0x10)
    ∷ ("op_mod", 0x10)
    ∷ ("other_vport", 0x1)
    ∷ ("reserved_at_41", 0xb)
    ∷ ("port_num", 0x4)
    ∷ ("vport_number", 0x10)
    ∷ ("reserved_at_60", 0x60)
    ∷ ("clear", 0x1)
    ∷ ("reserved_at_c1", 0x1f)
    ∷ ("reserved_at_e0", 0x20)
    ∷ []

abbrev pub query_vnic_env_in : Layout
query_vnic_env_in =
    ("opcode", 0x10)
    ∷ ("reserved_at_10", 0x10)
    ∷ ("reserved_at_20", 0x10)
    ∷ ("op_mod", 0x10)
    ∷ ("other_vport", 0x1)
    ∷ ("reserved_at_41", 0xf)
    ∷ ("vport_number", 0x10)
    ∷ ("reserved_at_60", 0x20)
    ∷ []

abbrev pub query_packet_reformat_context_in : Layout
query_packet_reformat_context_in =
    ("opcode", 0x10)
    ∷ ("reserved_at_10", 0x10)
    ∷ ("reserved_at_20", 0x10)
    ∷ ("op_mod", 0x10)
    ∷ ("packet_reformat_id", 0x20)
    ∷ ("reserved_at_60", 0xa0)
    ∷ []

abbrev pub query_special_contexts_in : Layout
query_special_contexts_in =
    ("opcode", 0x10)
    ∷ ("reserved_at_10", 0x10)
    ∷ ("reserved_at_20", 0x10)
    ∷ ("op_mod", 0x10)
    ∷ ("reserved_at_40", 0x40)
    ∷ []

abbrev pub query_mad_demux_in : Layout
query_mad_demux_in =
    ("opcode", 0x10)
    ∷ ("reserved_at_10", 0x10)
    ∷ ("reserved_at_20", 0x10)
    ∷ ("op_mod", 0x10)
    ∷ ("reserved_at_40", 0x40)
    ∷ []

abbrev pub query_cong_statistics_in : Layout
query_cong_statistics_in =
    ("opcode", 0x10)
    ∷ ("reserved_at_10", 0x10)
    ∷ ("reserved_at_20", 0x10)
    ∷ ("op_mod", 0x10)
    ∷ ("clear", 0x1)
    ∷ ("reserved_at_41", 0x1f)
    ∷ ("reserved_at_60", 0x20)
    ∷ []

abbrev pub query_cong_params_in : Layout
query_cong_params_in =
    ("opcode", 0x10)
    ∷ ("reserved_at_10", 0x10)
    ∷ ("reserved_at_20", 0x10)
    ∷ ("op_mod", 0x10)
    ∷ ("reserved_at_40", 0x1c)
    ∷ ("cong_protocol", 0x4)
    ∷ ("reserved_at_60", 0x20)
    ∷ []

abbrev pub query_cong_status_in : Layout
query_cong_status_in =
    ("opcode", 0x10)
    ∷ ("reserved_at_10", 0x10)
    ∷ ("reserved_at_20", 0x10)
    ∷ ("op_mod", 0x10)
    ∷ ("reserved_at_40", 0x18)
    ∷ ("priority", 0x4)
    ∷ ("cong_protocol", 0x4)
    ∷ ("reserved_at_60", 0x20)
    ∷ []

abbrev pub query_adapter_in : Layout
query_adapter_in =
    ("opcode", 0x10)
    ∷ ("reserved_at_10", 0x10)
    ∷ ("reserved_at_20", 0x10)
    ∷ ("op_mod", 0x10)
    ∷ ("reserved_at_40", 0x40)
    ∷ []

abbrev pub query_wol_rol_in : Layout
query_wol_rol_in =
    ("opcode", 0x10)
    ∷ ("reserved_at_10", 0x10)
    ∷ ("reserved_at_20", 0x10)
    ∷ ("op_mod", 0x10)
    ∷ ("reserved_at_40", 0x40)
    ∷ []

abbrev pub query_lag_in : Layout
query_lag_in =
    ("opcode", 0x10)
    ∷ ("reserved_at_10", 0x10)
    ∷ ("reserved_at_20", 0x10)
    ∷ ("op_mod", 0x10)
    ∷ ("reserved_at_40", 0x40)
    ∷ []

abbrev pub query_esw_functions_in : Layout
query_esw_functions_in =
    ("opcode", 0x10)
    ∷ ("reserved_at_10", 0x10)
    ∷ ("reserved_at_20", 0x10)
    ∷ ("op_mod", 0x10)
    ∷ ("reserved_at_40", 0x40)
    ∷ []

abbrev pub query_vhca_migration_state_in : Layout
query_vhca_migration_state_in =
    ("opcode", 0x10)
    ∷ ("uid", 0x10)
    ∷ ("reserved_at_20", 0x10)
    ∷ ("op_mod", 0x10)
    ∷ ("reserved_at_40", 0x10)
    ∷ ("vhca_id", 0x10)
    ∷ ("reserved_at_60", 0x20)
    ∷ []
