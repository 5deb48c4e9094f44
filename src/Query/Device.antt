-- ===== src/Query/Device.antt =====
-- The QUERY_FUNC functions of query_obj.c, `query_l2_table_entry` to `query_vhca_migration_state`: each fills in a command.
use mlx5ctl.Base.{[], ◌∷◌, bit_and, ◌/◌, ◌^◌}
use mlx5ctl.Ifc.{set_fields, mlx5_st_sz_bytes}
use mlx5ctl.Query.Filled.{QueryFunc}
use mlx5ctl.Prm.Opcodes.{
  cmd_op_query_adapter, cmd_op_query_cong_params, cmd_op_query_cong_statistics,
  cmd_op_query_cong_status, cmd_op_query_esw_functions, cmd_op_query_esw_vport_context,
  cmd_op_query_issi, cmd_op_query_l2_table_entry, cmd_op_query_lag, cmd_op_query_mad_demux,
  cmd_op_query_packet_reformat_context, cmd_op_query_special_contexts,
  cmd_op_query_vhca_migration_state, cmd_op_query_vnic_env, cmd_op_query_vport_counter,
  cmd_op_query_vport_state, cmd_op_query_wol_rol,
}
use mlx5ctl.Prm.QueryIn.Part2.{
  query_adapter_in, query_cong_params_in, query_cong_statistics_in, query_cong_status_in,
  query_esw_functions_in, query_esw_vport_context_in, query_issi_in, query_l2_table_entry_in,
  query_lag_in, query_mad_demux_in, query_packet_reformat_context_in, query_special_contexts_in,
  query_vhca_migration_state_in, query_vnic_env_in, query_vport_counter_in, query_vport_state_in,
  query_wol_rol_in,
}
use mlx5ctl.Prm.QueryOut.Part5.{query_issi_out, query_l2_table_entry_out, query_vport_state_out}
use mlx5ctl.Prm.QueryOut.Part6.{
  query_cong_statistics_out, query_esw_vport_context_out, query_mad_demux_out,
  query_packet_reformat_context_out, query_special_contexts_out, query_vnic_env_out,
  query_vport_counter_out,
}
use mlx5ctl.Prm.QueryOut.Part7.{
  query_adapter_out, query_cong_params_out, query_cong_status_out, query_esw_functions_out,
  query_lag_out, query_vhca_migration_state_out, query_wol_rol_out,
}

abbrev pub query_l2_table_entry : QueryFunc
query_l2_table_entry obj_id op_mod input = record {
  out_sz = mlx5_st_sz_bytes query_l2_table_entry_out;
  in_sz = mlx5_st_sz_bytes query_l2_table_entry_in;
  input =
      set_fields query_l2_table_entry_in input 0 (
        ("opcode", cmd_op_query_l2_table_entry)
        ∷ ("table_index", obj_id)
        ∷ ("op_mod", op_mod)
        ∷ []);
}

abbrev pub query_issi : QueryFunc
query_issi obj_id op_mod input = record {
  out_sz = mlx5_st_sz_bytes query_issi_out;
  in_sz = mlx5_st_sz_bytes query_issi_in;
  input =
      set_fields query_issi_in input 0 (("opcode", cmd_op_query_issi) ∷ ("op_mod", op_mod) ∷ []);
}

abbrev pub query_vport_state : QueryFunc
query_vport_state obj_id op_mod input = record {
  out_sz = mlx5_st_sz_bytes query_vport_state_out;
  in_sz = mlx5_st_sz_bytes query_vport_state_in;
  input = set_fields query_vport_state_in input 0 (
      ("opcode", cmd_op_query_vport_state)
      ∷ ("vport_number", obj_id)
      ∷ ("other_vport", 1)
      ∷ ("op_mod", op_mod)
      ∷ []);
}

abbrev pub query_esw_vport_context : QueryFunc
query_esw_vport_context obj_id op_mod input = record {
  out_sz = mlx5_st_sz_bytes query_esw_vport_context_out;
  in_sz = mlx5_st_sz_bytes query_esw_vport_context_in;
  input = set_fields query_esw_vport_context_in input 0 (
      ("opcode", cmd_op_query_esw_vport_context)
      ∷ ("vport_number", obj_id)
      ∷ ("other_vport", 1)
      ∷ ("op_mod", op_mod)
      ∷ []);
}

abbrev pub query_vport_counter : QueryFunc
query_vport_counter obj_id op_mod input = record {
  out_sz = mlx5_st_sz_bytes query_vport_counter_out;
  in_sz = mlx5_st_sz_bytes query_vport_counter_in;
  input = set_fields query_vport_counter_in input 0 (
      ("opcode", cmd_op_query_vport_counter)
      ∷ ("vport_number", obj_id)
      ∷ ("other_vport", 1)
      ∷ ("op_mod", op_mod)
      ∷ []);
}

abbrev pub query_vnic_env : QueryFunc
query_vnic_env obj_id op_mod input = record {
  out_sz = mlx5_st_sz_bytes query_vnic_env_out;
  in_sz = mlx5_st_sz_bytes query_vnic_env_in;
  input =
      set_fields query_vnic_env_in input 0
        (("opcode", cmd_op_query_vnic_env) ∷ ("op_mod", op_mod) ∷ []);
}

abbrev pub query_packet_reformat_context : QueryFunc
query_packet_reformat_context obj_id op_mod input = record {
  out_sz = mlx5_st_sz_bytes query_packet_reformat_context_out;
  in_sz = mlx5_st_sz_bytes query_packet_reformat_context_in;
  input = set_fields query_packet_reformat_context_in input 0 (
      ("opcode", cmd_op_query_packet_reformat_context)
      ∷ ("packet_reformat_id", obj_id)
      ∷ ("op_mod", op_mod)
      ∷ []);
}

abbrev pub query_special_contexts : QueryFunc
query_special_contexts obj_id op_mod input = record {
  out_sz = mlx5_st_sz_bytes query_special_contexts_out;
  in_sz = mlx5_st_sz_bytes query_special_contexts_in;
  input =
      set_fields query_special_contexts_in input 0
        (("opcode", cmd_op_query_special_contexts) ∷ ("op_mod", op_mod) ∷ []);
}

abbrev pub query_mad_demux : QueryFunc
query_mad_demux obj_id op_mod input = record {
  out_sz = mlx5_st_sz_bytes query_mad_demux_out;
  in_sz = mlx5_st_sz_bytes query_mad_demux_in;
  input =
      set_fields query_mad_demux_in input 0
        (("opcode", cmd_op_query_mad_demux) ∷ ("op_mod", op_mod) ∷ []);
}

abbrev pub query_cong_statistics : QueryFunc
query_cong_statistics obj_id op_mod input = record {
  out_sz = mlx5_st_sz_bytes query_cong_statistics_out;
  in_sz = mlx5_st_sz_bytes query_cong_statistics_in;
  input =
      set_fields query_cong_statistics_in input 0
        (("opcode", cmd_op_query_cong_statistics) ∷ ("op_mod", op_mod) ∷ []);
}

abbrev pub query_cong_params : QueryFunc
query_cong_params obj_id op_mod input = record {
  out_sz = mlx5_st_sz_bytes query_cong_params_out;
  in_sz = mlx5_st_sz_bytes query_cong_params_in;
  input =
      set_fields query_cong_params_in input 0 (
        ("opcode", cmd_op_query_cong_params) ∷ ("cong_protocol", obj_id) ∷ ("op_mod", op_mod) ∷ []);
}

abbrev pub query_cong_status : QueryFunc
query_cong_status obj_id op_mod input = record {
  out_sz = mlx5_st_sz_bytes query_cong_status_out;
  in_sz = mlx5_st_sz_bytes query_cong_status_in;
  input = set_fields query_cong_status_in input 0 (
      ("opcode", cmd_op_query_cong_status)
      ∷ ("priority", bit_and (obj_id / 2 ^ 4) 0xf)
      ∷ ("cong_protocol", bit_and obj_id 0xf)
      ∷ ("op_mod", op_mod)
      ∷ []);
}

abbrev pub query_adapter : QueryFunc
query_adapter obj_id op_mod input = record {
  out_sz = mlx5_st_sz_bytes query_adapter_out;
  in_sz = mlx5_st_sz_bytes query_adapter_in;
  input =
      set_fields query_adapter_in input 0
        (("opcode", cmd_op_query_adapter) ∷ ("op_mod", op_mod) ∷ []);
}

abbrev pub query_wol_rol : QueryFunc
query_wol_rol obj_id op_mod input = record {
  out_sz = mlx5_st_sz_bytes query_wol_rol_out;
  in_sz = mlx5_st_sz_bytes query_wol_rol_in;
  input =
      set_fields query_wol_rol_in input 0
        (("opcode", cmd_op_query_wol_rol) ∷ ("op_mod", op_mod) ∷ []);
}

abbrev pub query_lag : QueryFunc
query_lag obj_id op_mod input = record {
  out_sz = mlx5_st_sz_bytes query_lag_out;
  in_sz = mlx5_st_sz_bytes query_lag_in;
  input = set_fields query_lag_in input 0 (("opcode", cmd_op_query_lag) ∷ ("op_mod", op_mod) ∷ []);
}

abbrev pub query_esw_functions : QueryFunc
query_esw_functions obj_id op_mod input = record {
  out_sz = mlx5_st_sz_bytes query_esw_functions_out;
  in_sz = mlx5_st_sz_bytes query_esw_functions_in;
  input =
      set_fields query_esw_functions_in input 0
        (("opcode", cmd_op_query_esw_functions) ∷ ("op_mod", op_mod) ∷ []);
}

abbrev pub query_vhca_migration_state : QueryFunc
query_vhca_migration_state obj_id op_mod input = record {
  out_sz = mlx5_st_sz_bytes query_vhca_migration_state_out;
  in_sz = mlx5_st_sz_bytes query_vhca_migration_state_in;
  input = set_fields query_vhca_migration_state_in input 0 (
      ("opcode", cmd_op_query_vhca_migration_state)
      ∷ ("vhca_id", obj_id)
      ∷ ("op_mod", op_mod)
      ∷ []);
}
