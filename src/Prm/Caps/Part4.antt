-- ===== src/Prm/Caps/Part4.antt =====
-- Layouts from mlx5_ifc.h: the capabilities.
use mlx5ctl.Base.{[], ◌∷◌}
use mlx5ctl.Ifc.{Layout, mlx5_st_sz_bits}
use mlx5ctl.Prm.Caps.Part3.{flow_table_prop_layout}

abbrev pub flow_table_eswitch_cap : Layout
flow_table_eswitch_cap =
    ("fdb_to_vport_reg_c_id", 0x8)
    ∷ ("reserved_at_8", 0xd)
    ∷ ("fdb_modify_header_fwd_to_table", 0x1)
    ∷ ("fdb_ipv4_ttl_modify", 0x1)
    ∷ ("flow_source", 0x1)
    ∷ ("reserved_at_18", 0x2)
    ∷ ("multi_fdb_encap", 0x1)
    ∷ ("egress_acl_forward_to_vport", 0x1)
    ∷ ("fdb_multi_path_to_table", 0x1)
    ∷ ("reserved_at_1d", 0x3)
    ∷ ("reserved_at_20", 0x1e0)
    ∷ ("flow_table_properties_nic_esw_fdb", mlx5_st_sz_bits flow_table_prop_layout)
    ∷ ("flow_table_properties_esw_acl_ingress", mlx5_st_sz_bits flow_table_prop_layout)
    ∷ ("flow_table_properties_esw_acl_egress", mlx5_st_sz_bits flow_table_prop_layout)
    ∷ ("reserved_at_800", 0x1000)
    ∷ ("sw_steering_fdb_action_drop_icm_address_rx", 0x40)
    ∷ ("sw_steering_fdb_action_drop_icm_address_tx", 0x40)
    ∷ ("sw_steering_uplink_icm_address_rx", 0x40)
    ∷ ("sw_steering_uplink_icm_address_tx", 0x40)
    ∷ ("reserved_at_1900", 0x6700)
    ∷ []

abbrev pub e_switch_cap : Layout
e_switch_cap =
    ("vport_svlan_strip", 0x1)
    ∷ ("vport_cvlan_strip", 0x1)
    ∷ ("vport_svlan_insert", 0x1)
    ∷ ("vport_cvlan_insert_if_not_exist", 0x1)
    ∷ ("vport_cvlan_insert_overwrite", 0x1)
    ∷ ("reserved_at_5", 0x2)
    ∷ ("esw_shared_ingress_acl", 0x1)
    ∷ ("esw_uplink_ingress_acl", 0x1)
    ∷ ("root_ft_on_other_esw", 0x1)
    ∷ ("reserved_at_a", 0xf)
    ∷ ("esw_functions_changed", 0x1)
    ∷ ("reserved_at_1a", 0x1)
    ∷ ("ecpf_vport_exists", 0x1)
    ∷ ("counter_eswitch_affinity", 0x1)
    ∷ ("merged_eswitch", 0x1)
    ∷ ("nic_vport_node_guid_modify", 0x1)
    ∷ ("nic_vport_port_guid_modify", 0x1)
    ∷ ("vxlan_encap_decap", 0x1)
    ∷ ("nvgre_encap_decap", 0x1)
    ∷ ("reserved_at_22", 0x1)
    ∷ ("log_max_fdb_encap_uplink", 0x5)
    ∷ ("reserved_at_21", 0x3)
    ∷ ("log_max_packet_reformat_context", 0x5)
    ∷ ("reserved_2b", 0x6)
    ∷ ("max_encap_header_size", 0xa)
    ∷ ("reserved_at_40", 0xb)
    ∷ ("log_max_esw_sf", 0x5)
    ∷ ("esw_sf_base_id", 0x10)
    ∷ ("reserved_at_60", 0x7a0)
    ∷ []

abbrev pub port_selection_cap : Layout
port_selection_cap =
    ("reserved_at_0", 0x10)
    ∷ ("port_select_flow_table", 0x1)
    ∷ ("reserved_at_11", 0x1)
    ∷ ("port_select_flow_table_bypass", 0x1)
    ∷ ("reserved_at_13", 0xd)
    ∷ ("reserved_at_20", 0x1e0)
    ∷ ("flow_table_properties_port_selection", mlx5_st_sz_bits flow_table_prop_layout)
    ∷ ("reserved_at_400", 0x7c00)
    ∷ []

abbrev pub calc_op : Layout
calc_op =
    ("reserved_at_0", 0x10)
    ∷ ("reserved_at_10", 0x9)
    ∷ ("op_swap_endianness", 0x1)
    ∷ ("op_min", 0x1)
    ∷ ("op_xor", 0x1)
    ∷ ("op_or", 0x1)
    ∷ ("op_and", 0x1)
    ∷ ("op_max", 0x1)
    ∷ ("op_add", 0x1)
    ∷ []

abbrev pub vector_calc_cap : Layout
vector_calc_cap =
    ("calc_matrix", 0x1)
    ∷ ("reserved_at_1", 0x1f)
    ∷ ("reserved_at_20", 0x8)
    ∷ ("max_vec_count", 0x8)
    ∷ ("reserved_at_30", 0xd)
    ∷ ("max_chunk_size", 0x3)
    ∷ ("calc0", mlx5_st_sz_bits calc_op)
    ∷ ("calc1", mlx5_st_sz_bits calc_op)
    ∷ ("calc2", mlx5_st_sz_bits calc_op)
    ∷ ("calc3", mlx5_st_sz_bits calc_op)
    ∷ ("reserved_at_c0", 0x720)
    ∷ []

abbrev pub qos_cap : Layout
qos_cap =
    ("packet_pacing", 0x1)
    ∷ ("esw_scheduling", 0x1)
    ∷ ("esw_bw_share", 0x1)
    ∷ ("esw_rate_limit", 0x1)
    ∷ ("reserved_at_4", 0x1)
    ∷ ("packet_pacing_burst_bound", 0x1)
    ∷ ("packet_pacing_typical_size", 0x1)
    ∷ ("reserved_at_7", 0x1)
    ∷ ("nic_sq_scheduling", 0x1)
    ∷ ("nic_bw_share", 0x1)
    ∷ ("nic_rate_limit", 0x1)
    ∷ ("packet_pacing_uid", 0x1)
    ∷ ("log_esw_max_sched_depth", 0x4)
    ∷ ("reserved_at_10", 0x10)
    ∷ ("reserved_at_20", 0xb)
    ∷ ("log_max_qos_nic_queue_group", 0x5)
    ∷ ("reserved_at_30", 0x10)
    ∷ ("packet_pacing_max_rate", 0x20)
    ∷ ("packet_pacing_min_rate", 0x20)
    ∷ ("reserved_at_80", 0x10)
    ∷ ("packet_pacing_rate_table_size", 0x10)
    ∷ ("esw_element_type", 0x10)
    ∷ ("esw_tsar_type", 0x10)
    ∷ ("reserved_at_c0", 0x10)
    ∷ ("max_qos_para_vport", 0x10)
    ∷ ("max_tsar_bw_share", 0x20)
    ∷ ("reserved_at_100", 0x20)
    ∷ ("reserved_at_120", 0x3)
    ∷ ("log_meter_aso_granularity", 0x5)
    ∷ ("reserved_at_128", 0x3)
    ∷ ("log_meter_aso_max_alloc", 0x5)
    ∷ ("reserved_at_130", 0x3)
    ∷ ("log_max_num_meter_aso", 0x5)
    ∷ ("reserved_at_138", 0x8)
    ∷ ("reserved_at_140", 0x6c0)
    ∷ []

abbrev pub debug_cap : Layout
debug_cap =
    ("core_dump_general", 0x1)
    ∷ ("core_dump_qp", 0x1)
    ∷ ("reserved_at_2", 0x2)
    ∷ ("log_cr_dump_to_mem_size", 0x5)
    ∷ ("resource_dump", 0x1)
    ∷ ("reserved_at_a", 0x1)
    ∷ ("log_min_resource_dump_eq", 0x5)
    ∷ ("reserved_at_10", 0x8)
    ∷ ("log_max_samples", 0x8)
    ∷ ("single", 0x1)
    ∷ ("repetitive", 0x1)
    ∷ ("health_mon_rx_activity", 0x1)
    ∷ ("diag_counter_tracer_dump", 0x1)
    ∷ ("reserved_at_24", 0x14)
    ∷ ("log_min_sample_period", 0x8)
    ∷ ("reserved_at_40", 0x1c0)
    ∷ ("diagnostic_counter", 0)
    ∷ []

abbrev pub tls_cap : Layout
tls_cap =
    ("tls_1_2_aes_gcm_128", 0x1)
    ∷ ("tls_1_3_aes_gcm_128", 0x1)
    ∷ ("tls_1_2_aes_gcm_256", 0x1)
    ∷ ("tls_1_3_aes_gcm_256", 0x1)
    ∷ ("reserved_at_4", 0x1c)
    ∷ ("reserved_at_20", 0x7e0)
    ∷ []
