-- ===== src/Prm/Caps/Part3.antt =====
-- Layouts from mlx5_ifc.h: the capabilities.
use mlx5ctl.Base.{[], ◌∷◌}
use mlx5ctl.Ifc.{Layout, mlx5_st_sz_bits}

abbrev pub flow_table_fields_supported : Layout
flow_table_fields_supported =
    ("outer_dmac", 0x1)
    ∷ ("outer_smac", 0x1)
    ∷ ("outer_ether_type", 0x1)
    ∷ ("outer_ip_version", 0x1)
    ∷ ("outer_first_prio", 0x1)
    ∷ ("outer_first_cfi", 0x1)
    ∷ ("outer_first_vid", 0x1)
    ∷ ("outer_ipv4_ttl", 0x1)
    ∷ ("outer_second_prio", 0x1)
    ∷ ("outer_second_cfi", 0x1)
    ∷ ("outer_second_vid", 0x1)
    ∷ ("reserved_at_b", 0x1)
    ∷ ("outer_sip", 0x1)
    ∷ ("outer_dip", 0x1)
    ∷ ("outer_frag", 0x1)
    ∷ ("outer_ip_protocol", 0x1)
    ∷ ("outer_ip_ecn", 0x1)
    ∷ ("outer_ip_dscp", 0x1)
    ∷ ("outer_udp_sport", 0x1)
    ∷ ("outer_udp_dport", 0x1)
    ∷ ("outer_tcp_sport", 0x1)
    ∷ ("outer_tcp_dport", 0x1)
    ∷ ("outer_tcp_flags", 0x1)
    ∷ ("outer_gre_protocol", 0x1)
    ∷ ("outer_gre_key", 0x1)
    ∷ ("outer_vxlan_vni", 0x1)
    ∷ ("outer_geneve_vni", 0x1)
    ∷ ("outer_geneve_oam", 0x1)
    ∷ ("outer_geneve_protocol_type", 0x1)
    ∷ ("outer_geneve_opt_len", 0x1)
    ∷ ("source_vhca_port", 0x1)
    ∷ ("source_eswitch_port", 0x1)
    ∷ ("inner_dmac", 0x1)
    ∷ ("inner_smac", 0x1)
    ∷ ("inner_ether_type", 0x1)
    ∷ ("inner_ip_version", 0x1)
    ∷ ("inner_first_prio", 0x1)
    ∷ ("inner_first_cfi", 0x1)
    ∷ ("inner_first_vid", 0x1)
    ∷ ("reserved_at_27", 0x1)
    ∷ ("inner_second_prio", 0x1)
    ∷ ("inner_second_cfi", 0x1)
    ∷ ("inner_second_vid", 0x1)
    ∷ ("reserved_at_2b", 0x1)
    ∷ ("inner_sip", 0x1)
    ∷ ("inner_dip", 0x1)
    ∷ ("inner_frag", 0x1)
    ∷ ("inner_ip_protocol", 0x1)
    ∷ ("inner_ip_ecn", 0x1)
    ∷ ("inner_ip_dscp", 0x1)
    ∷ ("inner_udp_sport", 0x1)
    ∷ ("inner_udp_dport", 0x1)
    ∷ ("inner_tcp_sport", 0x1)
    ∷ ("inner_tcp_dport", 0x1)
    ∷ ("inner_tcp_flags", 0x1)
    ∷ ("reserved_at_37", 0x9)
    ∷ ("geneve_tlv_option_0_data", 0x1)
    ∷ ("geneve_tlv_option_0_exist", 0x1)
    ∷ ("reserved_at_42", 0x3)
    ∷ ("outer_first_mpls_over_udp", 0x4)
    ∷ ("outer_first_mpls_over_gre", 0x4)
    ∷ ("inner_first_mpls", 0x4)
    ∷ ("outer_first_mpls", 0x4)
    ∷ ("reserved_at_55", 0x2)
    ∷ ("outer_esp_spi", 0x1)
    ∷ ("reserved_at_58", 0x2)
    ∷ ("bth_dst_qp", 0x1)
    ∷ ("reserved_at_5b", 0x5)
    ∷ ("reserved_at_60", 0x18)
    ∷ ("metadata_reg_c_7", 0x1)
    ∷ ("metadata_reg_c_6", 0x1)
    ∷ ("metadata_reg_c_5", 0x1)
    ∷ ("metadata_reg_c_4", 0x1)
    ∷ ("metadata_reg_c_3", 0x1)
    ∷ ("metadata_reg_c_2", 0x1)
    ∷ ("metadata_reg_c_1", 0x1)
    ∷ ("metadata_reg_c_0", 0x1)
    ∷ []

abbrev pub flow_table_prop_layout : Layout
flow_table_prop_layout =
    ("ft_support", 0x1)
    ∷ ("reserved_at_1", 0x1)
    ∷ ("flow_counter", 0x1)
    ∷ ("flow_modify_en", 0x1)
    ∷ ("modify_root", 0x1)
    ∷ ("identified_miss_table_mode", 0x1)
    ∷ ("flow_table_modify", 0x1)
    ∷ ("reformat", 0x1)
    ∷ ("decap", 0x1)
    ∷ ("reserved_at_9", 0x1)
    ∷ ("pop_vlan", 0x1)
    ∷ ("push_vlan", 0x1)
    ∷ ("reserved_at_c", 0x1)
    ∷ ("pop_vlan_2", 0x1)
    ∷ ("push_vlan_2", 0x1)
    ∷ ("reformat_and_vlan_action", 0x1)
    ∷ ("reserved_at_10", 0x1)
    ∷ ("sw_owner", 0x1)
    ∷ ("reformat_l3_tunnel_to_l2", 0x1)
    ∷ ("reformat_l2_to_l3_tunnel", 0x1)
    ∷ ("reformat_and_modify_action", 0x1)
    ∷ ("ignore_flow_level", 0x1)
    ∷ ("reserved_at_16", 0x1)
    ∷ ("table_miss_action_domain", 0x1)
    ∷ ("termination_table", 0x1)
    ∷ ("reformat_and_fwd_to_table", 0x1)
    ∷ ("reserved_at_1a", 0x2)
    ∷ ("ipsec_encrypt", 0x1)
    ∷ ("ipsec_decrypt", 0x1)
    ∷ ("sw_owner_v2", 0x1)
    ∷ ("reserved_at_1f", 0x1)
    ∷ ("termination_table_raw_traffic", 0x1)
    ∷ ("reserved_at_21", 0x1)
    ∷ ("log_max_ft_size", 0x6)
    ∷ ("log_max_modify_header_context", 0x8)
    ∷ ("max_modify_header_actions", 0x8)
    ∷ ("max_ft_level", 0x8)
    ∷ ("reserved_at_40", 0x6)
    ∷ ("execute_aso", 0x1)
    ∷ ("reserved_at_47", 0x19)
    ∷ ("reserved_at_60", 0x2)
    ∷ ("reformat_insert", 0x1)
    ∷ ("reformat_remove", 0x1)
    ∷ ("macsec_encrypt", 0x1)
    ∷ ("macsec_decrypt", 0x1)
    ∷ ("reserved_at_66", 0x2)
    ∷ ("reformat_add_macsec", 0x1)
    ∷ ("reformat_remove_macsec", 0x1)
    ∷ ("reserved_at_6a", 0xe)
    ∷ ("log_max_ft_num", 0x8)
    ∷ ("reserved_at_80", 0x10)
    ∷ ("log_max_flow_counter", 0x8)
    ∷ ("log_max_destination", 0x8)
    ∷ ("reserved_at_a0", 0x18)
    ∷ ("log_max_flow", 0x8)
    ∷ ("reserved_at_c0", 0x40)
    ∷ ("ft_field_support", mlx5_st_sz_bits flow_table_fields_supported)
    ∷ ("ft_field_bitmask_support", mlx5_st_sz_bits flow_table_fields_supported)
    ∷ []

abbrev pub flow_table_fields_supported_2 : Layout
flow_table_fields_supported_2 =
    ("reserved_at_0", 0xe)
    ∷ ("bth_opcode", 0x1)
    ∷ ("reserved_at_f", 0x11)
    ∷ ("reserved_at_20", 0x60)
    ∷ []

abbrev pub flow_table_nic_cap : Layout
flow_table_nic_cap =
    ("nic_rx_multi_path_tirs", 0x1)
    ∷ ("nic_rx_multi_path_tirs_fts", 0x1)
    ∷ ("allow_sniffer_and_nic_rx_shared_tir", 0x1)
    ∷ ("reserved_at_3", 0x4)
    ∷ ("sw_owner_reformat_supported", 0x1)
    ∷ ("reserved_at_8", 0x18)
    ∷ ("encap_general_header", 0x1)
    ∷ ("reserved_at_21", 0xa)
    ∷ ("log_max_packet_reformat_context", 0x5)
    ∷ ("reserved_at_30", 0x6)
    ∷ ("max_encap_header_size", 0xa)
    ∷ ("reserved_at_40", 0x1c0)
    ∷ ("flow_table_properties_nic_receive", mlx5_st_sz_bits flow_table_prop_layout)
    ∷ ("flow_table_properties_nic_receive_rdma", mlx5_st_sz_bits flow_table_prop_layout)
    ∷ ("flow_table_properties_nic_receive_sniffer", mlx5_st_sz_bits flow_table_prop_layout)
    ∷ ("flow_table_properties_nic_transmit", mlx5_st_sz_bits flow_table_prop_layout)
    ∷ ("flow_table_properties_nic_transmit_rdma", mlx5_st_sz_bits flow_table_prop_layout)
    ∷ ("flow_table_properties_nic_transmit_sniffer", mlx5_st_sz_bits flow_table_prop_layout)
    ∷ ("reserved_at_e00", 0x700)
    ∷ ("ft_field_support_2_nic_receive_rdma", mlx5_st_sz_bits flow_table_fields_supported_2)
    ∷ ("reserved_at_1580", 0x280)
    ∷ ("ft_field_support_2_nic_transmit_rdma", mlx5_st_sz_bits flow_table_fields_supported_2)
    ∷ ("reserved_at_1880", 0x780)
    ∷ ("sw_steering_nic_rx_action_drop_icm_address", 0x40)
    ∷ ("sw_steering_nic_tx_action_drop_icm_address", 0x40)
    ∷ ("sw_steering_nic_tx_action_allow_icm_address", 0x40)
    ∷ ("reserved_at_20c0", 0x5f40)
    ∷ []
