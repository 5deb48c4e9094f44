-- ===== src/Prm/Registers/Part2.antt =====
-- Layouts from mlx5_ifc.h: the registers of the table in reg.c.
use mlx5ctl.Base.{[], ◌∷◌, ◌*◌}
use mlx5ctl.Ifc.{Layout, mlx5_st_sz_bits, mlx5_un_sz_bits}

abbrev pub qcam_access_reg_cap_mask : Layout
qcam_access_reg_cap_mask =
    ("qcam_access_reg_cap_mask_127_to_20", 0x6C)
    ∷ ("qpdpm", 0x1)
    ∷ ("qcam_access_reg_cap_mask_18_to_4", 0x0F)
    ∷ ("qdpm", 0x1)
    ∷ ("qpts", 0x1)
    ∷ ("qcap", 0x1)
    ∷ ("qcam_access_reg_cap_mask_0", 0x1)
    ∷ []

abbrev pub qcam_reg_qos_access_reg_cap_mask : Layout
qcam_reg_qos_access_reg_cap_mask =
    ("reg_cap", mlx5_st_sz_bits qcam_access_reg_cap_mask) ∷ ("reserved_at_0", 0x80) ∷ []

abbrev pub qcam_qos_feature_cap_mask : Layout
qcam_qos_feature_cap_mask =
    ("qcam_qos_feature_cap_mask_127_to_1", 0x7F) ∷ ("qpts_trust_both", 0x1) ∷ []

abbrev pub qcam_reg_qos_feature_cap_mask : Layout
qcam_reg_qos_feature_cap_mask =
    ("feature_cap", mlx5_st_sz_bits qcam_qos_feature_cap_mask) ∷ ("reserved_at_0", 0x80) ∷ []

abbrev pub qcam_reg : Layout
qcam_reg =
    ("reserved_at_0", 0x8)
    ∷ ("feature_group", 0x8)
    ∷ ("reserved_at_10", 0x8)
    ∷ ("access_reg_group", 0x8)
    ∷ ("reserved_at_20", 0x20)
    ∷ ("qos_access_reg_cap_mask", mlx5_un_sz_bits qcam_reg_qos_access_reg_cap_mask)
    ∷ ("reserved_at_c0", 0x80)
    ∷ ("qos_feature_cap_mask", mlx5_un_sz_bits qcam_reg_qos_feature_cap_mask)
    ∷ ("reserved_at_1c0", 0x80)
    ∷ []

abbrev pub pcap_reg : Layout
pcap_reg =
    ("reserved_at_0", 0x8)
    ∷ ("local_port", 0x8)
    ∷ ("reserved_at_10", 0x10)
    ∷ ("port_capability_mask", 4 * 0x20)
    ∷ []

abbrev pub pmtu_reg : Layout
pmtu_reg =
    ("reserved_at_0", 0x8)
    ∷ ("local_port", 0x8)
    ∷ ("reserved_at_10", 0x10)
    ∷ ("max_mtu", 0x10)
    ∷ ("reserved_at_30", 0x10)
    ∷ ("admin_mtu", 0x10)
    ∷ ("reserved_at_50", 0x10)
    ∷ ("oper_mtu", 0x10)
    ∷ ("reserved_at_70", 0x10)
    ∷ []

abbrev pub paos_reg : Layout
paos_reg =
    ("swid", 0x8)
    ∷ ("local_port", 0x8)
    ∷ ("reserved_at_10", 0x4)
    ∷ ("admin_status", 0x4)
    ∷ ("reserved_at_18", 0x4)
    ∷ ("oper_status", 0x4)
    ∷ ("ase", 0x1)
    ∷ ("ee", 0x1)
    ∷ ("reserved_at_22", 0x1c)
    ∷ ("e", 0x2)
    ∷ ("reserved_at_40", 0x40)
    ∷ []

abbrev pub pfcc_reg : Layout
pfcc_reg =
    ("reserved_at_0", 0x8)
    ∷ ("local_port", 0x8)
    ∷ ("reserved_at_10", 0xb)
    ∷ ("ppan_mask_n", 0x1)
    ∷ ("minor_stall_mask", 0x1)
    ∷ ("critical_stall_mask", 0x1)
    ∷ ("reserved_at_1e", 0x2)
    ∷ ("ppan", 0x4)
    ∷ ("reserved_at_24", 0x4)
    ∷ ("prio_mask_tx", 0x8)
    ∷ ("reserved_at_30", 0x8)
    ∷ ("prio_mask_rx", 0x8)
    ∷ ("pptx", 0x1)
    ∷ ("aptx", 0x1)
    ∷ ("pptx_mask_n", 0x1)
    ∷ ("reserved_at_43", 0x5)
    ∷ ("pfctx", 0x8)
    ∷ ("reserved_at_50", 0x10)
    ∷ ("pprx", 0x1)
    ∷ ("aprx", 0x1)
    ∷ ("pprx_mask_n", 0x1)
    ∷ ("reserved_at_63", 0x5)
    ∷ ("pfcrx", 0x8)
    ∷ ("reserved_at_70", 0x10)
    ∷ ("device_stall_minor_watermark", 0x10)
    ∷ ("device_stall_critical_watermark", 0x10)
    ∷ ("reserved_at_a0", 0x60)
    ∷ []

abbrev pub eth_802_3_cntrs_grp_data_layout : Layout
eth_802_3_cntrs_grp_data_layout =
    ("a_frames_transmitted_ok_high", 0x20)
    ∷ ("a_frames_transmitted_ok_low", 0x20)
    ∷ ("a_frames_received_ok_high", 0x20)
    ∷ ("a_frames_received_ok_low", 0x20)
    ∷ ("a_frame_check_sequence_errors_high", 0x20)
    ∷ ("a_frame_check_sequence_errors_low", 0x20)
    ∷ ("a_alignment_errors_high", 0x20)
    ∷ ("a_alignment_errors_low", 0x20)
    ∷ ("a_octets_transmitted_ok_high", 0x20)
    ∷ ("a_octets_transmitted_ok_low", 0x20)
    ∷ ("a_octets_received_ok_high", 0x20)
    ∷ ("a_octets_received_ok_low", 0x20)
    ∷ ("a_multicast_frames_xmitted_ok_high", 0x20)
    ∷ ("a_multicast_frames_xmitted_ok_low", 0x20)
    ∷ ("a_broadcast_frames_xmitted_ok_high", 0x20)
    ∷ ("a_broadcast_frames_xmitted_ok_low", 0x20)
    ∷ ("a_multicast_frames_received_ok_high", 0x20)
    ∷ ("a_multicast_frames_received_ok_low", 0x20)
    ∷ ("a_broadcast_frames_received_ok_high", 0x20)
    ∷ ("a_broadcast_frames_received_ok_low", 0x20)
    ∷ ("a_in_range_length_errors_high", 0x20)
    ∷ ("a_in_range_length_errors_low", 0x20)
    ∷ ("a_out_of_range_length_field_high", 0x20)
    ∷ ("a_out_of_range_length_field_low", 0x20)
    ∷ ("a_frame_too_long_errors_high", 0x20)
    ∷ ("a_frame_too_long_errors_low", 0x20)
    ∷ ("a_symbol_error_during_carrier_high", 0x20)
    ∷ ("a_symbol_error_during_carrier_low", 0x20)
    ∷ ("a_mac_control_frames_transmitted_high", 0x20)
    ∷ ("a_mac_control_frames_transmitted_low", 0x20)
    ∷ ("a_mac_control_frames_received_high", 0x20)
    ∷ ("a_mac_control_frames_received_low", 0x20)
    ∷ ("a_unsupported_opcodes_received_high", 0x20)
    ∷ ("a_unsupported_opcodes_received_low", 0x20)
    ∷ ("a_pause_mac_ctrl_frames_received_high", 0x20)
    ∷ ("a_pause_mac_ctrl_frames_received_low", 0x20)
    ∷ ("a_pause_mac_ctrl_frames_transmitted_high", 0x20)
    ∷ ("a_pause_mac_ctrl_frames_transmitted_low", 0x20)
    ∷ ("reserved_at_4c0", 0x300)
    ∷ []

abbrev pub eth_2863_cntrs_grp_data_layout : Layout
eth_2863_cntrs_grp_data_layout =
    ("if_in_octets_high", 0x20)
    ∷ ("if_in_octets_low", 0x20)
    ∷ ("if_in_ucast_pkts_high", 0x20)
    ∷ ("if_in_ucast_pkts_low", 0x20)
    ∷ ("if_in_discards_high", 0x20)
    ∷ ("if_in_discards_low", 0x20)
    ∷ ("if_in_errors_high", 0x20)
    ∷ ("if_in_errors_low", 0x20)
    ∷ ("if_in_unknown_protos_high", 0x20)
    ∷ ("if_in_unknown_protos_low", 0x20)
    ∷ ("if_out_octets_high", 0x20)
    ∷ ("if_out_octets_low", 0x20)
    ∷ ("if_out_ucast_pkts_high", 0x20)
    ∷ ("if_out_ucast_pkts_low", 0x20)
    ∷ ("if_out_discards_high", 0x20)
    ∷ ("if_out_discards_low", 0x20)
    ∷ ("if_out_errors_high", 0x20)
    ∷ ("if_out_errors_low", 0x20)
    ∷ ("if_in_multicast_pkts_high", 0x20)
    ∷ ("if_in_multicast_pkts_low", 0x20)
    ∷ ("if_in_broadcast_pkts_high", 0x20)
    ∷ ("if_in_broadcast_pkts_low", 0x20)
    ∷ ("if_out_multicast_pkts_high", 0x20)
    ∷ ("if_out_multicast_pkts_low", 0x20)
    ∷ ("if_out_broadcast_pkts_high", 0x20)
    ∷ ("if_out_broadcast_pkts_low", 0x20)
    ∷ ("reserved_at_340", 0x480)
    ∷ []
