-- ===== src/Prm/Registers/Part5.antt =====
-- Layouts from mlx5_ifc.h: the registers of the table in reg.c.
use mlx5ctl.Base.{[], ◌∷◌, ◌*◌}
use mlx5ctl.Ifc.{Layout, mlx5_st_sz_bits, mlx5_un_sz_bits}

abbrev pub pelc_reg : Layout
pelc_reg =
    ("op", 0x4)
    ∷ ("reserved_at_4", 0x4)
    ∷ ("local_port", 0x8)
    ∷ ("reserved_at_10", 0x10)
    ∷ ("op_admin", 0x8)
    ∷ ("op_capability", 0x8)
    ∷ ("op_request", 0x8)
    ∷ ("op_active", 0x8)
    ∷ ("admin", 0x40)
    ∷ ("capability", 0x40)
    ∷ ("request", 0x40)
    ∷ ("active", 0x40)
    ∷ ("reserved_at_140", 0x80)
    ∷ []

abbrev pub pvlc_reg : Layout
pvlc_reg =
    ("reserved_at_0", 0x8)
    ∷ ("local_port", 0x8)
    ∷ ("reserved_at_10", 0x10)
    ∷ ("reserved_at_20", 0x1c)
    ∷ ("vl_hw_cap", 0x4)
    ∷ ("reserved_at_40", 0x1c)
    ∷ ("vl_admin", 0x4)
    ∷ ("reserved_at_60", 0x1c)
    ∷ ("vl_operational", 0x4)
    ∷ []

abbrev pub pcmr_reg : Layout
pcmr_reg =
    ("reserved_at_0", 0x8)
    ∷ ("local_port", 0x8)
    ∷ ("reserved_at_10", 0x10)
    ∷ ("entropy_force_cap", 0x1)
    ∷ ("entropy_calc_cap", 0x1)
    ∷ ("entropy_gre_calc_cap", 0x1)
    ∷ ("reserved_at_23", 0xf)
    ∷ ("rx_ts_over_crc_cap", 0x1)
    ∷ ("reserved_at_33", 0xb)
    ∷ ("fcs_cap", 0x1)
    ∷ ("reserved_at_3f", 0x1)
    ∷ ("entropy_force", 0x1)
    ∷ ("entropy_calc", 0x1)
    ∷ ("entropy_gre_calc", 0x1)
    ∷ ("reserved_at_43", 0xf)
    ∷ ("rx_ts_over_crc", 0x1)
    ∷ ("reserved_at_53", 0xb)
    ∷ ("fcs_chk", 0x1)
    ∷ ("reserved_at_5f", 0x1)
    ∷ []

abbrev pub pddr_monitor_opcode : Layout
pddr_monitor_opcode = ("reserved_at_0", 0x10) ∷ ("monitor_opcode", 0x10) ∷ []

abbrev pub pddr_troubleshooting_page_status_opcode_auto : Layout
pddr_troubleshooting_page_status_opcode_auto =
    ("pddr_monitor_opcode", mlx5_st_sz_bits pddr_monitor_opcode) ∷ ("reserved_at_0", 0x20) ∷ []

abbrev pub pddr_troubleshooting_page : Layout
pddr_troubleshooting_page =
    ("reserved_at_0", 0x10)
    ∷ ("group_opcode", 0x10)
    ∷ ("status_opcode", mlx5_un_sz_bits pddr_troubleshooting_page_status_opcode_auto)
    ∷ ("reserved_at_40", 0x20)
    ∷ ("status_message", 59 * 0x20)
    ∷ []

abbrev pub pddr_reg_page_data_auto : Layout
pddr_reg_page_data_auto =
    ("pddr_troubleshooting_page", mlx5_st_sz_bits pddr_troubleshooting_page)
    ∷ ("reserved_at_0", 0x7c0)
    ∷ []

abbrev pub pddr_reg : Layout
pddr_reg =
    ("reserved_at_0", 0x8)
    ∷ ("local_port", 0x8)
    ∷ ("pnat", 0x2)
    ∷ ("reserved_at_12", 0xe)
    ∷ ("reserved_at_20", 0x18)
    ∷ ("page_select", 0x8)
    ∷ ("page_data", mlx5_un_sz_bits pddr_reg_page_data_auto)
    ∷ []

abbrev pub pmlp_reg : Layout
pmlp_reg =
    ("rxtx", 0x1)
    ∷ ("reserved_at_1", 0x7)
    ∷ ("local_port", 0x8)
    ∷ ("reserved_at_10", 0x8)
    ∷ ("width", 0x8)
    ∷ ("lane0_module_mapping", 0x20)
    ∷ ("lane1_module_mapping", 0x20)
    ∷ ("lane2_module_mapping", 0x20)
    ∷ ("lane3_module_mapping", 0x20)
    ∷ ("reserved_at_a0", 0x160)
    ∷ []

abbrev pub pplm_reg : Layout
pplm_reg =
    ("reserved_at_0", 0x8)
    ∷ ("local_port", 0x8)
    ∷ ("reserved_at_10", 0x10)
    ∷ ("reserved_at_20", 0x20)
    ∷ ("port_profile_mode", 0x8)
    ∷ ("static_port_profile", 0x8)
    ∷ ("active_port_profile", 0x8)
    ∷ ("reserved_at_58", 0x8)
    ∷ ("retransmission_active", 0x8)
    ∷ ("fec_mode_active", 0x18)
    ∷ ("rs_fec_correction_bypass_cap", 0x4)
    ∷ ("reserved_at_84", 0x8)
    ∷ ("fec_override_cap_56g", 0x4)
    ∷ ("fec_override_cap_100g", 0x4)
    ∷ ("fec_override_cap_50g", 0x4)
    ∷ ("fec_override_cap_25g", 0x4)
    ∷ ("fec_override_cap_10g_40g", 0x4)
    ∷ ("rs_fec_correction_bypass_admin", 0x4)
    ∷ ("reserved_at_a4", 0x8)
    ∷ ("fec_override_admin_56g", 0x4)
    ∷ ("fec_override_admin_100g", 0x4)
    ∷ ("fec_override_admin_50g", 0x4)
    ∷ ("fec_override_admin_25g", 0x4)
    ∷ ("fec_override_admin_10g_40g", 0x4)
    ∷ ("fec_override_cap_400g_8x", 0x10)
    ∷ ("fec_override_cap_200g_4x", 0x10)
    ∷ ("fec_override_cap_100g_2x", 0x10)
    ∷ ("fec_override_cap_50g_1x", 0x10)
    ∷ ("fec_override_admin_400g_8x", 0x10)
    ∷ ("fec_override_admin_200g_4x", 0x10)
    ∷ ("fec_override_admin_100g_2x", 0x10)
    ∷ ("fec_override_admin_50g_1x", 0x10)
    ∷ ("reserved_at_140", 0x140)
    ∷ []

abbrev pub pcam_regs_5000_to_507f : Layout
pcam_regs_5000_to_507f =
    ("port_access_reg_cap_mask_127_to_96", 0x20)
    ∷ ("port_access_reg_cap_mask_95_to_64", 0x20)
    ∷ ("port_access_reg_cap_mask_63_to_36", 0x1c)
    ∷ ("pplm", 0x1)
    ∷ ("port_access_reg_cap_mask_34_to_32", 0x3)
    ∷ ("port_access_reg_cap_mask_31_to_13", 0x13)
    ∷ ("pbmc", 0x1)
    ∷ ("pptb", 0x1)
    ∷ ("port_access_reg_cap_mask_10_to_09", 0x2)
    ∷ ("ppcnt", 0x1)
    ∷ ("port_access_reg_cap_mask_07_to_00", 0x8)
    ∷ []

abbrev pub pcam_reg_port_access_reg_cap_mask : Layout
pcam_reg_port_access_reg_cap_mask =
    ("regs_5000_to_507f", mlx5_st_sz_bits pcam_regs_5000_to_507f) ∷ ("reserved_at_0", 0x80) ∷ []

abbrev pub pcam_enhanced_features : Layout
pcam_enhanced_features =
    ("reserved_at_0", 0x68)
    ∷ ("fec_50G_per_lane_in_pplm", 0x1)
    ∷ ("reserved_at_69", 0x4)
    ∷ ("rx_icrc_encapsulated_counter", 0x1)
    ∷ ("reserved_at_6e", 0x4)
    ∷ ("ptys_extended_ethernet", 0x1)
    ∷ ("reserved_at_73", 0x3)
    ∷ ("pfcc_mask", 0x1)
    ∷ ("reserved_at_77", 0x3)
    ∷ ("per_lane_error_counters", 0x1)
    ∷ ("rx_buffer_fullness_counters", 0x1)
    ∷ ("ptys_connector_type", 0x1)
    ∷ ("reserved_at_7d", 0x1)
    ∷ ("ppcnt_discard_group", 0x1)
    ∷ ("ppcnt_statistical_group", 0x1)
    ∷ []

abbrev pub pcam_reg_feature_cap_mask : Layout
pcam_reg_feature_cap_mask =
    ("enhanced_features", mlx5_st_sz_bits pcam_enhanced_features) ∷ ("reserved_at_0", 0x80) ∷ []
