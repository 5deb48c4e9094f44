-- ===== src/Prm/Registers/Part1.antt =====
-- Layouts from mlx5_ifc.h: the registers of the table in reg.c.
use mlx5ctl.Base.{[], ◌∷◌, ◌*◌}
use mlx5ctl.Ifc.{Layout, mlx5_st_sz_bits, mlx5_un_sz_bits}

abbrev pub local_port_reg : Layout
local_port_reg = ("reserved_at_0", 0x8) ∷ ("local_port", 0x8) ∷ []

abbrev pub ptys_reg : Layout
ptys_reg =
    ("reserved_at_0", 0x1)
    ∷ ("an_disable_admin", 0x1)
    ∷ ("an_disable_cap", 0x1)
    ∷ ("reserved_at_3", 0x5)
    ∷ ("local_port", 0x8)
    ∷ ("reserved_at_10", 0xd)
    ∷ ("proto_mask", 0x3)
    ∷ ("an_status", 0x4)
    ∷ ("reserved_at_24", 0xc)
    ∷ ("data_rate_oper", 0x10)
    ∷ ("ext_eth_proto_capability", 0x20)
    ∷ ("eth_proto_capability", 0x20)
    ∷ ("ib_link_width_capability", 0x10)
    ∷ ("ib_proto_capability", 0x10)
    ∷ ("ext_eth_proto_admin", 0x20)
    ∷ ("eth_proto_admin", 0x20)
    ∷ ("ib_link_width_admin", 0x10)
    ∷ ("ib_proto_admin", 0x10)
    ∷ ("ext_eth_proto_oper", 0x20)
    ∷ ("eth_proto_oper", 0x20)
    ∷ ("ib_link_width_oper", 0x10)
    ∷ ("ib_proto_oper", 0x10)
    ∷ ("reserved_at_160", 0x1c)
    ∷ ("connector_type", 0x4)
    ∷ ("eth_proto_lp_advertise", 0x20)
    ∷ ("reserved_at_1a0", 0x60)
    ∷ []

abbrev pub default_timeout : Layout
default_timeout = ("to_multiplier", 0x3) ∷ ("reserved_at_3", 0x9) ∷ ("to_value", 0x14) ∷ []

abbrev pub dtor_reg : Layout
dtor_reg =
    ("reserved_at_0", 0x20)
    ∷ ("pcie_toggle_to", mlx5_st_sz_bits default_timeout)
    ∷ ("reserved_at_40", 0x60)
    ∷ ("health_poll_to", mlx5_st_sz_bits default_timeout)
    ∷ ("full_crdump_to", mlx5_st_sz_bits default_timeout)
    ∷ ("fw_reset_to", mlx5_st_sz_bits default_timeout)
    ∷ ("flush_on_err_to", mlx5_st_sz_bits default_timeout)
    ∷ ("pci_sync_update_to", mlx5_st_sz_bits default_timeout)
    ∷ ("tear_down_to", mlx5_st_sz_bits default_timeout)
    ∷ ("fsm_reactivate_to", mlx5_st_sz_bits default_timeout)
    ∷ ("reclaim_pages_to", mlx5_st_sz_bits default_timeout)
    ∷ ("reclaim_vfs_pages_to", mlx5_st_sz_bits default_timeout)
    ∷ ("reserved_at_1c0", 0x40)
    ∷ []

abbrev pub rcr_reg : Layout
rcr_reg =
    ("reserved_at_0", 0x1f)
    ∷ ("health_severity_bitmask_valid", 0x1)
    ∷ ("reserved_at_20", 0x18)
    ∷ ("health_severity_bitmask", 0x8)
    ∷ ("reserved_at_40", 0x140)
    ∷ []

abbrev pub mcam_access_reg : Layout
mcam_access_reg =
    ("reserved_at_0", 0x1c)
    ∷ ("mcda", 0x1)
    ∷ ("mcc", 0x1)
    ∷ ("mcqi", 0x1)
    ∷ ("mcqs", 0x1)
    ∷ ("regs_95_to_87", 0x9)
    ∷ ("mpegc", 0x1)
    ∷ ("mtutc", 0x1)
    ∷ ("regs_84_to_68", 0x11)
    ∷ ("tracer_registers", 0x4)
    ∷ ("regs_63_to_46", 0x12)
    ∷ ("mrtc", 0x1)
    ∷ ("regs_44_to_32", 0xd)
    ∷ ("regs_31_to_0", 0x20)
    ∷ []

abbrev pub mcam_access_reg_bits1 : Layout
mcam_access_reg_bits1 =
    ("regs_127_to_96", 0x20)
    ∷ ("regs_95_to_64", 0x20)
    ∷ ("regs_63_to_32", 0x20)
    ∷ ("regs_31_to_0", 0x20)
    ∷ []

abbrev pub mcam_access_reg_bits2 : Layout
mcam_access_reg_bits2 =
    ("regs_127_to_99", 0x1d)
    ∷ ("mirc", 0x1)
    ∷ ("regs_97_to_96", 0x2)
    ∷ ("regs_95_to_64", 0x20)
    ∷ ("regs_63_to_32", 0x20)
    ∷ ("regs_31_to_0", 0x20)
    ∷ []

abbrev pub mcam_reg_mng_access_reg_cap_mask : Layout
mcam_reg_mng_access_reg_cap_mask =
    ("access_regs", mlx5_st_sz_bits mcam_access_reg)
    ∷ ("access_regs1", mlx5_st_sz_bits mcam_access_reg_bits1)
    ∷ ("access_regs2", mlx5_st_sz_bits mcam_access_reg_bits2)
    ∷ ("reserved_at_0", 0x80)
    ∷ []

abbrev pub mcam_enhanced_features : Layout
mcam_enhanced_features =
    ("reserved_at_0", 0x5d)
    ∷ ("mcia_32dwords", 0x1)
    ∷ ("out_pulse_duration_ns", 0x1)
    ∷ ("npps_period", 0x1)
    ∷ ("reserved_at_60", 0xa)
    ∷ ("reset_state", 0x1)
    ∷ ("ptpcyc2realtime_modify", 0x1)
    ∷ ("reserved_at_6c", 0x2)
    ∷ ("pci_status_and_power", 0x1)
    ∷ ("reserved_at_6f", 0x5)
    ∷ ("mark_tx_action_cnp", 0x1)
    ∷ ("mark_tx_action_cqe", 0x1)
    ∷ ("dynamic_tx_overflow", 0x1)
    ∷ ("reserved_at_77", 0x4)
    ∷ ("pcie_outbound_stalled", 0x1)
    ∷ ("tx_overflow_buffer_pkt", 0x1)
    ∷ ("mtpps_enh_out_per_adj", 0x1)
    ∷ ("mtpps_fs", 0x1)
    ∷ ("pcie_performance_group", 0x1)
    ∷ []

abbrev pub mcam_reg_mng_feature_cap_mask : Layout
mcam_reg_mng_feature_cap_mask =
    ("enhanced_features", mlx5_st_sz_bits mcam_enhanced_features) ∷ ("reserved_at_0", 0x80) ∷ []

abbrev pub mcam_reg : Layout
mcam_reg =
    ("reserved_at_0", 0x8)
    ∷ ("feature_group", 0x8)
    ∷ ("reserved_at_10", 0x8)
    ∷ ("access_reg_group", 0x8)
    ∷ ("reserved_at_20", 0x20)
    ∷ ("mng_access_reg_cap_mask", mlx5_un_sz_bits mcam_reg_mng_access_reg_cap_mask)
    ∷ ("reserved_at_c0", 0x80)
    ∷ ("mng_feature_cap_mask", mlx5_un_sz_bits mcam_reg_mng_feature_cap_mask)
    ∷ ("reserved_at_1c0", 0x80)
    ∷ []

abbrev pub qpts_reg : Layout
qpts_reg =
    ("reserved_at_0", 0x8)
    ∷ ("local_port", 0x8)
    ∷ ("reserved_at_10", 0x2d)
    ∷ ("trust_state", 0x3)
    ∷ []

abbrev pub qtct_reg : Layout
qtct_reg =
    ("reserved_at_0", 0x8)
    ∷ ("port_number", 0x8)
    ∷ ("reserved_at_10", 0xd)
    ∷ ("prio", 0x3)
    ∷ ("reserved_at_20", 0x1d)
    ∷ ("tclass", 0x3)
    ∷ []

abbrev pub qpdpm_dscp_reg : Layout
qpdpm_dscp_reg = ("e", 0x1) ∷ ("reserved_at_01", 0x0b) ∷ ("prio", 0x04) ∷ []

abbrev pub qpdpm_reg : Layout
qpdpm_reg =
    ("reserved_at_0", 0x8)
    ∷ ("local_port", 0x8)
    ∷ ("reserved_at_10", 0x10)
    ∷ ("dscp", 64 * mlx5_st_sz_bits qpdpm_dscp_reg)
    ∷ []
