-- ===== src/Prm/Registers/Part6.antt =====
-- Layouts from mlx5_ifc.h: the registers of the table in reg.c.
use mlx5ctl.Base.{[], ◌∷◌}
use mlx5ctl.Ifc.{Layout, mlx5_st_sz_bits, mlx5_un_sz_bits}
use mlx5ctl.Prm.Registers.Part5.{pcam_reg_feature_cap_mask, pcam_reg_port_access_reg_cap_mask}

abbrev pub pcam_reg : Layout
pcam_reg =
    ("reserved_at_0", 0x8)
    ∷ ("feature_group", 0x8)
    ∷ ("reserved_at_10", 0x8)
    ∷ ("access_reg_group", 0x8)
    ∷ ("reserved_at_20", 0x20)
    ∷ ("port_access_reg_cap_mask", mlx5_un_sz_bits pcam_reg_port_access_reg_cap_mask)
    ∷ ("reserved_at_c0", 0x80)
    ∷ ("feature_cap_mask", mlx5_un_sz_bits pcam_reg_feature_cap_mask)
    ∷ ("reserved_at_1c0", 0xc0)
    ∷ []

abbrev pub mcia_reg : Layout
mcia_reg =
    ("l", 0x1)
    ∷ ("reserved_at_1", 0x7)
    ∷ ("module", 0x8)
    ∷ ("reserved_at_10", 0x8)
    ∷ ("status", 0x8)
    ∷ ("i2c_device_address", 0x8)
    ∷ ("page_number", 0x8)
    ∷ ("device_address", 0x10)
    ∷ ("reserved_at_40", 0x10)
    ∷ ("size", 0x10)
    ∷ ("reserved_at_60", 0x20)
    ∷ ("dword_0", 0x20)
    ∷ ("dword_1", 0x20)
    ∷ ("dword_2", 0x20)
    ∷ ("dword_3", 0x20)
    ∷ ("dword_4", 0x20)
    ∷ ("dword_5", 0x20)
    ∷ ("dword_6", 0x20)
    ∷ ("dword_7", 0x20)
    ∷ ("dword_8", 0x20)
    ∷ ("dword_9", 0x20)
    ∷ ("dword_10", 0x20)
    ∷ ("dword_11", 0x20)
    ∷ []

abbrev pub mfrl_reg : Layout
mfrl_reg =
    ("reserved_at_0", 0x20)
    ∷ ("reserved_at_20", 0x2)
    ∷ ("pci_sync_for_fw_update_start", 0x1)
    ∷ ("pci_sync_for_fw_update_resp", 0x2)
    ∷ ("rst_type_sel", 0x3)
    ∷ ("reserved_at_28", 0x4)
    ∷ ("reset_state", 0x4)
    ∷ ("reset_type", 0x8)
    ∷ ("reset_level", 0x8)
    ∷ []

abbrev pub mlcr_reg : Layout
mlcr_reg =
    ("reserved_at_0", 0x8)
    ∷ ("local_port", 0x8)
    ∷ ("reserved_at_10", 0x20)
    ∷ ("beacon_duration", 0x10)
    ∷ ("reserved_at_40", 0x10)
    ∷ ("beacon_remain", 0x10)
    ∷ []

abbrev pub mrtc_reg : Layout
mrtc_reg =
    ("time_synced", 0x1)
    ∷ ("reserved_at_1", 0x1f)
    ∷ ("reserved_at_20", 0x20)
    ∷ ("time_h", 0x20)
    ∷ ("time_l", 0x20)
    ∷ []

abbrev pub mpein_reg : Layout
mpein_reg =
    ("reserved_at_0", 0x2)
    ∷ ("depth", 0x6)
    ∷ ("pcie_index", 0x8)
    ∷ ("node", 0x8)
    ∷ ("reserved_at_18", 0x8)
    ∷ ("capability_mask", 0x20)
    ∷ ("reserved_at_40", 0x8)
    ∷ ("link_width_enabled", 0x8)
    ∷ ("link_speed_enabled", 0x10)
    ∷ ("lane0_physical_position", 0x8)
    ∷ ("link_width_active", 0x8)
    ∷ ("link_speed_active", 0x10)
    ∷ ("num_of_pfs", 0x10)
    ∷ ("num_of_vfs", 0x10)
    ∷ ("bdf0", 0x10)
    ∷ ("reserved_at_b0", 0x10)
    ∷ ("max_read_request_size", 0x4)
    ∷ ("max_payload_size", 0x4)
    ∷ ("reserved_at_c8", 0x5)
    ∷ ("pwr_status", 0x3)
    ∷ ("port_type", 0x4)
    ∷ ("reserved_at_d4", 0xb)
    ∷ ("lane_reversal", 0x1)
    ∷ ("reserved_at_e0", 0x14)
    ∷ ("pci_power", 0xc)
    ∷ ("reserved_at_100", 0x20)
    ∷ ("device_status", 0x10)
    ∷ ("port_state", 0x8)
    ∷ ("reserved_at_138", 0x8)
    ∷ ("reserved_at_140", 0x10)
    ∷ ("receiver_detect_result", 0x10)
    ∷ ("reserved_at_160", 0x20)
    ∷ []

abbrev pub pcie_perf_cntrs_grp_data_layout : Layout
pcie_perf_cntrs_grp_data_layout =
    ("life_time_counter_high", 0x20)
    ∷ ("life_time_counter_low", 0x20)
    ∷ ("rx_errors", 0x20)
    ∷ ("tx_errors", 0x20)
    ∷ ("l0_to_recovery_eieos", 0x20)
    ∷ ("l0_to_recovery_ts", 0x20)
    ∷ ("l0_to_recovery_framing", 0x20)
    ∷ ("l0_to_recovery_retrain", 0x20)
    ∷ ("crc_error_dllp", 0x20)
    ∷ ("crc_error_tlp", 0x20)
    ∷ ("tx_overflow_buffer_pkt_high", 0x20)
    ∷ ("tx_overflow_buffer_pkt_low", 0x20)
    ∷ ("outbound_stalled_reads", 0x20)
    ∷ ("outbound_stalled_writes", 0x20)
    ∷ ("outbound_stalled_reads_events", 0x20)
    ∷ ("outbound_stalled_writes_events", 0x20)
    ∷ ("reserved_at_200", 0x5c0)
    ∷ []

abbrev pub pcie_cntrs_grp_data_layout_auto : Layout
pcie_cntrs_grp_data_layout_auto =
    ("pcie_perf_cntrs_grp_data_layout", mlx5_st_sz_bits pcie_perf_cntrs_grp_data_layout)
    ∷ ("reserved_at_0", 0x7c0)
    ∷ []

abbrev pub mpcnt_reg : Layout
mpcnt_reg =
    ("reserved_at_0", 0x8)
    ∷ ("pcie_index", 0x8)
    ∷ ("reserved_at_10", 0xa)
    ∷ ("grp", 0x6)
    ∷ ("clr", 0x1)
    ∷ ("reserved_at_21", 0x1f)
    ∷ ("counter_set", mlx5_un_sz_bits pcie_cntrs_grp_data_layout_auto)
    ∷ []

abbrev pub mtutc_reg : Layout
mtutc_reg =
    ("reserved_at_0", 0x1c)
    ∷ ("operation", 0x4)
    ∷ ("freq_adjustment", 0x20)
    ∷ ("reserved_at_40", 0x40)
    ∷ ("utc_sec", 0x20)
    ∷ ("reserved_at_a0", 0x2)
    ∷ ("utc_nsec", 0x1e)
    ∷ ("time_adjustment", 0x20)
    ∷ []

abbrev pub mpegc_reg : Layout
mpegc_reg =
    ("reserved_at_0", 0x30)
    ∷ ("field_select", 0x10)
    ∷ ("tx_overflow_sense", 0x1)
    ∷ ("mark_cqe", 0x1)
    ∷ ("mark_cnp", 0x1)
    ∷ ("reserved_at_43", 0x1b)
    ∷ ("tx_lossy_overflow_oper", 0x2)
    ∷ ("reserved_at_60", 0x100)
    ∷ []

abbrev pub mcqs_reg : Layout
mcqs_reg =
    ("last_index_flag", 0x1)
    ∷ ("reserved_at_1", 0x7)
    ∷ ("fw_device", 0x8)
    ∷ ("component_index", 0x10)
    ∷ ("reserved_at_20", 0x10)
    ∷ ("identifier", 0x10)
    ∷ ("reserved_at_40", 0x17)
    ∷ ("component_status", 0x5)
    ∷ ("component_update_state", 0x4)
    ∷ ("last_update_state_changer_type", 0x4)
    ∷ ("last_update_state_changer_host_id", 0x4)
    ∷ ("reserved_at_68", 0x18)
    ∷ []
