-- ===== src/Prm/Registers/Part7.antt =====
-- Layouts from mlx5_ifc.h: the registers of the table in reg.c.
use mlx5ctl.Base.{[], ◌∷◌, ◌*◌}
use mlx5ctl.Ifc.{Layout, mlx5_st_sz_bits}

abbrev pub mcqi_cap : Layout
mcqi_cap =
    ("supported_info_bitmask", 0x20)
    ∷ ("component_size", 0x20)
    ∷ ("max_component_size", 0x20)
    ∷ ("log_mcda_word_size", 0x4)
    ∷ ("reserved_at_64", 0xc)
    ∷ ("mcda_max_write_size", 0x10)
    ∷ ("rd_en", 0x1)
    ∷ ("reserved_at_81", 0x1)
    ∷ ("match_chip_id", 0x1)
    ∷ ("match_psid", 0x1)
    ∷ ("check_user_timestamp", 0x1)
    ∷ ("match_base_guid_mac", 0x1)
    ∷ ("reserved_at_86", 0x1a)
    ∷ []

abbrev pub mcqi_version : Layout
mcqi_version =
    ("reserved_at_0", 0x2)
    ∷ ("build_time_valid", 0x1)
    ∷ ("user_defined_time_valid", 0x1)
    ∷ ("reserved_at_4", 0x14)
    ∷ ("version_string_length", 0x8)
    ∷ ("version", 0x20)
    ∷ ("build_time", 0x40)
    ∷ ("user_defined_time", 0x40)
    ∷ ("build_tool_version", 0x20)
    ∷ ("reserved_at_e0", 0x20)
    ∷ ("version_string", 92 * 0x8)
    ∷ []

abbrev pub mcqi_activation_method : Layout
mcqi_activation_method =
    ("pending_server_ac_power_cycle", 0x1)
    ∷ ("pending_server_dc_power_cycle", 0x1)
    ∷ ("pending_server_reboot", 0x1)
    ∷ ("pending_fw_reset", 0x1)
    ∷ ("auto_activate", 0x1)
    ∷ ("all_hosts_sync", 0x1)
    ∷ ("device_hw_reset", 0x1)
    ∷ ("reserved_at_7", 0x19)
    ∷ []

abbrev pub mcqi_reg_data : Layout
mcqi_reg_data =
    ("mcqi_caps", mlx5_st_sz_bits mcqi_cap)
    ∷ ("mcqi_version", mlx5_st_sz_bits mcqi_version)
    ∷ ("mcqi_activation_mathod", mlx5_st_sz_bits mcqi_activation_method)
    ∷ []

abbrev pub mcqi_reg : Layout
mcqi_reg =
    ("read_pending_component", 0x1)
    ∷ ("reserved_at_1", 0xf)
    ∷ ("component_index", 0x10)
    ∷ ("reserved_at_20", 0x20)
    ∷ ("reserved_at_40", 0x1b)
    ∷ ("info_type", 0x5)
    ∷ ("info_size", 0x20)
    ∷ ("offset", 0x20)
    ∷ ("reserved_at_a0", 0x10)
    ∷ ("data_size", 0x10)
    ∷ ("data", 0)
    ∷ []

abbrev pub mcc_reg : Layout
mcc_reg =
    ("reserved_at_0", 0x4)
    ∷ ("time_elapsed_since_last_cmd", 0xc)
    ∷ ("reserved_at_10", 0x8)
    ∷ ("instruction", 0x8)
    ∷ ("reserved_at_20", 0x10)
    ∷ ("component_index", 0x10)
    ∷ ("reserved_at_40", 0x8)
    ∷ ("update_handle", 0x18)
    ∷ ("handle_owner_type", 0x4)
    ∷ ("handle_owner_host_id", 0x4)
    ∷ ("reserved_at_68", 0x1)
    ∷ ("control_progress", 0x7)
    ∷ ("error_code", 0x8)
    ∷ ("reserved_at_78", 0x4)
    ∷ ("control_state", 0x4)
    ∷ ("component_size", 0x20)
    ∷ ("reserved_at_a0", 0x60)
    ∷ []

abbrev pub mcda_reg : Layout
mcda_reg =
    ("reserved_at_0", 0x8)
    ∷ ("update_handle", 0x18)
    ∷ ("offset", 0x20)
    ∷ ("reserved_at_40", 0x10)
    ∷ ("size", 0x10)
    ∷ ("reserved_at_60", 0x20)
    ∷ ("data", 0)
    ∷ []

abbrev pub mirc_reg : Layout
mirc_reg = ("reserved_at_0", 0x18) ∷ ("status_code", 0x8) ∷ ("reserved_at_20", 0x20) ∷ []

abbrev pub sbcam_reg : Layout
sbcam_reg =
    ("reserved_at_0", 0x8)
    ∷ ("feature_group", 0x8)
    ∷ ("reserved_at_10", 0x8)
    ∷ ("access_reg_group", 0x8)
    ∷ ("reserved_at_20", 0x20)
    ∷ ("sb_access_reg_cap_mask", 4 * 0x20)
    ∷ ("reserved_at_c0", 0x80)
    ∷ ("sb_feature_cap_mask", 4 * 0x20)
    ∷ ("reserved_at_1c0", 0x40)
    ∷ ("cap_total_buffer_size", 0x20)
    ∷ ("cap_cell_size", 0x10)
    ∷ ("cap_max_pg_buffers", 0x8)
    ∷ ("cap_num_pool_supported", 0x8)
    ∷ ("reserved_at_240", 0x8)
    ∷ ("cap_sbsr_stat_size", 0x8)
    ∷ ("cap_max_tclass_data", 0x8)
    ∷ ("cap_max_cpu_ingress_tclass_sb", 0x8)
    ∷ []

abbrev pub dcbx_param_reg : Layout
dcbx_param_reg =
    ("dcbx_cee_cap", 0x1)
    ∷ ("dcbx_ieee_cap", 0x1)
    ∷ ("dcbx_standby_cap", 0x1)
    ∷ ("reserved_at_3", 0x5)
    ∷ ("port_number", 0x8)
    ∷ ("reserved_at_10", 0xa)
    ∷ ("max_application_table_size", 6)
    ∷ ("reserved_at_20", 0x15)
    ∷ ("version_oper", 0x3)
    ∷ ("reserved_at_38", 5)
    ∷ ("version_admin", 0x3)
    ∷ ("willing_admin", 0x1)
    ∷ ("reserved_at_41", 0x3)
    ∷ ("pfc_cap_oper", 0x4)
    ∷ ("reserved_at_48", 0x4)
    ∷ ("pfc_cap_admin", 0x4)
    ∷ ("reserved_at_50", 0x4)
    ∷ ("num_of_tc_oper", 0x4)
    ∷ ("reserved_at_58", 0x4)
    ∷ ("num_of_tc_admin", 0x4)
    ∷ ("remote_willing", 0x1)
    ∷ ("reserved_at_61", 3)
    ∷ ("remote_pfc_cap", 4)
    ∷ ("reserved_at_68", 0x14)
    ∷ ("remote_num_of_tc", 0x4)
    ∷ ("reserved_at_80", 0x18)
    ∷ ("error", 0x8)
    ∷ ("reserved_at_a0", 0x160)
    ∷ []
