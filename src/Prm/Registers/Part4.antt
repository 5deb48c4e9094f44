-- ===== src/Prm/Registers/Part4.antt =====
-- Layouts from mlx5_ifc.h: the registers of the table in reg.c.
use mlx5ctl.Base.{[], ◌∷◌, ◌*◌}
use mlx5ctl.Ifc.{Layout, mlx5_st_sz_bits, mlx5_un_sz_bits}
use mlx5ctl.Prm.Registers.Part2.{eth_2863_cntrs_grp_data_layout, eth_802_3_cntrs_grp_data_layout}
use mlx5ctl.Prm.Registers.Part3.{
  eth_2819_cntrs_grp_data_layout, eth_3635_cntrs_grp_data_layout,
  eth_extended_cntrs_grp_data_layout, eth_per_prio_grp_data_layout,
  eth_per_tc_congest_prio_grp_data_layout, eth_per_tc_prio_grp_data_layout,
  ib_port_cntrs_grp_data_layout,
}

abbrev pub phys_layer_cntrs : Layout
phys_layer_cntrs =
    ("time_since_last_clear_high", 0x20)
    ∷ ("time_since_last_clear_low", 0x20)
    ∷ ("symbol_errors_high", 0x20)
    ∷ ("symbol_errors_low", 0x20)
    ∷ ("sync_headers_errors_high", 0x20)
    ∷ ("sync_headers_errors_low", 0x20)
    ∷ ("edpl_bip_errors_lane0_high", 0x20)
    ∷ ("edpl_bip_errors_lane0_low", 0x20)
    ∷ ("edpl_bip_errors_lane1_high", 0x20)
    ∷ ("edpl_bip_errors_lane1_low", 0x20)
    ∷ ("edpl_bip_errors_lane2_high", 0x20)
    ∷ ("edpl_bip_errors_lane2_low", 0x20)
    ∷ ("edpl_bip_errors_lane3_high", 0x20)
    ∷ ("edpl_bip_errors_lane3_low", 0x20)
    ∷ ("fc_fec_corrected_blocks_lane0_high", 0x20)
    ∷ ("fc_fec_corrected_blocks_lane0_low", 0x20)
    ∷ ("fc_fec_corrected_blocks_lane1_high", 0x20)
    ∷ ("fc_fec_corrected_blocks_lane1_low", 0x20)
    ∷ ("fc_fec_corrected_blocks_lane2_high", 0x20)
    ∷ ("fc_fec_corrected_blocks_lane2_low", 0x20)
    ∷ ("fc_fec_corrected_blocks_lane3_high", 0x20)
    ∷ ("fc_fec_corrected_blocks_lane3_low", 0x20)
    ∷ ("fc_fec_uncorrectable_blocks_lane0_high", 0x20)
    ∷ ("fc_fec_uncorrectable_blocks_lane0_low", 0x20)
    ∷ ("fc_fec_uncorrectable_blocks_lane1_high", 0x20)
    ∷ ("fc_fec_uncorrectable_blocks_lane1_low", 0x20)
    ∷ ("fc_fec_uncorrectable_blocks_lane2_high", 0x20)
    ∷ ("fc_fec_uncorrectable_blocks_lane2_low", 0x20)
    ∷ ("fc_fec_uncorrectable_blocks_lane3_high", 0x20)
    ∷ ("fc_fec_uncorrectable_blocks_lane3_low", 0x20)
    ∷ ("rs_fec_corrected_blocks_high", 0x20)
    ∷ ("rs_fec_corrected_blocks_low", 0x20)
    ∷ ("rs_fec_uncorrectable_blocks_high", 0x20)
    ∷ ("rs_fec_uncorrectable_blocks_low", 0x20)
    ∷ ("rs_fec_no_errors_blocks_high", 0x20)
    ∷ ("rs_fec_no_errors_blocks_low", 0x20)
    ∷ ("rs_fec_single_error_blocks_high", 0x20)
    ∷ ("rs_fec_single_error_blocks_low", 0x20)
    ∷ ("rs_fec_corrected_symbols_total_high", 0x20)
    ∷ ("rs_fec_corrected_symbols_total_low", 0x20)
    ∷ ("rs_fec_corrected_symbols_lane0_high", 0x20)
    ∷ ("rs_fec_corrected_symbols_lane0_low", 0x20)
    ∷ ("rs_fec_corrected_symbols_lane1_high", 0x20)
    ∷ ("rs_fec_corrected_symbols_lane1_low", 0x20)
    ∷ ("rs_fec_corrected_symbols_lane2_high", 0x20)
    ∷ ("rs_fec_corrected_symbols_lane2_low", 0x20)
    ∷ ("rs_fec_corrected_symbols_lane3_high", 0x20)
    ∷ ("rs_fec_corrected_symbols_lane3_low", 0x20)
    ∷ ("link_down_events", 0x20)
    ∷ ("successful_recovery_events", 0x20)
    ∷ ("reserved_at_640", 0x180)
    ∷ []

abbrev pub phys_layer_statistical_cntrs : Layout
phys_layer_statistical_cntrs =
    ("time_since_last_clear_high", 0x20)
    ∷ ("time_since_last_clear_low", 0x20)
    ∷ ("phy_received_bits_high", 0x20)
    ∷ ("phy_received_bits_low", 0x20)
    ∷ ("phy_symbol_errors_high", 0x20)
    ∷ ("phy_symbol_errors_low", 0x20)
    ∷ ("phy_corrected_bits_high", 0x20)
    ∷ ("phy_corrected_bits_low", 0x20)
    ∷ ("phy_corrected_bits_lane0_high", 0x20)
    ∷ ("phy_corrected_bits_lane0_low", 0x20)
    ∷ ("phy_corrected_bits_lane1_high", 0x20)
    ∷ ("phy_corrected_bits_lane1_low", 0x20)
    ∷ ("phy_corrected_bits_lane2_high", 0x20)
    ∷ ("phy_corrected_bits_lane2_low", 0x20)
    ∷ ("phy_corrected_bits_lane3_high", 0x20)
    ∷ ("phy_corrected_bits_lane3_low", 0x20)
    ∷ ("reserved_at_200", 0x5c0)
    ∷ []

abbrev pub eth_cntrs_grp_data_layout_auto : Layout
eth_cntrs_grp_data_layout_auto =
    ("eth_802_3_cntrs_grp_data_layout", mlx5_st_sz_bits eth_802_3_cntrs_grp_data_layout)
    ∷ ("eth_2863_cntrs_grp_data_layout", mlx5_st_sz_bits eth_2863_cntrs_grp_data_layout)
    ∷ ("eth_2819_cntrs_grp_data_layout", mlx5_st_sz_bits eth_2819_cntrs_grp_data_layout)
    ∷ ("eth_3635_cntrs_grp_data_layout", mlx5_st_sz_bits eth_3635_cntrs_grp_data_layout)
    ∷ ("eth_extended_cntrs_grp_data_layout", mlx5_st_sz_bits eth_extended_cntrs_grp_data_layout)
    ∷ ("eth_per_prio_grp_data_layout", mlx5_st_sz_bits eth_per_prio_grp_data_layout)
    ∷ ("eth_per_tc_prio_grp_data_layout", mlx5_st_sz_bits eth_per_tc_prio_grp_data_layout)
    ∷ (
      "eth_per_tc_congest_prio_grp_data_layout",
      mlx5_st_sz_bits eth_per_tc_congest_prio_grp_data_layout,
    )
    ∷ ("ib_port_cntrs_grp_data_layout", mlx5_st_sz_bits ib_port_cntrs_grp_data_layout)
    ∷ ("phys_layer_cntrs", mlx5_st_sz_bits phys_layer_cntrs)
    ∷ ("phys_layer_statistical_cntrs", mlx5_st_sz_bits phys_layer_statistical_cntrs)
    ∷ ("reserved_at_0", 0x7c0)
    ∷ []

abbrev pub ppcnt_reg : Layout
ppcnt_reg =
    ("swid", 0x8)
    ∷ ("local_port", 0x8)
    ∷ ("pnat", 0x2)
    ∷ ("reserved_at_12", 0x8)
    ∷ ("grp", 0x6)
    ∷ ("clr", 0x1)
    ∷ ("reserved_at_21", 0x1c)
    ∷ ("prio_tc", 0x3)
    ∷ ("counter_set", mlx5_un_sz_bits eth_cntrs_grp_data_layout_auto)
    ∷ []

abbrev pub pptb_reg : Layout
pptb_reg =
    ("reserved_at_0", 0x2)
    ∷ ("mm", 0x2)
    ∷ ("reserved_at_4", 0x4)
    ∷ ("local_port", 0x8)
    ∷ ("reserved_at_10", 0x6)
    ∷ ("cm", 0x1)
    ∷ ("um", 0x1)
    ∷ ("pm", 0x8)
    ∷ ("prio_x_buff", 0x20)
    ∷ ("pm_msb", 0x8)
    ∷ ("reserved_at_48", 0x10)
    ∷ ("ctrl_buff", 0x4)
    ∷ ("untagged_buff", 0x4)
    ∷ []

abbrev pub bufferx_reg : Layout
bufferx_reg =
    ("reserved_at_0", 0x6)
    ∷ ("lossy", 0x1)
    ∷ ("epsb", 0x1)
    ∷ ("reserved_at_8", 0x8)
    ∷ ("size", 0x10)
    ∷ ("xoff_threshold", 0x10)
    ∷ ("xon_threshold", 0x10)
    ∷ []

abbrev pub pbmc_reg : Layout
pbmc_reg =
    ("reserved_at_0", 0x8)
    ∷ ("local_port", 0x8)
    ∷ ("reserved_at_10", 0x10)
    ∷ ("xoff_timer_value", 0x10)
    ∷ ("xoff_refresh", 0x10)
    ∷ ("reserved_at_40", 0x9)
    ∷ ("fullness_threshold", 0x7)
    ∷ ("port_buffer_size", 0x10)
    ∷ ("buffer", 10 * mlx5_st_sz_bits bufferx_reg)
    ∷ ("reserved_at_2e0", 0x80)
    ∷ []

abbrev pub pmaos_reg : Layout
pmaos_reg =
    ("reserved_at_0", 0x8)
    ∷ ("module", 0x8)
    ∷ ("reserved_at_10", 0x4)
    ∷ ("admin_status", 0x4)
    ∷ ("reserved_at_18", 0x4)
    ∷ ("oper_status", 0x4)
    ∷ ("ase", 0x1)
    ∷ ("ee", 0x1)
    ∷ ("reserved_at_22", 0x1c)
    ∷ ("e", 0x2)
    ∷ ("reserved_at_40", 0x40)
    ∷ []

abbrev pub pude_reg : Layout
pude_reg =
    ("swid", 0x8)
    ∷ ("local_port", 0x8)
    ∷ ("reserved_at_10", 0x4)
    ∷ ("admin_status", 0x4)
    ∷ ("reserved_at_18", 0x4)
    ∷ ("oper_status", 0x4)
    ∷ ("reserved_at_20", 0x60)
    ∷ []

abbrev pub pmpe_reg : Layout
pmpe_reg =
    ("reserved_at_0", 0x8)
    ∷ ("module", 0x8)
    ∷ ("reserved_at_10", 0xc)
    ∷ ("module_status", 0x4)
    ∷ ("reserved_at_20", 0x60)
    ∷ []
