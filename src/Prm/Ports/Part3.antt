-- ===== src/Prm/Ports/Part3.antt =====
-- Layouts from mlx5_ifc.h: the union of the port registers.
use mlx5ctl.Base.{[], ◌∷◌}
use mlx5ctl.Ifc.{Layout, mlx5_st_sz_bits}
use mlx5ctl.Prm.Ports.Part1.{
  lane_2_module_mapping, pamp_reg, peir_reg, pifr_reg, pipg_reg, plbf_reg, plib_reg, plpc_reg,
  pmlpn_reg, pmpc_reg, pmpr_reg, ppad_reg, pplr_reg, ppsc_reg, pqdr_reg,
}
use mlx5ctl.Prm.Ports.Part2.{mtpps_reg, mtppse_reg, pspa_reg, ptas_reg, slrg_reg, sltp_reg}
use mlx5ctl.Prm.Registers.Part1.{ptys_reg}
use mlx5ctl.Prm.Registers.Part2.{
  eth_2863_cntrs_grp_data_layout, eth_802_3_cntrs_grp_data_layout, paos_reg, pcap_reg, pfcc_reg,
  pmtu_reg,
}
use mlx5ctl.Prm.Registers.Part3.{
  eth_2819_cntrs_grp_data_layout, eth_3635_cntrs_grp_data_layout,
  eth_extended_cntrs_grp_data_layout, eth_per_prio_grp_data_layout,
  eth_per_tc_congest_prio_grp_data_layout, eth_per_tc_prio_grp_data_layout,
  ib_port_cntrs_grp_data_layout,
}
use mlx5ctl.Prm.Registers.Part4.{
  bufferx_reg, phys_layer_cntrs, pmaos_reg, pmpe_reg, ppcnt_reg, pude_reg,
}
use mlx5ctl.Prm.Registers.Part5.{
  pddr_monitor_opcode, pddr_reg, pddr_troubleshooting_page, pelc_reg, pmlp_reg, pplm_reg, pvlc_reg,
}
use mlx5ctl.Prm.Registers.Part6.{mfrl_reg, mlcr_reg, mpcnt_reg, mpein_reg, mrtc_reg, mtutc_reg}
use mlx5ctl.Prm.Registers.Part7.{mcc_reg, mcda_reg, mcqi_reg, mirc_reg}

abbrev pub ports_control_registers_document : Layout
ports_control_registers_document =
    ("bufferx_reg", mlx5_st_sz_bits bufferx_reg)
    ∷ ("eth_2819_cntrs_grp_data_layout", mlx5_st_sz_bits eth_2819_cntrs_grp_data_layout)
    ∷ ("eth_2863_cntrs_grp_data_layout", mlx5_st_sz_bits eth_2863_cntrs_grp_data_layout)
    ∷ ("eth_3635_cntrs_grp_data_layout", mlx5_st_sz_bits eth_3635_cntrs_grp_data_layout)
    ∷ ("eth_802_3_cntrs_grp_data_layout", mlx5_st_sz_bits eth_802_3_cntrs_grp_data_layout)
    ∷ ("eth_extended_cntrs_grp_data_layout", mlx5_st_sz_bits eth_extended_cntrs_grp_data_layout)
    ∷ ("eth_per_prio_grp_data_layout", mlx5_st_sz_bits eth_per_prio_grp_data_layout)
    ∷ ("eth_per_tc_prio_grp_data_layout", mlx5_st_sz_bits eth_per_tc_prio_grp_data_layout)
    ∷ (
      "eth_per_tc_congest_prio_grp_data_layout",
      mlx5_st_sz_bits eth_per_tc_congest_prio_grp_data_layout,
    )
    ∷ ("lane_2_module_mapping", mlx5_st_sz_bits lane_2_module_mapping)
    ∷ ("pamp_reg", mlx5_st_sz_bits pamp_reg)
    ∷ ("paos_reg", mlx5_st_sz_bits paos_reg)
    ∷ ("pcap_reg", mlx5_st_sz_bits pcap_reg)
    ∷ ("pddr_monitor_opcode", mlx5_st_sz_bits pddr_monitor_opcode)
    ∷ ("pddr_reg", mlx5_st_sz_bits pddr_reg)
    ∷ ("pddr_troubleshooting_page", mlx5_st_sz_bits pddr_troubleshooting_page)
    ∷ ("peir_reg", mlx5_st_sz_bits peir_reg)
    ∷ ("pelc_reg", mlx5_st_sz_bits pelc_reg)
    ∷ ("pfcc_reg", mlx5_st_sz_bits pfcc_reg)
    ∷ ("ib_port_cntrs_grp_data_layout", mlx5_st_sz_bits ib_port_cntrs_grp_data_layout)
    ∷ ("phys_layer_cntrs", mlx5_st_sz_bits phys_layer_cntrs)
    ∷ ("pifr_reg", mlx5_st_sz_bits pifr_reg)
    ∷ ("pipg_reg", mlx5_st_sz_bits pipg_reg)
    ∷ ("plbf_reg", mlx5_st_sz_bits plbf_reg)
    ∷ ("plib_reg", mlx5_st_sz_bits plib_reg)
    ∷ ("plpc_reg", mlx5_st_sz_bits plpc_reg)
    ∷ ("pmaos_reg", mlx5_st_sz_bits pmaos_reg)
    ∷ ("pmlp_reg", mlx5_st_sz_bits pmlp_reg)
    ∷ ("pmlpn_reg", mlx5_st_sz_bits pmlpn_reg)
    ∷ ("pmpc_reg", mlx5_st_sz_bits pmpc_reg)
    ∷ ("pmpe_reg", mlx5_st_sz_bits pmpe_reg)
    ∷ ("pmpr_reg", mlx5_st_sz_bits pmpr_reg)
    ∷ ("pmtu_reg", mlx5_st_sz_bits pmtu_reg)
    ∷ ("ppad_reg", mlx5_st_sz_bits ppad_reg)
    ∷ ("ppcnt_reg", mlx5_st_sz_bits ppcnt_reg)
    ∷ ("mpein_reg", mlx5_st_sz_bits mpein_reg)
    ∷ ("mpcnt_reg", mlx5_st_sz_bits mpcnt_reg)
    ∷ ("pplm_reg", mlx5_st_sz_bits pplm_reg)
    ∷ ("pplr_reg", mlx5_st_sz_bits pplr_reg)
    ∷ ("ppsc_reg", mlx5_st_sz_bits ppsc_reg)
    ∷ ("pqdr_reg", mlx5_st_sz_bits pqdr_reg)
    ∷ ("pspa_reg", mlx5_st_sz_bits pspa_reg)
    ∷ ("ptas_reg", mlx5_st_sz_bits ptas_reg)
    ∷ ("ptys_reg", mlx5_st_sz_bits ptys_reg)
    ∷ ("mlcr_reg", mlx5_st_sz_bits mlcr_reg)
    ∷ ("pude_reg", mlx5_st_sz_bits pude_reg)
    ∷ ("pvlc_reg", mlx5_st_sz_bits pvlc_reg)
    ∷ ("slrg_reg", mlx5_st_sz_bits slrg_reg)
    ∷ ("sltp_reg", mlx5_st_sz_bits sltp_reg)
    ∷ ("mtpps_reg", mlx5_st_sz_bits mtpps_reg)
    ∷ ("mtppse_reg", mlx5_st_sz_bits mtppse_reg)
    ∷ ("mcqi_reg", mlx5_st_sz_bits mcqi_reg)
    ∷ ("mcc_reg", mlx5_st_sz_bits mcc_reg)
    ∷ ("mcda_reg", mlx5_st_sz_bits mcda_reg)
    ∷ ("mirc_reg", mlx5_st_sz_bits mirc_reg)
    ∷ ("mfrl_reg", mlx5_st_sz_bits mfrl_reg)
    ∷ ("mtutc_reg", mlx5_st_sz_bits mtutc_reg)
    ∷ ("mrtc_reg", mlx5_st_sz_bits mrtc_reg)
    ∷ ("reserved_at_0", 0x60e0)
    ∷ []
