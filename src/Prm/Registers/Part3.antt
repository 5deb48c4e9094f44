-- ===== src/Prm/Registers/Part3.antt =====
-- Layouts from mlx5_ifc.h: the registers of the table in reg.c.
use mlx5ctl.Base.{[], ◌∷◌}
use mlx5ctl.Ifc.{Layout}

abbrev pub eth_2819_cntrs_grp_data_layout : Layout
eth_2819_cntrs_grp_data_layout =
    ("ether_stats_drop_events_high", 0x20)
    ∷ ("ether_stats_drop_events_low", 0x20)
    ∷ ("ether_stats_octets_high", 0x20)
    ∷ ("ether_stats_octets_low", 0x20)
    ∷ ("ether_stats_pkts_high", 0x20)
    ∷ ("ether_stats_pkts_low", 0x20)
    ∷ ("ether_stats_broadcast_pkts_high", 0x20)
    ∷ ("ether_stats_broadcast_pkts_low", 0x20)
    ∷ ("ether_stats_multicast_pkts_high", 0x20)
    ∷ ("ether_stats_multicast_pkts_low", 0x20)
    ∷ ("ether_stats_crc_align_errors_high", 0x20)
    ∷ ("ether_stats_crc_align_errors_low", 0x20)
    ∷ ("ether_stats_undersize_pkts_high", 0x20)
    ∷ ("ether_stats_undersize_pkts_low", 0x20)
    ∷ ("ether_stats_oversize_pkts_high", 0x20)
    ∷ ("ether_stats_oversize_pkts_low", 0x20)
    ∷ ("ether_stats_fragments_high", 0x20)
    ∷ ("ether_stats_fragments_low", 0x20)
    ∷ ("ether_stats_jabbers_high", 0x20)
    ∷ ("ether_stats_jabbers_low", 0x20)
    ∷ ("ether_stats_collisions_high", 0x20)
    ∷ ("ether_stats_collisions_low", 0x20)
    ∷ ("ether_stats_pkts64octets_high", 0x20)
    ∷ ("ether_stats_pkts64octets_low", 0x20)
    ∷ ("ether_stats_pkts65to127octets_high", 0x20)
    ∷ ("ether_stats_pkts65to127octets_low", 0x20)
    ∷ ("ether_stats_pkts128to255octets_high", 0x20)
    ∷ ("ether_stats_pkts128to255octets_low", 0x20)
    ∷ ("ether_stats_pkts256to511octets_high", 0x20)
    ∷ ("ether_stats_pkts256to511octets_low", 0x20)
    ∷ ("ether_stats_pkts512to1023octets_high", 0x20)
    ∷ ("ether_stats_pkts512to1023octets_low", 0x20)
    ∷ ("ether_stats_pkts1024to1518octets_high", 0x20)
    ∷ ("ether_stats_pkts1024to1518octets_low", 0x20)
    ∷ ("ether_stats_pkts1519to2047octets_high", 0x20)
    ∷ ("ether_stats_pkts1519to2047octets_low", 0x20)
    ∷ ("ether_stats_pkts2048to4095octets_high", 0x20)
    ∷ ("ether_stats_pkts2048to4095octets_low", 0x20)
    ∷ ("ether_stats_pkts4096to8191octets_high", 0x20)
    ∷ ("ether_stats_pkts4096to8191octets_low", 0x20)
    ∷ ("ether_stats_pkts8192to10239octets_high", 0x20)
    ∷ ("ether_stats_pkts8192to10239octets_low", 0x20)
    ∷ ("reserved_at_540", 0x280)
    ∷ []

abbrev pub eth_3635_cntrs_grp_data_layout : Layout
eth_3635_cntrs_grp_data_layout =
    ("dot3stats_alignment_errors_high", 0x20)
    ∷ ("dot3stats_alignment_errors_low", 0x20)
    ∷ ("dot3stats_fcs_errors_high", 0x20)
    ∷ ("dot3stats_fcs_errors_low", 0x20)
    ∷ ("dot3stats_single_collision_frames_high", 0x20)
    ∷ ("dot3stats_single_collision_frames_low", 0x20)
    ∷ ("dot3stats_multiple_collision_frames_high", 0x20)
    ∷ ("dot3stats_multiple_collision_frames_low", 0x20)
    ∷ ("dot3stats_sqe_test_errors_high", 0x20)
    ∷ ("dot3stats_sqe_test_errors_low", 0x20)
    ∷ ("dot3stats_deferred_transmissions_high", 0x20)
    ∷ ("dot3stats_deferred_transmissions_low", 0x20)
    ∷ ("dot3stats_late_collisions_high", 0x20)
    ∷ ("dot3stats_late_collisions_low", 0x20)
    ∷ ("dot3stats_excessive_collisions_high", 0x20)
    ∷ ("dot3stats_excessive_collisions_low", 0x20)
    ∷ ("dot3stats_internal_mac_transmit_errors_high", 0x20)
    ∷ ("dot3stats_internal_mac_transmit_errors_low", 0x20)
    ∷ ("dot3stats_carrier_sense_errors_high", 0x20)
    ∷ ("dot3stats_carrier_sense_errors_low", 0x20)
    ∷ ("dot3stats_frame_too_longs_high", 0x20)
    ∷ ("dot3stats_frame_too_longs_low", 0x20)
    ∷ ("dot3stats_internal_mac_receive_errors_high", 0x20)
    ∷ ("dot3stats_internal_mac_receive_errors_low", 0x20)
    ∷ ("dot3stats_symbol_errors_high", 0x20)
    ∷ ("dot3stats_symbol_errors_low", 0x20)
    ∷ ("dot3control_in_unknown_opcodes_high", 0x20)
    ∷ ("dot3control_in_unknown_opcodes_low", 0x20)
    ∷ ("dot3in_pause_frames_high", 0x20)
    ∷ ("dot3in_pause_frames_low", 0x20)
    ∷ ("dot3out_pause_frames_high", 0x20)
    ∷ ("dot3out_pause_frames_low", 0x20)
    ∷ ("reserved_at_400", 0x3c0)
    ∷ []

abbrev pub eth_extended_cntrs_grp_data_layout : Layout
eth_extended_cntrs_grp_data_layout =
    ("port_transmit_wait_high", 0x20)
    ∷ ("port_transmit_wait_low", 0x20)
    ∷ ("reserved_at_40", 0x100)
    ∷ ("rx_buffer_almost_full_high", 0x20)
    ∷ ("rx_buffer_almost_full_low", 0x20)
    ∷ ("rx_buffer_full_high", 0x20)
    ∷ ("rx_buffer_full_low", 0x20)
    ∷ ("rx_icrc_encapsulated_high", 0x20)
    ∷ ("rx_icrc_encapsulated_low", 0x20)
    ∷ ("reserved_at_200", 0x5c0)
    ∷ []

abbrev pub eth_per_prio_grp_data_layout : Layout
eth_per_prio_grp_data_layout =
    ("rx_octets_high", 0x20)
    ∷ ("rx_octets_low", 0x20)
    ∷ ("reserved_at_40", 0xc0)
    ∷ ("rx_frames_high", 0x20)
    ∷ ("rx_frames_low", 0x20)
    ∷ ("tx_octets_high", 0x20)
    ∷ ("tx_octets_low", 0x20)
    ∷ ("reserved_at_180", 0xc0)
    ∷ ("tx_frames_high", 0x20)
    ∷ ("tx_frames_low", 0x20)
    ∷ ("rx_pause_high", 0x20)
    ∷ ("rx_pause_low", 0x20)
    ∷ ("rx_pause_duration_high", 0x20)
    ∷ ("rx_pause_duration_low", 0x20)
    ∷ ("tx_pause_high", 0x20)
    ∷ ("tx_pause_low", 0x20)
    ∷ ("tx_pause_duration_high", 0x20)
    ∷ ("tx_pause_duration_low", 0x20)
    ∷ ("rx_pause_transition_high", 0x20)
    ∷ ("rx_pause_transition_low", 0x20)
    ∷ ("rx_discards_high", 0x20)
    ∷ ("rx_discards_low", 0x20)
    ∷ ("device_stall_minor_watermark_cnt_high", 0x20)
    ∷ ("device_stall_minor_watermark_cnt_low", 0x20)
    ∷ ("device_stall_critical_watermark_cnt_high", 0x20)
    ∷ ("device_stall_critical_watermark_cnt_low", 0x20)
    ∷ ("reserved_at_480", 0x340)
    ∷ []

abbrev pub eth_per_tc_prio_grp_data_layout : Layout
eth_per_tc_prio_grp_data_layout =
    ("transmit_queue_high", 0x20)
    ∷ ("transmit_queue_low", 0x20)
    ∷ ("no_buffer_discard_uc_high", 0x20)
    ∷ ("no_buffer_discard_uc_low", 0x20)
    ∷ ("reserved_at_80", 0x740)
    ∷ []

abbrev pub eth_per_tc_congest_prio_grp_data_layout : Layout
eth_per_tc_congest_prio_grp_data_layout =
    ("wred_discard_high", 0x20)
    ∷ ("wred_discard_low", 0x20)
    ∷ ("ecn_marked_tc_high", 0x20)
    ∷ ("ecn_marked_tc_low", 0x20)
    ∷ ("reserved_at_80", 0x740)
    ∷ []

abbrev pub ib_port_cntrs_grp_data_layout : Layout
ib_port_cntrs_grp_data_layout =
    ("symbol_error_counter", 0x10)
    ∷ ("link_error_recovery_counter", 0x8)
    ∷ ("link_downed_counter", 0x8)
    ∷ ("port_rcv_errors", 0x10)
    ∷ ("port_rcv_remote_physical_errors", 0x10)
    ∷ ("port_rcv_switch_relay_errors", 0x10)
    ∷ ("port_xmit_discards", 0x10)
    ∷ ("port_xmit_constraint_errors", 0x8)
    ∷ ("port_rcv_constraint_errors", 0x8)
    ∷ ("reserved_at_70", 0x8)
    ∷ ("link_overrun_errors", 0x8)
    ∷ ("reserved_at_80", 0x10)
    ∷ ("vl_15_dropped", 0x10)
    ∷ ("reserved_at_a0", 0x80)
    ∷ ("port_xmit_wait", 0x20)
    ∷ []
