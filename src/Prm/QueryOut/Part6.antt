-- ===== src/Prm/QueryOut/Part6.antt =====
-- Layouts from mlx5_ifc.h: the outputs of the query commands of query_obj.c.
use mlx5ctl.Base.{[], ◌∷◌, ◌*◌}
use mlx5ctl.Ifc.{Layout, mlx5_st_sz_bits}
use mlx5ctl.Prm.QueryOut.Part5.{esw_vport_context}

abbrev pub query_esw_vport_context_out : Layout
query_esw_vport_context_out =
    ("status", 0x8)
    ∷ ("reserved_at_8", 0x18)
    ∷ ("syndrome", 0x20)
    ∷ ("reserved_at_40", 0x40)
    ∷ ("esw_vport_context", mlx5_st_sz_bits esw_vport_context)
    ∷ []

abbrev pub traffic_counter : Layout
traffic_counter = ("packets", 0x40) ∷ ("octets", 0x40) ∷ []

abbrev pub query_vport_counter_out : Layout
query_vport_counter_out =
    ("status", 0x8)
    ∷ ("reserved_at_8", 0x18)
    ∷ ("syndrome", 0x20)
    ∷ ("reserved_at_40", 0x40)
    ∷ ("received_errors", mlx5_st_sz_bits traffic_counter)
    ∷ ("transmit_errors", mlx5_st_sz_bits traffic_counter)
    ∷ ("received_ib_unicast", mlx5_st_sz_bits traffic_counter)
    ∷ ("transmitted_ib_unicast", mlx5_st_sz_bits traffic_counter)
    ∷ ("received_ib_multicast", mlx5_st_sz_bits traffic_counter)
    ∷ ("transmitted_ib_multicast", mlx5_st_sz_bits traffic_counter)
    ∷ ("received_eth_broadcast", mlx5_st_sz_bits traffic_counter)
    ∷ ("transmitted_eth_broadcast", mlx5_st_sz_bits traffic_counter)
    ∷ ("received_eth_unicast", mlx5_st_sz_bits traffic_counter)
    ∷ ("transmitted_eth_unicast", mlx5_st_sz_bits traffic_counter)
    ∷ ("received_eth_multicast", mlx5_st_sz_bits traffic_counter)
    ∷ ("transmitted_eth_multicast", mlx5_st_sz_bits traffic_counter)
    ∷ ("reserved_at_680", 0xa00)
    ∷ []

abbrev pub vnic_diagnostic_statistics : Layout
vnic_diagnostic_statistics =
    ("counter_error_queues", 0x20)
    ∷ ("total_error_queues", 0x20)
    ∷ ("send_queue_priority_update_flow", 0x20)
    ∷ ("reserved_at_60", 0x20)
    ∷ ("nic_receive_steering_discard", 0x40)
    ∷ ("receive_discard_vport_down", 0x40)
    ∷ ("transmit_discard_vport_down", 0x40)
    ∷ ("async_eq_overrun", 0x20)
    ∷ ("comp_eq_overrun", 0x20)
    ∷ ("reserved_at_180", 0x20)
    ∷ ("invalid_command", 0x20)
    ∷ ("quota_exceeded_command", 0x20)
    ∷ ("internal_rq_out_of_buffer", 0x20)
    ∷ ("cq_overrun", 0x20)
    ∷ ("eth_wqe_too_small", 0x20)
    ∷ ("reserved_at_220", 0xdc0)
    ∷ []

abbrev pub query_vnic_env_out : Layout
query_vnic_env_out =
    ("status", 0x8)
    ∷ ("reserved_at_8", 0x18)
    ∷ ("syndrome", 0x20)
    ∷ ("reserved_at_40", 0x40)
    ∷ ("vport_env", mlx5_st_sz_bits vnic_diagnostic_statistics)
    ∷ []

abbrev pub packet_reformat_context_in : Layout
packet_reformat_context_in =
    ("reformat_type", 0x8)
    ∷ ("reserved_at_8", 0x4)
    ∷ ("reformat_param_0", 0x4)
    ∷ ("reserved_at_10", 0x6)
    ∷ ("reformat_data_size", 0xa)
    ∷ ("reformat_param_1", 0x8)
    ∷ ("reserved_at_28", 0x8)
    ∷ ("reformat_data", 2 * 0x8)
    ∷ ("more_reformat_data", 0)
    ∷ []

abbrev pub query_packet_reformat_context_out : Layout
query_packet_reformat_context_out =
    ("status", 0x8)
    ∷ ("reserved_at_8", 0x18)
    ∷ ("syndrome", 0x20)
    ∷ ("reserved_at_40", 0xa0)
    ∷ ("packet_reformat_context", 0)
    ∷ []

abbrev pub query_special_contexts_out : Layout
query_special_contexts_out =
    ("status", 0x8)
    ∷ ("reserved_at_8", 0x18)
    ∷ ("syndrome", 0x20)
    ∷ ("dump_fill_mkey", 0x20)
    ∷ ("resd_lkey", 0x20)
    ∷ ("null_mkey", 0x20)
    ∷ ("reserved_at_a0", 0x60)
    ∷ []

abbrev pub query_mad_demux_out : Layout
query_mad_demux_out =
    ("status", 0x8)
    ∷ ("reserved_at_8", 0x18)
    ∷ ("syndrome", 0x20)
    ∷ ("reserved_at_40", 0x40)
    ∷ ("mad_dumux_parameters_block", 0x20)
    ∷ []

abbrev pub query_cong_statistics_out : Layout
query_cong_statistics_out =
    ("status", 0x8)
    ∷ ("reserved_at_8", 0x18)
    ∷ ("syndrome", 0x20)
    ∷ ("reserved_at_40", 0x40)
    ∷ ("rp_cur_flows", 0x20)
    ∷ ("sum_flows", 0x20)
    ∷ ("rp_cnp_ignored_high", 0x20)
    ∷ ("rp_cnp_ignored_low", 0x20)
    ∷ ("rp_cnp_handled_high", 0x20)
    ∷ ("rp_cnp_handled_low", 0x20)
    ∷ ("reserved_at_140", 0x100)
    ∷ ("time_stamp_high", 0x20)
    ∷ ("time_stamp_low", 0x20)
    ∷ ("accumulators_period", 0x20)
    ∷ ("np_ecn_marked_roce_packets_high", 0x20)
    ∷ ("np_ecn_marked_roce_packets_low", 0x20)
    ∷ ("np_cnp_sent_high", 0x20)
    ∷ ("np_cnp_sent_low", 0x20)
    ∷ ("reserved_at_320", 0x560)
    ∷ []

abbrev pub cong_control_802_1qau_rp : Layout
cong_control_802_1qau_rp =
    ("reserved_at_0", 0x80)
    ∷ ("rppp_max_rps", 0x20)
    ∷ ("rpg_time_reset", 0x20)
    ∷ ("rpg_byte_reset", 0x20)
    ∷ ("rpg_threshold", 0x20)
    ∷ ("rpg_max_rate", 0x20)
    ∷ ("rpg_ai_rate", 0x20)
    ∷ ("rpg_hai_rate", 0x20)
    ∷ ("rpg_gd", 0x20)
    ∷ ("rpg_min_dec_fac", 0x20)
    ∷ ("rpg_min_rate", 0x20)
    ∷ ("reserved_at_1c0", 0x640)
    ∷ []

abbrev pub cong_control_r_roce_ecn_rp : Layout
cong_control_r_roce_ecn_rp =
    ("reserved_at_0", 0x60)
    ∷ ("reserved_at_60", 0x4)
    ∷ ("clamp_tgt_rate", 0x1)
    ∷ ("reserved_at_65", 0x3)
    ∷ ("clamp_tgt_rate_after_time_inc", 0x1)
    ∷ ("reserved_at_69", 0x17)
    ∷ ("reserved_at_80", 0x20)
    ∷ ("rpg_time_reset", 0x20)
    ∷ ("rpg_byte_reset", 0x20)
    ∷ ("rpg_threshold", 0x20)
    ∷ ("rpg_max_rate", 0x20)
    ∷ ("rpg_ai_rate", 0x20)
    ∷ ("rpg_hai_rate", 0x20)
    ∷ ("rpg_gd", 0x20)
    ∷ ("rpg_min_dec_fac", 0x20)
    ∷ ("rpg_min_rate", 0x20)
    ∷ ("reserved_at_1c0", 0xe0)
    ∷ ("rate_to_set_on_first_cnp", 0x20)
    ∷ ("dce_tcp_g", 0x20)
    ∷ ("dce_tcp_rtt", 0x20)
    ∷ ("rate_reduce_monitor_period", 0x20)
    ∷ ("reserved_at_320", 0x20)
    ∷ ("initial_alpha_value", 0x20)
    ∷ ("reserved_at_360", 0x4a0)
    ∷ []

abbrev pub cong_control_r_roce_ecn_np : Layout
cong_control_r_roce_ecn_np =
    ("reserved_at_0", 0xa0)
    ∷ ("min_time_between_cnps", 0x20)
    ∷ ("reserved_at_c0", 0x12)
    ∷ ("cnp_dscp", 0x6)
    ∷ ("reserved_at_d8", 0x4)
    ∷ ("cnp_prio_mode", 0x1)
    ∷ ("cnp_802p_prio", 0x3)
    ∷ ("reserved_at_e0", 0x720)
    ∷ []
