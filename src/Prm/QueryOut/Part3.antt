-- ===== src/Prm/QueryOut/Part3.antt =====
-- Layouts from mlx5_ifc.h: the outputs of the query commands of query_obj.c.
use mlx5ctl.Base.{[], ◌∷◌, ◌*◌}
use mlx5ctl.Ifc.{Layout, mlx5_st_sz_bits}
use mlx5ctl.Prm.QueryOut.Part2.{wq}

abbrev pub sqc : Layout
sqc =
    ("rlky", 0x1)
    ∷ ("cd_master", 0x1)
    ∷ ("fre", 0x1)
    ∷ ("flush_in_error_en", 0x1)
    ∷ ("allow_multi_pkt_send_wqe", 0x1)
    ∷ ("min_wqe_inline_mode", 0x3)
    ∷ ("state", 0x4)
    ∷ ("reg_umr", 0x1)
    ∷ ("allow_swp", 0x1)
    ∷ ("hairpin", 0x1)
    ∷ ("reserved_at_f", 0xb)
    ∷ ("ts_format", 0x2)
    ∷ ("reserved_at_1c", 0x4)
    ∷ ("reserved_at_20", 0x8)
    ∷ ("user_index", 0x18)
    ∷ ("reserved_at_40", 0x8)
    ∷ ("cqn", 0x18)
    ∷ ("reserved_at_60", 0x8)
    ∷ ("hairpin_peer_rq", 0x18)
    ∷ ("reserved_at_80", 0x10)
    ∷ ("hairpin_peer_vhca", 0x10)
    ∷ ("reserved_at_a0", 0x20)
    ∷ ("reserved_at_c0", 0x8)
    ∷ ("ts_cqe_to_dest_cqn", 0x18)
    ∷ ("reserved_at_e0", 0x10)
    ∷ ("packet_pacing_rate_limit_index", 0x10)
    ∷ ("tis_lst_sz", 0x10)
    ∷ ("qos_queue_group_id", 0x10)
    ∷ ("reserved_at_120", 0x40)
    ∷ ("reserved_at_160", 0x8)
    ∷ ("tis_num_0", 0x18)
    ∷ ("wq", mlx5_st_sz_bits wq)
    ∷ []

abbrev pub query_sq_out : Layout
query_sq_out =
    ("status", 0x8)
    ∷ ("reserved_at_8", 0x18)
    ∷ ("syndrome", 0x20)
    ∷ ("reserved_at_40", 0xc0)
    ∷ ("sq_context", mlx5_st_sz_bits sqc)
    ∷ []

abbrev pub rqc : Layout
rqc =
    ("rlky", 0x1)
    ∷ ("delay_drop_en", 0x1)
    ∷ ("scatter_fcs", 0x1)
    ∷ ("vsd", 0x1)
    ∷ ("mem_rq_type", 0x4)
    ∷ ("state", 0x4)
    ∷ ("reserved_at_c", 0x1)
    ∷ ("flush_in_error_en", 0x1)
    ∷ ("hairpin", 0x1)
    ∷ ("reserved_at_f", 0xb)
    ∷ ("ts_format", 0x2)
    ∷ ("reserved_at_1c", 0x4)
    ∷ ("reserved_at_20", 0x8)
    ∷ ("user_index", 0x18)
    ∷ ("reserved_at_40", 0x8)
    ∷ ("cqn", 0x18)
    ∷ ("counter_set_id", 0x8)
    ∷ ("reserved_at_68", 0x18)
    ∷ ("reserved_at_80", 0x8)
    ∷ ("rmpn", 0x18)
    ∷ ("reserved_at_a0", 0x8)
    ∷ ("hairpin_peer_sq", 0x18)
    ∷ ("reserved_at_c0", 0x10)
    ∷ ("hairpin_peer_vhca", 0x10)
    ∷ ("reserved_at_e0", 0x46)
    ∷ ("shampo_no_match_alignment_granularity", 0x2)
    ∷ ("reserved_at_128", 0x6)
    ∷ ("shampo_match_criteria_type", 0x2)
    ∷ ("reservation_timeout", 0x10)
    ∷ ("reserved_at_140", 0x40)
    ∷ ("wq", mlx5_st_sz_bits wq)
    ∷ []

abbrev pub query_rq_out : Layout
query_rq_out =
    ("status", 0x8)
    ∷ ("reserved_at_8", 0x18)
    ∷ ("syndrome", 0x20)
    ∷ ("reserved_at_40", 0xc0)
    ∷ ("rq_context", mlx5_st_sz_bits rqc)
    ∷ []

abbrev pub tisc : Layout
tisc =
    ("strict_lag_tx_port_affinity", 0x1)
    ∷ ("tls_en", 0x1)
    ∷ ("reserved_at_2", 0x2)
    ∷ ("lag_tx_port_affinity", 0x04)
    ∷ ("reserved_at_8", 0x4)
    ∷ ("prio", 0x4)
    ∷ ("reserved_at_10", 0x10)
    ∷ ("reserved_at_20", 0x100)
    ∷ ("reserved_at_120", 0x8)
    ∷ ("transport_domain", 0x18)
    ∷ ("reserved_at_140", 0x8)
    ∷ ("underlay_qpn", 0x18)
    ∷ ("reserved_at_160", 0x8)
    ∷ ("pd", 0x18)
    ∷ ("reserved_at_180", 0x380)
    ∷ []

abbrev pub query_tis_out : Layout
query_tis_out =
    ("status", 0x8)
    ∷ ("reserved_at_8", 0x18)
    ∷ ("syndrome", 0x20)
    ∷ ("reserved_at_40", 0x40)
    ∷ ("tis_context", mlx5_st_sz_bits tisc)
    ∷ []

abbrev pub rx_hash_field_select : Layout
rx_hash_field_select =
    ("l3_prot_type", 0x1) ∷ ("l4_prot_type", 0x1) ∷ ("selected_fields", 0x1e) ∷ []

abbrev pub tirc : Layout
tirc =
    ("reserved_at_0", 0x20)
    ∷ ("disp_type", 0x4)
    ∷ ("tls_en", 0x1)
    ∷ ("reserved_at_25", 0x1b)
    ∷ ("reserved_at_40", 0x40)
    ∷ ("reserved_at_80", 0x4)
    ∷ ("lro_timeout_period_usecs", 0x10)
    ∷ ("packet_merge_mask", 0x4)
    ∷ ("lro_max_ip_payload_size", 0x8)
    ∷ ("reserved_at_a0", 0x40)
    ∷ ("reserved_at_e0", 0x8)
    ∷ ("inline_rqn", 0x18)
    ∷ ("rx_hash_symmetric", 0x1)
    ∷ ("reserved_at_101", 0x1)
    ∷ ("tunneled_offload_en", 0x1)
    ∷ ("reserved_at_103", 0x5)
    ∷ ("indirect_table", 0x18)
    ∷ ("rx_hash_fn", 0x4)
    ∷ ("reserved_at_124", 0x2)
    ∷ ("self_lb_block", 0x2)
    ∷ ("transport_domain", 0x18)
    ∷ ("rx_hash_toeplitz_key", 10 * 0x20)
    ∷ ("rx_hash_field_selector_outer", mlx5_st_sz_bits rx_hash_field_select)
    ∷ ("rx_hash_field_selector_inner", mlx5_st_sz_bits rx_hash_field_select)
    ∷ ("reserved_at_2c0", 0x4c0)
    ∷ []

abbrev pub query_tir_out : Layout
query_tir_out =
    ("status", 0x8)
    ∷ ("reserved_at_8", 0x18)
    ∷ ("syndrome", 0x20)
    ∷ ("reserved_at_40", 0xc0)
    ∷ ("tir_context", mlx5_st_sz_bits tirc)
    ∷ []

abbrev pub rq_num : Layout
rq_num = ("reserved_at_0", 0x8) ∷ ("rq_num", 0x18) ∷ []

abbrev pub rqtc : Layout
rqtc =
    ("reserved_at_0", 0xa0)
    ∷ ("reserved_at_a0", 0x5)
    ∷ ("list_q_type", 0x3)
    ∷ ("reserved_at_a8", 0x8)
    ∷ ("rqt_max_size", 0x10)
    ∷ ("rq_vhca_id_format", 0x1)
    ∷ ("reserved_at_c1", 0xf)
    ∷ ("rqt_actual_size", 0x10)
    ∷ ("reserved_at_e0", 0x6a0)
    ∷ ("rq_num", 0)
    ∷ []
