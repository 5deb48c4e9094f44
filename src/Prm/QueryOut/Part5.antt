-- ===== src/Prm/QueryOut/Part5.antt =====
-- Layouts from mlx5_ifc.h: the outputs of the query commands of query_obj.c.
use mlx5ctl.Base.{[], ◌∷◌, ◌*◌}
use mlx5ctl.Ifc.{Layout, mlx5_st_sz_bits}
use mlx5ctl.Prm.Commands.{mkc}

abbrev pub xrc_srqc : Layout
xrc_srqc =
    ("state", 0x4)
    ∷ ("log_xrc_srq_size", 0x4)
    ∷ ("reserved_at_8", 0x18)
    ∷ ("wq_signature", 0x1)
    ∷ ("cont_srq", 0x1)
    ∷ ("reserved_at_22", 0x1)
    ∷ ("rlky", 0x1)
    ∷ ("basic_cyclic_rcv_wqe", 0x1)
    ∷ ("log_rq_stride", 0x3)
    ∷ ("xrcd", 0x18)
    ∷ ("page_offset", 0x6)
    ∷ ("reserved_at_46", 0x1)
    ∷ ("dbr_umem_valid", 0x1)
    ∷ ("cqn", 0x18)
    ∷ ("reserved_at_60", 0x20)
    ∷ ("user_index_equal_xrc_srqn", 0x1)
    ∷ ("reserved_at_81", 0x1)
    ∷ ("log_page_size", 0x6)
    ∷ ("user_index", 0x18)
    ∷ ("reserved_at_a0", 0x20)
    ∷ ("reserved_at_c0", 0x8)
    ∷ ("pd", 0x18)
    ∷ ("lwm", 0x10)
    ∷ ("wqe_cnt", 0x10)
    ∷ ("reserved_at_100", 0x40)
    ∷ ("db_record_addr_h", 0x20)
    ∷ ("db_record_addr_l", 0x1e)
    ∷ ("reserved_at_17e", 0x2)
    ∷ ("reserved_at_180", 0x80)
    ∷ []

abbrev pub query_xrc_srq_out : Layout
query_xrc_srq_out =
    ("status", 0x8)
    ∷ ("reserved_at_8", 0x18)
    ∷ ("syndrome", 0x20)
    ∷ ("reserved_at_40", 0x40)
    ∷ ("xrc_srq_context_entry", mlx5_st_sz_bits xrc_srqc)
    ∷ ("reserved_at_280", 0x600)
    ∷ ("pas", 0)
    ∷ []

abbrev pub query_q_counter_out : Layout
query_q_counter_out =
    ("status", 0x8)
    ∷ ("reserved_at_8", 0x18)
    ∷ ("syndrome", 0x20)
    ∷ ("reserved_at_40", 0x40)
    ∷ ("rx_write_requests", 0x20)
    ∷ ("reserved_at_a0", 0x20)
    ∷ ("rx_read_requests", 0x20)
    ∷ ("reserved_at_e0", 0x20)
    ∷ ("rx_atomic_requests", 0x20)
    ∷ ("reserved_at_120", 0x20)
    ∷ ("rx_dct_connect", 0x20)
    ∷ ("reserved_at_160", 0x20)
    ∷ ("out_of_buffer", 0x20)
    ∷ ("reserved_at_1a0", 0x20)
    ∷ ("out_of_sequence", 0x20)
    ∷ ("reserved_at_1e0", 0x20)
    ∷ ("duplicate_request", 0x20)
    ∷ ("reserved_at_220", 0x20)
    ∷ ("rnr_nak_retry_err", 0x20)
    ∷ ("reserved_at_260", 0x20)
    ∷ ("packet_seq_err", 0x20)
    ∷ ("reserved_at_2a0", 0x20)
    ∷ ("implied_nak_seq_err", 0x20)
    ∷ ("reserved_at_2e0", 0x20)
    ∷ ("local_ack_timeout_err", 0x20)
    ∷ ("reserved_at_320", 0xa0)
    ∷ ("resp_local_length_error", 0x20)
    ∷ ("req_local_length_error", 0x20)
    ∷ ("resp_local_qp_error", 0x20)
    ∷ ("local_operation_error", 0x20)
    ∷ ("resp_local_protection", 0x20)
    ∷ ("req_local_protection", 0x20)
    ∷ ("resp_cqe_error", 0x20)
    ∷ ("req_cqe_error", 0x20)
    ∷ ("req_mw_binding", 0x20)
    ∷ ("req_bad_response", 0x20)
    ∷ ("req_remote_invalid_request", 0x20)
    ∷ ("resp_remote_invalid_request", 0x20)
    ∷ ("req_remote_access_errors", 0x20)
    ∷ ("resp_remote_access_errors", 0x20)
    ∷ ("req_remote_operation_errors", 0x20)
    ∷ ("req_transport_retries_exceeded", 0x20)
    ∷ ("cq_overflow", 0x20)
    ∷ ("resp_cqe_flush_error", 0x20)
    ∷ ("req_cqe_flush_error", 0x20)
    ∷ ("reserved_at_620", 0x20)
    ∷ ("roce_adp_retrans", 0x20)
    ∷ ("roce_adp_retrans_to", 0x20)
    ∷ ("roce_slow_restart", 0x20)
    ∷ ("roce_slow_restart_cnps", 0x20)
    ∷ ("roce_slow_restart_trans", 0x20)
    ∷ ("reserved_at_6e0", 0x120)
    ∷ []

abbrev pub query_mkey_out : Layout
query_mkey_out =
    ("status", 0x8)
    ∷ ("reserved_at_8", 0x18)
    ∷ ("syndrome", 0x20)
    ∷ ("reserved_at_40", 0x40)
    ∷ ("memory_key_mkey_entry", mlx5_st_sz_bits mkc)
    ∷ ("reserved_at_280", 0x600)
    ∷ ("bsf0_klm0_pas_mtt0_1", 16 * 0x8)
    ∷ ("bsf1_klm1_pas_mtt2_3", 16 * 0x8)
    ∷ []

abbrev pub query_pages_out : Layout
query_pages_out =
    ("status", 0x8)
    ∷ ("reserved_at_8", 0x18)
    ∷ ("syndrome", 0x20)
    ∷ ("embedded_cpu_function", 0x1)
    ∷ ("reserved_at_41", 0xf)
    ∷ ("function_id", 0x10)
    ∷ ("num_pages", 0x20)
    ∷ []

abbrev pub mac_address_layout : Layout
mac_address_layout =
    ("reserved_at_0", 0x10) ∷ ("mac_addr_47_32", 0x10) ∷ ("mac_addr_31_0", 0x20) ∷ []

abbrev pub query_l2_table_entry_out : Layout
query_l2_table_entry_out =
    ("status", 0x8)
    ∷ ("reserved_at_8", 0x18)
    ∷ ("syndrome", 0x20)
    ∷ ("reserved_at_40", 0xa0)
    ∷ ("reserved_at_e0", 0x13)
    ∷ ("vlan_valid", 0x1)
    ∷ ("vlan", 0xc)
    ∷ ("mac_address", mlx5_st_sz_bits mac_address_layout)
    ∷ ("reserved_at_140", 0xc0)
    ∷ []

abbrev pub query_issi_out : Layout
query_issi_out =
    ("status", 0x8)
    ∷ ("reserved_at_8", 0x18)
    ∷ ("syndrome", 0x20)
    ∷ ("reserved_at_40", 0x10)
    ∷ ("current_issi", 0x10)
    ∷ ("reserved_at_60", 0xa0)
    ∷ ("reserved_at_100", 76 * 0x8)
    ∷ ("supported_issi_dw0", 0x20)
    ∷ []

abbrev pub query_vport_state_out : Layout
query_vport_state_out =
    ("status", 0x8)
    ∷ ("reserved_at_8", 0x18)
    ∷ ("syndrome", 0x20)
    ∷ ("reserved_at_40", 0x20)
    ∷ ("reserved_at_60", 0x18)
    ∷ ("admin_state", 0x4)
    ∷ ("state", 0x4)
    ∷ []

abbrev pub esw_vport_context : Layout
esw_vport_context =
    ("fdb_to_vport_reg_c", 0x1)
    ∷ ("reserved_at_1", 0x2)
    ∷ ("vport_svlan_strip", 0x1)
    ∷ ("vport_cvlan_strip", 0x1)
    ∷ ("vport_svlan_insert", 0x1)
    ∷ ("vport_cvlan_insert", 0x2)
    ∷ ("fdb_to_vport_reg_c_id", 0x8)
    ∷ ("reserved_at_10", 0x10)
    ∷ ("reserved_at_20", 0x20)
    ∷ ("svlan_cfi", 0x1)
    ∷ ("svlan_pcp", 0x3)
    ∷ ("svlan_id", 0xc)
    ∷ ("cvlan_cfi", 0x1)
    ∷ ("cvlan_pcp", 0x3)
    ∷ ("cvlan_id", 0xc)
    ∷ ("reserved_at_60", 0x720)
    ∷ ("sw_steering_vport_icm_address_rx", 0x40)
    ∷ ("sw_steering_vport_icm_address_tx", 0x40)
    ∷ []
