-- ===== src/Prm/QueryOut/Part2.antt =====
-- Layouts from mlx5_ifc.h: the outputs of the query commands of query_obj.c.
use mlx5ctl.Base.{[], ◌∷◌}
use mlx5ctl.Ifc.{Layout, mlx5_st_sz_bits}
use mlx5ctl.Prm.QueryOut.Part1.{ads}

abbrev pub qpc : Layout
qpc =
    ("state", 0x4)
    ∷ ("lag_tx_port_affinity", 0x4)
    ∷ ("st", 0x8)
    ∷ ("reserved_at_10", 0x2)
    ∷ ("isolate_vl_tc", 0x1)
    ∷ ("pm_state", 0x2)
    ∷ ("reserved_at_15", 0x1)
    ∷ ("req_e2e_credit_mode", 0x2)
    ∷ ("offload_type", 0x4)
    ∷ ("end_padding_mode", 0x2)
    ∷ ("reserved_at_1e", 0x2)
    ∷ ("wq_signature", 0x1)
    ∷ ("block_lb_mc", 0x1)
    ∷ ("atomic_like_write_en", 0x1)
    ∷ ("latency_sensitive", 0x1)
    ∷ ("reserved_at_24", 0x1)
    ∷ ("drain_sigerr", 0x1)
    ∷ ("reserved_at_26", 0x2)
    ∷ ("pd", 0x18)
    ∷ ("mtu", 0x3)
    ∷ ("log_msg_max", 0x5)
    ∷ ("reserved_at_48", 0x1)
    ∷ ("log_rq_size", 0x4)
    ∷ ("log_rq_stride", 0x3)
    ∷ ("no_sq", 0x1)
    ∷ ("log_sq_size", 0x4)
    ∷ ("reserved_at_55", 0x3)
    ∷ ("ts_format", 0x2)
    ∷ ("reserved_at_5a", 0x1)
    ∷ ("rlky", 0x1)
    ∷ ("ulp_stateless_offload_mode", 0x4)
    ∷ ("counter_set_id", 0x8)
    ∷ ("uar_page", 0x18)
    ∷ ("reserved_at_80", 0x8)
    ∷ ("user_index", 0x18)
    ∷ ("reserved_at_a0", 0x3)
    ∷ ("log_page_size", 0x5)
    ∷ ("remote_qpn", 0x18)
    ∷ ("primary_address_path", mlx5_st_sz_bits ads)
    ∷ ("secondary_address_path", mlx5_st_sz_bits ads)
    ∷ ("log_ack_req_freq", 0x4)
    ∷ ("reserved_at_384", 0x4)
    ∷ ("log_sra_max", 0x3)
    ∷ ("reserved_at_38b", 0x2)
    ∷ ("retry_count", 0x3)
    ∷ ("rnr_retry", 0x3)
    ∷ ("reserved_at_393", 0x1)
    ∷ ("fre", 0x1)
    ∷ ("cur_rnr_retry", 0x3)
    ∷ ("cur_retry_count", 0x3)
    ∷ ("reserved_at_39b", 0x5)
    ∷ ("reserved_at_3a0", 0x20)
    ∷ ("reserved_at_3c0", 0x8)
    ∷ ("next_send_psn", 0x18)
    ∷ ("reserved_at_3e0", 0x3)
    ∷ ("log_num_dci_stream_channels", 0x5)
    ∷ ("cqn_snd", 0x18)
    ∷ ("reserved_at_400", 0x3)
    ∷ ("log_num_dci_errored_streams", 0x5)
    ∷ ("deth_sqpn", 0x18)
    ∷ ("reserved_at_420", 0x20)
    ∷ ("reserved_at_440", 0x8)
    ∷ ("last_acked_psn", 0x18)
    ∷ ("reserved_at_460", 0x8)
    ∷ ("ssn", 0x18)
    ∷ ("reserved_at_480", 0x8)
    ∷ ("log_rra_max", 0x3)
    ∷ ("reserved_at_48b", 0x1)
    ∷ ("atomic_mode", 0x4)
    ∷ ("rre", 0x1)
    ∷ ("rwe", 0x1)
    ∷ ("rae", 0x1)
    ∷ ("reserved_at_493", 0x1)
    ∷ ("page_offset", 0x6)
    ∷ ("reserved_at_49a", 0x3)
    ∷ ("cd_slave_receive", 0x1)
    ∷ ("cd_slave_send", 0x1)
    ∷ ("cd_master", 0x1)
    ∷ ("reserved_at_4a0", 0x3)
    ∷ ("min_rnr_nak", 0x5)
    ∷ ("next_rcv_psn", 0x18)
    ∷ ("reserved_at_4c0", 0x8)
    ∷ ("xrcd", 0x18)
    ∷ ("reserved_at_4e0", 0x8)
    ∷ ("cqn_rcv", 0x18)
    ∷ ("dbr_addr", 0x40)
    ∷ ("q_key", 0x20)
    ∷ ("reserved_at_560", 0x5)
    ∷ ("rq_type", 0x3)
    ∷ ("srqn_rmpn_xrqn", 0x18)
    ∷ ("reserved_at_580", 0x8)
    ∷ ("rmsn", 0x18)
    ∷ ("hw_sq_wqebb_counter", 0x10)
    ∷ ("sw_sq_wqebb_counter", 0x10)
    ∷ ("hw_rq_counter", 0x20)
    ∷ ("sw_rq_counter", 0x20)
    ∷ ("reserved_at_600", 0x20)
    ∷ ("reserved_at_620", 0xf)
    ∷ ("cgs", 0x1)
    ∷ ("cs_req", 0x8)
    ∷ ("cs_res", 0x8)
    ∷ ("dc_access_key", 0x40)
    ∷ ("reserved_at_680", 0x3)
    ∷ ("dbr_umem_valid", 0x1)
    ∷ ("reserved_at_684", 0xbc)
    ∷ []

abbrev pub query_qp_out : Layout
query_qp_out =
    ("status", 0x8)
    ∷ ("reserved_at_8", 0x18)
    ∷ ("syndrome", 0x20)
    ∷ ("reserved_at_40", 0x40)
    ∷ ("opt_param_mask", 0x20)
    ∷ ("ece", 0x20)
    ∷ ("qpc", mlx5_st_sz_bits qpc)
    ∷ ("reserved_at_800", 0x80)
    ∷ ("pas", 0)
    ∷ []

abbrev pub cmd_pas : Layout
cmd_pas = ("pa_h", 0x20) ∷ ("pa_l", 0x14) ∷ ("reserved_at_34", 0xc) ∷ []

abbrev pub wq : Layout
wq =
    ("wq_type", 0x4)
    ∷ ("wq_signature", 0x1)
    ∷ ("end_padding_mode", 0x2)
    ∷ ("cd_slave", 0x1)
    ∷ ("reserved_at_8", 0x18)
    ∷ ("hds_skip_first_sge", 0x1)
    ∷ ("log2_hds_buf_size", 0x3)
    ∷ ("reserved_at_24", 0x7)
    ∷ ("page_offset", 0x5)
    ∷ ("lwm", 0x10)
    ∷ ("reserved_at_40", 0x8)
    ∷ ("pd", 0x18)
    ∷ ("reserved_at_60", 0x8)
    ∷ ("uar_page", 0x18)
    ∷ ("dbr_addr", 0x40)
    ∷ ("hw_counter", 0x20)
    ∷ ("sw_counter", 0x20)
    ∷ ("reserved_at_100", 0xc)
    ∷ ("log_wq_stride", 0x4)
    ∷ ("reserved_at_110", 0x3)
    ∷ ("log_wq_pg_sz", 0x5)
    ∷ ("reserved_at_118", 0x3)
    ∷ ("log_wq_sz", 0x5)
    ∷ ("dbr_umem_valid", 0x1)
    ∷ ("wq_umem_valid", 0x1)
    ∷ ("reserved_at_122", 0x1)
    ∷ ("log_hairpin_num_packets", 0x5)
    ∷ ("reserved_at_128", 0x3)
    ∷ ("log_hairpin_data_sz", 0x5)
    ∷ ("reserved_at_130", 0x4)
    ∷ ("log_wqe_num_of_strides", 0x4)
    ∷ ("two_byte_shift_en", 0x1)
    ∷ ("reserved_at_139", 0x4)
    ∷ ("log_wqe_stride_size", 0x3)
    ∷ ("reserved_at_140", 0x80)
    ∷ ("headers_mkey", 0x20)
    ∷ ("shampo_enable", 0x1)
    ∷ ("reserved_at_1e1", 0x4)
    ∷ ("log_reservation_size", 0x3)
    ∷ ("reserved_at_1e8", 0x5)
    ∷ ("log_max_num_of_packets_per_reservation", 0x3)
    ∷ ("reserved_at_1f0", 0x6)
    ∷ ("log_headers_entry_size", 0x2)
    ∷ ("reserved_at_1f8", 0x4)
    ∷ ("log_headers_buffer_entry_num", 0x4)
    ∷ ("reserved_at_200", 0x400)
    ∷ ("pas", 0)
    ∷ []
