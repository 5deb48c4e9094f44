-- ===== src/Caps/Print.antt =====
-- The pretty print functions of devcaps.c: the fields they print, in order.
use mlx5ctl.Base.{[], ◌∷◌}
use mlx5ctl.Caps.Shown.{Printcap, word, long, print_fields, sub}
use mlx5ctl.Prm.Caps.Part1.{cmd_hca_cap}
use mlx5ctl.Prm.Caps.Part2.{cmd_hca_cap_2, per_protocol_networking_offload_caps, roce_cap}
use mlx5ctl.Prm.Caps.Part4.{debug_cap, port_selection_cap}
use mlx5ctl.Prm.Caps.Part5.{virtio_emulation_cap}

unfoldable pub print_hca_caps : Printcap
print_hca_caps = print_fields cmd_hca_cap (
    word "shared_object_to_user_object_allowed"
    ∷ word "vhca_resource_manager"
    ∷ word "hca_cap_2"
    ∷ word "create_lag_when_not_master_up"
    ∷ word "dtor"
    ∷ word "event_on_vhca_state_teardown_request"
    ∷ word "event_on_vhca_state_in_use"
    ∷ word "event_on_vhca_state_active"
    ∷ word "event_on_vhca_state_allocated"
    ∷ word "event_on_vhca_state_invalid"
    ∷ word "vhca_id"
    ∷ word "log_max_srq_sz"
    ∷ word "log_max_qp_sz"
    ∷ word "event_cap"
    ∷ word "isolate_vl_tc_new"
    ∷ word "prio_tag_required"
    ∷ word "log_max_qp"
    ∷ word "ece_support"
    ∷ word "reg_c_preserve"
    ∷ word "log_max_srq"
    ∷ word "uplink_follow"
    ∷ word "ts_cqe_to_dest_cqn"
    ∷ word "shampo"
    ∷ word "max_sgl_for_optimized_performance"
    ∷ word "log_max_cq_sz"
    ∷ word "relaxed_ordering_write_umr"
    ∷ word "relaxed_ordering_read_umr"
    ∷ word "virtio_net_device_emualtion_manager"
    ∷ word "virtio_blk_device_emualtion_manager"
    ∷ word "log_max_cq"
    ∷ word "log_max_eq_sz"
    ∷ word "relaxed_ordering_write"
    ∷ word "relaxed_ordering_read"
    ∷ word "log_max_mkey"
    ∷ word "dump_fill_mkey"
    ∷ word "fast_teardown"
    ∷ word "log_max_eq"
    ∷ word "max_indirection"
    ∷ word "fixed_buffer_size"
    ∷ word "log_max_mrw_sz"
    ∷ word "force_teardown"
    ∷ word "log_max_bsf_list_size"
    ∷ word "umr_extended_translation_offset"
    ∷ word "null_mkey"
    ∷ word "log_max_klm_list_size"
    ∷ word "log_max_ra_req_dc"
    ∷ word "eth_wqe_too_small"
    ∷ word "vnic_env_cq_overrun"
    ∷ word "log_max_ra_res_dc"
    ∷ word "release_all_pages"
    ∷ word "must_not_use"
    ∷ word "roce_accl"
    ∷ word "log_max_ra_req_qp"
    ∷ word "log_max_ra_res_qp"
    ∷ word "end_pad"
    ∷ word "cc_query_allowed"
    ∷ word "cc_modify_allowed"
    ∷ word "start_pad"
    ∷ word "cache_line_128byte"
    ∷ word "rts2rts_qp_counters_set_id"
    ∷ word "vnic_env_int_rq_oob"
    ∷ word "sbcam_reg"
    ∷ word "qcam_reg"
    ∷ word "gid_table_size"
    ∷ word "out_of_seq_cnt"
    ∷ word "vport_counters"
    ∷ word "retransmission_q_counters"
    ∷ word "debug"
    ∷ word "modify_rq_counter_set_id"
    ∷ word "rq_delay_drop"
    ∷ word "max_qp_cnt"
    ∷ word "pkey_table_size"
    ∷ word "vport_group_manager"
    ∷ word "vhca_group_manager"
    ∷ word "ib_virt"
    ∷ word "eth_virt"
    ∷ word "vnic_env_queue_counters"
    ∷ word "ets"
    ∷ word "nic_flow_table"
    ∷ word "eswitch_manager"
    ∷ word "device_memory"
    ∷ word "mcam_reg"
    ∷ word "pcam_reg"
    ∷ word "local_ca_ack_delay"
    ∷ word "port_module_event"
    ∷ word "enhanced_error_q_counters"
    ∷ word "ports_check"
    ∷ word "disable_link_up"
    ∷ word "beacon_led"
    ∷ word "port_type"
    ∷ word "num_ports"
    ∷ word "pps"
    ∷ word "pps_modify"
    ∷ word "log_max_msg"
    ∷ word "max_tc"
    ∷ word "temp_warn_event"
    ∷ word "dcbx"
    ∷ word "general_notification_event"
    ∷ word "fpga"
    ∷ word "rol_s"
    ∷ word "rol_g"
    ∷ word "wol_s"
    ∷ word "wol_g"
    ∷ word "wol_a"
    ∷ word "wol_b"
    ∷ word "wol_m"
    ∷ word "wol_u"
    ∷ word "wol_p"
    ∷ word "stat_rate_support"
    ∷ word "pci_sync_for_fw_update_event"
    ∷ word "init2_lag_tx_port_affinity"
    ∷ word "cqe_version"
    ∷ word "compact_address_vector"
    ∷ word "striding_rq"
    ∷ word "ipoib_enhanced_offloads"
    ∷ word "ipoib_basic_offloads"
    ∷ word "repeated_block_disabled"
    ∷ word "umr_modify_entity_size_disabled"
    ∷ word "umr_modify_atomic_disabled"
    ∷ word "umr_indirect_mkey_disabled"
    ∷ word "umr_fence"
    ∷ word "dc_req_scat_data_cqe"
    ∷ word "drain_sigerr"
    ∷ word "cmdif_checksum"
    ∷ word "sigerr_cqe"
    ∷ word "wq_signature"
    ∷ word "sctr_data_cqe"
    ∷ word "sho"
    ∷ word "tph"
    ∷ word "rf"
    ∷ word "dct"
    ∷ word "qos"
    ∷ word "eth_net_offloads"
    ∷ word "roce"
    ∷ word "atomic"
    ∷ word "cq_oi"
    ∷ word "cq_resize"
    ∷ word "cq_moderation"
    ∷ word "cq_eq_remap"
    ∷ word "pg"
    ∷ word "block_lb_mc"
    ∷ word "scqe_break_moderation"
    ∷ word "cq_period_start_from_cqe"
    ∷ word "cd"
    ∷ word "apm"
    ∷ word "vector_calc"
    ∷ word "umr_ptr_rlky"
    ∷ word "imaicl"
    ∷ word "qp_packet_based"
    ∷ word "qkv"
    ∷ word "pkv"
    ∷ word "set_deth_sqpn"
    ∷ word "xrc"
    ∷ word "ud"
    ∷ word "uc"
    ∷ word "rc"
    ∷ word "uar_4k"
    ∷ word "uar_sz"
    ∷ word "port_selection_cap"
    ∷ word "umem_uid_0"
    ∷ word "log_pg_sz"
    ∷ word "bf"
    ∷ word "driver_version"
    ∷ word "pad_tx_eth_packet"
    ∷ word "mkey_by_name"
    ∷ word "log_bf_reg_size"
    ∷ word "lag_dct"
    ∷ word "lag_tx_port_affinity"
    ∷ word "lag_native_fdb_selection"
    ∷ word "lag_master"
    ∷ word "num_lag_ports"
    ∷ word "num_of_diagnostic_counters"
    ∷ word "max_wqe_sz_sq"
    ∷ word "max_wqe_sz_rq"
    ∷ word "max_flow_counter_31_16"
    ∷ word "max_wqe_sz_sq_dc"
    ∷ word "max_qp_mcg"
    ∷ word "flow_counter_bulk_alloc"
    ∷ word "log_max_mcg"
    ∷ word "log_max_transport_domain"
    ∷ word "log_max_pd"
    ∷ word "log_max_xrcd"
    ∷ word "nic_receive_steering_discard"
    ∷ word "receive_discard_vport_down"
    ∷ word "transmit_discard_vport_down"
    ∷ word "eq_overrun_count"
    ∷ word "invalid_command_count"
    ∷ word "quota_exceeded_count"
    ∷ word "log_max_flow_counter_bulk"
    ∷ word "max_flow_counter_15_0"
    ∷ word "log_max_rq"
    ∷ word "log_max_sq"
    ∷ word "log_max_tir"
    ∷ word "log_max_tis"
    ∷ word "basic_cyclic_rcv_wqe"
    ∷ word "log_max_rmp"
    ∷ word "log_max_rqt"
    ∷ word "mini_cqe_resp_stride_index"
    ∷ word "cqe_128_always"
    ∷ word "cqe_compression_128"
    ∷ word "cqe_compression"
    ∷ word "cqe_compression_timeout"
    ∷ word "cqe_compression_max_num"
    ∷ word "flex_parser_id_gtpu_dw_0"
    ∷ word "flex_parser_id_icmp_dw1"
    ∷ word "flex_parser_id_icmp_dw0"
    ∷ word "flex_parser_id_icmpv6_dw1"
    ∷ word "flex_parser_id_icmpv6_dw0"
    ∷ word "flex_parser_id_outer_first_mpls_over_gre"
    ∷ word "flex_parser_id_outer_first_mpls_over_udp_label"
    ∷ word "max_num_match_definer"
    ∷ word "sf_base_id"
    ∷ word "flex_parser_id_gtpu_dw_2"
    ∷ word "flex_parser_id_gtpu_first_ext_dw_0"
    ∷ word "num_total_dynamic_vf_msix"
    ∷ word "dynamic_msix_table_size"
    ∷ word "min_dynamic_vf_msix_table_size"
    ∷ word "max_dynamic_vf_msix_table_size"
    ∷ long "vhca_tunnel_commands"
    ∷ long "match_definer_format_supported"
    ∷ [])

unfoldable pub print_hca_caps2 : Printcap
print_hca_caps2 = print_fields cmd_hca_cap_2 (
    word "max_reformat_insert_size"
    ∷ word "max_reformat_insert_offset"
    ∷ word "max_reformat_remove_size"
    ∷ word "max_reformat_remove_offset"
    ∷ word "log_min_mkey_entity_size"
    ∷ word "sw_vhca_id_valid"
    ∷ word "sw_vhca_id"
    ∷ word "ts_cqe_metadata_size2wqe_counter"
    ∷ [])

unfoldable pub print_eth_caps : Printcap
print_eth_caps = print_fields per_protocol_networking_offload_caps (
    word "csum_cap"
    ∷ word "vlan_cap"
    ∷ word "lro_cap"
    ∷ word "lro_psh_flag"
    ∷ word "lro_time_stamp"
    ∷ word "wqe_vlan_insert"
    ∷ word "self_lb_en_modifiable"
    ∷ word "max_lso_cap"
    ∷ word "multi_pkt_send_wqe"
    ∷ word "wqe_inline_mode"
    ∷ word "rss_ind_tbl_cap"
    ∷ word "reg_umr_sq"
    ∷ word "scatter_fcs"
    ∷ word "enhanced_multi_pkt_send_wqe"
    ∷ word "tunnel_lso_const_out_ip_id"
    ∷ word "tunnel_lro_gre"
    ∷ word "tunnel_lro_vxlan"
    ∷ word "tunnel_stateless_gre"
    ∷ word "tunnel_stateless_vxlan"
    ∷ word "swp"
    ∷ word "swp_csum"
    ∷ word "swp_lso"
    ∷ word "cqe_checksum_full"
    ∷ word "tunnel_stateless_geneve_tx"
    ∷ word "tunnel_stateless_mpls_over_udp"
    ∷ word "tunnel_stateless_mpls_over_gre"
    ∷ word "tunnel_stateless_vxlan_gpe"
    ∷ word "tunnel_stateless_ipv4_over_vxlan"
    ∷ word "tunnel_stateless_ip_over_ip"
    ∷ word "insert_trailer"
    ∷ word "tunnel_stateless_ip_over_ip_rx"
    ∷ word "tunnel_stateless_ip_over_ip_tx"
    ∷ word "max_vxlan_udp_ports"
    ∷ word "max_geneve_opt_len"
    ∷ word "tunnel_stateless_geneve_rx"
    ∷ word "lro_min_mss_size"
    ∷ sub "lro_timer_supported_periods" 0
    ∷ sub "lro_timer_supported_periods" 1
    ∷ sub "lro_timer_supported_periods" 2
    ∷ sub "lro_timer_supported_periods" 3
    ∷ word "enhanced_multi_pkt_send_wqe"
    ∷ [])

unfoldable pub print_virtio_emulation_cap : Printcap
print_virtio_emulation_cap = print_fields virtio_emulation_cap (
    word "desc_tunnel_offload_type"
    ∷ word "eth_frame_offload_type"
    ∷ word "virtio_version_1_0"
    ∷ word "device_features_bits_mask"
    ∷ word "event_mode"
    ∷ word "virtio_queue_type"
    ∷ word "max_tunnel_desc"
    ∷ word "log_doorbell_stride"
    ∷ word "log_doorbell_bar_size"
    ∷ long "doorbell_bar_offset"
    ∷ word "max_emulated_devices"
    ∷ word "max_num_virtio_queues"
    ∷ word "umem_1_buffer_param_a"
    ∷ word "umem_1_buffer_param_b"
    ∷ word "umem_2_buffer_param_a"
    ∷ word "umem_2_buffer_param_b"
    ∷ word "umem_3_buffer_param_a"
    ∷ word "umem_3_buffer_param_b"
    ∷ [])

unfoldable pub print_roce_cap : Printcap
print_roce_cap = print_fields roce_cap (
    word "roce_apm"
    ∷ word "sw_r_roce_src_udp_port"
    ∷ word "fl_rc_qp_when_roce_disabled"
    ∷ word "fl_rc_qp_when_roce_enabled"
    ∷ word "qp_ts_format"
    ∷ word "l3_type"
    ∷ word "roce_version"
    ∷ word "r_roce_dest_udp_port"
    ∷ word "r_roce_max_src_udp_port"
    ∷ word "r_roce_min_src_udp_port"
    ∷ word "roce_address_table_size"
    ∷ [])

unfoldable pub print_debug_caps : Printcap
print_debug_caps = print_fields debug_cap (
    word "core_dump_general"
    ∷ word "core_dump_qp"
    ∷ word "log_cr_dump_to_mem_size"
    ∷ word "resource_dump"
    ∷ word "log_min_resource_dump_eq"
    ∷ word "log_max_samples"
    ∷ word "single"
    ∷ word "repetitive"
    ∷ word "health_mon_rx_activity"
    ∷ word "diag_counter_tracer_dump"
    ∷ word "log_min_sample_period"
    ∷ [])

unfoldable pub print_port_selection_caps : Printcap
print_port_selection_caps =
    print_fields port_selection_cap
      (word "port_select_flow_table" ∷ word "port_select_flow_table_bypass" ∷ [])
