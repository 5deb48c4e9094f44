-- ===== src/Prm/Caps/Part2.antt =====
-- Layouts from mlx5_ifc.h: the capabilities.
use mlx5ctl.Base.{[], ◌∷◌, ◌*◌}
use mlx5ctl.Ifc.{Layout, mlx5_st_sz_bits}

abbrev pub cmd_hca_cap_2 : Layout
cmd_hca_cap_2 =
    ("reserved_at_0", 0xa0)
    ∷ ("max_reformat_insert_size", 0x8)
    ∷ ("max_reformat_insert_offset", 0x8)
    ∷ ("max_reformat_remove_size", 0x8)
    ∷ ("max_reformat_remove_offset", 0x8)
    ∷ ("reserved_at_c0", 0xe0)
    ∷ ("reserved_at_1a0", 0xb)
    ∷ ("log_min_mkey_entity_size", 0x5)
    ∷ ("reserved_at_1b0", 0x10)
    ∷ ("reserved_at_1c0", 0x60)
    ∷ ("reserved_at_220", 0x1)
    ∷ ("sw_vhca_id_valid", 0x1)
    ∷ ("sw_vhca_id", 0xe)
    ∷ ("reserved_at_230", 0x10)
    ∷ ("reserved_at_240", 0xb)
    ∷ ("ts_cqe_metadata_size2wqe_counter", 0x5)
    ∷ ("reserved_at_250", 0x10)
    ∷ ("reserved_at_260", 0x5a0)
    ∷ []

abbrev pub odp_per_transport_service_cap : Layout
odp_per_transport_service_cap =
    ("send", 0x1)
    ∷ ("receive", 0x1)
    ∷ ("write", 0x1)
    ∷ ("read", 0x1)
    ∷ ("atomic", 0x1)
    ∷ ("srq_receive", 0x1)
    ∷ ("reserved_at_6", 0x1a)
    ∷ []

abbrev pub odp_cap : Layout
odp_cap =
    ("reserved_at_0", 0x40)
    ∷ ("sig", 0x1)
    ∷ ("reserved_at_41", 0x1f)
    ∷ ("reserved_at_60", 0x20)
    ∷ ("rc_odp_caps", mlx5_st_sz_bits odp_per_transport_service_cap)
    ∷ ("uc_odp_caps", mlx5_st_sz_bits odp_per_transport_service_cap)
    ∷ ("ud_odp_caps", mlx5_st_sz_bits odp_per_transport_service_cap)
    ∷ ("xrc_odp_caps", mlx5_st_sz_bits odp_per_transport_service_cap)
    ∷ ("dc_odp_caps", mlx5_st_sz_bits odp_per_transport_service_cap)
    ∷ ("reserved_at_120", 0x6E0)
    ∷ []

abbrev pub atomic_caps : Layout
atomic_caps =
    ("reserved_at_0", 0x40)
    ∷ ("atomic_req_8B_endianness_mode", 0x2)
    ∷ ("reserved_at_42", 0x4)
    ∷ ("supported_atomic_req_8B_endianness_mode_1", 0x1)
    ∷ ("reserved_at_47", 0x19)
    ∷ ("reserved_at_60", 0x20)
    ∷ ("reserved_at_80", 0x10)
    ∷ ("atomic_operations", 0x10)
    ∷ ("reserved_at_a0", 0x10)
    ∷ ("atomic_size_qp", 0x10)
    ∷ ("reserved_at_c0", 0x10)
    ∷ ("atomic_size_dc", 0x10)
    ∷ ("reserved_at_e0", 0x720)
    ∷ []

abbrev pub roce_cap : Layout
roce_cap =
    ("roce_apm", 0x1)
    ∷ ("reserved_at_1", 0x3)
    ∷ ("sw_r_roce_src_udp_port", 0x1)
    ∷ ("fl_rc_qp_when_roce_disabled", 0x1)
    ∷ ("fl_rc_qp_when_roce_enabled", 0x1)
    ∷ ("reserved_at_7", 0x17)
    ∷ ("qp_ts_format", 0x2)
    ∷ ("reserved_at_20", 0x60)
    ∷ ("reserved_at_80", 0xc)
    ∷ ("l3_type", 0x4)
    ∷ ("reserved_at_90", 0x8)
    ∷ ("roce_version", 0x8)
    ∷ ("reserved_at_a0", 0x10)
    ∷ ("r_roce_dest_udp_port", 0x10)
    ∷ ("r_roce_max_src_udp_port", 0x10)
    ∷ ("r_roce_min_src_udp_port", 0x10)
    ∷ ("reserved_at_e0", 0x10)
    ∷ ("roce_address_table_size", 0x10)
    ∷ ("reserved_at_100", 0x700)
    ∷ []

abbrev pub per_protocol_networking_offload_caps : Layout
per_protocol_networking_offload_caps =
    ("csum_cap", 0x1)
    ∷ ("vlan_cap", 0x1)
    ∷ ("lro_cap", 0x1)
    ∷ ("lro_psh_flag", 0x1)
    ∷ ("lro_time_stamp", 0x1)
    ∷ ("reserved_at_5", 0x2)
    ∷ ("wqe_vlan_insert", 0x1)
    ∷ ("self_lb_en_modifiable", 0x1)
    ∷ ("reserved_at_9", 0x2)
    ∷ ("max_lso_cap", 0x5)
    ∷ ("multi_pkt_send_wqe", 0x2)
    ∷ ("wqe_inline_mode", 0x2)
    ∷ ("rss_ind_tbl_cap", 0x4)
    ∷ ("reg_umr_sq", 0x1)
    ∷ ("scatter_fcs", 0x1)
    ∷ ("enhanced_multi_pkt_send_wqe", 0x1)
    ∷ ("tunnel_lso_const_out_ip_id", 0x1)
    ∷ ("tunnel_lro_gre", 0x1)
    ∷ ("tunnel_lro_vxlan", 0x1)
    ∷ ("tunnel_stateless_gre", 0x1)
    ∷ ("tunnel_stateless_vxlan", 0x1)
    ∷ ("swp", 0x1)
    ∷ ("swp_csum", 0x1)
    ∷ ("swp_lso", 0x1)
    ∷ ("cqe_checksum_full", 0x1)
    ∷ ("tunnel_stateless_geneve_tx", 0x1)
    ∷ ("tunnel_stateless_mpls_over_udp", 0x1)
    ∷ ("tunnel_stateless_mpls_over_gre", 0x1)
    ∷ ("tunnel_stateless_vxlan_gpe", 0x1)
    ∷ ("tunnel_stateless_ipv4_over_vxlan", 0x1)
    ∷ ("tunnel_stateless_ip_over_ip", 0x1)
    ∷ ("insert_trailer", 0x1)
    ∷ ("reserved_at_2b", 0x1)
    ∷ ("tunnel_stateless_ip_over_ip_rx", 0x1)
    ∷ ("tunnel_stateless_ip_over_ip_tx", 0x1)
    ∷ ("reserved_at_2e", 0x2)
    ∷ ("max_vxlan_udp_ports", 0x8)
    ∷ ("reserved_at_38", 0x6)
    ∷ ("max_geneve_opt_len", 0x1)
    ∷ ("tunnel_stateless_geneve_rx", 0x1)
    ∷ ("reserved_at_40", 0x10)
    ∷ ("lro_min_mss_size", 0x10)
    ∷ ("reserved_at_60", 0x120)
    ∷ ("lro_timer_supported_periods", 4 * 0x20)
    ∷ ("reserved_at_200", 0x600)
    ∷ []
