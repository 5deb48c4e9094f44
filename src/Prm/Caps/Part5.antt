-- ===== src/Prm/Caps/Part5.antt =====
-- Layouts from mlx5_ifc.h: the capabilities.
use mlx5ctl.Base.{[], ◌∷◌}
use mlx5ctl.Ifc.{Layout, mlx5_st_sz_bits, mlx5_un_sz_bits}
use mlx5ctl.Prm.Caps.Part1.{cmd_hca_cap}
use mlx5ctl.Prm.Caps.Part2.{
  atomic_caps, cmd_hca_cap_2, odp_cap, per_protocol_networking_offload_caps, roce_cap,
}
use mlx5ctl.Prm.Caps.Part3.{flow_table_nic_cap}
use mlx5ctl.Prm.Caps.Part4.{
  debug_cap, e_switch_cap, flow_table_eswitch_cap, port_selection_cap, qos_cap, tls_cap,
  vector_calc_cap,
}

abbrev pub device_mem_cap : Layout
device_mem_cap =
    ("memic", 0x1)
    ∷ ("reserved_at_1", 0x1f)
    ∷ ("reserved_at_20", 0xb)
    ∷ ("log_min_memic_alloc_size", 0x5)
    ∷ ("reserved_at_30", 0x8)
    ∷ ("log_max_memic_addr_alignment", 0x8)
    ∷ ("memic_bar_start_addr", 0x40)
    ∷ ("memic_bar_size", 0x20)
    ∷ ("max_memic_size", 0x20)
    ∷ ("steering_sw_icm_start_address", 0x40)
    ∷ ("reserved_at_100", 0x8)
    ∷ ("log_header_modify_sw_icm_size", 0x8)
    ∷ ("reserved_at_110", 0x2)
    ∷ ("log_sw_icm_alloc_granularity", 0x6)
    ∷ ("log_steering_sw_icm_size", 0x8)
    ∷ ("reserved_at_120", 0x18)
    ∷ ("log_header_modify_pattern_sw_icm_size", 0x8)
    ∷ ("header_modify_sw_icm_start_address", 0x40)
    ∷ ("reserved_at_180", 0x40)
    ∷ ("header_modify_pattern_sw_icm_start_address", 0x40)
    ∷ ("memic_operations", 0x20)
    ∷ ("reserved_at_220", 0x5e0)
    ∷ []

abbrev pub virtio_emulation_cap : Layout
virtio_emulation_cap =
    ("desc_tunnel_offload_type", 0x1)
    ∷ ("eth_frame_offload_type", 0x1)
    ∷ ("virtio_version_1_0", 0x1)
    ∷ ("device_features_bits_mask", 0xd)
    ∷ ("event_mode", 0x8)
    ∷ ("virtio_queue_type", 0x8)
    ∷ ("max_tunnel_desc", 0x10)
    ∷ ("reserved_at_30", 0x3)
    ∷ ("log_doorbell_stride", 0x5)
    ∷ ("reserved_at_38", 0x3)
    ∷ ("log_doorbell_bar_size", 0x5)
    ∷ ("doorbell_bar_offset", 0x40)
    ∷ ("max_emulated_devices", 0x8)
    ∷ ("max_num_virtio_queues", 0x18)
    ∷ ("reserved_at_a0", 0x60)
    ∷ ("umem_1_buffer_param_a", 0x20)
    ∷ ("umem_1_buffer_param_b", 0x20)
    ∷ ("umem_2_buffer_param_a", 0x20)
    ∷ ("umem_2_buffer_param_b", 0x20)
    ∷ ("umem_3_buffer_param_a", 0x20)
    ∷ ("umem_3_buffer_param_b", 0x20)
    ∷ ("reserved_at_1c0", 0x640)
    ∷ []

abbrev pub shampo_cap : Layout
shampo_cap =
    ("reserved_at_0", 0x3)
    ∷ ("shampo_log_max_reservation_size", 0x5)
    ∷ ("reserved_at_8", 0x3)
    ∷ ("shampo_log_min_reservation_size", 0x5)
    ∷ ("shampo_min_mss_size", 0x10)
    ∷ ("reserved_at_20", 0x3)
    ∷ ("shampo_max_log_headers_entry_size", 0x5)
    ∷ ("reserved_at_28", 0x18)
    ∷ ("reserved_at_40", 0x7c0)
    ∷ []

abbrev pub macsec_cap : Layout
macsec_cap =
    ("macsec_epn", 0x1)
    ∷ ("reserved_at_1", 0x2)
    ∷ ("macsec_crypto_esp_aes_gcm_256_encrypt", 0x1)
    ∷ ("macsec_crypto_esp_aes_gcm_128_encrypt", 0x1)
    ∷ ("macsec_crypto_esp_aes_gcm_256_decrypt", 0x1)
    ∷ ("macsec_crypto_esp_aes_gcm_128_decrypt", 0x1)
    ∷ ("reserved_at_7", 0x4)
    ∷ ("log_max_macsec_offload", 0x5)
    ∷ ("reserved_at_10", 0x10)
    ∷ ("min_log_macsec_full_replay_window", 0x8)
    ∷ ("max_log_macsec_full_replay_window", 0x8)
    ∷ ("reserved_at_30", 0x10)
    ∷ ("reserved_at_40", 0x7c0)
    ∷ []

abbrev pub hca_cap_union : Layout
hca_cap_union =
    ("cmd_hca_cap", mlx5_st_sz_bits cmd_hca_cap)
    ∷ ("cmd_hca_cap_2", mlx5_st_sz_bits cmd_hca_cap_2)
    ∷ ("odp_cap", mlx5_st_sz_bits odp_cap)
    ∷ ("atomic_caps", mlx5_st_sz_bits atomic_caps)
    ∷ ("roce_cap", mlx5_st_sz_bits roce_cap)
    ∷ ("per_protocol_networking_offload_caps", mlx5_st_sz_bits per_protocol_networking_offload_caps)
    ∷ ("flow_table_nic_cap", mlx5_st_sz_bits flow_table_nic_cap)
    ∷ ("flow_table_eswitch_cap", mlx5_st_sz_bits flow_table_eswitch_cap)
    ∷ ("e_switch_cap", mlx5_st_sz_bits e_switch_cap)
    ∷ ("port_selection_cap", mlx5_st_sz_bits port_selection_cap)
    ∷ ("vector_calc_cap", mlx5_st_sz_bits vector_calc_cap)
    ∷ ("qos_cap", mlx5_st_sz_bits qos_cap)
    ∷ ("debug_cap", mlx5_st_sz_bits debug_cap)
    ∷ ("tls_cap", mlx5_st_sz_bits tls_cap)
    ∷ ("device_mem_cap", mlx5_st_sz_bits device_mem_cap)
    ∷ ("virtio_emulation_cap", mlx5_st_sz_bits virtio_emulation_cap)
    ∷ ("shampo_cap", mlx5_st_sz_bits shampo_cap)
    ∷ ("macsec_cap", mlx5_st_sz_bits macsec_cap)
    ∷ ("reserved_at_0", 0x8000)
    ∷ []

abbrev pub query_hca_cap_out : Layout
query_hca_cap_out =
    ("status", 0x8)
    ∷ ("reserved_at_8", 0x18)
    ∷ ("syndrome", 0x20)
    ∷ ("reserved_at_40", 0x40)
    ∷ ("capability", mlx5_un_sz_bits hca_cap_union)
    ∷ []
