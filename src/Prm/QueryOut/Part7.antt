-- ===== src/Prm/QueryOut/Part7.antt =====
-- Layouts from mlx5_ifc.h: the outputs of the query commands of query_obj.c.
use mlx5ctl.Base.{[], ◌∷◌, ◌*◌}
use mlx5ctl.Ifc.{Layout, mlx5_st_sz_bits, mlx5_un_sz_bits}
use mlx5ctl.Prm.QueryOut.Part6.{
  cong_control_802_1qau_rp, cong_control_r_roce_ecn_np, cong_control_r_roce_ecn_rp,
}

abbrev pub cong_control_roce_ecn_auto : Layout
cong_control_roce_ecn_auto =
    ("cong_control_802_1qau_rp", mlx5_st_sz_bits cong_control_802_1qau_rp)
    ∷ ("cong_control_r_roce_ecn_rp", mlx5_st_sz_bits cong_control_r_roce_ecn_rp)
    ∷ ("cong_control_r_roce_ecn_np", mlx5_st_sz_bits cong_control_r_roce_ecn_np)
    ∷ ("reserved_at_0", 0x800)
    ∷ []

abbrev pub query_cong_params_out : Layout
query_cong_params_out =
    ("status", 0x8)
    ∷ ("reserved_at_8", 0x18)
    ∷ ("syndrome", 0x20)
    ∷ ("reserved_at_40", 0x40)
    ∷ ("congestion_parameters", mlx5_un_sz_bits cong_control_roce_ecn_auto)
    ∷ []

abbrev pub query_cong_status_out : Layout
query_cong_status_out =
    ("status", 0x8)
    ∷ ("reserved_at_8", 0x18)
    ∷ ("syndrome", 0x20)
    ∷ ("reserved_at_40", 0x20)
    ∷ ("enable", 0x1)
    ∷ ("tag_enable", 0x1)
    ∷ ("reserved_at_62", 0x1e)
    ∷ []

abbrev pub query_adapter_param_block : Layout
query_adapter_param_block =
    ("reserved_at_0", 0xc0)
    ∷ ("reserved_at_c0", 0x8)
    ∷ ("ieee_vendor_id", 0x18)
    ∷ ("reserved_at_e0", 0x10)
    ∷ ("vsd_vendor_id", 0x10)
    ∷ ("vsd", 208 * 0x8)
    ∷ ("vsd_contd_psid", 16 * 0x8)
    ∷ []

abbrev pub query_adapter_out : Layout
query_adapter_out =
    ("status", 0x8)
    ∷ ("reserved_at_8", 0x18)
    ∷ ("syndrome", 0x20)
    ∷ ("reserved_at_40", 0x40)
    ∷ ("query_adapter_struct", mlx5_st_sz_bits query_adapter_param_block)
    ∷ []

abbrev pub query_wol_rol_out : Layout
query_wol_rol_out =
    ("status", 0x8)
    ∷ ("reserved_at_8", 0x18)
    ∷ ("syndrome", 0x20)
    ∷ ("reserved_at_40", 0x10)
    ∷ ("rol_mode", 0x8)
    ∷ ("wol_mode", 0x8)
    ∷ ("reserved_at_60", 0x20)
    ∷ []

abbrev pub lagc : Layout
lagc =
    ("fdb_selection_mode", 0x1)
    ∷ ("reserved_at_1", 0x14)
    ∷ ("port_select_mode", 0x3)
    ∷ ("reserved_at_18", 0x5)
    ∷ ("lag_state", 0x3)
    ∷ ("reserved_at_20", 0xc)
    ∷ ("active_port", 0x4)
    ∷ ("reserved_at_30", 0x4)
    ∷ ("tx_remap_affinity_2", 0x4)
    ∷ ("reserved_at_38", 0x4)
    ∷ ("tx_remap_affinity_1", 0x4)
    ∷ []

abbrev pub query_lag_out : Layout
query_lag_out =
    ("status", 0x8)
    ∷ ("reserved_at_8", 0x18)
    ∷ ("syndrome", 0x20)
    ∷ ("ctx", mlx5_st_sz_bits lagc)
    ∷ []

abbrev pub host_params_context : Layout
host_params_context =
    ("host_number", 0x8)
    ∷ ("reserved_at_8", 0x7)
    ∷ ("host_pf_disabled", 0x1)
    ∷ ("host_num_of_vfs", 0x10)
    ∷ ("host_total_vfs", 0x10)
    ∷ ("host_pci_bus", 0x10)
    ∷ ("reserved_at_40", 0x10)
    ∷ ("host_pci_device", 0x10)
    ∷ ("reserved_at_60", 0x10)
    ∷ ("host_pci_function", 0x10)
    ∷ ("reserved_at_80", 0x180)
    ∷ []

abbrev pub query_esw_functions_out : Layout
query_esw_functions_out =
    ("status", 0x8)
    ∷ ("reserved_at_8", 0x18)
    ∷ ("syndrome", 0x20)
    ∷ ("reserved_at_40", 0x40)
    ∷ ("host_params_context", mlx5_st_sz_bits host_params_context)
    ∷ ("reserved_at_280", 0x180)
    ∷ ("host_sf_enable", 0)
    ∷ []

abbrev pub query_vhca_migration_state_out : Layout
query_vhca_migration_state_out =
    ("status", 0x8)
    ∷ ("reserved_at_8", 0x18)
    ∷ ("syndrome", 0x20)
    ∷ ("reserved_at_40", 0x40)
    ∷ ("required_umem_size", 0x20)
    ∷ ("reserved_at_a0", 0x160)
    ∷ []
