-- ===== src/Prm/Opcodes.antt =====
-- The command opcodes of mlx5_ifc.h that the program sends, and MLX5_CMD_OP_QUERY_XRQ.
use mlx5ctl.Base.{ℕ}

abbrev pub cmd_op_query_hca_cap : ℕ
cmd_op_query_hca_cap = 0x100

abbrev pub cmd_op_query_adapter : ℕ
cmd_op_query_adapter = 0x101

abbrev pub cmd_op_query_pages : ℕ
cmd_op_query_pages = 0x107

abbrev pub cmd_op_query_issi : ℕ
cmd_op_query_issi = 0x10a

abbrev pub cmd_op_query_vhca_migration_state : ℕ
cmd_op_query_vhca_migration_state = 0x117

abbrev pub cmd_op_create_mkey : ℕ
cmd_op_create_mkey = 0x200

abbrev pub cmd_op_query_mkey : ℕ
cmd_op_query_mkey = 0x201

abbrev pub cmd_op_destroy_mkey : ℕ
cmd_op_destroy_mkey = 0x202

abbrev pub cmd_op_query_special_contexts : ℕ
cmd_op_query_special_contexts = 0x203

abbrev pub cmd_op_query_eq : ℕ
cmd_op_query_eq = 0x303

abbrev pub cmd_op_query_cq : ℕ
cmd_op_query_cq = 0x402

abbrev pub cmd_op_query_qp : ℕ
cmd_op_query_qp = 0x50b

abbrev pub cmd_op_query_srq : ℕ
cmd_op_query_srq = 0x702

abbrev pub cmd_op_query_xrc_srq : ℕ
cmd_op_query_xrc_srq = 0x707

abbrev pub cmd_op_query_dct : ℕ
cmd_op_query_dct = 0x713

abbrev pub cmd_op_query_xrq : ℕ
cmd_op_query_xrq = 0x719

abbrev pub cmd_op_query_esw_functions : ℕ
cmd_op_query_esw_functions = 0x740

abbrev pub cmd_op_query_vport_state : ℕ
cmd_op_query_vport_state = 0x750

abbrev pub cmd_op_query_esw_vport_context : ℕ
cmd_op_query_esw_vport_context = 0x752

abbrev pub cmd_op_query_vnic_env : ℕ
cmd_op_query_vnic_env = 0x76f

abbrev pub cmd_op_query_vport_counter : ℕ
cmd_op_query_vport_counter = 0x770

abbrev pub cmd_op_query_q_counter : ℕ
cmd_op_query_q_counter = 0x773

abbrev pub cmd_op_alloc_pd : ℕ
cmd_op_alloc_pd = 0x800

abbrev pub cmd_op_dealloc_pd : ℕ
cmd_op_dealloc_pd = 0x801

abbrev pub cmd_op_access_reg : ℕ
cmd_op_access_reg = 0x805

abbrev pub cmd_op_query_mad_demux : ℕ
cmd_op_query_mad_demux = 0x80b

abbrev pub cmd_op_query_diagnostic_params : ℕ
cmd_op_query_diagnostic_params = 0x819

abbrev pub cmd_op_set_diagnostic_params : ℕ
cmd_op_set_diagnostic_params = 0x820

abbrev pub cmd_op_query_diagnostic_counters : ℕ
cmd_op_query_diagnostic_counters = 0x821

abbrev pub cmd_op_query_cong_status : ℕ
cmd_op_query_cong_status = 0x822

abbrev pub cmd_op_query_cong_params : ℕ
cmd_op_query_cong_params = 0x824

abbrev pub cmd_op_query_cong_statistics : ℕ
cmd_op_query_cong_statistics = 0x826

abbrev pub cmd_op_query_l2_table_entry : ℕ
cmd_op_query_l2_table_entry = 0x82a

abbrev pub cmd_op_query_wol_rol : ℕ
cmd_op_query_wol_rol = 0x831

abbrev pub cmd_op_query_lag : ℕ
cmd_op_query_lag = 0x842

abbrev pub cmd_op_query_tir : ℕ
cmd_op_query_tir = 0x903

abbrev pub cmd_op_query_sq : ℕ
cmd_op_query_sq = 0x907

abbrev pub cmd_op_query_rq : ℕ
cmd_op_query_rq = 0x90b

abbrev pub cmd_op_query_rmp : ℕ
cmd_op_query_rmp = 0x90f

abbrev pub cmd_op_query_tis : ℕ
cmd_op_query_tis = 0x915

abbrev pub cmd_op_query_rqt : ℕ
cmd_op_query_rqt = 0x919

abbrev pub cmd_op_query_packet_reformat_context : ℕ
cmd_op_query_packet_reformat_context = 0x93f

abbrev pub cmd_op_query_modify_header_context : ℕ
cmd_op_query_modify_header_context = 0x942
