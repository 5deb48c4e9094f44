-- ===== src/Prm/Commands.antt =====
-- Layouts from mlx5_ifc.h: the command headers and the commands of mlx5lib.c, reg.c and devcaps.c.
use mlx5ctl.Base.{[], ◌∷◌}
use mlx5ctl.Ifc.{Layout, mlx5_st_sz_bits}

abbrev pub mbox_in : Layout
mbox_in =
    ("opcode", 0x10)
    ∷ ("uid", 0x10)
    ∷ ("reserved_at_20", 0x10)
    ∷ ("op_mod", 0x10)
    ∷ ("reserved_at_40", 0x40)
    ∷ []

abbrev pub mbox_out : Layout
mbox_out =
    ("status", 0x8) ∷ ("reserved_at_8", 0x18) ∷ ("syndrome", 0x20) ∷ ("reserved_at_40", 0x40) ∷ []

abbrev pub access_register_in : Layout
access_register_in =
    ("opcode", 0x10)
    ∷ ("reserved_at_10", 0x10)
    ∷ ("vhca_tunnel_id", 0x10)
    ∷ ("op_mod", 0x10)
    ∷ ("reserved_at_40", 0x10)
    ∷ ("register_id", 0x10)
    ∷ ("argument", 0x20)
    ∷ ("register_data", 0)
    ∷ []

abbrev pub access_register_out : Layout
access_register_out =
    ("status", 0x8)
    ∷ ("reserved_at_8", 0x18)
    ∷ ("syndrome", 0x20)
    ∷ ("reserved_at_40", 0x40)
    ∷ ("register_data", 0)
    ∷ []

abbrev pub alloc_pd_in : Layout
alloc_pd_in =
    ("opcode", 0x10)
    ∷ ("uid", 0x10)
    ∷ ("reserved_at_20", 0x10)
    ∷ ("op_mod", 0x10)
    ∷ ("reserved_at_40", 0x40)
    ∷ []

abbrev pub alloc_pd_out : Layout
alloc_pd_out =
    ("status", 0x8)
    ∷ ("reserved_at_8", 0x18)
    ∷ ("syndrome", 0x20)
    ∷ ("reserved_at_40", 0x8)
    ∷ ("pd", 0x18)
    ∷ ("reserved_at_60", 0x20)
    ∷ []

abbrev pub dealloc_pd_in : Layout
dealloc_pd_in =
    ("opcode", 0x10)
    ∷ ("uid", 0x10)
    ∷ ("reserved_at_20", 0x10)
    ∷ ("op_mod", 0x10)
    ∷ ("reserved_at_40", 0x8)
    ∷ ("pd", 0x18)
    ∷ ("reserved_at_60", 0x20)
    ∷ []

abbrev pub dealloc_pd_out : Layout
dealloc_pd_out =
    ("status", 0x8) ∷ ("reserved_at_8", 0x18) ∷ ("syndrome", 0x20) ∷ ("reserved_at_40", 0x40) ∷ []

abbrev pub mkc : Layout
mkc =
    ("reserved_at_0", 0x1)
    ∷ ("free", 0x1)
    ∷ ("reserved_at_2", 0x1)
    ∷ ("access_mode_4_2", 0x3)
    ∷ ("reserved_at_6", 0x7)
    ∷ ("relaxed_ordering_write", 0x1)
    ∷ ("reserved_at_e", 0x1)
    ∷ ("small_fence_on_rdma_read_response", 0x1)
    ∷ ("umr_en", 0x1)
    ∷ ("a", 0x1)
    ∷ ("rw", 0x1)
    ∷ ("rr", 0x1)
    ∷ ("lw", 0x1)
    ∷ ("lr", 0x1)
    ∷ ("access_mode_1_0", 0x2)
    ∷ ("reserved_at_18", 0x2)
    ∷ ("ma_translation_mode", 0x2)
    ∷ ("reserved_at_1c", 0x4)
    ∷ ("qpn", 0x18)
    ∷ ("mkey_7_0", 0x8)
    ∷ ("reserved_at_40", 0x20)
    ∷ ("length64", 0x1)
    ∷ ("bsf_en", 0x1)
    ∷ ("sync_umr", 0x1)
    ∷ ("reserved_at_63", 0x2)
    ∷ ("expected_sigerr_count", 0x1)
    ∷ ("reserved_at_66", 0x1)
    ∷ ("en_rinval", 0x1)
    ∷ ("pd", 0x18)
    ∷ ("start_addr", 0x40)
    ∷ ("len", 0x40)
    ∷ ("bsf_octword_size", 0x20)
    ∷ ("reserved_at_120", 0x80)
    ∷ ("translations_octword_size", 0x20)
    ∷ ("reserved_at_1c0", 0x19)
    ∷ ("relaxed_ordering_read", 0x1)
    ∷ ("reserved_at_1d9", 0x1)
    ∷ ("log_page_size", 0x5)
    ∷ ("reserved_at_1e0", 0x20)
    ∷ []

abbrev pub create_mkey_in : Layout
create_mkey_in =
    ("opcode", 0x10)
    ∷ ("uid", 0x10)
    ∷ ("reserved_at_20", 0x10)
    ∷ ("op_mod", 0x10)
    ∷ ("reserved_at_40", 0x20)
    ∷ ("pg_access", 0x1)
    ∷ ("mkey_umem_valid", 0x1)
    ∷ ("reserved_at_62", 0x1e)
    ∷ ("memory_key_mkey_entry", mlx5_st_sz_bits mkc)
    ∷ ("reserved_at_280", 0x80)
    ∷ ("translations_octword_actual_size", 0x20)
    ∷ ("mkey_umem_id", 0x20)
    ∷ ("reserved_at_340", 0x540)
    ∷ ("klm_pas_mtt", 0)
    ∷ []

abbrev pub create_mkey_out : Layout
create_mkey_out =
    ("status", 0x8)
    ∷ ("reserved_at_8", 0x18)
    ∷ ("syndrome", 0x20)
    ∷ ("reserved_at_40", 0x8)
    ∷ ("mkey_index", 0x18)
    ∷ ("reserved_at_60", 0x20)
    ∷ []

abbrev pub destroy_mkey_in : Layout
destroy_mkey_in =
    ("opcode", 0x10)
    ∷ ("uid", 0x10)
    ∷ ("reserved_at_20", 0x10)
    ∷ ("op_mod", 0x10)
    ∷ ("reserved_at_40", 0x8)
    ∷ ("mkey_index", 0x18)
    ∷ ("reserved_at_60", 0x20)
    ∷ []

abbrev pub destroy_mkey_out : Layout
destroy_mkey_out =
    ("status", 0x8) ∷ ("reserved_at_8", 0x18) ∷ ("syndrome", 0x20) ∷ ("reserved_at_40", 0x40) ∷ []

abbrev pub query_hca_cap_in : Layout
query_hca_cap_in =
    ("opcode", 0x10)
    ∷ ("reserved_at_10", 0x10)
    ∷ ("reserved_at_20", 0x10)
    ∷ ("op_mod", 0x10)
    ∷ ("other_function", 0x1)
    ∷ ("reserved_at_41", 0xf)
    ∷ ("function_id", 0x10)
    ∷ ("reserved_at_60", 0x20)
    ∷ []
