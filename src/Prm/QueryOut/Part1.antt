-- ===== src/Prm/QueryOut/Part1.antt =====
-- Layouts from mlx5_ifc.h: the outputs of the query commands of query_obj.c.
use mlx5ctl.Base.{[], ◌∷◌, ◌*◌}
use mlx5ctl.Ifc.{Layout, mlx5_st_sz_bits}

abbrev pub eqc : Layout
eqc =
    ("status", 0x4)
    ∷ ("reserved_at_4", 0x9)
    ∷ ("ec", 0x1)
    ∷ ("oi", 0x1)
    ∷ ("reserved_at_f", 0x5)
    ∷ ("st", 0x4)
    ∷ ("reserved_at_18", 0x8)
    ∷ ("reserved_at_20", 0x20)
    ∷ ("reserved_at_40", 0x14)
    ∷ ("page_offset", 0x6)
    ∷ ("reserved_at_5a", 0x6)
    ∷ ("reserved_at_60", 0x3)
    ∷ ("log_eq_size", 0x5)
    ∷ ("uar_page", 0x18)
    ∷ ("reserved_at_80", 0x20)
    ∷ ("reserved_at_a0", 0x14)
    ∷ ("intr", 0xc)
    ∷ ("reserved_at_c0", 0x3)
    ∷ ("log_page_size", 0x5)
    ∷ ("reserved_at_c8", 0x18)
    ∷ ("reserved_at_e0", 0x60)
    ∷ ("reserved_at_140", 0x8)
    ∷ ("consumer_counter", 0x18)
    ∷ ("reserved_at_160", 0x8)
    ∷ ("producer_counter", 0x18)
    ∷ ("reserved_at_180", 0x80)
    ∷ []

abbrev pub query_eq_out : Layout
query_eq_out =
    ("status", 0x8)
    ∷ ("reserved_at_8", 0x18)
    ∷ ("syndrome", 0x20)
    ∷ ("reserved_at_40", 0x40)
    ∷ ("eq_context_entry", mlx5_st_sz_bits eqc)
    ∷ ("reserved_at_280", 0x40)
    ∷ ("event_bitmask", 0x40)
    ∷ ("reserved_at_300", 0x580)
    ∷ ("pas", 0)
    ∷ []

abbrev pub cqc : Layout
cqc =
    ("status", 0x4)
    ∷ ("reserved_at_4", 0x2)
    ∷ ("dbr_umem_valid", 0x1)
    ∷ ("apu_cq", 0x1)
    ∷ ("cqe_sz", 0x3)
    ∷ ("cc", 0x1)
    ∷ ("reserved_at_c", 0x1)
    ∷ ("scqe_break_moderation_en", 0x1)
    ∷ ("oi", 0x1)
    ∷ ("cq_period_mode", 0x2)
    ∷ ("cqe_comp_en", 0x1)
    ∷ ("mini_cqe_res_format", 0x2)
    ∷ ("st", 0x4)
    ∷ ("reserved_at_18", 0x6)
    ∷ ("cqe_compression_layout", 0x2)
    ∷ ("reserved_at_20", 0x20)
    ∷ ("reserved_at_40", 0x14)
    ∷ ("page_offset", 0x6)
    ∷ ("reserved_at_5a", 0x6)
    ∷ ("reserved_at_60", 0x3)
    ∷ ("log_cq_size", 0x5)
    ∷ ("uar_page", 0x18)
    ∷ ("reserved_at_80", 0x4)
    ∷ ("cq_period", 0xc)
    ∷ ("cq_max_count", 0x10)
    ∷ ("c_eqn_or_apu_element", 0x20)
    ∷ ("reserved_at_c0", 0x3)
    ∷ ("log_page_size", 0x5)
    ∷ ("reserved_at_c8", 0x18)
    ∷ ("reserved_at_e0", 0x20)
    ∷ ("reserved_at_100", 0x8)
    ∷ ("last_notified_index", 0x18)
    ∷ ("reserved_at_120", 0x8)
    ∷ ("last_solicit_index", 0x18)
    ∷ ("reserved_at_140", 0x8)
    ∷ ("consumer_counter", 0x18)
    ∷ ("reserved_at_160", 0x8)
    ∷ ("producer_counter", 0x18)
    ∷ ("reserved_at_180", 0x40)
    ∷ ("dbr_addr", 0x40)
    ∷ []

abbrev pub query_cq_out : Layout
query_cq_out =
    ("status", 0x8)
    ∷ ("reserved_at_8", 0x18)
    ∷ ("syndrome", 0x20)
    ∷ ("reserved_at_40", 0x40)
    ∷ ("cq_context", mlx5_st_sz_bits cqc)
    ∷ ("reserved_at_280", 0x600)
    ∷ ("pas", 0)
    ∷ []

abbrev pub ads : Layout
ads =
    ("fl", 0x1)
    ∷ ("free_ar", 0x1)
    ∷ ("reserved_at_2", 0xe)
    ∷ ("pkey_index", 0x10)
    ∷ ("reserved_at_20", 0x8)
    ∷ ("grh", 0x1)
    ∷ ("mlid", 0x7)
    ∷ ("rlid", 0x10)
    ∷ ("ack_timeout", 0x5)
    ∷ ("reserved_at_45", 0x3)
    ∷ ("src_addr_index", 0x8)
    ∷ ("reserved_at_50", 0x4)
    ∷ ("stat_rate", 0x4)
    ∷ ("hop_limit", 0x8)
    ∷ ("reserved_at_60", 0x4)
    ∷ ("tclass", 0x8)
    ∷ ("flow_label", 0x14)
    ∷ ("rgid_rip", 16 * 0x8)
    ∷ ("reserved_at_100", 0x4)
    ∷ ("f_dscp", 0x1)
    ∷ ("f_ecn", 0x1)
    ∷ ("reserved_at_106", 0x1)
    ∷ ("f_eth_prio", 0x1)
    ∷ ("ecn", 0x2)
    ∷ ("dscp", 0x6)
    ∷ ("udp_sport", 0x10)
    ∷ ("dei_cfi", 0x1)
    ∷ ("eth_prio", 0x3)
    ∷ ("sl", 0x4)
    ∷ ("vhca_port_num", 0x8)
    ∷ ("rmac_47_32", 0x10)
    ∷ ("rmac_31_0", 0x20)
    ∷ []
