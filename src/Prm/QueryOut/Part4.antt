-- ===== src/Prm/QueryOut/Part4.antt =====
-- Layouts from mlx5_ifc.h: the outputs of the query commands of query_obj.c.
use mlx5ctl.Base.{[], ◌∷◌}
use mlx5ctl.Ifc.{Layout, mlx5_st_sz_bits}
use mlx5ctl.Prm.QueryOut.Part2.{wq}
use mlx5ctl.Prm.QueryOut.Part3.{rqtc}

abbrev pub query_rqt_out : Layout
query_rqt_out =
    ("status", 0x8)
    ∷ ("reserved_at_8", 0x18)
    ∷ ("syndrome", 0x20)
    ∷ ("reserved_at_40", 0xc0)
    ∷ ("rqt_context", mlx5_st_sz_bits rqtc)
    ∷ []

abbrev pub rmpc : Layout
rmpc =
    ("reserved_at_0", 0x8)
    ∷ ("state", 0x4)
    ∷ ("reserved_at_c", 0x14)
    ∷ ("basic_cyclic_rcv_wqe", 0x1)
    ∷ ("reserved_at_21", 0x1f)
    ∷ ("reserved_at_40", 0x140)
    ∷ ("wq", mlx5_st_sz_bits wq)
    ∷ []

abbrev pub query_rmp_out : Layout
query_rmp_out =
    ("status", 0x8)
    ∷ ("reserved_at_8", 0x18)
    ∷ ("syndrome", 0x20)
    ∷ ("reserved_at_40", 0xc0)
    ∷ ("rmp_context", mlx5_st_sz_bits rmpc)
    ∷ []

abbrev pub dctc : Layout
dctc =
    ("reserved_at_0", 0x4)
    ∷ ("state", 0x4)
    ∷ ("reserved_at_8", 0x18)
    ∷ ("reserved_at_20", 0x8)
    ∷ ("user_index", 0x18)
    ∷ ("reserved_at_40", 0x8)
    ∷ ("cqn", 0x18)
    ∷ ("counter_set_id", 0x8)
    ∷ ("atomic_mode", 0x4)
    ∷ ("rre", 0x1)
    ∷ ("rwe", 0x1)
    ∷ ("rae", 0x1)
    ∷ ("atomic_like_write_en", 0x1)
    ∷ ("latency_sensitive", 0x1)
    ∷ ("rlky", 0x1)
    ∷ ("free_ar", 0x1)
    ∷ ("reserved_at_73", 0xd)
    ∷ ("reserved_at_80", 0x8)
    ∷ ("cs_res", 0x8)
    ∷ ("reserved_at_90", 0x3)
    ∷ ("min_rnr_nak", 0x5)
    ∷ ("reserved_at_98", 0x8)
    ∷ ("reserved_at_a0", 0x8)
    ∷ ("srqn_xrqn", 0x18)
    ∷ ("reserved_at_c0", 0x8)
    ∷ ("pd", 0x18)
    ∷ ("tclass", 0x8)
    ∷ ("reserved_at_e8", 0x4)
    ∷ ("flow_label", 0x14)
    ∷ ("dc_access_key", 0x40)
    ∷ ("reserved_at_140", 0x5)
    ∷ ("mtu", 0x3)
    ∷ ("port", 0x8)
    ∷ ("pkey_index", 0x10)
    ∷ ("reserved_at_160", 0x8)
    ∷ ("my_addr_index", 0x8)
    ∷ ("reserved_at_170", 0x8)
    ∷ ("hop_limit", 0x8)
    ∷ ("dc_access_key_violation_count", 0x20)
    ∷ ("reserved_at_1a0", 0x14)
    ∷ ("dei_cfi", 0x1)
    ∷ ("eth_prio", 0x3)
    ∷ ("ecn", 0x2)
    ∷ ("dscp", 0x6)
    ∷ ("reserved_at_1c0", 0x20)
    ∷ ("ece", 0x20)
    ∷ []

abbrev pub query_dct_out : Layout
query_dct_out =
    ("status", 0x8)
    ∷ ("reserved_at_8", 0x18)
    ∷ ("syndrome", 0x20)
    ∷ ("reserved_at_40", 0x40)
    ∷ ("dct_context_entry", mlx5_st_sz_bits dctc)
    ∷ ("reserved_at_280", 0x180)
    ∷ []

abbrev pub srqc : Layout
srqc =
    ("state", 0x4)
    ∷ ("log_srq_size", 0x4)
    ∷ ("reserved_at_8", 0x18)
    ∷ ("wq_signature", 0x1)
    ∷ ("cont_srq", 0x1)
    ∷ ("reserved_at_22", 0x1)
    ∷ ("rlky", 0x1)
    ∷ ("reserved_at_24", 0x1)
    ∷ ("log_rq_stride", 0x3)
    ∷ ("xrcd", 0x18)
    ∷ ("page_offset", 0x6)
    ∷ ("reserved_at_46", 0x2)
    ∷ ("cqn", 0x18)
    ∷ ("reserved_at_60", 0x20)
    ∷ ("reserved_at_80", 0x2)
    ∷ ("log_page_size", 0x6)
    ∷ ("reserved_at_88", 0x18)
    ∷ ("reserved_at_a0", 0x20)
    ∷ ("reserved_at_c0", 0x8)
    ∷ ("pd", 0x18)
    ∷ ("lwm", 0x10)
    ∷ ("wqe_cnt", 0x10)
    ∷ ("reserved_at_100", 0x40)
    ∷ ("dbr_addr", 0x40)
    ∷ ("reserved_at_180", 0x80)
    ∷ []

abbrev pub query_srq_out : Layout
query_srq_out =
    ("status", 0x8)
    ∷ ("reserved_at_8", 0x18)
    ∷ ("syndrome", 0x20)
    ∷ ("reserved_at_40", 0x40)
    ∷ ("srq_context_entry", mlx5_st_sz_bits srqc)
    ∷ ("reserved_at_280", 0x600)
    ∷ ("pas", 0)
    ∷ []

abbrev pub tag_matching_topology_context : Layout
tag_matching_topology_context =
    ("log_matching_list_sz", 0x4)
    ∷ ("reserved_at_4", 0xc)
    ∷ ("append_next_index", 0x10)
    ∷ ("sw_phase_cnt", 0x10)
    ∷ ("hw_phase_cnt", 0x10)
    ∷ ("reserved_at_40", 0x40)
    ∷ []

abbrev pub xrqc : Layout
xrqc =
    ("state", 0x4)
    ∷ ("rlkey", 0x1)
    ∷ ("reserved_at_5", 0xf)
    ∷ ("topology", 0x4)
    ∷ ("reserved_at_18", 0x4)
    ∷ ("offload", 0x4)
    ∷ ("reserved_at_20", 0x8)
    ∷ ("user_index", 0x18)
    ∷ ("reserved_at_40", 0x8)
    ∷ ("cqn", 0x18)
    ∷ ("reserved_at_60", 0xa0)
    ∷ ("tag_matching_topology_context", mlx5_st_sz_bits tag_matching_topology_context)
    ∷ ("reserved_at_180", 0x280)
    ∷ ("wq", mlx5_st_sz_bits wq)
    ∷ []

abbrev pub query_xrq_out : Layout
query_xrq_out =
    ("status", 0x8)
    ∷ ("reserved_at_8", 0x18)
    ∷ ("syndrome", 0x20)
    ∷ ("reserved_at_40", 0x40)
    ∷ ("xrq_context", mlx5_st_sz_bits xrqc)
    ∷ []
