-- ===== src/Prm/QueryIn/Part1.antt =====
-- Layouts from mlx5_ifc.h: the inputs of the query commands of query_obj.c.
use mlx5ctl.Base.{[], ◌∷◌}
use mlx5ctl.Ifc.{Layout}

abbrev pub query_eq_in : Layout
query_eq_in =
    ("opcode", 0x10)
    ∷ ("reserved_at_10", 0x10)
    ∷ ("reserved_at_20", 0x10)
    ∷ ("op_mod", 0x10)
    ∷ ("reserved_at_40", 0x18)
    ∷ ("eq_number", 0x8)
    ∷ ("reserved_at_60", 0x20)
    ∷ []

abbrev pub query_cq_in : Layout
query_cq_in =
    ("opcode", 0x10)
    ∷ ("reserved_at_10", 0x10)
    ∷ ("reserved_at_20", 0x10)
    ∷ ("op_mod", 0x10)
    ∷ ("reserved_at_40", 0x8)
    ∷ ("cqn", 0x18)
    ∷ ("reserved_at_60", 0x20)
    ∷ []

abbrev pub query_qp_in : Layout
query_qp_in =
    ("opcode", 0x10)
    ∷ ("reserved_at_10", 0x10)
    ∷ ("reserved_at_20", 0x10)
    ∷ ("op_mod", 0x10)
    ∷ ("reserved_at_40", 0x8)
    ∷ ("qpn", 0x18)
    ∷ ("reserved_at_60", 0x20)
    ∷ []

abbrev pub query_sq_in : Layout
query_sq_in =
    ("opcode", 0x10)
    ∷ ("reserved_at_10", 0x10)
    ∷ ("reserved_at_20", 0x10)
    ∷ ("op_mod", 0x10)
    ∷ ("reserved_at_40", 0x8)
    ∷ ("sqn", 0x18)
    ∷ ("reserved_at_60", 0x20)
    ∷ []

abbrev pub query_rq_in : Layout
query_rq_in =
    ("opcode", 0x10)
    ∷ ("reserved_at_10", 0x10)
    ∷ ("reserved_at_20", 0x10)
    ∷ ("op_mod", 0x10)
    ∷ ("reserved_at_40", 0x8)
    ∷ ("rqn", 0x18)
    ∷ ("reserved_at_60", 0x20)
    ∷ []

abbrev pub query_tis_in : Layout
query_tis_in =
    ("opcode", 0x10)
    ∷ ("reserved_at_10", 0x10)
    ∷ ("reserved_at_20", 0x10)
    ∷ ("op_mod", 0x10)
    ∷ ("reserved_at_40", 0x8)
    ∷ ("tisn", 0x18)
    ∷ ("reserved_at_60", 0x20)
    ∷ []

abbrev pub query_tir_in : Layout
query_tir_in =
    ("opcode", 0x10)
    ∷ ("reserved_at_10", 0x10)
    ∷ ("reserved_at_20", 0x10)
    ∷ ("op_mod", 0x10)
    ∷ ("reserved_at_40", 0x8)
    ∷ ("tirn", 0x18)
    ∷ ("reserved_at_60", 0x20)
    ∷ []

abbrev pub query_rqt_in : Layout
query_rqt_in =
    ("opcode", 0x10)
    ∷ ("reserved_at_10", 0x10)
    ∷ ("reserved_at_20", 0x10)
    ∷ ("op_mod", 0x10)
    ∷ ("reserved_at_40", 0x8)
    ∷ ("rqtn", 0x18)
    ∷ ("reserved_at_60", 0x20)
    ∷ []

abbrev pub query_rmp_in : Layout
query_rmp_in =
    ("opcode", 0x10)
    ∷ ("reserved_at_10", 0x10)
    ∷ ("reserved_at_20", 0x10)
    ∷ ("op_mod", 0x10)
    ∷ ("reserved_at_40", 0x8)
    ∷ ("rmpn", 0x18)
    ∷ ("reserved_at_60", 0x20)
    ∷ []

abbrev pub query_dct_in : Layout
query_dct_in =
    ("opcode", 0x10)
    ∷ ("reserved_at_10", 0x10)
    ∷ ("reserved_at_20", 0x10)
    ∷ ("op_mod", 0x10)
    ∷ ("reserved_at_40", 0x8)
    ∷ ("dctn", 0x18)
    ∷ ("reserved_at_60", 0x20)
    ∷ []

abbrev pub query_srq_in : Layout
query_srq_in =
    ("opcode", 0x10)
    ∷ ("reserved_at_10", 0x10)
    ∷ ("reserved_at_20", 0x10)
    ∷ ("op_mod", 0x10)
    ∷ ("reserved_at_40", 0x8)
    ∷ ("srqn", 0x18)
    ∷ ("reserved_at_60", 0x20)
    ∷ []

abbrev pub query_xrq_in : Layout
query_xrq_in =
    ("opcode", 0x10)
    ∷ ("reserved_at_10", 0x10)
    ∷ ("reserved_at_20", 0x10)
    ∷ ("op_mod", 0x10)
    ∷ ("reserved_at_40", 0x8)
    ∷ ("xrqn", 0x18)
    ∷ ("reserved_at_60", 0x20)
    ∷ []

abbrev pub query_xrc_srq_in : Layout
query_xrc_srq_in =
    ("opcode", 0x10)
    ∷ ("reserved_at_10", 0x10)
    ∷ ("reserved_at_20", 0x10)
    ∷ ("op_mod", 0x10)
    ∷ ("reserved_at_40", 0x8)
    ∷ ("xrc_srqn", 0x18)
    ∷ ("reserved_at_60", 0x20)
    ∷ []

abbrev pub query_q_counter_in : Layout
query_q_counter_in =
    ("opcode", 0x10)
    ∷ ("reserved_at_10", 0x10)
    ∷ ("reserved_at_20", 0x10)
    ∷ ("op_mod", 0x10)
    ∷ ("reserved_at_40", 0x80)
    ∷ ("clear", 0x1)
    ∷ ("reserved_at_c1", 0x1f)
    ∷ ("reserved_at_e0", 0x18)
    ∷ ("counter_set_id", 0x8)
    ∷ []

abbrev pub query_mkey_in : Layout
query_mkey_in =
    ("opcode", 0x10)
    ∷ ("reserved_at_10", 0x10)
    ∷ ("reserved_at_20", 0x10)
    ∷ ("op_mod", 0x10)
    ∷ ("reserved_at_40", 0x8)
    ∷ ("mkey_index", 0x18)
    ∷ ("pg_access", 0x1)
    ∷ ("reserved_at_61", 0x1f)
    ∷ []

abbrev pub query_pages_in : Layout
query_pages_in =
    ("opcode", 0x10)
    ∷ ("reserved_at_10", 0x10)
    ∷ ("reserved_at_20", 0x10)
    ∷ ("op_mod", 0x10)
    ∷ ("embedded_cpu_function", 0x1)
    ∷ ("reserved_at_41", 0xf)
    ∷ ("function_id", 0x10)
    ∷ ("reserved_at_60", 0x20)
    ∷ []
