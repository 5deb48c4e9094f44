-- ===== src/Query/Transport.antt =====
-- The QUERY_FUNC functions of query_obj.c, `query_eq` to `query_pages`: each fills in a command.
use mlx5ctl.Base.{[], ◌∷◌}
use mlx5ctl.Ifc.{set_fields, mlx5_st_sz_bytes}
use mlx5ctl.Query.Filled.{QueryFunc}
use mlx5ctl.Prm.Opcodes.{
  cmd_op_query_cq, cmd_op_query_dct, cmd_op_query_eq, cmd_op_query_mkey, cmd_op_query_pages,
  cmd_op_query_q_counter, cmd_op_query_qp, cmd_op_query_rmp, cmd_op_query_rq, cmd_op_query_rqt,
  cmd_op_query_sq, cmd_op_query_srq, cmd_op_query_tir, cmd_op_query_tis, cmd_op_query_xrc_srq,
}
use mlx5ctl.Prm.QueryIn.Part1.{
  query_cq_in, query_dct_in, query_eq_in, query_mkey_in, query_pages_in, query_q_counter_in,
  query_qp_in, query_rmp_in, query_rq_in, query_rqt_in, query_sq_in, query_srq_in, query_tir_in,
  query_tis_in, query_xrc_srq_in, query_xrq_in,
}
use mlx5ctl.Prm.QueryOut.Part1.{query_cq_out, query_eq_out}
use mlx5ctl.Prm.QueryOut.Part2.{query_qp_out}
use mlx5ctl.Prm.QueryOut.Part3.{query_rq_out, query_sq_out, query_tir_out, query_tis_out}
use mlx5ctl.Prm.QueryOut.Part4.{
  query_dct_out, query_rmp_out, query_rqt_out, query_srq_out, query_xrq_out,
}
use mlx5ctl.Prm.QueryOut.Part5.{
  query_mkey_out, query_pages_out, query_q_counter_out, query_xrc_srq_out,
}

abbrev pub query_eq : QueryFunc
query_eq obj_id op_mod input = record {
  out_sz = mlx5_st_sz_bytes query_eq_out;
  in_sz = mlx5_st_sz_bytes query_eq_in;
  input =
      set_fields query_eq_in input 0
        (("opcode", cmd_op_query_eq) ∷ ("eq_number", obj_id) ∷ ("op_mod", op_mod) ∷ []);
}

abbrev pub query_cq : QueryFunc
query_cq obj_id op_mod input = record {
  out_sz = mlx5_st_sz_bytes query_cq_out;
  in_sz = mlx5_st_sz_bytes query_cq_in;
  input =
      set_fields query_cq_in input 0
        (("opcode", cmd_op_query_cq) ∷ ("cqn", obj_id) ∷ ("op_mod", op_mod) ∷ []);
}

abbrev pub query_qp : QueryFunc
query_qp obj_id op_mod input = record {
  out_sz = mlx5_st_sz_bytes query_qp_out;
  in_sz = mlx5_st_sz_bytes query_qp_in;
  input =
      set_fields query_qp_in input 0
        (("opcode", cmd_op_query_qp) ∷ ("qpn", obj_id) ∷ ("op_mod", op_mod) ∷ []);
}

abbrev pub query_sq : QueryFunc
query_sq obj_id op_mod input = record {
  out_sz = mlx5_st_sz_bytes query_sq_out;
  in_sz = mlx5_st_sz_bytes query_sq_in;
  input =
      set_fields query_sq_in input 0
        (("opcode", cmd_op_query_sq) ∷ ("sqn", obj_id) ∷ ("op_mod", op_mod) ∷ []);
}

abbrev pub query_rq : QueryFunc
query_rq obj_id op_mod input = record {
  out_sz = mlx5_st_sz_bytes query_rq_out;
  in_sz = mlx5_st_sz_bytes query_rq_in;
  input =
      set_fields query_rq_in input 0
        (("opcode", cmd_op_query_rq) ∷ ("rqn", obj_id) ∷ ("op_mod", op_mod) ∷ []);
}

abbrev pub query_tis : QueryFunc
query_tis obj_id op_mod input = record {
  out_sz = mlx5_st_sz_bytes query_tis_out;
  in_sz = mlx5_st_sz_bytes query_tis_in;
  input =
      set_fields query_tis_in input 0
        (("opcode", cmd_op_query_tis) ∷ ("tisn", obj_id) ∷ ("op_mod", op_mod) ∷ []);
}

abbrev pub query_tir : QueryFunc
query_tir obj_id op_mod input = record {
  out_sz = mlx5_st_sz_bytes query_tir_out;
  in_sz = mlx5_st_sz_bytes query_tir_in;
  input =
      set_fields query_tir_in input 0
        (("opcode", cmd_op_query_tir) ∷ ("tirn", obj_id) ∷ ("op_mod", op_mod) ∷ []);
}

abbrev pub query_rqt : QueryFunc
query_rqt obj_id op_mod input = record {
  out_sz = mlx5_st_sz_bytes query_rqt_out;
  in_sz = mlx5_st_sz_bytes query_rqt_in;
  input =
      set_fields query_rqt_in input 0
        (("opcode", cmd_op_query_rqt) ∷ ("rqtn", obj_id) ∷ ("op_mod", op_mod) ∷ []);
}

abbrev pub query_rmp : QueryFunc
query_rmp obj_id op_mod input = record {
  out_sz = mlx5_st_sz_bytes query_rmp_out;
  in_sz = mlx5_st_sz_bytes query_rmp_in;
  input =
      set_fields query_rmp_in input 0
        (("opcode", cmd_op_query_rmp) ∷ ("rmpn", obj_id) ∷ ("op_mod", op_mod) ∷ []);
}

abbrev pub query_dct : QueryFunc
query_dct obj_id op_mod input = record {
  out_sz = mlx5_st_sz_bytes query_dct_out;
  in_sz = mlx5_st_sz_bytes query_dct_in;
  input =
      set_fields query_dct_in input 0
        (("opcode", cmd_op_query_dct) ∷ ("dctn", obj_id) ∷ ("op_mod", op_mod) ∷ []);
}

abbrev pub query_srq : QueryFunc
query_srq obj_id op_mod input = record {
  out_sz = mlx5_st_sz_bytes query_srq_out;
  in_sz = mlx5_st_sz_bytes query_srq_in;
  input =
      set_fields query_srq_in input 0
        (("opcode", cmd_op_query_srq) ∷ ("srqn", obj_id) ∷ ("op_mod", op_mod) ∷ []);
}

abbrev pub query_xrq : QueryFunc
query_xrq obj_id op_mod input = record {
  out_sz = mlx5_st_sz_bytes query_xrq_out;
  in_sz = mlx5_st_sz_bytes query_xrq_in;
  input =
      set_fields query_xrq_in input 0
        (("opcode", cmd_op_query_xrc_srq) ∷ ("xrqn", obj_id) ∷ ("op_mod", op_mod) ∷ []);
}

abbrev pub query_xrc_srq : QueryFunc
query_xrc_srq obj_id op_mod input = record {
  out_sz = mlx5_st_sz_bytes query_xrc_srq_out;
  in_sz = mlx5_st_sz_bytes query_xrc_srq_in;
  input =
      set_fields query_xrc_srq_in input 0
        (("opcode", cmd_op_query_xrc_srq) ∷ ("xrc_srqn", obj_id) ∷ ("op_mod", op_mod) ∷ []);
}

abbrev pub query_q_counter : QueryFunc
query_q_counter obj_id op_mod input = record {
  out_sz = mlx5_st_sz_bytes query_q_counter_out;
  in_sz = mlx5_st_sz_bytes query_q_counter_in;
  input =
      set_fields query_q_counter_in input 0
        (("opcode", cmd_op_query_q_counter) ∷ ("counter_set_id", obj_id) ∷ ("op_mod", op_mod) ∷ []);
}

abbrev pub query_mkey : QueryFunc
query_mkey obj_id op_mod input = record {
  out_sz = mlx5_st_sz_bytes query_mkey_out;
  in_sz = mlx5_st_sz_bytes query_mkey_in;
  input =
      set_fields query_mkey_in input 0
        (("opcode", cmd_op_query_mkey) ∷ ("mkey_index", obj_id) ∷ ("op_mod", op_mod) ∷ []);
}

abbrev pub query_pages : QueryFunc
query_pages obj_id op_mod input = record {
  out_sz = mlx5_st_sz_bytes query_pages_out;
  in_sz = mlx5_st_sz_bytes query_pages_in;
  input =
      set_fields query_pages_in input 0
        (("opcode", cmd_op_query_pages) ∷ ("function_id", obj_id) ∷ ("op_mod", op_mod) ∷ []);
}
