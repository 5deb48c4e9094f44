-- ===== src/Query/Table.antt =====
-- The table `query_funcs` of query_obj.c.
use mlx5ctl.Base.{String, List, [], ◌∷◌}
use mlx5ctl.Query.Filled.{QueryFunc}
use mlx5ctl.Query.Transport.{
  query_eq, query_cq, query_qp, query_sq, query_rq, query_tis, query_tir, query_rqt, query_rmp,
  query_dct, query_srq, query_xrq, query_xrc_srq, query_q_counter, query_mkey, query_pages,
}
use mlx5ctl.Query.Device.{
  query_l2_table_entry, query_issi, query_vport_state, query_esw_vport_context, query_vport_counter,
  query_vnic_env, query_packet_reformat_context, query_special_contexts, query_mad_demux,
  query_cong_statistics, query_cong_params, query_cong_status, query_adapter, query_wol_rol,
  query_lag, query_esw_functions, query_vhca_migration_state,
}

pub record ObjNameFunc : Type 0 where
  pub obj_name : String
  pub obj_func : QueryFunc
  pub help : String

-- QUERY_PAIR.
abbrev pair : String → QueryFunc → String → ObjNameFunc
pair obj_name obj_func help = record { obj_name = obj_name; obj_func = obj_func; help = help }

unfoldable pub query_funcs : List ObjNameFunc
query_funcs =
    pair "eq" query_eq "--id=eqn"
    ∷ pair "cq" query_cq "--id=cqn"
    ∷ pair "qp" query_qp "--id=qpn"
    ∷ pair "sq" query_sq "--id=sqn"
    ∷ pair "rq" query_rq "--id=rqn"
    ∷ pair "tis" query_tis "--id=tisn"
    ∷ pair "tir" query_tir "--id=tirn"
    ∷ pair "rqt" query_rqt "--id=rqtn"
    ∷ pair "rmp" query_rmp "--id=rmpn"
    ∷ pair "dct" query_dct "--id=dctn"
    ∷ pair "srq" query_srq "--id=srqn"
    ∷ pair "xrq" query_xrq "--id=xrqn"
    ∷ pair "xrc_srq" query_xrc_srq "--id=xrc_srqn"
    ∷ pair "q_counter" query_q_counter "--id=counter_set_id"
    ∷ pair "mkey" query_mkey "--id=mkey_index"
    ∷ pair "pages" query_pages "--id=function_id"
    ∷ pair "l2_table_entry" query_l2_table_entry "--id=table_index"
    ∷ pair "issi" query_issi "--op_mod=op_mod"
    ∷ pair "vport_state" query_vport_state "--id=vport_number (other_vport=1)"
    ∷ pair "esw_vport_context" query_esw_vport_context "--id=vport_number (other_vport=1)"
    ∷ pair "vport_counter" query_vport_counter "--id=vport_number (other_vport=1)"
    ∷ pair "vnic_env" query_vnic_env "--op_mod=op_mod"
    ∷ pair "packet_reformat_context" query_packet_reformat_context "--id=packet_reformat_id"
    ∷ pair "special_contexts" query_special_contexts "--op_mod=op_mod"
    ∷ pair "mad_demux" query_mad_demux "--op_mod=op_mod"
    ∷ pair "cong_statistics" query_cong_statistics "--op_mod=op_mod"
    ∷ pair "cong_params" query_cong_params "--id=cong_protocol"
    ∷ pair "cong_status" query_cong_status "--id=priority:cong_protocol"
    ∷ pair "adapter" query_adapter "--op_mod=op_mod"
    ∷ pair "wol_rol" query_wol_rol "--op_mod=op_mod"
    ∷ pair "lag" query_lag "--op_mod=op_mod"
    ∷ pair "esw_functions" query_esw_functions "--op_mod=op_mod"
    ∷ pair "vhca_migration_state" query_vhca_migration_state "--id=vhca_id"
    ∷ []
