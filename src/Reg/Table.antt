-- ===== src/Reg/Table.antt =====
-- The register table `regs` of reg.c.
use mlx5ctl.Base.{ℕ, String, Option, none, some, List, [], ◌∷◌}
use mlx5ctl.Ifc.{mlx5_st_sz_bytes, mlx5_un_sz_bytes}
use mlx5ctl.Reg.Ids.{
  reg_core_dump, reg_dcbx_app, reg_dcbx_param, reg_dtor, reg_fpga_access_reg, reg_fpga_cap,
  reg_fpga_ctrl, reg_host_endianness, reg_mcam, reg_mcc, reg_mcda, reg_mcia, reg_mcqi, reg_mcqs,
  reg_mfrl, reg_mirc, reg_mlcr, reg_mpcnt, reg_mpegc, reg_mpein, reg_mrtc, reg_mtcap, reg_mtmp,
  reg_mtpps, reg_mtppse, reg_mtrc_cap, reg_mtrc_conf, reg_mtrc_ctrl, reg_mtrc_stdb, reg_mtutc,
  reg_node_desc, reg_paos, reg_pbmc, reg_pcam, reg_pcap, reg_pcmr, reg_pddr, reg_pelc, reg_pfcc,
  reg_pmaos, reg_pmlp, reg_pmpe, reg_pmtu, reg_ppcnt, reg_pplm, reg_pptb, reg_ptys, reg_pude,
  reg_pvlc, reg_qcam, reg_qetcr, reg_qpdpm, reg_qpts, reg_qtct, reg_rcr, reg_resource_dump,
  reg_sbcam, reg_sbcm, reg_sbpr,
}
use mlx5ctl.Prm.Dump.{core_dump_reg}
use mlx5ctl.Prm.Ports.Part3.{ports_control_registers_document}
use mlx5ctl.Prm.Registers.Part1.{
  dtor_reg, mcam_reg, ptys_reg, qpdpm_reg, qpts_reg, qtct_reg, rcr_reg,
}
use mlx5ctl.Prm.Registers.Part2.{paos_reg, pcap_reg, pfcc_reg, pmtu_reg, qcam_reg}
use mlx5ctl.Prm.Registers.Part4.{pbmc_reg, pmaos_reg, pmpe_reg, ppcnt_reg, pptb_reg, pude_reg}
use mlx5ctl.Prm.Registers.Part5.{pcmr_reg, pddr_reg, pelc_reg, pmlp_reg, pplm_reg, pvlc_reg}
use mlx5ctl.Prm.Registers.Part6.{
  mcia_reg, mcqs_reg, mfrl_reg, mlcr_reg, mpcnt_reg, mpegc_reg, mpein_reg, mrtc_reg, mtutc_reg,
  pcam_reg,
}
use mlx5ctl.Prm.Registers.Part7.{dcbx_param_reg, mcc_reg, mcda_reg, mcqi_reg, mirc_reg, sbcam_reg}

-- The pretty print functions.
pub data Pretty : Type 0 where
  ptys dtor rcr mcam node_desc : Pretty

pub record RegInfo : Type 0 where
  pub reg_id : ℕ
  pub str : String
  pub size : ℕ
  pub ppfun : Option Pretty

-- DEFINER_REG_ATTR.
abbrev reg : ℕ → String → ℕ → Option Pretty → RegInfo
reg reg_id str size ppfun = record { reg_id = reg_id; str = str; size = size; ppfun = ppfun }

-- MLX5_UN_SZ_BYTES(ports_control_registers_document).
abbrev pub document_size : ℕ
document_size = mlx5_un_sz_bytes ports_control_registers_document

unfoldable pub regs : List RegInfo
regs =
    reg reg_ptys "PTYS" (mlx5_st_sz_bytes ptys_reg) (some Pretty.ptys)
    ∷ reg reg_dtor "DTOR" (mlx5_st_sz_bytes dtor_reg) (some Pretty.dtor)
    ∷ reg reg_rcr "RCR" (mlx5_st_sz_bytes rcr_reg) (some Pretty.rcr)
    ∷ reg reg_mcam "MCAM" (mlx5_st_sz_bytes mcam_reg) (some Pretty.mcam)
    ∷ reg reg_node_desc "NODE_DESC" document_size (some Pretty.node_desc)
    ∷ reg reg_qpts "QPTS" (mlx5_st_sz_bytes qpts_reg) none
    ∷ reg reg_qtct "QTCT" (mlx5_st_sz_bytes qtct_reg) none
    ∷ reg reg_qpdpm "QPDPM" (mlx5_st_sz_bytes qpdpm_reg) none
    ∷ reg reg_qcam "QCAM" (mlx5_st_sz_bytes qcam_reg) none
    ∷ reg reg_core_dump "CORE_DUMP" (mlx5_st_sz_bytes core_dump_reg) none
    ∷ reg reg_pcap "PCAP" (mlx5_st_sz_bytes pcap_reg) none
    ∷ reg reg_pmtu "PMTU" (mlx5_st_sz_bytes pmtu_reg) none
    ∷ reg reg_paos "PAOS" (mlx5_st_sz_bytes paos_reg) none
    ∷ reg reg_pfcc "PFCC" (mlx5_st_sz_bytes pfcc_reg) none
    ∷ reg reg_ppcnt "PPCNT" (mlx5_st_sz_bytes ppcnt_reg) none
    ∷ reg reg_pptb "PPTB" (mlx5_st_sz_bytes pptb_reg) none
    ∷ reg reg_pbmc "PBMC" (mlx5_st_sz_bytes pbmc_reg) none
    ∷ reg reg_pmaos "PMAOS" (mlx5_st_sz_bytes pmaos_reg) none
    ∷ reg reg_pude "PUDE" (mlx5_st_sz_bytes pude_reg) none
    ∷ reg reg_pmpe "PMPE" (mlx5_st_sz_bytes pmpe_reg) none
    ∷ reg reg_pelc "PELC" (mlx5_st_sz_bytes pelc_reg) none
    ∷ reg reg_pvlc "PVLC" (mlx5_st_sz_bytes pvlc_reg) none
    ∷ reg reg_pcmr "PCMR" (mlx5_st_sz_bytes pcmr_reg) none
    ∷ reg reg_pddr "PDDR" (mlx5_st_sz_bytes pddr_reg) none
    ∷ reg reg_pmlp "PMLP" (mlx5_st_sz_bytes pmlp_reg) none
    ∷ reg reg_pplm "PPLM" (mlx5_st_sz_bytes pplm_reg) none
    ∷ reg reg_pcam "PCAM" (mlx5_st_sz_bytes pcam_reg) none
    ∷ reg reg_mcia "MCIA" (mlx5_st_sz_bytes mcia_reg) none
    ∷ reg reg_mfrl "MFRL" (mlx5_st_sz_bytes mfrl_reg) none
    ∷ reg reg_mlcr "MLCR" (mlx5_st_sz_bytes mlcr_reg) none
    ∷ reg reg_mrtc "MRTC" (mlx5_st_sz_bytes mrtc_reg) none
    ∷ reg reg_mpein "MPEIN" (mlx5_st_sz_bytes mpein_reg) none
    ∷ reg reg_mpcnt "MPCNT" (mlx5_st_sz_bytes mpcnt_reg) none
    ∷ reg reg_mtutc "MTUTC" (mlx5_st_sz_bytes mtutc_reg) none
    ∷ reg reg_mpegc "MPEGC" (mlx5_st_sz_bytes mpegc_reg) none
    ∷ reg reg_mcqs "MCQS" (mlx5_st_sz_bytes mcqs_reg) none
    ∷ reg reg_mcqi "MCQI" (mlx5_st_sz_bytes mcqi_reg) none
    ∷ reg reg_mcc "MCC" (mlx5_st_sz_bytes mcc_reg) none
    ∷ reg reg_mcda "MCDA" (mlx5_st_sz_bytes mcda_reg) none
    ∷ reg reg_mirc "MIRC" (mlx5_st_sz_bytes mirc_reg) none
    ∷ reg reg_sbcam "SBCAM" (mlx5_st_sz_bytes sbcam_reg) none
    ∷ reg reg_dcbx_param "DCBX_PARAM" (mlx5_st_sz_bytes dcbx_param_reg) none
    ∷ reg reg_sbpr "SBPR" document_size none
    ∷ reg reg_sbcm "SBCM" document_size none
    ∷ reg reg_qetcr "QETCR" document_size none
    ∷ reg reg_dcbx_app "DCBX_APP" document_size none
    ∷ reg reg_fpga_cap "FPGA_CAP" document_size none
    ∷ reg reg_fpga_ctrl "FPGA_CTRL" document_size none
    ∷ reg reg_host_endianness "HOST_ENDIANNESS" document_size none
    ∷ reg reg_mtcap "MTCAP" document_size none
    ∷ reg reg_mtmp "MTMP" document_size none
    ∷ reg reg_mtrc_cap "MTRC_CAP" document_size none
    ∷ reg reg_mtrc_conf "MTRC_CONF" document_size none
    ∷ reg reg_mtrc_stdb "MTRC_STDB" document_size none
    ∷ reg reg_mtrc_ctrl "MTRC_CTRL" document_size none
    ∷ reg reg_mtpps "MTPPS" document_size none
    ∷ reg reg_mtppse "MTPPSE" document_size none
    ∷ reg reg_resource_dump "RESOURCE_DUMP" document_size none
    ∷ reg reg_fpga_access_reg "FPGA_ACCESS_REG" document_size none
    ∷ []
