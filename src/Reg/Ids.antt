-- ===== src/Reg/Ids.antt =====
-- `enum mlx5_reg_ids` of reg.h.
use mlx5ctl.Base.{ℕ}

abbrev pub reg_qpts : ℕ
reg_qpts = 0x4002

abbrev pub reg_ids_first : ℕ
reg_ids_first = reg_qpts

abbrev pub reg_qetcr : ℕ
reg_qetcr = 0x4005

abbrev pub reg_qtct : ℕ
reg_qtct = 0x400a

abbrev pub reg_qpdpm : ℕ
reg_qpdpm = 0x4013

abbrev pub reg_qcam : ℕ
reg_qcam = 0x4019

abbrev pub reg_dcbx_param : ℕ
reg_dcbx_param = 0x4020

abbrev pub reg_dcbx_app : ℕ
reg_dcbx_app = 0x4021

abbrev pub reg_fpga_cap : ℕ
reg_fpga_cap = 0x4022

abbrev pub reg_fpga_ctrl : ℕ
reg_fpga_ctrl = 0x4023

abbrev pub reg_fpga_access_reg : ℕ
reg_fpga_access_reg = 0x4024

abbrev pub reg_core_dump : ℕ
reg_core_dump = 0x402e

abbrev pub reg_pcap : ℕ
reg_pcap = 0x5001

abbrev pub reg_pmtu : ℕ
reg_pmtu = 0x5003

abbrev pub reg_ptys : ℕ
reg_ptys = 0x5004

abbrev pub reg_paos : ℕ
reg_paos = 0x5006

abbrev pub reg_pfcc : ℕ
reg_pfcc = 0x5007

abbrev pub reg_ppcnt : ℕ
reg_ppcnt = 0x5008

abbrev pub reg_pptb : ℕ
reg_pptb = 0x500b

abbrev pub reg_pbmc : ℕ
reg_pbmc = 0x500c

abbrev pub reg_pmaos : ℕ
reg_pmaos = 0x5012

abbrev pub reg_pude : ℕ
reg_pude = 0x5009

abbrev pub reg_pmpe : ℕ
reg_pmpe = 0x5010

abbrev pub reg_pelc : ℕ
reg_pelc = 0x500e

abbrev pub reg_pvlc : ℕ
reg_pvlc = 0x500f

abbrev pub reg_pcmr : ℕ
reg_pcmr = 0x5041

abbrev pub reg_pddr : ℕ
reg_pddr = 0x5031

abbrev pub reg_pmlp : ℕ
reg_pmlp = 0x5002

abbrev pub reg_pplm : ℕ
reg_pplm = 0x5023

abbrev pub reg_pcam : ℕ
reg_pcam = 0x507f

abbrev pub reg_node_desc : ℕ
reg_node_desc = 0x6001

abbrev pub reg_host_endianness : ℕ
reg_host_endianness = 0x7004

abbrev pub reg_mtcap : ℕ
reg_mtcap = 0x9009

abbrev pub reg_mtmp : ℕ
reg_mtmp = 0x900A

abbrev pub reg_mcia : ℕ
reg_mcia = 0x9014

abbrev pub reg_mfrl : ℕ
reg_mfrl = 0x9028

abbrev pub reg_mlcr : ℕ
reg_mlcr = 0x902b

abbrev pub reg_mrtc : ℕ
reg_mrtc = 0x902d

abbrev pub reg_mtrc_cap : ℕ
reg_mtrc_cap = 0x9040

abbrev pub reg_mtrc_conf : ℕ
reg_mtrc_conf = 0x9041

abbrev pub reg_mtrc_stdb : ℕ
reg_mtrc_stdb = 0x9042

abbrev pub reg_mtrc_ctrl : ℕ
reg_mtrc_ctrl = 0x9043

abbrev pub reg_mpein : ℕ
reg_mpein = 0x9050

abbrev pub reg_mpcnt : ℕ
reg_mpcnt = 0x9051

abbrev pub reg_mtpps : ℕ
reg_mtpps = 0x9053

abbrev pub reg_mtppse : ℕ
reg_mtppse = 0x9054

abbrev pub reg_mtutc : ℕ
reg_mtutc = 0x9055

abbrev pub reg_mpegc : ℕ
reg_mpegc = 0x9056

abbrev pub reg_mcqs : ℕ
reg_mcqs = 0x9060

abbrev pub reg_mcqi : ℕ
reg_mcqi = 0x9061

abbrev pub reg_mcc : ℕ
reg_mcc = 0x9062

abbrev pub reg_mcda : ℕ
reg_mcda = 0x9063

abbrev pub reg_mcam : ℕ
reg_mcam = 0x907f

abbrev pub reg_mirc : ℕ
reg_mirc = 0x9162

abbrev pub reg_sbpr : ℕ
reg_sbpr = 0xb001

abbrev pub reg_sbcm : ℕ
reg_sbcm = 0xb002

abbrev pub reg_sbcam : ℕ
reg_sbcam = 0xB01F

abbrev pub reg_resource_dump : ℕ
reg_resource_dump = 0xC000

abbrev pub reg_dtor : ℕ
reg_dtor = 0xC00E

abbrev pub reg_rcr : ℕ
reg_rcr = 0xc00f

-- One past MLX5_REG_RCR.
abbrev pub reg_last_enum : ℕ
reg_last_enum = 0xc010
