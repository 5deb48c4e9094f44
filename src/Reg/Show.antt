-- ===== src/Reg/Show.antt =====
-- The pretty print functions of reg.c.
pub mod Laws
use mlx5ctl.Base.{ℕ, ◌+◌, ◌==◌, bit_and, if◌then◌else◌, String, List, [], ◌∷◌}
use mlx5ctl.Ifc.{Layout, fld, mlx5_get, mlx5_byte_off}
use mlx5ctl.Os.{number, element, text, chars, M, ◌>>=◌, ◌>>◌, pure, show}
use mlx5ctl.Print.{show_fields, c_string}
use mlx5ctl.Prm.Registers.Part1.{
  default_timeout, dtor_reg, mcam_access_reg, mcam_enhanced_features, mcam_reg, ptys_reg, rcr_reg,
}
use mlx5ctl.Reg.Table.{Pretty, ptys, dtor, rcr, mcam, node_desc}

abbrev pub print_reg_ptys : List ℕ → M (Unit {0})
print_reg_ptys out = show_fields ptys_reg out 0 (
    "proto_mask" ∷ "eth_proto_capability" ∷ "eth_proto_admin" ∷ "eth_proto_oper"
    ∷ "eth_proto_lp_advertise" ∷ "connector_type" ∷ "data_rate_oper" ∷ "an_status" ∷ [])

-- dtor_reg_field: the value and the multiplier of each timeout.
unfoldable pub show_timeouts : List ℕ → List String → M (Unit {0})
show_timeouts out [] = pure tt
show_timeouts out (name ∷ rest) = do
  let p : ℕ = mlx5_byte_off (fld dtor_reg name)
  show (
      element name (mlx5_get out p (fld default_timeout "to_value"))
        (mlx5_get out p (fld default_timeout "to_multiplier")))
  show_timeouts out rest

abbrev pub timeouts : List String
timeouts =
    "pcie_toggle_to" ∷ "full_crdump_to" ∷ "fw_reset_to" ∷ "flush_on_err_to" ∷ "pci_sync_update_to"
    ∷ "tear_down_to" ∷ "fsm_reactivate_to" ∷ "reclaim_pages_to" ∷ "reclaim_vfs_pages_to" ∷ []

abbrev pub print_reg_dtor : List ℕ → M (Unit {0})
print_reg_dtor out = show_timeouts out timeouts

-- The fields of a member of a union, under the names that are printed.
unfoldable pub show_members : Layout → List ℕ → ℕ → List (String × String) → M (Unit {0})
show_members typ out p [] = pure tt
show_members typ out p ((label, name) ∷ rest) = do
  show (number label (mlx5_get out p (fld typ name)))
  show_members typ out p rest

abbrev pub access_regs : List (String × String)
access_regs =
    ("mng_access_reg_cap_mask.access_regs.mcqs", "mcqs")
    ∷ ("mng_access_reg_cap_mask.access_regs.mcqi", "mcqi")
    ∷ ("mng_access_reg_cap_mask.access_regs.mcc", "mcc")
    ∷ ("mng_access_reg_cap_mask.access_regs.mcda", "mcda")
    ∷ ("mng_access_reg_cap_mask.access_regs.mpegc", "mpegc")
    ∷ ("mng_access_reg_cap_mask.access_regs.mtutc", "mtutc")
    ∷ ("mng_access_reg_cap_mask.access_regs.mrtc", "mrtc")
    ∷ ("mng_access_reg_cap_mask.access_regs.tracer_registers", "tracer_registers")
    ∷ []

abbrev pub enhanced_features : List (String × String)
enhanced_features =
    ("mng_feature_cap_mask.enhanced_features.mcia_32dwords", "mcia_32dwords")
    ∷ ("mng_feature_cap_mask.enhanced_features.out_pulse_duration_ns", "out_pulse_duration_ns")
    ∷ ("mng_feature_cap_mask.enhanced_features.npps_period", "npps_period")
    ∷ ("mng_feature_cap_mask.enhanced_features.reset_state", "reset_state")
    ∷ ("mng_feature_cap_mask.enhanced_features.ptpcyc2realtime_modify", "ptpcyc2realtime_modify")
    ∷ ("mng_feature_cap_mask.enhanced_features.pci_status_and_power", "pci_status_and_power")
    ∷ ("mng_feature_cap_mask.enhanced_features.mark_tx_action_cnp", "mark_tx_action_cnp")
    ∷ ("mng_feature_cap_mask.enhanced_features.mark_tx_action_cqe", "mark_tx_action_cqe")
    ∷ ("mng_feature_cap_mask.enhanced_features.dynamic_tx_overflow", "dynamic_tx_overflow")
    ∷ ("mng_feature_cap_mask.enhanced_features.pcie_outbound_stalled", "pcie_outbound_stalled")
    ∷ ("mng_feature_cap_mask.enhanced_features.tx_overflow_buffer_pkt", "tx_overflow_buffer_pkt")
    ∷ ("mng_feature_cap_mask.enhanced_features.mtpps_enh_out_per_adj", "mtpps_enh_out_per_adj")
    ∷ ("mng_feature_cap_mask.enhanced_features.mtpps_fs", "mtpps_fs")
    ∷ ("mng_feature_cap_mask.enhanced_features.pcie_performance_group", "pcie_performance_group")
    ∷ []

abbrev pub print_reg_mcam : List ℕ → M (Unit {0})
print_reg_mcam out = do
  show_fields mcam_reg out 0 ("feature_group" ∷ "access_reg_group" ∷ [])
  show_members mcam_access_reg out (mlx5_byte_off (fld mcam_reg "mng_access_reg_cap_mask"))
      access_regs
  show_members mcam_enhanced_features out (mlx5_byte_off (fld mcam_reg "mng_feature_cap_mask"))
      enhanced_features

abbrev pub print_reg_node_desc : List ℕ → M (Unit {0})
print_reg_node_desc out = show (text "Node description") >> show (chars (c_string out))

-- The line of each bit that is set in the mask.
unfoldable pub show_severities : ℕ → List (ℕ × String) → M (Unit {0})
show_severities mask [] = pure tt
show_severities mask ((bit, line) ∷ rest) = do
  if bit_and mask bit == 0 then pure tt else show (text line)
  show_severities mask rest

abbrev pub severities : List (ℕ × String)
severities =
    (0x1, "Emergency: system is unusable")
    ∷ (0x2, "Alert: action must be taken immediately")
    ∷ (0x4, "Critical: critical conditions")
    ∷ (0x8, "Error: error conditions")
    ∷ (0x10, "Warning: warning conditions")
    ∷ (0x20, "Notice: normal but significant condition")
    ∷ (0x40, "Informational: informational messages")
    ∷ (0x80, "Debug: debug-level messages")
    ∷ []

abbrev pub print_reg_rcr : List ℕ → M (Unit {0})
print_reg_rcr out = do
  let mask : ℕ = mlx5_get out 0 (fld rcr_reg "health_severity_bitmask")
  show (number "Health severity bitmask" mask)
  show (number "valid" (mlx5_get out 0 (fld rcr_reg "health_severity_bitmask_valid")))
  show_severities mask severities

-- The call through the pointer of the table.
unfoldable pub print_fn : Pretty → List ℕ → M (Unit {0})
unfolding show_timeouts show_members show_severities
print_fn ptys out = print_reg_ptys out
print_fn dtor out = print_reg_dtor out
print_fn rcr out = print_reg_rcr out
print_fn mcam out = print_reg_mcam out
print_fn node_desc out = print_reg_node_desc out
