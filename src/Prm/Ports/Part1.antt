-- ===== src/Prm/Ports/Part1.antt =====
-- Layouts from mlx5_ifc.h: the union of the port registers.
use mlx5ctl.Base.{[], ◌∷◌, ◌*◌}
use mlx5ctl.Ifc.{Layout}

abbrev pub lane_2_module_mapping : Layout
lane_2_module_mapping =
    ("reserved_at_0", 0x4)
    ∷ ("rx_lane", 0x4)
    ∷ ("reserved_at_8", 0x4)
    ∷ ("tx_lane", 0x4)
    ∷ ("reserved_at_10", 0x8)
    ∷ ("module", 0x8)
    ∷ []

abbrev pub pamp_reg : Layout
pamp_reg =
    ("reserved_at_0", 0x8)
    ∷ ("opamp_group", 0x8)
    ∷ ("reserved_at_10", 0xc)
    ∷ ("opamp_group_type", 0x4)
    ∷ ("start_index", 0x10)
    ∷ ("reserved_at_30", 0x4)
    ∷ ("num_of_indices", 0xc)
    ∷ ("index_data", 18 * 0x10)
    ∷ []

abbrev pub peir_reg : Layout
peir_reg =
    ("reserved_at_0", 0x8)
    ∷ ("local_port", 0x8)
    ∷ ("reserved_at_10", 0x10)
    ∷ ("reserved_at_20", 0xc)
    ∷ ("error_count", 0x4)
    ∷ ("reserved_at_30", 0x10)
    ∷ ("reserved_at_40", 0xc)
    ∷ ("lane", 0x4)
    ∷ ("reserved_at_50", 0x8)
    ∷ ("error_type", 0x8)
    ∷ []

abbrev pub pifr_reg : Layout
pifr_reg =
    ("reserved_at_0", 0x8)
    ∷ ("local_port", 0x8)
    ∷ ("reserved_at_10", 0x10)
    ∷ ("reserved_at_20", 0xe0)
    ∷ ("port_filter", 8 * 0x20)
    ∷ ("port_filter_update_en", 8 * 0x20)
    ∷ []

abbrev pub pipg_reg : Layout
pipg_reg =
    ("reserved_at_0", 0x8)
    ∷ ("local_port", 0x8)
    ∷ ("reserved_at_10", 0x10)
    ∷ ("dic", 0x1)
    ∷ ("reserved_at_21", 0x19)
    ∷ ("ipg", 0x4)
    ∷ ("reserved_at_3e", 0x2)
    ∷ []

abbrev pub plbf_reg : Layout
plbf_reg =
    ("reserved_at_0", 0x8)
    ∷ ("local_port", 0x8)
    ∷ ("reserved_at_10", 0xd)
    ∷ ("lbf_mode", 0x3)
    ∷ ("reserved_at_20", 0x20)
    ∷ []

abbrev pub plib_reg : Layout
plib_reg =
    ("reserved_at_0", 0x8)
    ∷ ("local_port", 0x8)
    ∷ ("reserved_at_10", 0x8)
    ∷ ("ib_port", 0x8)
    ∷ ("reserved_at_20", 0x60)
    ∷ []

abbrev pub plpc_reg : Layout
plpc_reg =
    ("reserved_at_0", 0x4)
    ∷ ("profile_id", 0xc)
    ∷ ("reserved_at_10", 0x4)
    ∷ ("proto_mask", 0x4)
    ∷ ("reserved_at_18", 0x8)
    ∷ ("reserved_at_20", 0x10)
    ∷ ("lane_speed", 0x10)
    ∷ ("reserved_at_40", 0x17)
    ∷ ("lpbf", 0x1)
    ∷ ("fec_mode_policy", 0x8)
    ∷ ("retransmission_capability", 0x8)
    ∷ ("fec_mode_capability", 0x18)
    ∷ ("retransmission_support_admin", 0x8)
    ∷ ("fec_mode_support_admin", 0x18)
    ∷ ("retransmission_request_admin", 0x8)
    ∷ ("fec_mode_request_admin", 0x18)
    ∷ ("reserved_at_c0", 0x80)
    ∷ []

abbrev pub pmlpn_reg : Layout
pmlpn_reg =
    ("reserved_at_0", 0x4)
    ∷ ("mlpn_status", 0x4)
    ∷ ("local_port", 0x8)
    ∷ ("reserved_at_10", 0x10)
    ∷ ("e", 0x1)
    ∷ ("reserved_at_21", 0x1f)
    ∷ []

abbrev pub pmpc_reg : Layout
pmpc_reg = ("module_state_updated", 32 * 0x8) ∷ []

abbrev pub pmpr_reg : Layout
pmpr_reg =
    ("reserved_at_0", 0x8)
    ∷ ("module", 0x8)
    ∷ ("reserved_at_10", 0x10)
    ∷ ("reserved_at_20", 0x18)
    ∷ ("attenuation_5g", 0x8)
    ∷ ("reserved_at_40", 0x18)
    ∷ ("attenuation_7g", 0x8)
    ∷ ("reserved_at_60", 0x18)
    ∷ ("attenuation_12g", 0x8)
    ∷ []

abbrev pub ppad_reg : Layout
ppad_reg =
    ("reserved_at_0", 0x3)
    ∷ ("single_mac", 0x1)
    ∷ ("reserved_at_4", 0x4)
    ∷ ("local_port", 0x8)
    ∷ ("mac_47_32", 0x10)
    ∷ ("mac_31_0", 0x20)
    ∷ ("reserved_at_40", 0x40)
    ∷ []

abbrev pub pplr_reg : Layout
pplr_reg =
    ("reserved_at_0", 0x8)
    ∷ ("local_port", 0x8)
    ∷ ("reserved_at_10", 0x10)
    ∷ ("reserved_at_20", 0x8)
    ∷ ("lb_cap", 0x8)
    ∷ ("reserved_at_30", 0x8)
    ∷ ("lb_en", 0x8)
    ∷ []

abbrev pub ppsc_reg : Layout
ppsc_reg =
    ("reserved_at_0", 0x8)
    ∷ ("local_port", 0x8)
    ∷ ("reserved_at_10", 0x10)
    ∷ ("reserved_at_20", 0x60)
    ∷ ("reserved_at_80", 0x1c)
    ∷ ("wrps_admin", 0x4)
    ∷ ("reserved_at_a0", 0x1c)
    ∷ ("wrps_status", 0x4)
    ∷ ("reserved_at_c0", 0x8)
    ∷ ("up_threshold", 0x8)
    ∷ ("reserved_at_d0", 0x8)
    ∷ ("down_threshold", 0x8)
    ∷ ("reserved_at_e0", 0x20)
    ∷ ("reserved_at_100", 0x1c)
    ∷ ("srps_admin", 0x4)
    ∷ ("reserved_at_120", 0x1c)
    ∷ ("srps_status", 0x4)
    ∷ ("reserved_at_140", 0x40)
    ∷ []

abbrev pub pqdr_reg : Layout
pqdr_reg =
    ("reserved_at_0", 0x8)
    ∷ ("local_port", 0x8)
    ∷ ("reserved_at_10", 0x5)
    ∷ ("prio", 0x3)
    ∷ ("reserved_at_18", 0x6)
    ∷ ("mode", 0x2)
    ∷ ("reserved_at_20", 0x20)
    ∷ ("reserved_at_40", 0x10)
    ∷ ("min_threshold", 0x10)
    ∷ ("reserved_at_60", 0x10)
    ∷ ("max_threshold", 0x10)
    ∷ ("reserved_at_80", 0x10)
    ∷ ("mark_probability_denominator", 0x10)
    ∷ ("reserved_at_a0", 0x60)
    ∷ []
