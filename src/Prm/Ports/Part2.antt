-- ===== src/Prm/Ports/Part2.antt =====
-- Layouts from mlx5_ifc.h: the union of the port registers.
use mlx5ctl.Base.{[], ◌∷◌}
use mlx5ctl.Ifc.{Layout}

abbrev pub pspa_reg : Layout
pspa_reg =
    ("swid", 0x8)
    ∷ ("local_port", 0x8)
    ∷ ("sub_port", 0x8)
    ∷ ("reserved_at_18", 0x8)
    ∷ ("reserved_at_20", 0x20)
    ∷ []

abbrev pub ptas_reg : Layout
ptas_reg =
    ("reserved_at_0", 0x20)
    ∷ ("algorithm_options", 0x10)
    ∷ ("reserved_at_30", 0x4)
    ∷ ("repetitions_mode", 0x4)
    ∷ ("num_of_repetitions", 0x8)
    ∷ ("grade_version", 0x8)
    ∷ ("height_grade_type", 0x4)
    ∷ ("phase_grade_type", 0x4)
    ∷ ("height_grade_weight", 0x8)
    ∷ ("phase_grade_weight", 0x8)
    ∷ ("gisim_measure_bits", 0x10)
    ∷ ("adaptive_tap_measure_bits", 0x10)
    ∷ ("ber_bath_high_error_threshold", 0x10)
    ∷ ("ber_bath_mid_error_threshold", 0x10)
    ∷ ("ber_bath_low_error_threshold", 0x10)
    ∷ ("one_ratio_high_threshold", 0x10)
    ∷ ("one_ratio_high_mid_threshold", 0x10)
    ∷ ("one_ratio_low_mid_threshold", 0x10)
    ∷ ("one_ratio_low_threshold", 0x10)
    ∷ ("ndeo_error_threshold", 0x10)
    ∷ ("mixer_offset_step_size", 0x10)
    ∷ ("reserved_at_110", 0x8)
    ∷ ("mix90_phase_for_voltage_bath", 0x8)
    ∷ ("mixer_offset_start", 0x10)
    ∷ ("mixer_offset_end", 0x10)
    ∷ ("reserved_at_140", 0x15)
    ∷ ("ber_test_time", 0xb)
    ∷ []

abbrev pub slrg_reg : Layout
slrg_reg =
    ("status", 0x4)
    ∷ ("version", 0x4)
    ∷ ("local_port", 0x8)
    ∷ ("pnat", 0x2)
    ∷ ("reserved_at_12", 0x2)
    ∷ ("lane", 0x4)
    ∷ ("reserved_at_18", 0x8)
    ∷ ("time_to_link_up", 0x10)
    ∷ ("reserved_at_30", 0xc)
    ∷ ("grade_lane_speed", 0x4)
    ∷ ("grade_version", 0x8)
    ∷ ("grade", 0x18)
    ∷ ("reserved_at_60", 0x4)
    ∷ ("height_grade_type", 0x4)
    ∷ ("height_grade", 0x18)
    ∷ ("height_dz", 0x10)
    ∷ ("height_dv", 0x10)
    ∷ ("reserved_at_a0", 0x10)
    ∷ ("height_sigma", 0x10)
    ∷ ("reserved_at_c0", 0x20)
    ∷ ("reserved_at_e0", 0x4)
    ∷ ("phase_grade_type", 0x4)
    ∷ ("phase_grade", 0x18)
    ∷ ("reserved_at_100", 0x8)
    ∷ ("phase_eo_pos", 0x8)
    ∷ ("reserved_at_110", 0x8)
    ∷ ("phase_eo_neg", 0x8)
    ∷ ("ffe_set_tested", 0x10)
    ∷ ("test_errors_per_lane", 0x10)
    ∷ []

abbrev pub sltp_reg : Layout
sltp_reg =
    ("status", 0x4)
    ∷ ("version", 0x4)
    ∷ ("local_port", 0x8)
    ∷ ("pnat", 0x2)
    ∷ ("reserved_at_12", 0x2)
    ∷ ("lane", 0x4)
    ∷ ("reserved_at_18", 0x8)
    ∷ ("reserved_at_20", 0x20)
    ∷ ("reserved_at_40", 0x7)
    ∷ ("polarity", 0x1)
    ∷ ("ob_tap0", 0x8)
    ∷ ("ob_tap1", 0x8)
    ∷ ("ob_tap2", 0x8)
    ∷ ("reserved_at_60", 0xc)
    ∷ ("ob_preemp_mode", 0x4)
    ∷ ("ob_reg", 0x8)
    ∷ ("ob_bias", 0x8)
    ∷ ("reserved_at_80", 0x20)
    ∷ []

abbrev pub mtpps_reg : Layout
mtpps_reg =
    ("reserved_at_0", 0xc)
    ∷ ("cap_number_of_pps_pins", 0x4)
    ∷ ("reserved_at_10", 0x4)
    ∷ ("cap_max_num_of_pps_in_pins", 0x4)
    ∷ ("reserved_at_18", 0x4)
    ∷ ("cap_max_num_of_pps_out_pins", 0x4)
    ∷ ("reserved_at_20", 0x13)
    ∷ ("cap_log_min_npps_period", 0x5)
    ∷ ("reserved_at_38", 0x3)
    ∷ ("cap_log_min_out_pulse_duration_ns", 0x5)
    ∷ ("reserved_at_40", 0x4)
    ∷ ("cap_pin_3_mode", 0x4)
    ∷ ("reserved_at_48", 0x4)
    ∷ ("cap_pin_2_mode", 0x4)
    ∷ ("reserved_at_50", 0x4)
    ∷ ("cap_pin_1_mode", 0x4)
    ∷ ("reserved_at_58", 0x4)
    ∷ ("cap_pin_0_mode", 0x4)
    ∷ ("reserved_at_60", 0x4)
    ∷ ("cap_pin_7_mode", 0x4)
    ∷ ("reserved_at_68", 0x4)
    ∷ ("cap_pin_6_mode", 0x4)
    ∷ ("reserved_at_70", 0x4)
    ∷ ("cap_pin_5_mode", 0x4)
    ∷ ("reserved_at_78", 0x4)
    ∷ ("cap_pin_4_mode", 0x4)
    ∷ ("field_select", 0x20)
    ∷ ("reserved_at_a0", 0x20)
    ∷ ("npps_period", 0x40)
    ∷ ("enable", 0x1)
    ∷ ("reserved_at_101", 0xb)
    ∷ ("pattern", 0x4)
    ∷ ("reserved_at_110", 0x4)
    ∷ ("pin_mode", 0x4)
    ∷ ("pin", 0x8)
    ∷ ("reserved_at_120", 0x2)
    ∷ ("out_pulse_duration_ns", 0x1e)
    ∷ ("time_stamp", 0x40)
    ∷ ("out_pulse_duration", 0x10)
    ∷ ("out_periodic_adjustment", 0x10)
    ∷ ("enhanced_out_periodic_adjustment", 0x20)
    ∷ ("reserved_at_1c0", 0x20)
    ∷ []

abbrev pub mtppse_reg : Layout
mtppse_reg =
    ("reserved_at_0", 0x18)
    ∷ ("pin", 0x8)
    ∷ ("event_arm", 0x1)
    ∷ ("reserved_at_21", 0x1b)
    ∷ ("event_generation_mode", 0x4)
    ∷ ("reserved_at_40", 0x40)
    ∷ []
