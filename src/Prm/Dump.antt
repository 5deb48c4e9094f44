-- ===== src/Prm/Dump.antt =====
-- Layouts from mlx5_ifc.h: the resource dump register and its segments, as rscdump.c parses them.
use mlx5ctl.Base.{[], ◌∷◌, ◌*◌}
use mlx5ctl.Ifc.{Layout, mlx5_st_sz_bits}

abbrev pub resource_dump : Layout
resource_dump =
    ("more_dump", 0x1)
    ∷ ("inline_dump", 0x1)
    ∷ ("reserved_at_2", 0xa)
    ∷ ("seq_num", 0x4)
    ∷ ("segment_type", 0x10)
    ∷ ("reserved_at_20", 0x10)
    ∷ ("vhca_id", 0x10)
    ∷ ("index1", 0x20)
    ∷ ("index2", 0x20)
    ∷ ("num_of_obj1", 0x10)
    ∷ ("num_of_obj2", 0x10)
    ∷ ("reserved_at_a0", 0x20)
    ∷ ("device_opaque", 0x40)
    ∷ ("mkey", 0x20)
    ∷ ("size", 0x20)
    ∷ ("address", 0x40)
    ∷ ("inline_data", 52 * 0x20)
    ∷ []

abbrev pub resource_dump_segment_header : Layout
resource_dump_segment_header = ("length_dw", 0x10) ∷ ("segment_type", 0x10) ∷ []

abbrev pub resource_dump_info_segment : Layout
resource_dump_info_segment =
    ("segment_header", mlx5_st_sz_bits resource_dump_segment_header)
    ∷ ("reserved_at_20", 0x18)
    ∷ ("dump_version", 0x8)
    ∷ ("hw_version", 0x20)
    ∷ ("fw_version", 0x20)
    ∷ []

abbrev pub resource_dump_command_segment : Layout
resource_dump_command_segment =
    ("segment_header", mlx5_st_sz_bits resource_dump_segment_header)
    ∷ ("segment_called", 0x10)
    ∷ ("vhca_id", 0x10)
    ∷ ("index1", 0x20)
    ∷ ("index2", 0x20)
    ∷ ("num_of_obj1", 0x10)
    ∷ ("num_of_obj2", 0x10)
    ∷ []

abbrev pub resource_dump_resource_segment : Layout
resource_dump_resource_segment =
    ("segment_header", mlx5_st_sz_bits resource_dump_segment_header)
    ∷ ("reserved_at_20", 0x20)
    ∷ ("index1", 0x20)
    ∷ ("index2", 0x20)
    ∷ ("payload", 0)
    ∷ []

abbrev pub resource_dump_reference_segment : Layout
resource_dump_reference_segment =
    ("segment_header", mlx5_st_sz_bits resource_dump_segment_header)
    ∷ ("reserved_at_20", 0x10)
    ∷ ("reference_segment", 0x10)
    ∷ ("index1", 0x20)
    ∷ ("index2", 0x20)
    ∷ ("num_of_obj1", 0x10)
    ∷ ("num_of_obj2", 0x10)
    ∷ []

abbrev pub resource_dump_notice_segment : Layout
resource_dump_notice_segment =
    ("segment_header", mlx5_st_sz_bits resource_dump_segment_header)
    ∷ ("reserved_at_20", 0x10)
    ∷ ("syndrome_id", 0x10)
    ∷ ("reserved_at_40", 0x40)
    ∷ ("notice", 8 * 0x20)
    ∷ []

abbrev pub resource_dump_terminate_segment : Layout
resource_dump_terminate_segment =
    ("segment_header", mlx5_st_sz_bits resource_dump_segment_header) ∷ []

abbrev pub resource_dump_error_segment : Layout
resource_dump_error_segment =
    ("segment_header", mlx5_st_sz_bits resource_dump_segment_header)
    ∷ ("reserved_at_20", 0x10)
    ∷ ("syndrome_id", 0x10)
    ∷ ("reserved_at_40", 0x40)
    ∷ ("error", 8 * 0x20)
    ∷ []

abbrev pub resource_dump_segment_union : Layout
resource_dump_segment_union =
    ("resource", mlx5_st_sz_bits resource_dump_resource_segment)
    ∷ ("reference", mlx5_st_sz_bits resource_dump_reference_segment)
    ∷ ("notice", mlx5_st_sz_bits resource_dump_notice_segment)
    ∷ ("terminate", mlx5_st_sz_bits resource_dump_terminate_segment)
    ∷ ("error", mlx5_st_sz_bits resource_dump_error_segment)
    ∷ []

abbrev pub resource_dump_response : Layout
resource_dump_response =
    ("info", mlx5_st_sz_bits resource_dump_info_segment)
    ∷ ("cmd", mlx5_st_sz_bits resource_dump_command_segment)
    ∷ ("segment", 0)
    ∷ []

abbrev pub resource_dump_menu_record : Layout
resource_dump_menu_record =
    ("reserved_at_0", 0x4)
    ∷ ("num_of_obj2_supports_active", 0x1)
    ∷ ("num_of_obj2_supports_all", 0x1)
    ∷ ("must_have_num_of_obj2", 0x1)
    ∷ ("support_num_of_obj2", 0x1)
    ∷ ("num_of_obj1_supports_active", 0x1)
    ∷ ("num_of_obj1_supports_all", 0x1)
    ∷ ("must_have_num_of_obj1", 0x1)
    ∷ ("support_num_of_obj1", 0x1)
    ∷ ("must_have_index2", 0x1)
    ∷ ("support_index2", 0x1)
    ∷ ("must_have_index1", 0x1)
    ∷ ("support_index1", 0x1)
    ∷ ("segment_type", 0x10)
    ∷ ("segment_name", 4 * 0x20)
    ∷ ("index1_name", 4 * 0x20)
    ∷ ("index2_name", 4 * 0x20)
    ∷ []

abbrev pub resource_dump_menu_segment : Layout
resource_dump_menu_segment =
    ("segment_header", mlx5_st_sz_bits resource_dump_segment_header)
    ∷ ("reserved_at_20", 0x10)
    ∷ ("num_of_records", 0x10)
    ∷ ("record", 0)
    ∷ []

abbrev pub core_dump_reg : Layout
core_dump_reg =
    ("more_dump", 0x1)
    ∷ ("reserved_at_1", 0x17)
    ∷ ("core_dump_type", 0x8)
    ∷ ("reserved_at_20", 0x20)
    ∷ ("reserved_at_40", 0x10)
    ∷ ("vhca_id", 0x10)
    ∷ ("reserved_at_60", 0x8)
    ∷ ("qpn", 0x18)
    ∷ ("mkey", 0x20)
    ∷ ("size", 0x20)
    ∷ ("address", 0x40)
    ∷ ("cookie", 0x40)
    ∷ ("reserved_at_140", 0xc0)
    ∷ []
