-- ===== src/Rscdump/Segments.antt =====
-- The segments of a resource dump, as parse_resource_dump of rscdump.c walks them.
pub mod Laws
pub mod Live
use mlx5ctl.Base.{
  ℕ, zero, suc, ◌+◌, ◌-◌, ◌*◌, ◌%◌, ◌^◌, ◌==◌, ltb, leb, if◌then◌else◌, String, List, [], ◌∷◌, drop,
}
use mlx5ctl.Memory.{slice}
use mlx5ctl.Ifc.{Layout, fld, mlx5_get, mlx5_st_sz_bytes, mlx5_byte_off, mlx5_fld_sz_bytes}
use mlx5ctl.Os.{number, text, chars, bytes_hex, M, ◌>>=◌, ◌>>◌, pure, show}
use mlx5ctl.Print.{show_fields, c_string}
use mlx5ctl.Prm.Dump.{
  resource_dump_segment_header, resource_dump_info_segment, resource_dump_command_segment,
  resource_dump_resource_segment, resource_dump_reference_segment, resource_dump_notice_segment,
  resource_dump_terminate_segment, resource_dump_error_segment, resource_dump_response,
  resource_dump_menu_record, resource_dump_menu_segment,
}

-- `enum mlx5_rsc_sgmt_type`.
abbrev pub sgmt_type_device_dump : ℕ
sgmt_type_device_dump = 0x1000

abbrev pub sgmt_type_notice : ℕ
sgmt_type_notice = 0xfff9

abbrev pub sgmt_type_cmd : ℕ
sgmt_type_cmd = 0xfffa

abbrev pub sgmt_type_terminate : ℕ
sgmt_type_terminate = 0xfffb

abbrev pub sgmt_type_error : ℕ
sgmt_type_error = 0xfffc

abbrev pub sgmt_type_reference : ℕ
sgmt_type_reference = 0xfffd

abbrev pub sgmt_type_info : ℕ
sgmt_type_info = 0xfffe

abbrev pub sgmt_type_menu : ℕ
sgmt_type_menu = 0xffff

pub sgmt_type2str : ℕ → String
sgmt_type2str t =
    if t == sgmt_type_device_dump
    then "Device dump"
    else if t == sgmt_type_notice
    then "Notice"
    else if t == sgmt_type_cmd
    then "Command"
    else if t == sgmt_type_terminate
    then "Terminate"
    else if t == sgmt_type_error
    then "Error"
    else if t == sgmt_type_reference
    then "Reference"
    else if t == sgmt_type_info
    then "Info"
    else if t == sgmt_type_menu
    then "Menu"
    else if leb t 0xfeff
    then "A Resource"
    else "Unknown"

-- `struct sgmnt_hdr`, and get_sgmnt_hdr on the segment at `data + p`.
pub record SgmntHdr : Type 0 where
  pub segment_type : ℕ
  pub len : ℕ

abbrev pub get_sgmnt_hdr : List ℕ → ℕ → SgmntHdr
get_sgmnt_hdr data_in p = record {
  segment_type = mlx5_get data_in p (fld resource_dump_segment_header "segment_type");
  len = mlx5_get data_in p (fld resource_dump_segment_header "length_dw") * 4;
}

-- The bytes of a field, as the `memcpy` into a zeroed `char str[64]` and `%s` show them.
abbrev field_chars : Layout → List ℕ → ℕ → String → List ℕ
field_chars typ data_in p name =
    c_string (slice data_in (p + mlx5_byte_off (fld typ name)) (mlx5_fld_sz_bytes (fld typ name)))

-- `%s` on the field itself, up to the first NUL of what follows.
abbrev field_string : Layout → List ℕ → ℕ → String → List ℕ
field_string typ data_in p name = c_string (drop (p + mlx5_byte_off (fld typ name)) data_in)

pub print_sgmt_header : List ℕ → ℕ → M (Unit {0})
unfolding sgmt_type2str
print_sgmt_header data_in p = do
  show (text (sgmt_type2str (get_sgmnt_hdr data_in p).segment_type))
  show (number "type" (get_sgmnt_hdr data_in p).segment_type)
  show (number "length" (get_sgmnt_hdr data_in p).len)

pub print_menu_record : List ℕ → ℕ → M (Unit {0})
unfolding sgmt_type2str
print_menu_record data_in p = do
  show (number "segment_type" (mlx5_get data_in p (fld resource_dump_menu_record "segment_type")))
  show (text (sgmt_type2str (mlx5_get data_in p (fld resource_dump_menu_record "segment_type"))))
  show_fields resource_dump_menu_record data_in p (
      "support_index1" ∷ "must_have_index1" ∷ "support_index2" ∷ "must_have_index2"
      ∷ "support_num_of_obj1" ∷ "must_have_num_of_obj1" ∷ "support_num_of_obj2"
      ∷ "must_have_num_of_obj2" ∷ "num_of_obj1_supports_all" ∷ "num_of_obj1_supports_active"
      ∷ "num_of_obj2_supports_all" ∷ "num_of_obj2_supports_active" ∷ [])
  show (chars (field_string resource_dump_menu_record data_in p "segment_name"))
  show (chars (field_string resource_dump_menu_record data_in p "index1_name"))
  show (chars (field_string resource_dump_menu_record data_in p "index2_name"))

-- `left` records from number `i` on, the first of them at `data + p`.
pub print_menu_records : ℕ → ℕ → List ℕ → ℕ → M (Unit {0})
unfolding print_menu_record
print_menu_records zero i data_in p = pure tt
print_menu_records (suc left) i data_in p = do
  show (number "Menu Record" i)
  print_menu_record data_in p
  print_menu_records left (i + 1) data_in (p + mlx5_st_sz_bytes resource_dump_menu_record)

pub parse_menu_segment : List ℕ → ℕ → M (Unit {0})
unfolding print_menu_records
parse_menu_segment data_in p = do
  let num_records : ℕ = mlx5_get data_in p (fld resource_dump_menu_segment "num_of_records")
  show (number "Resource dump menu size" 0)
  show (number "num of records" num_records)
  print_menu_records num_records 0 data_in
      (p + mlx5_byte_off (fld resource_dump_menu_segment "record"))

-- The syndrome and the text of an error or a notice segment.
abbrev show_syndrome : Layout → String → List ℕ → ℕ → M (Unit {0})
show_syndrome typ name data_in p = do
  show (number "syndrome" (mlx5_get data_in p (fld typ "syndrome_id")))
  show (chars (field_chars typ data_in p name))

pub parse_err_segment : List ℕ → ℕ → M (Unit {0})
parse_err_segment = show_syndrome resource_dump_error_segment "error"

pub parse_notice_segment : List ℕ → ℕ → M (Unit {0})
parse_notice_segment = show_syndrome resource_dump_notice_segment "notice"

pub parse_reference_segment : List ℕ → ℕ → M (Unit {0})
parse_reference_segment data_in p =
    show_fields resource_dump_reference_segment data_in p
      ("reference_segment" ∷ "index1" ∷ "index2" ∷ "num_of_obj1" ∷ "num_of_obj2" ∷ [])

-- A resource segment: `hexdump` takes the size as an `int`, which is not positive for a segment
-- shorter than its header, and then prints nothing.
pub parse_resource_segment : List ℕ → ℕ → ℕ → M (Unit {0})
parse_resource_segment data_in p len = do
  show_fields resource_dump_resource_segment data_in p ("index1" ∷ "index2" ∷ [])
  show (
      bytes_hex (
        slice data_in (p + mlx5_byte_off (fld resource_dump_resource_segment "payload"))
          (len - mlx5_st_sz_bytes resource_dump_resource_segment)))

-- The `switch` and the `return` values of parse_segment.
abbrev pub parse_body : List ℕ → ℕ → SgmntHdr → M ℕ
parse_body data_in p hdr =
    if hdr.segment_type == sgmt_type_terminate
    then (do show (text "end"); pure 1)
    else if hdr.segment_type == sgmt_type_error
    then (do parse_err_segment data_in p; pure 1)
    else if hdr.segment_type == sgmt_type_notice
    then (do parse_notice_segment data_in p; pure 0)
    else if hdr.segment_type == sgmt_type_reference
    then (do parse_reference_segment data_in p; pure 0)
    else if hdr.segment_type == sgmt_type_menu
    then (do parse_menu_segment data_in p; pure 0)
    else if ltb 0xfeff hdr.segment_type
    then pure 0
    else (do parse_resource_segment data_in p hdr.len; pure 0)

unfoldable pub parse_segment : List ℕ → ℕ → M ℕ
parse_segment data_in p = do
  print_sgmt_header data_in p
  parse_body data_in p (get_sgmnt_hdr data_in p)

-- How the walk ends: at a segment that ends the dump, with a message that a segment leads past the
-- data, or not within the fuel.
pub data Walk : Type 0 where
  ended : Walk
  overflowed : ℕ → Walk
  unfinished : Walk

-- The `while` loop from the segment at `data + p` on.
unfoldable pub parse_loop : ℕ → List ℕ → ℕ → ℕ → M Walk
unfolding parse_segment
parse_loop zero data_in size p = pure unfinished
parse_loop (suc fuel) data_in size p = do
  stop ← parse_segment data_in p
  let next : ℕ = p + (get_sgmnt_hdr data_in p).len
  if stop == 0
      then (if leb size next then pure (overflowed next) else parse_loop fuel data_in size next)
      else pure ended

-- A dump too short for its first segments is `ended` at once.
unfoldable pub parse_resource_dump : ℕ → List ℕ → ℕ → M Walk
unfolding parse_loop print_sgmt_header
parse_resource_dump fuel data_in size = do
  let info : ℕ = mlx5_byte_off (fld resource_dump_response "info")
  let cmd : ℕ = mlx5_byte_off (fld resource_dump_response "cmd")
  show (number "Resource dump size" size)
  print_sgmt_header data_in info
  show_fields resource_dump_info_segment data_in info
      ("dump_version" ∷ "hw_version" ∷ "fw_version" ∷ [])
  print_sgmt_header data_in cmd
  show_fields resource_dump_command_segment data_in cmd
      ("segment_called" ∷ "vhca_id" ∷ "index1" ∷ "index2" ∷ "num_of_obj1" ∷ "num_of_obj2" ∷ [])
  if ltb size
        (mlx5_st_sz_bytes resource_dump_response + mlx5_st_sz_bytes resource_dump_terminate_segment)
      then pure ended
      else parse_loop fuel data_in size (mlx5_byte_off (fld resource_dump_response "segment"))
