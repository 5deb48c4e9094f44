-- ===== src/Rscdump/Segments/Live.antt =====
-- The printing of a resource dump allocates nothing.
use mlx5ctl.Base.{
  ℕ, ◌≡◌, arith, zero, suc, ◌+◌, ◌∙◌, refl, inr, Bool-cases, ◌==◌, ltb, leb, List, [], ◌∷◌, inl,
}
use mlx5ctl.Ifc.{fld, mlx5_get, mlx5_byte_off, mlx5_st_sz_bytes}
use mlx5ctl.Os.{Trace, shown, number}
use mlx5ctl.Os.Live.{live, KeepsLive}
use mlx5ctl.Print.{show_fields}
use mlx5ctl.Print.Laws.{show_fields-live}
use mlx5ctl.Prm.Dump.{
  resource_dump_menu_record, resource_dump_menu_segment, resource_dump_info_segment,
  resource_dump_command_segment, resource_dump_response, resource_dump_terminate_segment,
  resource_dump_reference_segment, resource_dump_resource_segment,
}
use mlx5ctl.Rscdump.Segments.{
  SgmntHdr, get_sgmnt_hdr, print_sgmt_header, print_menu_record, print_menu_records,
  parse_menu_segment, parse_err_segment, parse_notice_segment, parse_reference_segment,
  parse_resource_segment, parse_body, parse_segment, parse_loop, parse_resource_dump,
}

print_menu_record-live : (buf : List ℕ) (p : ℕ) → KeepsLive (print_menu_record buf p)
unfolding print_menu_record
print_menu_record-live buf p a t = show_fields-live resource_dump_menu_record buf p _ a _

print_menu_records-live :
    (left i : ℕ) (buf : List ℕ) (p : ℕ) → KeepsLive (print_menu_records left i buf p)
unfolding print_menu_records
print_menu_records-live zero i buf p a t = refl
print_menu_records-live (suc left) i buf p a t =
    print_menu_records-live left (i + 1) buf _ a _ ∙ print_menu_record-live buf p a _

parse_menu_segment-live : (buf : List ℕ) (p : ℕ) → KeepsLive (parse_menu_segment buf p)
unfolding parse_menu_segment
parse_menu_segment-live buf p a t =
    print_menu_records-live (mlx5_get buf p (fld resource_dump_menu_segment "num_of_records")) 0 buf
      (p + mlx5_byte_off (fld resource_dump_menu_segment "record")) a (shown _ ∷ shown _ ∷ t)

parse_reference_segment-live : (buf : List ℕ) (p : ℕ) → KeepsLive (parse_reference_segment buf p)
unfolding parse_reference_segment
parse_reference_segment-live buf p a t =
    show_fields-live resource_dump_reference_segment buf p _ a t

parse_resource_segment-live :
    (buf : List ℕ) (p len : ℕ) → KeepsLive (parse_resource_segment buf p len)
unfolding parse_resource_segment
parse_resource_segment-live buf p len a t =
    show_fields-live resource_dump_resource_segment buf p _ a t

parse_body-live : (buf : List ℕ) (p : ℕ) (hdr : SgmntHdr) → KeepsLive (parse_body buf p hdr)
unfolding parse_err_segment parse_notice_segment
parse_body-live buf p hdr a t = ground (
  arith,
  parse_reference_segment-live buf p a t,
  parse_menu_segment-live buf p a t,
  parse_resource_segment-live buf p hdr.len a t,
)

parse_segment-live : (buf : List ℕ) (p : ℕ) → KeepsLive (parse_segment buf p)
unfolding parse_segment print_sgmt_header
parse_segment-live buf p a t = parse_body-live buf p (get_sgmnt_hdr buf p) a _

parse_loop-live : (fuel : ℕ) (buf : List ℕ) (size p : ℕ) → KeepsLive (parse_loop fuel buf size p)
unfolding parse_loop
parse_loop-live zero buf size p a t = refl
parse_loop-live (suc fuel) buf size p a t =
    let (stop, t1) = parse_segment buf p t in
    let next : ℕ = p + (get_sgmnt_hdr buf p).len in
    let here = parse_segment-live buf p a t in
    elim (Bool-cases (stop == 0)) [
      | inr last ↦ rw last here
      | inl on ↦ elim (Bool-cases (leb size next)) [
        | inl over ↦ rw (on, over) here
        | inr inside ↦ rw (on, inside) (parse_loop-live fuel buf size next a t1 ∙ here)
      ]
    ]

pub parse_resource_dump-live :
    (fuel : ℕ) (buf : List ℕ) (size : ℕ) → KeepsLive (parse_resource_dump fuel buf size)
unfolding parse_resource_dump print_sgmt_header
parse_resource_dump-live fuel buf size a t =
    let info : ℕ = mlx5_byte_off (fld resource_dump_response "info") in
    let cmd : ℕ = mlx5_byte_off (fld resource_dump_response "cmd") in
    let t1 : Trace =
      (print_sgmt_header buf info (shown (number "Resource dump size" size) ∷ t)).1 in
    let t2 : Trace =
      (show_fields resource_dump_info_segment buf info
        ("dump_version" ∷ "hw_version" ∷ "fw_version" ∷ []) t1).1 in
    let t3 : Trace = (print_sgmt_header buf cmd t2).1 in
    let t4 : Trace =
      (show_fields resource_dump_command_segment buf cmd
        ("segment_called" ∷ "vhca_id" ∷ "index1" ∷ "index2" ∷ "num_of_obj1" ∷ "num_of_obj2" ∷ [])
        t3).1 in
    let header : live a t4 ≡ live a t =
      show_fields-live resource_dump_command_segment buf cmd _ a t3
      ∙ show_fields-live resource_dump_info_segment buf info _ a t1 in
    elim (Bool-cases (
      ltb size (
        mlx5_st_sz_bytes resource_dump_response
        + mlx5_st_sz_bytes resource_dump_terminate_segment))) [
          | inl short ↦ rw short header
          | inr long ↦ rw long (
              parse_loop-live fuel buf size (mlx5_byte_off (fld resource_dump_response "segment")) a
                t4
              ∙ header)
        ]
