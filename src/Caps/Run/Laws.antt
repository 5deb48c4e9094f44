-- ===== src/Caps/Run/Laws.antt =====
-- What do_devcap leaves allocated, and the op_mod that it asks with.
use mlx5ctl.Base.{
  ℕ, ◌+◌, ◌*◌, ◌/◌, ◌%◌, ◌^◌, ◌≡◌, ◌∙◌, ap₂, word, refl, ◌==◌, inl, inr, arith, Option, none, some,
  List, [], ◌∷◌, Bool-cases, Option-cases, bit_and, bit_or, bit_or_fill, bit_and_mask,
}
use mlx5ctl.Memory.{zeroed}
use mlx5ctl.Os.{Os, Trace, allocated, address}
use mlx5ctl.Os.Live.{KeepsLive, live, is_at}
use mlx5ctl.Device.{mlx5u_cmd}
use mlx5ctl.Prm.Caps.Part5.{query_hca_cap_out}
use mlx5ctl.Ifc.{Layout, mlx5_st_sz_bytes}
use mlx5ctl.Caps.Shown.{Printcap, Shown, print_fields}
use mlx5ctl.Caps.Print.{
  print_hca_caps, print_hca_caps2, print_eth_caps, print_virtio_emulation_cap, print_roce_cap,
  print_debug_caps, print_port_selection_caps,
}
use mlx5ctl.Caps.Table.{CapInfo, caps}
use mlx5ctl.Caps.Run.{
  query_caps, cap_op_mod, find_cap_print, get_cap_print, PrFormat, pr_hex, pr_bin, pr_pretty,
  print_cap, print_one, print_step, devcap_of, print_all, do_devcap,
}

print_fields-live :
    (typ : Layout) (ss : List Shown) (buf : List ℕ) → KeepsLive (print_fields typ ss buf)
unfolding print_fields
print_fields-live typ [] buf a t = refl
print_fields-live typ (s ∷ rest) buf a t = print_fields-live typ rest buf a _

abbrev Quiet : Option Printcap → Type 0
Quiet none = Unit {0}
Quiet (some print) = (cap : List ℕ) → KeepsLive (print cap)

abbrev AllQuiet : List CapInfo → Type 0
AllQuiet [] = Unit {0}
AllQuiet (c ∷ rest) = Quiet c.print × AllQuiet rest

caps-quiet : AllQuiet caps
unfolding caps print_hca_caps print_hca_caps2 print_eth_caps print_virtio_emulation_cap
    print_roce_cap print_debug_caps print_port_selection_caps
caps-quiet = (
  print_fields-live _ _,
  (
    print_fields-live _ _,
    (
      print_fields-live _ _,
      (
        print_fields-live _ _,
        (
          print_fields-live _ _,
          (
            print_fields-live _ _,
            (
              print_fields-live _ _,
              (
                tt,
                (
                  tt,
                  (tt, (tt, (tt, (tt, (tt, (tt, (tt, (tt, (tt, (tt, (tt, (tt, (tt, tt))))))))))))),
                ),
              ),
            ),
          ),
        ),
      ),
    ),
  ),
)

find_cap_print-Quiet :
    (table : List CapInfo) (cap_type : ℕ) → AllQuiet table → Quiet (find_cap_print table cap_type)
unfolding find_cap_print
find_cap_print-Quiet [] cap_type h = tt
find_cap_print-Quiet (c ∷ rest) cap_type (quiet, later) = elim (Bool-cases (c.type == cap_type)) [
  | inl here ↦ rw here quiet
  | inr other ↦ rw other (find_cap_print-Quiet rest cap_type later)
]

print_cap-live :
    (format : PrFormat) (print : Option Printcap) (cap : List ℕ)
    → Quiet print
    → KeepsLive (print_cap format print cap)
print_cap-live pr_pretty none cap h a t = refl
print_cap-live pr_pretty (some print) cap h a t = h cap a t
print_cap-live pr_hex print cap h a t = refl
print_cap-live pr_bin print cap h a t = refl

module _ (os : Os) where
  query_caps-live : (opmod : ℕ) (out : List ℕ) → KeepsLive (query_caps os opmod out)
  unfolding query_caps mlx5u_cmd
  query_caps-live opmod out a t = refl

  devcap_of-live :
      (cap_type cap_mode : ℕ) (format : PrFormat) (out : List ℕ)
      → KeepsLive (devcap_of os cap_type cap_mode format out)
  unfolding devcap_of get_cap_print mlx5u_cmd
  devcap_of-live cap_type cap_mode format out a t =
      let (r, t1) = query_caps os (cap_op_mod cap_type cap_mode) out t in
      let asked : live a t1 ≡ live a t = query_caps-live (cap_op_mod cap_type cap_mode) out a t in
      elim (Option-cases r.0) [
        | inl failed ↦ rw failed asked
        | inr (bytes, got) ↦ rw got (
            print_cap-live format (get_cap_print cap_type) bytes
              (find_cap_print-Quiet caps cap_type caps-quiet) a t1
            ∙ asked)
      ]

  print_one-live :
      (c : CapInfo) (print : Printcap) (cap_mode : ℕ) (o : Option (List ℕ))
      → Quiet (some print)
      → KeepsLive (print_one c print cap_mode o)
  print_one-live c print cap_mode none h a t = refl
  print_one-live c print cap_mode (some bytes) h a t = h bytes a _

  print_step-live :
      (c : CapInfo) (p : Option Printcap) (cap_mode : ℕ) (out : List ℕ)
      → Quiet p
      → KeepsLive (print_step os c p cap_mode out)
  unfolding print_step
  print_step-live c none cap_mode out h a t = refl
  print_step-live c (some print) cap_mode out h a t =
      let (r, t1) = query_caps os (cap_op_mod c.type cap_mode) out t in
      print_one-live c print cap_mode r.0 h a t1
      ∙ query_caps-live (cap_op_mod c.type cap_mode) out a t

  print_all-live :
      (table : List CapInfo) (cap_mode : ℕ) (out : List ℕ)
      → AllQuiet table
      → KeepsLive (print_all os table cap_mode out)
  unfolding print_all
  print_all-live [] cap_mode out h a t = refl
  print_all-live (c ∷ rest) cap_mode out (quiet, later) a t =
      let (out', t1) = print_step os c c.print cap_mode out t in
      print_all-live rest cap_mode out' later a t1
      ∙ print_step-live c c.print cap_mode out quiet a t

  -- Listing all capabilities with do_devcap leaves as many blocks allocated at every address as
  -- before, whatever the device answers.
  pub do_devcap_all-live :
      (cap_mode : ℕ) (format : PrFormat) → KeepsLive (do_devcap os none cap_mode format)
  unfolding do_devcap
  do_devcap_all-live cap_mode format a t = elim (Option-cases (os.alloc t 4112)) [
    | inl no_out ↦ rw no_out (omega arith)
    | inr (b, got) ↦ rw got (
        omega (
          arith,
          print_all-live caps cap_mode (zeroed 4112) caps-quiet a
              (allocated 4112 (some b.addr) ∷ t),
        ))
  ]

  -- Showing one capability with do_devcap leaves its output buffer allocated, in every format
  -- and on errors too, and else as many blocks at every address as before.
  pub do_devcap_one-live :
      (cap_type cap_mode : ℕ) (format : PrFormat) (a : ℕ) (t : Trace)
      → live a (do_devcap os (some cap_type) cap_mode format t).1
        ≡ live a t + is_at a (address (os.alloc t (mlx5_st_sz_bytes query_hca_cap_out)))
  unfolding do_devcap
  do_devcap_one-live cap_type cap_mode format a t = elim (Option-cases (os.alloc t 4112)) [
    | inl no_out ↦ rw no_out refl
    | inr (b, got) ↦
        rw got (
          devcap_of-live cap_type cap_mode format (zeroed 4112) a
            (allocated 4112 (some b.addr) ∷ t))
  ]

op_mod_bits :
    (cap_type cap_mode : ℕ)
    → bit_or (cap_type * 2) (bit_and cap_mode 0x01) ≡ cap_type * 2 + cap_mode % 2
op_mod_bits cap_type cap_mode =
    let mode : bit_and cap_mode 0x01 ≡ cap_mode % 2 = bit_and_mask 1 cap_mode in
    ap₂ bit_or {x = cap_type * 2} {y = word 0 1 cap_type 0 0} {u = bit_and cap_mode 0x01}
      {v = cap_mode % 2 * 2 ^ 0} (omega arith) (omega (arith, mode))
    ∙ bit_or_fill 0 1 cap_type (cap_mode % 2) 0 (omega arith) (omega arith)
    ∙ omega arith

-- The op_mod of QUERY_HCA_CAP has the low 15 bits of the capability type in its upper 15 bits,
-- and the low bit of the mode in its lowest.
pub cap_op_mod_lem :
    (cap_type cap_mode : ℕ)
    → (cap_op_mod cap_type cap_mode / 2 ≡ cap_type % 2 ^ 15)
      × (cap_op_mod cap_type cap_mode % 2 ≡ cap_mode % 2)
cap_op_mod_lem cap_type cap_mode = omega (arith, op_mod_bits cap_type cap_mode)
