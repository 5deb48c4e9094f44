-- ===== src/Reg/Show/Laws.antt =====
-- The pretty print functions only print.
use mlx5ctl.Base.{ℕ, ◌∙◌, refl, ◌==◌, bit_and, inl, inr, Bool-cases, String, List, [], ◌∷◌}
use mlx5ctl.Ifc.{Layout, fld, mlx5_get, mlx5_byte_off}
use mlx5ctl.Prm.Registers.Part1.{
  mcam_access_reg, mcam_enhanced_features, mcam_reg, ptys_reg, rcr_reg,
}
use mlx5ctl.Os.{shown, Trace}
use mlx5ctl.Print.{show_fields}
use mlx5ctl.Os.Live.{KeepsLive}
use mlx5ctl.Print.Laws.{show_fields-live}
use mlx5ctl.Reg.Table.{Pretty, ptys, dtor, rcr, mcam, node_desc}
use mlx5ctl.Reg.Show.{
  show_timeouts, show_members, show_severities, severities, timeouts, access_regs,
  enhanced_features, print_reg_mcam, print_fn,
}

show_timeouts-live : (out : List ℕ) (names : List String) → KeepsLive (show_timeouts out names)
unfolding show_timeouts
show_timeouts-live out [] a t = refl
show_timeouts-live out (name ∷ rest) a t = show_timeouts-live out rest a _

show_members-live :
    (typ : Layout) (out : List ℕ) (p : ℕ) (names : List (String × String))
    → KeepsLive (show_members typ out p names)
unfolding show_members
show_members-live typ out p [] a t = refl
show_members-live typ out p ((label, name) ∷ rest) a t = show_members-live typ out p rest a _

show_severities-live :
    (mask : ℕ) (lines : List (ℕ × String)) → KeepsLive (show_severities mask lines)
unfolding show_severities
show_severities-live mask [] a t = refl
show_severities-live mask ((bit, line) ∷ rest) a t = elim (Bool-cases (bit_and mask bit == 0)) [
  | inl clear ↦ rw clear (show_severities-live mask rest a _)
  | inr set ↦ rw set (show_severities-live mask rest a _)
]

print_reg_mcam-live : (out : List ℕ) → KeepsLive (print_reg_mcam out)
print_reg_mcam-live out a t =
    let t1 : Trace = (show_fields mcam_reg out 0 ("feature_group" ∷ "access_reg_group" ∷ []) t).1 in
    let t2 : Trace =
      (show_members mcam_access_reg out (mlx5_byte_off (fld mcam_reg "mng_access_reg_cap_mask"))
        access_regs t1).1 in
    show_members-live mcam_enhanced_features out
      (mlx5_byte_off (fld mcam_reg "mng_feature_cap_mask")) enhanced_features a t2
    ∙ show_members-live mcam_access_reg out (mlx5_byte_off (fld mcam_reg "mng_access_reg_cap_mask"))
        access_regs a t1
    ∙ show_fields-live mcam_reg out 0 ("feature_group" ∷ "access_reg_group" ∷ []) a t

pub print_fn-live : (f : Pretty) (out : List ℕ) → KeepsLive (print_fn f out)
unfolding print_fn
print_fn-live ptys out a t = show_fields-live ptys_reg out 0 _ a t
print_fn-live dtor out a t = show_timeouts-live out timeouts a t
print_fn-live rcr out a t =
    show_severities-live (mlx5_get out 0 (fld rcr_reg "health_severity_bitmask")) severities a
      (shown _ ∷ shown _ ∷ t)
print_fn-live mcam out a t = print_reg_mcam-live out a t
print_fn-live node_desc out a t = refl
