-- ===== src/Umem/Mkey/Laws.antt =====
-- The memory key handed out and the key index that the device gave.
use Prim.Native.Nat.{bit_or-bitwise}
use mlx5ctl.Base.{
  ℕ, ◌*◌, ◌^◌, ◌<◌, ◌≡◌, ◌∙◌, ap, sym, refl, false, bit_or, String, List, [], ◌∷◌, length, arith,
  bit_and_mask,
}
use mathlib.Core.Path.{subst}
use mlx5ctl.Base.Int.{ℤ, pos, is_nonzero}
use mlx5ctl.Memory.{zeroed, IsBytes}
use mlx5ctl.Memory.Laws.{zeroed-IsBytes}
use mlx5ctl.Ifc.{fld, set_fields, mlx5_get, mlx5_st_sz_bytes}
use mlx5ctl.Ifc.Laws.{mlx5_get-lt, get-set64_far}
use mlx5ctl.Ifc.Fields.{set_fields_lem, get-set_fields_far, length-set_fields, set_fields-IsBytes}
use mlx5ctl.Os.{Os, Trace}
use mlx5ctl.Os.Live.{requests}
use mlx5ctl.Device.{mlx5u_cmd}
use mlx5ctl.Prm.Commands.{create_mkey_in, create_mkey_out, destroy_mkey_in, mkc}
use mlx5ctl.Prm.Opcodes.{cmd_op_create_mkey, cmd_op_destroy_mkey}
use mlx5ctl.Umem.Mkey.{
  mlx5_mkey_to_idx, mlx5_idx_to_mkey, mlx5_mkey_variant, create_mkey_request, new_mkey, mkc_sets,
  mkey_entry, mlx5lib_create_umem_mkey, mlx5lib_destroy_mkey,
}

abbrev started : List ℕ
started =
    set_fields create_mkey_in (zeroed (mlx5_st_sz_bytes create_mkey_in)) 0
      (("opcode", cmd_op_create_mkey) ∷ [])

started-IsBytes : IsBytes started
started-IsBytes =
    set_fields-IsBytes create_mkey_in _ 0 _ (zeroed-IsBytes (mlx5_st_sz_bytes create_mkey_in))

length-started : length started ≡ 272
length-started = length-set_fields create_mkey_in (zeroed (mlx5_st_sz_bytes create_mkey_in)) 0 _

-- The low byte of the key is not set, so it is 0.
request_variant :
    (pdn umem_id addr len : ℕ)
    → mlx5_get (create_mkey_request pdn umem_id addr len) mkey_entry (fld mkc "mkey_7_0") ≡ 0
unfolding create_mkey_request fld mlx5_get
request_variant pdn umem_id addr len =
    get-set_fields_far create_mkey_in _ 0 _ mkey_entry (fld mkc "mkey_7_0") (omega arith)
    ∙ get-set64_far _ mkey_entry (fld mkc "len") len mkey_entry (fld mkc "mkey_7_0") (omega arith)
    ∙ get-set64_far _ mkey_entry (fld mkc "start_addr") addr mkey_entry (fld mkc "mkey_7_0")
        (omega arith)
    ∙ set_fields_lem mkc "mkey_7_0" started mkey_entry (mkc_sets pdn) (omega arith)
        (omega (arith, length-started)) started-IsBytes
    ∙ get-set_fields_far create_mkey_in _ 0 _ mkey_entry (fld mkc "mkey_7_0") (omega arith)
    ∙ refl

new_mkey_lem :
    (pdn umem_id addr len : ℕ) (out : List ℕ)
    → new_mkey (create_mkey_request pdn umem_id addr len) out
      ≡ mlx5_get out 0 (fld create_mkey_out "mkey_index") * 256
unfolding new_mkey mlx5_idx_to_mkey fld mlx5_get
new_mkey_lem pdn umem_id addr len out =
    ap (λ v. bit_or v (mlx5_idx_to_mkey (mlx5_get out 0 (fld create_mkey_out "mkey_index"))))
      (request_variant pdn umem_id addr len)
    ∙ bit_or-bitwise 0 (mlx5_idx_to_mkey (mlx5_get out 0 (fld create_mkey_out "mkey_index")))
    ∙ omega (arith, mlx5_get-lt out 0 (fld create_mkey_out "mkey_index") (omega arith))

-- The key has the index in its upper bits, and the variant 0.
pub mkey_to_idx-new_mkey :
    (pdn umem_id addr len : ℕ) (out : List ℕ)
    → (mlx5_mkey_to_idx (new_mkey (create_mkey_request pdn umem_id addr len) out)
        ≡ mlx5_get out 0 (fld create_mkey_out "mkey_index"))
      × (mlx5_mkey_variant (new_mkey (create_mkey_request pdn umem_id addr len) out) ≡ 0)
unfolding mlx5_mkey_to_idx mlx5_mkey_variant
mkey_to_idx-new_mkey pdn umem_id addr len out =
    let idx : ℕ = mlx5_get out 0 (fld create_mkey_out "mkey_index") in
    rw (new_mkey_lem pdn umem_id addr len out)
      (omega arith, bit_and_mask 8 (idx * 256) ∙ omega arith)

-- DESTROY_MKEY of a key index.
abbrev pub Destroys : ℕ → List ℕ → Type 0
Destroys idx request =
    (mlx5_get request 0 (fld destroy_mkey_in "opcode") ≡ 0x202)
    × (mlx5_get request 0 (fld destroy_mkey_in "mkey_index") ≡ idx)

destroy_request-Destroys :
    (idx : ℕ)
    → idx < 2 ^ 24
    → Destroys idx (
        set_fields destroy_mkey_in
          (zeroed (mlx5_st_sz_bytes destroy_mkey_in))
          0
          (("opcode", cmd_op_destroy_mkey) ∷ ("mkey_index", idx) ∷ []))
unfolding fld
destroy_request-Destroys idx small =
    let sets : List (String × ℕ) = ("opcode", cmd_op_destroy_mkey) ∷ ("mkey_index", idx) ∷ [] in
    let start = zeroed (mlx5_st_sz_bytes destroy_mkey_in) in
    (
      set_fields_lem destroy_mkey_in "opcode" start 0 sets (omega arith) (omega arith)
          (zeroed-IsBytes 16),
      set_fields_lem destroy_mkey_in "mkey_index" start 0 sets (omega arith) (omega arith)
            (zeroed-IsBytes 16)
          ∙ omega (arith, small),
    )

module _ (os : Os) (pdn umem_id addr len mkey : ℕ) (t : Trace) where
  -- CREATE_MKEY, as the device answers it.
  abbrev pub created : ℤ × List ℕ
  created =
      (mlx5u_cmd os (create_mkey_request pdn umem_id addr len)
        (zeroed (mlx5_st_sz_bytes create_mkey_out)) t).0

  -- When the device answers CREATE_MKEY without an error, mlx5lib_create_umem_mkey returns 0 and
  -- a key of the variant 0, and mlx5lib_destroy_mkey of that key sends exactly one command, with
  -- the opcode DESTROY_MKEY and the key index that the device gave.
  pub destroy-create :
      is_nonzero created.0 ≡ false
      → let ((err, key), t1) = mlx5lib_create_umem_mkey os pdn umem_id addr len mkey t in
        (err ≡ pos 0)
        × (mlx5_mkey_variant key ≡ 0)
        × ((request : List ℕ) × (requests (mlx5lib_destroy_mkey os key t1).1
              ≡ request ∷ requests t1)
            × Destroys (mlx5_get created.1 0 (fld create_mkey_out "mkey_index")) request)
  unfolding mlx5lib_create_umem_mkey mlx5lib_destroy_mkey mlx5u_cmd fld
  destroy-create fine =
      let (same, variant) = mkey_to_idx-new_mkey pdn umem_id addr len created.1 in
      let idx : ℕ = mlx5_get created.1 0 (fld create_mkey_out "mkey_index") in
      let small : idx < 2 ^ 24 =
        mlx5_get-lt created.1 0 (fld create_mkey_out "mkey_index") (omega arith) in
      rw fine (
        refl,
        variant,
        (
          _,
          refl,
          subst
              (λ i. Destroys idx (
                set_fields destroy_mkey_in (zeroed 16) 0
                  (("opcode", cmd_op_destroy_mkey) ∷ ("mkey_index", i) ∷ [])))
              (sym same) (destroy_request-Destroys idx small),
        ),
      )
