-- ===== src/Diag/Params/Laws.antt =====
-- What SET_DIAGNOSTIC_PARAMS carries, and what the two commands leave allocated.
use mlx5ctl.Base.{
  ℕ, zero, suc, ◌+◌, ◌-◌, ◌*◌, ◌%◌, ◌^◌, ◌≤◌, ◌<◌, ◌≡◌, ◌∙◌, ap, refl, inl, inr, String, List, [],
  ◌∷◌, length, get_or, arith, if◌then◌else◌, Option, none, some, Bool-cases,
}
use mlx5ctl.Base.Int.{ℤ, is_nonzero, to_unsigned, rounds}
use mlx5ctl.Memory.{IsBytes}
use mlx5ctl.Ifc.{Field, dw_off, fld, mlx5_get, mlx5_set, set_fields, IsWord}
use mlx5ctl.Ifc.Laws.{get-set, get-set_far, length-mlx5_set, mlx5_set-IsBytes}
use mlx5ctl.Ifc.Fields.{
  set_fields_lem, get-set_fields_far, length-set_fields, set_fields-IsBytes, assigned,
}
use mlx5ctl.Os.{Os, Block, Trace, address, allocated}
use mlx5ctl.Os.Live.{live, is_at, requests, KeepsLive}
use mlx5ctl.Device.{mlx5u_cmd}
use mlx5ctl.Print.Laws.{show_fields-live}
use mlx5ctl.Prm.Opcodes.{cmd_op_set_diagnostic_params}
use mlx5ctl.Prm.Diag.{diagnostic_params_context, set_diagnostic_params_in}
use mlx5ctl.Diag.Params.{
  SetDiagParams, id_field, set_ctx, first_id, context_sets, set_counter_ids, set_param_request,
  set_param_size, send_params, mlx5_diag_cnt_set_param, param_out_sz, show_ids, query_ctx,
  query_request, ask_params, mlx5_diag_cnt_query_param,
}

length-set_counter_ids :
    (buf : List ℕ) (p : ℕ) (ids : List ℕ) → length (set_counter_ids buf p ids) ≡ length buf
unfolding set_counter_ids
length-set_counter_ids buf p [] = refl
length-set_counter_ids buf p (id ∷ rest) =
    length-set_counter_ids (mlx5_set buf p id_field id) (p + 4) rest
    ∙ length-mlx5_set buf p id_field id

-- A field outside the counter ids is left as it was.
get-set_counter_ids_far :
    (buf : List ℕ) (p : ℕ) (ids : List ℕ) (q : ℕ) (f : Field)
    → q + 4 * dw_off f + 4 ≤ p
    → mlx5_get (set_counter_ids buf p ids) q f ≡ mlx5_get buf q f
unfolding set_counter_ids fld
get-set_counter_ids_far buf p [] q f h = refl
get-set_counter_ids_far buf p (id ∷ rest) q f h =
    get-set_counter_ids_far (mlx5_set buf p id_field id) (p + 4) rest q f (omega arith)
    ∙ get-set_far buf p id_field id q f (omega arith)

-- Every counter id reads back from its place.
get-set_counter_ids :
    (buf : List ℕ) (p : ℕ) (ids : List ℕ) (i q : ℕ)
    → i < length ids
    → q ≡ p + 4 * i
    → p + 4 * length ids ≤ length buf
    → IsBytes buf
    → mlx5_get (set_counter_ids buf p ids) q id_field ≡ get_or ids i 0 % 2 ^ 16
unfolding set_counter_ids fld
get-set_counter_ids buf p [] i q h e inside bytes = absurd (omega arith)
get-set_counter_ids buf p (id ∷ rest) zero q h e inside bytes =
    let here : q ≡ p = omega (arith, e) in
    get-set_counter_ids_far (mlx5_set buf p id_field id) (p + 4) rest q id_field (omega (arith, e))
    ∙ ap (λ r. mlx5_get (mlx5_set buf p id_field id) r id_field) here
    ∙ get-set buf p id_field id (omega arith) (omega arith) bytes
get-set_counter_ids buf p (id ∷ rest) (suc i) q h e inside bytes =
    get-set_counter_ids (mlx5_set buf p id_field id) (p + 4) rest i q (omega arith) (omega arith)
      (omega (arith, length-mlx5_set buf p id_field id)) (mlx5_set-IsBytes buf p id_field id bytes)

in_context : (f : Field) → f.bit_off < 192 → 8 + 4 * dw_off f + 4 ≤ 32
in_context f low = omega arith

module _ (p : SetDiagParams) (buf : List ℕ) (size : length buf ≡ set_param_size p)
    (bytes : IsBytes buf) where
  abbrev start : List ℕ
  start = set_fields set_diagnostic_params_in buf 0 (("opcode", cmd_op_set_diagnostic_params) ∷ [])

  abbrev context : List ℕ
  context = set_fields diagnostic_params_context start set_ctx (context_sets p)

  length-context : length context ≡ 32 + length p.counter_ids * 4
  length-context =
      length-set_fields diagnostic_params_context start set_ctx (context_sets p)
      ∙ length-set_fields set_diagnostic_params_in buf 0 _
      ∙ size

  context-IsBytes : IsBytes context
  context-IsBytes =
      set_fields-IsBytes diagnostic_params_context start set_ctx (context_sets p)
        (set_fields-IsBytes set_diagnostic_params_in buf 0 _ bytes)

  pub set_param_request_ids :
      (i : ℕ)
      → i < length p.counter_ids
      → mlx5_get (set_param_request p buf) (set_ctx + first_id + 4 * i) id_field
        ≡ get_or p.counter_ids i 0 % 2 ^ 16
  unfolding set_param_request fld
  set_param_request_ids i h =
      get-set_counter_ids context 32 p.counter_ids i (32 + 4 * i) h refl
        (omega (arith, length-context)) context-IsBytes

  pub set_param_request_opcode :
      mlx5_get (set_param_request p buf) 0 (fld set_diagnostic_params_in "opcode")
      ≡ cmd_op_set_diagnostic_params % 2 ^ 16
  unfolding set_param_request fld
  set_param_request_opcode =
      get-set_counter_ids_far context 32 p.counter_ids 0 (fld set_diagnostic_params_in "opcode")
        (omega arith)
      ∙ get-set_fields_far diagnostic_params_context start set_ctx (context_sets p) 0
          (fld set_diagnostic_params_in "opcode") (omega arith)
      ∙ set_fields_lem set_diagnostic_params_in "opcode" buf 0
          (("opcode", cmd_op_set_diagnostic_params) ∷ []) (omega arith) (omega (arith, size)) bytes

  abbrev pub param_field : String → ℕ
  param_field name = mlx5_get (set_param_request p buf) set_ctx (fld diagnostic_params_context name)

  context_field :
      (name : String)
      → IsWord (fld diagnostic_params_context name)
      → (fld diagnostic_params_context name).bit_off < 192
      → param_field name
        ≡ assigned name
            (mlx5_get start set_ctx (fld diagnostic_params_context name))
            diagnostic_params_context
            (context_sets p)
  unfolding set_param_request fld
  context_field name word low =
      get-set_counter_ids_far context 32 p.counter_ids set_ctx (fld diagnostic_params_context name)
        (in_context (fld diagnostic_params_context name) low)
      ∙ set_fields_lem diagnostic_params_context name start set_ctx (context_sets p) word
          (omega (
            arith,
            length-set_fields set_diagnostic_params_in buf 0
                (("opcode", cmd_op_set_diagnostic_params) ∷ []),
            size,
          ))
          (set_fields-IsBytes set_diagnostic_params_in buf 0 _ bytes)

  pub set_param_request_fields :
      (param_field "num_of_counters" ≡ length p.counter_ids % 2 ^ 16)
      × (param_field "log_num_of_samples" ≡ to_unsigned 32 p.log_num_of_samples % 2 ^ 8)
      × (param_field "log_sample_period" ≡ to_unsigned 32 p.log_sample_period % 2 ^ 8)
      × (param_field "single" ≡ p.single % 2)
      × (param_field "repetitive" ≡ p.repetitive % 2)
      × (param_field "sync" ≡ p.sync % 2)
      × (param_field "clear" ≡ p.clear % 2)
      × (param_field "on_demand" ≡ p.on_demand % 2)
      × (param_field "enable" ≡ p.enable % 2)
  unfolding context_field fld
  set_param_request_fields = (
    context_field "num_of_counters" (omega arith) (omega arith),
    context_field "log_num_of_samples" (omega arith) (omega arith),
    context_field "log_sample_period" (omega arith) (omega arith),
    context_field "single" (omega arith) (omega arith),
    context_field "repetitive" (omega arith) (omega arith),
    context_field "sync" (omega arith) (omega arith),
    context_field "clear" (omega arith) (omega arith),
    context_field "on_demand" (omega arith) (omega arith),
    context_field "enable" (omega arith) (omega arith),
  )

show_ids-live : (left i : ℕ) (out : List ℕ) → KeepsLive (show_ids left i out)
unfolding show_ids
show_ids-live zero i out a t = refl
show_ids-live (suc left) i out a t = show_ids-live left (i + 1) out a _

-- What a query of the parameters leaves of its block.
abbrev pub left_over : ℕ → ℤ → Option ℕ → ℕ
left_over a err block = if is_nonzero err then 0 else is_at a block

module _ (os : Os) where
  send_params-live :
      (p : SetDiagParams) (block : Option Block) (a : ℕ) (t : Trace)
      → live a (send_params os p block t).1 ≡ live a t - is_at a (address block)
  unfolding send_params mlx5u_cmd
  send_params-live p none a t = omega arith
  send_params-live p (some block) a t = refl

  pub set_param-live : (p : SetDiagParams) → KeepsLive (mlx5_diag_cnt_set_param os p)
  unfolding mlx5_diag_cnt_set_param
  set_param-live p a t =
      let block : Option Block = os.alloc t (set_param_size p) in
      send_params-live p block a (allocated (set_param_size p) (address block) ∷ t) ∙ omega arith

  pub set_param-requests :
      (p : SetDiagParams) (block : Block) (t : Trace)
      → os.alloc t (set_param_size p) ≡ some block
      → requests (mlx5_diag_cnt_set_param os p t).1 ≡ set_param_request p block.bytes ∷ requests t
  unfolding mlx5_diag_cnt_set_param send_params mlx5u_cmd
  set_param-requests p block t e = rw e refl

  ask_params-live :
      (num_cnt : ℤ) (block : Option Block) (a base : ℕ) (t : Trace)
      → live a t ≡ base + is_at a (address block)
      → let (err, t') = ask_params os num_cnt block t in
        live a t' ≡ base + left_over a err (address block)
  unfolding ask_params mlx5u_cmd
  ask_params-live num_cnt none a base t h = h
  ask_params-live num_cnt (some block) a base t h =
      let (r, t1) = mlx5u_cmd os query_request block.bytes t in
      elim (Bool-cases (is_nonzero r.0)) [
        | inl failed ↦ rw (failed, failed) (omega (arith, h))
        | inr fine ↦ rw fine (
            show_ids-live (rounds num_cnt) 0 r.1 a _
            ∙ show_fields-live diagnostic_params_context r.1 query_ctx _ a t1
            ∙ h)
      ]

  -- mlx5_diag_cnt_query_param leaves its output block allocated when it returns 0, and else as
  -- many blocks at every address as before.
  pub query_param-live :
      (num_cnt : ℤ) (a : ℕ) (t : Trace)
      → let (err, t') = mlx5_diag_cnt_query_param os num_cnt t in
        live a t' ≡ live a t + left_over a err (address (os.alloc t (param_out_sz num_cnt)))
  unfolding mlx5_diag_cnt_query_param
  query_param-live num_cnt a t =
      ask_params-live num_cnt (os.alloc t (param_out_sz num_cnt)) a (live a t) _ refl
