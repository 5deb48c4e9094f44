-- ===== src/Reg/Access/Laws.antt =====
-- What mlx5_access_reg sends, what it gives back, and that it leaves no block allocated.
use mlx5ctl.Base.{
  none, ℕ, ◌+◌, ◌%◌, ◌^◌, ◌<◌, ◌≡◌, refl, ◌∙◌, ◌⊎◌, inl, inr, ◌==◌, String, some, List, ◌∷◌, length,
  arith, Bool-cases, Option-cases, length-replicate,
}
use mlx5ctl.Base.Int.{ℤ, neg}
use mlx5ctl.Memory.{IsBytes, byte_at, zeroed}
use mlx5ctl.Memory.Laws.{length-splice, splice-IsBytes, zeroed-IsBytes, splice_inside}
use mlx5ctl.Ifc.{fld, mlx5_get, IsWord}
use mlx5ctl.Ifc.Fields.{assigned, set_fields_lem, byte_at-set_fields}
use mlx5ctl.Os.{Os, called, allocated, freed, Trace, Reply}
use mlx5ctl.Os.Live.{live, requests}
use mlx5ctl.Device.{mlx5u_cmd, command_result}
use mlx5ctl.Prm.Commands.{access_register_in}
use mlx5ctl.Reg.Access.{
  access_request, mlx5_access_reg, enomem, copy_register, lnot, register_input, header_sets,
}

module _ (os : Os) (data_in data_out : List ℕ) (reg_id arg write : ℕ) (t : Trace) where
  -- Whatever the memory and the device do, mlx5_access_reg leaves as many blocks allocated at
  -- every address as before.
  pub access_reg-live :
      (a : ℕ) → live a (mlx5_access_reg os data_in data_out reg_id arg write t).1 ≡ live a t
  unfolding mlx5_access_reg mlx5u_cmd
  access_reg-live a = ground arith

length-register_input : (data_in : List ℕ) → length (register_input data_in) ≡ 16 + length data_in
length-register_input data_in = elim (Bool-cases (length data_in == 0)) [
  | inl empty ↦ rw empty (length-replicate _ 0)
  | inr some_data ↦ rw some_data (length-splice _ _ data_in ∙ length-replicate _ 0)
]

register_input-IsBytes : (data_in : List ℕ) → IsBytes data_in → IsBytes (register_input data_in)
register_input-IsBytes data_in h = elim (Bool-cases (length data_in == 0)) [
  | inl empty ↦ rw empty (zeroed-IsBytes _)
  | inr some_data ↦ rw some_data (splice-IsBytes _ _ data_in (zeroed-IsBytes _) h)
]

input_data :
    (data_in : List ℕ) (j : ℕ)
    → j < length data_in
    → byte_at (register_input data_in) (16 + j) ≡ byte_at data_in j
unfolding fld
input_data data_in j h = elim (Bool-cases (length data_in == 0)) [
  | inl empty ↦ absurd (ground arith)
  | inr some_data ↦ rw some_data (
      splice_inside (zeroed (16 + length data_in)) 16 data_in (16 + j) j refl h
        (omega (arith, length-replicate {0} {A = ℕ} (16 + length data_in) 0)))
]

-- The command that is sent, field by field.
module _ (data_in : List ℕ) (reg_id arg write : ℕ) (bytes : IsBytes data_in) where
  abbrev pub request_field : String → ℕ
  request_field name =
      mlx5_get (access_request data_in reg_id arg write) 0 (fld access_register_in name)

  header_field :
      (name : String)
      → IsWord (fld access_register_in name)
      → request_field name
        ≡ assigned name
            (mlx5_get (register_input data_in) 0 (fld access_register_in name))
            access_register_in
            (header_sets reg_id arg write)
  unfolding access_request fld
  header_field name word =
      set_fields_lem access_register_in name (register_input data_in) 0
        (header_sets reg_id arg write) word (omega (arith, length-register_input data_in))
        (register_input-IsBytes data_in bytes)

  -- The command of mlx5_access_reg holds the opcode ACCESS_REG, an op_mod that is 1 for a read
  -- and 0 for a write, the register id cut to 16 bits and the argument cut to 32 bits, when the
  -- register data are bytes.
  pub access_request_fields :
      (request_field "opcode" ≡ 0x805)
      × (request_field "op_mod" ≡ lnot write % 2 ^ 16)
      × (request_field "register_id" ≡ reg_id % 2 ^ 16)
      × (request_field "argument" ≡ arg % 2 ^ 32)
  unfolding header_field
  access_request_fields = (
    header_field "opcode" (omega arith),
    header_field "op_mod" (omega arith),
    header_field "register_id" (omega arith),
    header_field "argument" (omega arith),
  )

  -- The register data stand unchanged behind the 16 bytes of the command header, when they are
  -- bytes.
  pub access_request_data :
      (j : ℕ)
      → j < length data_in
      → byte_at (access_request data_in reg_id arg write) (16 + j) ≡ byte_at data_in j
  unfolding access_request fld
  access_request_data j h =
      byte_at-set_fields access_register_in (register_input data_in) 0
        (header_sets reg_id arg write) (16 + j) (omega arith)
      ∙ input_data data_in j h

-- The whole run with memory granted at `a` and `b`: the trace that it leaves and its result.
module _ (os : Os) (data_in data_out : List ℕ) (reg_id arg write : ℕ) (t : Trace) where
  abbrev run : (ℤ × List ℕ) × Trace
  run = mlx5_access_reg os data_in data_out reg_id arg write t

  abbrev sized : ℕ → ℕ → Trace
  sized a b =
      allocated (16 + length data_out) (some b) ∷ allocated (16 + length data_in) (some a) ∷ t

  abbrev reply : ℕ → ℕ → Reply
  reply a b =
      os.rpc (sized a b) (access_request data_in reg_id arg write) (zeroed (16 + length data_out))

  -- One of the two allocations fails.
  abbrev pub NoMemory : Type 0
  NoMemory =
      (os.alloc t (16 + length data_in) ≡ none)
      ⊎ ((a : ℕ) × (os.alloc (allocated (16 + length data_in) (some a) ∷ t) (16 + length data_out)
            ≡ none))

  -- What one call of mlx5_access_reg can do. Without memory it sends nothing, answers -ENOMEM and
  -- leaves the caller's buffer alone.
  abbrev pub RunsOut : Type 0
  RunsOut = NoMemory × (run.0 ≡ (neg enomem, data_out)) × (requests run.1 ≡ requests t)

  -- Else it sends just the one command, frees both blocks in the order out, in, and passes on an
  -- error or copies the register data.
  abbrev pub Sends : ℕ → ℕ → Type 0
  Sends a b =
      (run.0 ≡ copy_register data_out (command_result (reply a b), (reply a b).out))
      × (run.1
          ≡ freed (some a)
            ∷ freed (some b)
            ∷ called (access_request data_in reg_id arg write) (reply a b).ret (reply a b).out
            ∷ sized a b)

  -- Every run of mlx5_access_reg is one of two: when one of the two allocations fails it answers
  -- -ENOMEM, leaves the data of the caller as they were and sends nothing; else it sends exactly
  -- the one command, frees both blocks, and passes on an error of the command or copies the
  -- register data out.
  pub access_reg_run : RunsOut ⊎ ((a : ℕ) × (b : ℕ) × Sends a b)
  unfolding mlx5_access_reg mlx5u_cmd
  access_reg_run = elim (Option-cases (os.alloc t (16 + length data_in))) [
    | inl no_input ↦ inl (inl no_input, ground arith, ground arith)
    | inr (i, got_input) ↦
        elim (Option-cases
          (os.alloc (allocated (16 + length data_in) (some i.addr) ∷ t) (16 + length data_out))) [
            | inl no_out ↦ inl (inr (i.addr, no_out), ground arith, ground arith)
            | inr (o, got_out) ↦ inr (i.addr, o.addr, ground arith)
          ]
  ]
