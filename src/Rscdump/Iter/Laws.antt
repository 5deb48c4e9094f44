-- ===== src/Rscdump/Iter/Laws.antt =====
-- What the next call of the resource dump carries over.
use mlx5ctl.Base.{
  ℕ, ◌+◌, ◌*◌, ◌/◌, ◌%◌, ◌^◌, ◌≤◌, ◌<◌, ◌≡◌, ◌∙◌, ◌⊎◌, List, length, arith, String, inl, inr,
}
use native.Mathlib.Nat.{mod-eq_of_lt}
use mlx5ctl.Memory.{IsBytes}
use mlx5ctl.Memory.Laws.{read_be32-lt}
use mlx5ctl.Ifc.{fld, mlx5_get64, IsWord}
use mlx5ctl.Ifc.Laws.{mlx5_get-lt, get-set64_far, get64-set64}
use mlx5ctl.Ifc.Fields.{set_fields_lem, assigned, Writable, length-set_fields}
use mlx5ctl.Prm.Dump.{resource_dump}
use mlx5ctl.Rscdump.Iter.{dump_get, copied, next_input}

writable :
    (input out : List ℕ) → 256 ≤ length input → Writable resource_dump (length input) 0 (copied out)
unfolding fld
writable input out room = omega (arith, room)

module _ (input out : List ℕ) (room : 256 ≤ length input) (bytes : IsBytes input) where
  next_field :
      (name : String)
      → IsWord (fld resource_dump name)
      → ((fld resource_dump name).bit_off < 192) ⊎ (256 ≤ (fld resource_dump name).bit_off)
      → dump_get (next_input input out) name
        ≡ assigned name (dump_get input name) resource_dump (copied out)
  unfolding next_input fld
  next_field name word apart =
      get-set64_far _ 0 (fld resource_dump "device_opaque") _ 0 (fld resource_dump name) (far apart)
      ∙ set_fields_lem resource_dump name input 0 (copied out) word (writable input out room) bytes
    where
      far :
          ((fld resource_dump name).bit_off < 192) ⊎ (256 ≤ (fld resource_dump name).bit_off)
          → (0 + 4 * ((fld resource_dump name).bit_off / 32) + 4 ≤ 24)
            ⊎ (32 ≤ 0 + 4 * ((fld resource_dump name).bit_off / 32))
      far (inl below) = inl (omega (arith, below))
      far (inr above) = inr (omega (arith, above))

  abbrev pub next : String → ℕ
  next name = dump_get (next_input input out) name

  -- A field that is copied arrives whole, because it was read from a field of the same width.
  carried :
      (name : String)
      → IsWord (fld resource_dump name)
      → dump_get out name % 2 ^ (fld resource_dump name).bit_sz ≡ dump_get out name
  carried name word = mod-eq_of_lt (mlx5_get-lt out 0 (fld resource_dump name) word)

  abbrev pub opaque : List ℕ → ℕ
  opaque buf = mlx5_get64 buf 0 (fld resource_dump "device_opaque")

  opaque-lt : (buf : List ℕ) → IsBytes buf → opaque buf < 2 ^ 64
  unfolding fld mlx5_get64
  opaque-lt buf h = omega (arith, read_be32-lt buf 24 h, read_be32-lt buf 28 h)

  next_opaque : IsBytes out → opaque (next_input input out) ≡ opaque out
  unfolding next_input fld
  next_opaque h =
      get64-set64 _ 0 (fld resource_dump "device_opaque") (opaque out)
        (omega (arith, room, length-set_fields resource_dump input 0 (copied out)))
      ∙ mod-eq_of_lt (opaque-lt out h)

  -- When more is to be dumped, the input of the next call has seq_num, both indexes, both object
  -- counts, more_dump and device_opaque as the device returned them, when both buffers hold
  -- bytes and the input has at least the size of the register.
  pub next_input_takes :
      IsBytes out
      → (next "seq_num" ≡ dump_get out "seq_num")
        × (next "index1" ≡ dump_get out "index1")
        × (next "index2" ≡ dump_get out "index2")
        × (next "num_of_obj1" ≡ dump_get out "num_of_obj1")
        × (next "num_of_obj2" ≡ dump_get out "num_of_obj2")
        × (next "more_dump" ≡ dump_get out "more_dump")
        × (opaque (next_input input out) ≡ opaque out)
  unfolding fld next_field carried
  next_input_takes out_bytes = (
    next_field "seq_num" (omega arith) (omega arith) ∙ carried "seq_num" (omega arith),
    next_field "index1" (omega arith) (omega arith) ∙ carried "index1" (omega arith),
    next_field "index2" (omega arith) (omega arith) ∙ carried "index2" (omega arith),
    next_field "num_of_obj1" (omega arith) (omega arith) ∙ carried "num_of_obj1" (omega arith),
    next_field "num_of_obj2" (omega arith) (omega arith) ∙ carried "num_of_obj2" (omega arith),
    next_field "more_dump" (omega arith) (omega arith) ∙ carried "more_dump" (omega arith),
    next_opaque out_bytes,
  )

  -- When more is to be dumped, the input of the next call keeps the segment type, vhca_id,
  -- inline_dump, mkey and size of the call before, when the input holds bytes and has at least
  -- the size of the register.
  pub next_input_keeps :
      (next "segment_type" ≡ dump_get input "segment_type")
      × (next "vhca_id" ≡ dump_get input "vhca_id")
      × (next "inline_dump" ≡ dump_get input "inline_dump")
      × (next "mkey" ≡ dump_get input "mkey")
      × (next "size" ≡ dump_get input "size")
  unfolding fld next_field
  next_input_keeps = (
    next_field "segment_type" (omega arith) (omega arith),
    next_field "vhca_id" (omega arith) (omega arith),
    next_field "inline_dump" (omega arith) (omega arith),
    next_field "mkey" (omega arith) (omega arith),
    next_field "size" (omega arith) (omega arith),
  )
