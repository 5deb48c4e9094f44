-- ===== src/Reg/Dump/Laws.antt =====
-- What mlx5_reg_dump prints, and what it leaves allocated.
use mlx5ctl.Base.{
  ℕ, ◌%◌, ◌^◌, ◌≡◌, ◌∙◌, refl, ◌⊎◌, inl, inr, true, false, arith, Bool-cases, Option, none, some,
  List, ◌∷◌, length, length-take, length-replicate,
}
use mlx5ctl.Base.Int.{ℤ, pos, is_nonzero}
use mlx5ctl.Memory.{zeroed}
use mlx5ctl.Memory.Laws.{length-splice}
use mlx5ctl.Os.{Os, Block, Trace, shown, bytes_hex}
use mlx5ctl.Os.Live.{KeepsLive}
use mlx5ctl.Reg.Table.{Pretty, document_size}
use mlx5ctl.Reg.Lookup.{get_reg_size, get_print_func_for_reg}
use mlx5ctl.Reg.Lookup.Laws.{get_reg_size-le}
use mlx5ctl.Reg.Access.{mlx5_access_reg, access_between, copy_register}
use mlx5ctl.Reg.Access.Laws.{access_reg-live}
use mlx5ctl.Reg.Show.Laws.{print_fn-live}
use mlx5ctl.Reg.Dump.{
  PrFormat, pr_hex, pr_bin, pr_pretty, port_data, dumped, show_pretty, show_reg, mlx5_reg_dump,
}

show_pretty-live :
    (f : Option Pretty) (reg_id : ℕ) (out : List ℕ) → KeepsLive (show_pretty f reg_id out)
show_pretty-live none reg_id out a t = refl
show_pretty-live (some f) reg_id out a t = print_fn-live f out a t

show_reg-live : (f : PrFormat) (reg_id : ℕ) (out : List ℕ) → KeepsLive (show_reg f reg_id out)
unfolding show_reg
show_reg-live pr_hex reg_id out a t = refl
show_reg-live pr_bin reg_id out a t = refl
show_reg-live pr_pretty reg_id out a t =
    show_pretty-live (get_print_func_for_reg reg_id) reg_id out a t

length-copy_register :
    (data_out : List ℕ) (r : ℤ × List ℕ) → length (copy_register data_out r).1 ≡ length data_out
length-copy_register data_out (err, out) = elim (Bool-cases (is_nonzero err)) [
  | inl failed ↦ rw failed refl
  | inr fine ↦ rw fine (length-splice data_out 0 _)
]

module _ (os : Os) where
  length-access_between :
      (input out : Option Block) (request data_out : List ℕ) (t : Trace)
      → length (access_between os input out request data_out t).0.1 ≡ length data_out
  unfolding access_between
  length-access_between (some input) (some out) request data_out t = length-copy_register data_out _
  length-access_between (some input) none request data_out t = refl
  length-access_between none out request data_out t = refl

  -- The buffer of the caller keeps its size.
  length-access_reg :
      (data_in data_out : List ℕ) (reg_id arg write : ℕ) (t : Trace)
      → length (mlx5_access_reg os data_in data_out reg_id arg write t).0.1 ≡ length data_out
  unfolding mlx5_access_reg
  length-access_reg data_in data_out reg_id arg write t = length-access_between _ _ _ data_out _

  pub reg_dump-live :
      (f : PrFormat) (reg_id port argument : ℕ)
      → KeepsLive (mlx5_reg_dump os f reg_id port argument)
  unfolding mlx5_reg_dump
  reg_dump-live f reg_id port argument a t =
      let (r, t1) =
        mlx5_access_reg os (port_data port) (zeroed document_size) (reg_id % 2 ^ 16) argument 0 t in
      let access =
        access_reg-live os (port_data port) (zeroed document_size) (reg_id % 2 ^ 16) argument 0 t
          a in
      elim (Bool-cases (is_nonzero r.0)) [
        | inl failed ↦ rw failed access
        | inr fine ↦ rw fine (show_reg-live f reg_id r.1 a t1 ∙ access)
      ]

  -- An access as mlx5_reg_dump makes it.
  abbrev pub accessed : ℕ → ℕ → ℕ → Trace → (ℤ × List ℕ) × Trace
  accessed reg_id port argument =
      mlx5_access_reg os (port_data port) (zeroed document_size) (reg_id % 2 ^ 16) argument 0

  -- The bytes printed lie inside the buffer, so there are as many as the table has for the register.
  length-dumped :
      (reg_id port argument : ℕ) (t : Trace)
      → length (dumped reg_id (accessed reg_id port argument t).0.1) ≡ get_reg_size reg_id
  length-dumped reg_id port argument t = omega (
    arith,
    length-take (get_reg_size reg_id) (accessed reg_id port argument t).0.1,
    length-access_reg (port_data port) (zeroed document_size) (reg_id % 2 ^ 16) argument 0 t,
    length-replicate {0} {A = ℕ} document_size 0,
    get_reg_size-le reg_id,
  )

  -- mlx5_reg_dump in the format of bytes does one of two things after the access: it passes an
  -- error on and prints nothing, or it returns 0 and prints as its only output bytes of the
  -- register buffer in hex, whose number is exactly the size of the register.
  pub reg_dump_hex :
      (reg_id port argument : ℕ) (t : Trace)
      → let ((err, out), t1) = accessed reg_id port argument t in
        let run = mlx5_reg_dump os pr_hex reg_id port argument t in
        ((is_nonzero err ≡ true) × (run ≡ (err, t1)))
        ⊎ ((is_nonzero err ≡ false)
            × (length (dumped reg_id out) ≡ get_reg_size reg_id)
            × (run ≡ (pos 0, shown (bytes_hex (dumped reg_id out)) ∷ t1)))
  unfolding mlx5_reg_dump show_reg
  reg_dump_hex reg_id port argument t =
      elim (Bool-cases (is_nonzero (accessed reg_id port argument t).0.0)) [
        | inl failed ↦ inl (failed, rw failed refl)
        | inr fine ↦ inr (fine, length-dumped reg_id port argument t, rw fine refl)
      ]
