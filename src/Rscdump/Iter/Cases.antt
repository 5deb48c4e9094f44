-- ===== src/Rscdump/Iter/Cases.antt =====
-- What an iteration of mlx5_rsc_dump_iter makes of the answer of mlx5_access_reg.
use mlx5ctl.Base.{
  ℕ, ◌/◌, ◌^◌, ◌≡◌, ◌⊎◌, ap, refl, inl, inr, true, false, List, length, arith, Bool-cases, ◌==◌,
  bit_and,
}
use mlx5ctl.Base.Int.{ℤ, is_negative, is_nonzero}
use mlx5ctl.Memory.{splice, slice, read_be32}
use mlx5ctl.Ifc.{fld, mlx5_get}
use mlx5ctl.Os.{Os, Trace}
use mlx5ctl.Prm.Dump.{resource_dump}
use mlx5ctl.Reg.Ids.{reg_resource_dump}
use mlx5ctl.Reg.Access.{mlx5_access_reg}
use mlx5ctl.Rscdump.Iter.{
  Iteration, dump_get, out_of_sequence, next_input, after_access, mlx5_rsc_dump_iter,
}
use mlx5ctl.Rscdump.Iter.Reply.{copied_byte}

-- The answer is an error, or does not follow the request.
abbrev pub Refused : List ℕ → ℤ × List ℕ → Type 0
Refused input (err, out) = (is_nonzero err ≡ true) ⊎ (out_of_sequence input out ≡ true)

abbrev pub InOrder : List ℕ → ℤ × List ℕ → Type 0
InOrder input (err, out) = (is_nonzero err ≡ false) × (out_of_sequence input out ≡ false)

-- The result says that there is more, or that this was the last reply.
abbrev pub Continues : List ℕ → ℤ × List ℕ → Iteration → Type 0
Continues input (err, out) r =
    ((is_nonzero r.ret ≡ true)
      × ((dump_get out "more_dump" == 0) ≡ false)
      × (r.input ≡ next_input input out))
    ⊎ ((is_nonzero r.ret ≡ false) × ((dump_get out "more_dump" == 0) ≡ true))

after_access-cases :
    (input : List ℕ) (a : ℤ × List ℕ)
    → let r = after_access input a in
      ((is_negative r.ret ≡ true) × Refused input a)
      ⊎ ((is_negative r.ret ≡ false) × InOrder input a × Continues input a r)
unfolding after_access
after_access-cases input (err, out) = elim (Bool-cases (is_nonzero err)) [
  | inl failed ↦ inl (rw failed refl, inl failed)
  | inr fine ↦ elim (Bool-cases (out_of_sequence input out)) [
    | inl wrong ↦ inl (rw (fine, wrong) refl, inr wrong)
    | inr order ↦ elim (Bool-cases (dump_get out "more_dump" == 0)) [
      | inl last ↦
          inr (rw (fine, order, last) refl, (fine, order), inr (rw (fine, order, last) refl, last))
      | inr more ↦ inr (
        rw (fine, order, more) refl,
        (fine, order),
        inl (rw (fine, order, more) refl, more, rw (fine, order, more) refl),
      )
    ]
  ]
]

module _ (os : Os) (input out : List ℕ) (t : Trace) where
  abbrev pub answer : ℤ × List ℕ
  answer = (mlx5_access_reg os input out reg_resource_dump 0 0 t).0

  pub iter-cases :
      let r = (mlx5_rsc_dump_iter os input out t).0 in
      ((is_negative r.ret ≡ true) × Refused input answer)
      ⊎ ((is_negative r.ret ≡ false) × InOrder input answer × Continues input answer r)
  unfolding mlx5_rsc_dump_iter
  iter-cases = after_access-cases input answer

-- The first word of a register copied from the command's output.
pub copied_more :
    (out reply : List ℕ)
    → length out ≡ 256
    → length reply ≡ 272
    → dump_get (splice out 0 (slice reply 16 (length out))) "more_dump"
      ≡ mlx5_get reply 16 (fld resource_dump "more_dump")
unfolding mlx5_get fld
copied_more out reply eo er =
    ap (λ w. bit_and (w / 2 ^ 31) 1) {x = read_be32 (splice out 0 (slice reply 16 (length out))) 0}
      {y = read_be32 reply 16}
      (omega (
        arith,
        copied_byte out reply 0 eo er (omega arith),
        copied_byte out reply 1 eo er (omega arith),
        copied_byte out reply 2 eo er (omega arith),
        copied_byte out reply 3 eo er (omega arith),
      ))
