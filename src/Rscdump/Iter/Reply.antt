-- ===== src/Rscdump/Iter/Reply.antt =====
-- The register that an iteration of the resource dump gives back.
use mlx5ctl.Base.{
  ℕ, zero, suc, ◌+◌, ◌/◌, ◌^◌, ◌≤◌, ◌<◌, ◌≡◌, ◌∙◌, sym, ap, refl, inl, inr, false, List, [], ◌∷◌,
  length, take, drop, arith, Bool-cases, length-take, length-drop, length-replicate, bit_and,
}
use mathlib.Core.Path.{subst}
use mathlib.Core.Bool.{false≢true}
use mlx5ctl.Base.Int.{ℤ, pos, negsuc, is_negative, is_nonzero}
use mlx5ctl.Memory.{splice, slice, byte_at, read_be32}
use mlx5ctl.Memory.Laws.{length-splice, splice_inside}
use mlx5ctl.Ifc.{fld, mlx5_get}
use mlx5ctl.Os.{Os, IsOs, Trace}
use mlx5ctl.Prm.Dump.{resource_dump}
use mlx5ctl.Reg.Ids.{reg_resource_dump}
use mlx5ctl.Reg.Access.{mlx5_access_reg, copy_register}
use mlx5ctl.Reg.Access.Laws.{access_reg_run}
use mlx5ctl.Rscdump.Iter.{Iteration, dump_get, after_access, mlx5_rsc_dump_iter}

after_access-out : (input : List ℕ) (r : ℤ × List ℕ) → (after_access input r).out ≡ r.1
unfolding after_access
after_access-out input (err, out) = ground arith

after_access-ok :
    (input : List ℕ) (r : ℤ × List ℕ)
    → is_negative (after_access input r).ret ≡ false
    → is_nonzero r.0 ≡ false
unfolding after_access
after_access-ok input (pos zero, out) h = refl
after_access-ok input (pos (suc n), out) h = absurd (false≢true (sym h))
after_access-ok input (negsuc n, out) h = absurd (false≢true (sym h))

byte_at-drop : (xs : List ℕ) (off j : ℕ) → byte_at (drop off xs) j ≡ byte_at xs (off + j)
byte_at-drop xs zero j = ap (byte_at xs) {x = j} {y = 0 + j} (omega arith)
byte_at-drop [] (suc off) j = refl
byte_at-drop (x ∷ xs) (suc off) j =
    byte_at-drop xs off j
    ∙ ap (byte_at (x ∷ xs)) {x = suc (off + j)} {y = suc off + j} (omega arith)

byte_at-take : (n : ℕ) (xs : List ℕ) (j : ℕ) → j < n → byte_at (take n xs) j ≡ byte_at xs j
byte_at-take zero xs j h = absurd (omega arith)
byte_at-take (suc n) [] j h = refl
byte_at-take (suc n) (x ∷ xs) zero h = refl
byte_at-take (suc n) (x ∷ xs) (suc j) h = byte_at-take n xs j (omega arith)

byte_at-slice :
    (xs : List ℕ) (off n j : ℕ) → j < n → byte_at (slice xs off n) j ≡ byte_at xs (off + j)
byte_at-slice xs off n j h = byte_at-take n (drop off xs) j h ∙ byte_at-drop xs off j

pub copied_byte :
    (out reply : List ℕ) (j : ℕ)
    → length out ≡ 256
    → length reply ≡ 272
    → j < 256
    → byte_at (splice out 0 (slice reply 16 (length out))) j ≡ byte_at reply (16 + j)
copied_byte out reply j eo er h =
    let chunk : length (slice reply 16 (length out)) ≡ 256 =
      length-take _ (drop 16 reply) ∙ omega (arith, length-drop 16 reply, eo, er) in
    splice_inside out 0 (slice reply 16 (length out)) j j (omega arith) (omega (arith, chunk, h))
      (omega (arith, eo, h))
    ∙ byte_at-slice reply 16 (length out) j (omega (arith, eo, h))

-- The size field of a register copied from the command's output.
copied_size :
    (out reply : List ℕ)
    → length out ≡ 256
    → length reply ≡ 272
    → dump_get (splice out 0 (slice reply 16 (length out))) "size"
      ≡ mlx5_get reply 16 (fld resource_dump "size")
unfolding mlx5_get fld
copied_size out reply eo er =
    ap (λ w. bit_and (w / 2 ^ 0) 0xffffffff)
      {x = read_be32 (splice out 0 (slice reply 16 (length out))) 36} {y = read_be32 reply 52}
      (omega (
        arith,
        copied_byte out reply 36 eo er (omega arith),
        copied_byte out reply 37 eo er (omega arith),
        copied_byte out reply 38 eo er (omega arith),
        copied_byte out reply 39 eo er (omega arith),
      ))

copied_size-le :
    (limit : ℕ) (out : List ℕ) (r : ℤ × List ℕ)
    → length out ≡ 256
    → length r.1 ≡ 272
    → mlx5_get r.1 16 (fld resource_dump "size") ≤ limit
    → is_nonzero (copy_register out r).0 ≡ false
    → dump_get (copy_register out r).1 "size" ≤ limit
unfolding fld
copied_size-le limit out (pos zero, reply) eo er small h =
    subst (λ n. n ≤ limit) (sym (copied_size out reply eo er)) small
copied_size-le limit out (pos (suc n), reply) eo er small h = absurd (false≢true (sym h))
copied_size-le limit out (negsuc n, reply) eo er small h = absurd (false≢true (sym h))

length-copy_register : (out : List ℕ) (r : ℤ × List ℕ) → length (copy_register out r).1 ≡ length out
length-copy_register out (err, reply) = elim (Bool-cases (is_nonzero err)) [
  | inl failed ↦ rw failed refl
  | inr fine ↦ rw fine (length-splice out 0 _)
]

module _ (os : Os) (ok : IsOs os) (input out : List ℕ) (t : Trace) where
  abbrev iteration : Iteration
  iteration = (mlx5_rsc_dump_iter os input out t).0

  abbrev pub accessed : ℤ × List ℕ
  accessed = (mlx5_access_reg os input out reg_resource_dump 0 0 t).0

  pub iter-out : iteration.out ≡ accessed.1
  unfolding mlx5_rsc_dump_iter
  iter-out = after_access-out input accessed

  pub length-iter_out : length iteration.out ≡ length out
  length-iter_out = elim (access_reg_run os input out reg_resource_dump 0 0 t) [
    | inl (_, failed, _) ↦ ap length (iter-out ∙ ap (λ r. r.1) failed)
    | inr (a, b, (sent, _)) ↦ ap length (iter-out ∙ ap (λ r. r.1) sent) ∙ length-copy_register out _
  ]

  -- When every command's output holds at most `limit` in the size field of the register, so does the
  -- register that a successful iteration gives back.
  pub iter_size-le :
      (limit : ℕ)
      → ((t : Trace) (request : List ℕ) (o : List ℕ)
          → mlx5_get (os.rpc t request o).out 16 (fld resource_dump "size") ≤ limit)
      → length out ≡ 256
      → is_negative iteration.ret ≡ false
      → dump_get iteration.out "size" ≤ limit
  unfolding mlx5_rsc_dump_iter
  iter_size-le limit fits eo fine = elim (access_reg_run os input out reg_resource_dump 0 0 t) [
    | inl (_, failed, _) ↦
        absurd
          (false≢true (sym (after_access-ok input accessed fine) ∙ ap (λ r. is_nonzero r.0) failed))
    | inr (a, b, (sent, _)) ↦
        let fine' : is_nonzero accessed.0 ≡ false = after_access-ok input accessed fine in
        omega (
          arith,
          ap (λ buf. dump_get buf "size") (iter-out ∙ ap (λ r. r.1) sent),
          copied_size-le limit out _ eo
              (ok.rpc_size _ _ _ ∙ length-replicate _ 0 ∙ omega (arith, eo)) (fits _ _ _)
              (ap (λ r. is_nonzero r.0) (sym sent) ∙ fine'),
        )
  ]
