-- ===== src/Rscdump/Umem/Laws.antt =====
-- What rscdump_collect_umem leaves allocated, and its test for a full buffer.
use mlx5ctl.Base.{
  ℕ, zero, suc, ◌+◌, ◌<◌, ◌≡◌, ◌∙◌, refl, inl, inr, arith, Bool-cases, ◌==◌, Option, none, some,
  List, ◌∷◌, ltb,
}
use mlx5ctl.Base.Int.{ℤ, is_negative, is_nonzero}
use mlx5ctl.Os.{Os, Block, Trace, M, address, allocated}
use mlx5ctl.Os.Live.{live, is_at, KeepsLive}
use mlx5ctl.Reg.Access.Laws.{access_reg-live}
use mlx5ctl.Reg.Ids.{reg_resource_dump}
use mlx5ctl.Umem.Buff.{UmemBuff}
use mlx5ctl.Rscdump.Iter.{dump_get, mlx5_rsc_dump_iter}
use mlx5ctl.Rscdump.Collect.{Args, Collected}
use mlx5ctl.Rscdump.Umem.{
  Dma, Filling, temp_size, remaining, outside, filled, fill_round, fill_loop, fill_temp,
  rscdump_collect_umem,
}

-- What remains never comes down to nothing, so the loop never ends for a full buffer.
pub remaining-pos : (remain iter_size : ℕ) → 0 < remain → 0 < remaining remain iter_size
remaining-pos remain iter_size h = elim (Bool-cases (ltb iter_size remain)) [
  | inl less ↦ rw less (ground arith)
  | inr more ↦ rw more h
]

fill_round-live :
    (next : Filling → M Collected) (s : Filling) (err : ℤ) (buff : List ℕ) (n : ℕ)
    → ((s1 : Filling) → KeepsLive (next s1))
    → KeepsLive (fill_round next s err buff n)
unfolding fill_round
fill_round-live next s err buff n h a t = elim (Bool-cases (outside s buff n)) [
  | inl over ↦ rw over refl
  | inr inside ↦ elim (Bool-cases ((filled s buff n).remain == 0)) [
    | inl full ↦ rw (inside, full) refl
    | inr room ↦ elim (Bool-cases (is_nonzero err)) [
      | inl again ↦ rw (inside, room, again) (h (filled s buff n) a _)
      | inr last ↦ rw (inside, room, last) refl
    ]
  ]
]

module _ (os : Os) where
  pub iter-live : (input out : List ℕ) → KeepsLive (mlx5_rsc_dump_iter os input out)
  unfolding mlx5_rsc_dump_iter
  iter-live input out a t = access_reg-live os input out reg_resource_dump 0 0 t a

  module _ (dma : Dma) where
    fill_loop-live :
        (fuel : ℕ) (u : UmemBuff) (s : Filling) (input out : List ℕ)
        → KeepsLive (fill_loop os dma fuel u s input out)
    unfolding fill_loop
    fill_loop-live zero u s input out a t = refl
    fill_loop-live (suc fuel) u s input out a t =
        let (r, t1) = mlx5_rsc_dump_iter os input out t in
        elim (Bool-cases (is_negative r.ret)) [
          | inl failed ↦ rw failed (iter-live input out a t)
          | inr fine ↦ rw fine (
              fill_round-live (λ s1. fill_loop os dma fuel u s1 r.input r.out) s r.ret
                (dma t1 u.buff) (dump_get r.out "size")
                (λ s1. fill_loop-live fuel u s1 r.input r.out) a t1
              ∙ iter-live input out a t)
        ]

    fill_temp-live :
        (fuel : ℕ) (args : Args) (u : UmemBuff) (b : Option Block)
        → KeepsLive (fill_temp os dma fuel args u b)
    fill_temp-live fuel args u none a t = refl
    fill_temp-live fuel args u (some b) a t = fill_loop-live fuel u _ _ _ a t

    pub collect_umem-live :
        (fuel : ℕ) (args : Args) (u : UmemBuff) (a : ℕ) (t : Trace)
        → live a (rscdump_collect_umem os dma fuel args u t).1
          ≡ live a t + is_at a (address (os.alloc t temp_size))
    unfolding rscdump_collect_umem
    collect_umem-live fuel args u a t =
        fill_temp-live fuel args u (os.alloc t temp_size) a
          (allocated temp_size (address (os.alloc t temp_size)) ∷ t)
