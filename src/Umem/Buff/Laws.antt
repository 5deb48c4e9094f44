-- ===== src/Umem/Buff/Laws.antt =====
-- Allocation and release of the buffers that the device writes: sizes, and the blocks left behind.
use mlx5ctl.Base.{
  ℕ, ◌+◌, ◌-◌, ◌*◌, ◌/◌, ◌%◌, ◌^◌, ◌≤◌, ◌<◌, ◌≡◌, ◌∙◌, ap₂, refl, inl, inr, bit_and, Option, none,
  some, ◌∷◌, arith, bit_and_keep, word, Option-cases,
}
use mlx5ctl.Base.Int.{abs}
use mlx5ctl.Os.{Os, Trace, M, Block, ◌>>=◌, pure, allocated}
use mlx5ctl.Os.Live.{KeepsLive, Quiet, live, is_at}
use mlx5ctl.Device.{mlx5u_cmd}
use mlx5ctl.Umem.Mkey.{mlx5lib_create_umem_mkey, mlx5lib_destroy_mkey}
use mlx5ctl.Umem.Buff.{
  align, UmemBuff, UmemApi, mlx5u_umem, register_buff, fill_buff, mlx5lib_alloc_umem_mkey_buff,
  mlx5lib_free_umem_mkey_buff, sizeof_umem_buff,
}

-- ALIGN(x, 4096) is the least multiple of the page size that is not below `x`, when `x` leaves room.
align_lem : (x : ℕ) → x + 4095 < 2 ^ 64 → align x 4096 ≡ (x + 4095) / 4096 * 4096
unfolding align
align_lem x h =
    let y : ℕ = x + 4095 in
    ap₂ bit_and {x = y % 2 ^ 64} {y = word 0 12 (y / 4096) (y % 4096) 0} {u = 2 ^ 64 - 1 - 4095}
      {v = word 0 12 (2 ^ 52 - 1) 0 (2 ^ 0 - 1)} (omega arith) refl
    ∙ bit_and_keep 0 12 52 (y / 4096) (y % 4096) 0 (omega arith) (omega arith) (omega arith)
    ∙ omega arith

-- For a size that leaves room for rounding up in 64 bits, ALIGN gives the least multiple of the
-- page size that is not below it.
pub align_least :
    (x : ℕ)
    → x + 4095 < 2 ^ 64
    → (x ≤ align x 4096) × (align x 4096 < x + 4096) × (align x 4096 % 4096 ≡ 0)
align_least x h = omega (arith, align_lem x h)

-- What is alive after the allocation, by its result.
abbrev pub holding : ℕ → Option UmemBuff → ℕ
holding a none = 0
holding a (some u) = is_at a (some u.self.addr) + is_at a (some u.buff.addr)

module _ (os : Os) (api : UmemApi)
    (reg_keeps : (addr size : ℕ) → KeepsLive (api.umem_reg addr size))
    (unreg_keeps : (id : ℕ) → KeepsLive (api.umem_unreg id)) where
  create_mkey-live :
      (pdn id addr len mkey : ℕ) → KeepsLive (mlx5lib_create_umem_mkey os pdn id addr len mkey)
  unfolding mlx5lib_create_umem_mkey mlx5u_cmd
  create_mkey-live pdn id addr len mkey a t = ground arith

  destroy_mkey-live : (mkey : ℕ) → KeepsLive (mlx5lib_destroy_mkey os mkey)
  unfolding mlx5lib_destroy_mkey mlx5u_cmd
  destroy_mkey-live mkey a t = ground arith

  register_buff-live :
      (self buff : Block) (size pdn a base : ℕ) (t : Trace)
      → live a t ≡ base + (is_at a (some self.addr) + is_at a (some buff.addr))
      → let (u, t') = register_buff os api self buff size pdn t in live a t' ≡ base + holding a u
  unfolding register_buff
  register_buff-live self buff size pdn a base t h =
      let (ret, t1) = api.umem_reg buff.addr size t in
      let (made, t2) = mlx5lib_create_umem_mkey os pdn (abs ret) buff.addr (size % 2 ^ 32) 0 t1 in
      ground (
        arith,
        reg_keeps buff.addr size a t,
        create_mkey-live pdn (abs ret) buff.addr (size % 2 ^ 32) 0 a t1,
        unreg_keeps (abs ret) a t2,
      )

  -- With a registration that allocates nothing itself, an mlx5lib_alloc_umem_mkey_buff that
  -- fails at any step leaves nothing allocated behind, and one that succeeds leaves just the two
  -- blocks of its result.
  pub alloc_umem_mkey_buff-live :
      (size pdn a : ℕ) (t : Trace)
      → let (u, t') = mlx5lib_alloc_umem_mkey_buff os api size pdn t in
        live a t' ≡ live a t + holding a u
  unfolding mlx5lib_alloc_umem_mkey_buff fill_buff
  alloc_umem_mkey_buff-live size pdn a t = elim (Option-cases (os.alloc t sizeof_umem_buff)) [
    | inl no_self ↦ ground arith
    | inr (self, got) ↦
        let t1 : Trace = allocated sizeof_umem_buff (some self.addr) ∷ t in
        elim (Option-cases (os.alloc_aligned t1 4096 (align size 4096))) [
          | inl no_buff ↦ ground arith
          | inr (b, got_buff) ↦ ground (
            arith,
            register_buff-live self b (align size 4096) pdn a (live a t)
                (allocated (align size 4096) (some b.addr) ∷ t1),
          )
        ]
  ]

  -- Freeing the buffer takes back what the allocation left.
  pub free_umem_mkey_buff-live :
      (u : UmemBuff) (a : ℕ) (t : Trace)
      → live a (mlx5lib_free_umem_mkey_buff os api u t).1 ≡ live a t - holding a (some u)
  unfolding mlx5lib_free_umem_mkey_buff
  free_umem_mkey_buff-live u a t =
      let (r, t1) = mlx5lib_destroy_mkey os u.umem_mkey t in
      ground (arith, destroy_mkey-live u.umem_mkey a t, unreg_keeps u.umem_id a t1)

  abbrev pub free_if_any : Option UmemBuff → M (Unit {0})
  free_if_any none = pure tt
  free_if_any (some u) = mlx5lib_free_umem_mkey_buff os api u

  -- With a registration that allocates nothing itself, mlx5lib_alloc_umem_mkey_buff followed by
  -- mlx5lib_free_umem_mkey_buff on what it gave, if anything, leaves as many blocks allocated at
  -- every address as before.
  pub alloc-free-live :
      (size pdn : ℕ) → KeepsLive (mlx5lib_alloc_umem_mkey_buff os api size pdn >>= free_if_any)
  alloc-free-live size pdn a t =
      let (u, t1) = mlx5lib_alloc_umem_mkey_buff os api size pdn t in
      after u t1 (alloc_umem_mkey_buff-live size pdn a t)
    where
      after :
          (u : Option UmemBuff) (t1 : Trace)
          → live a t1 ≡ live a t + holding a u
          → live a (free_if_any u t1).1 ≡ live a t
      after none t1 h = omega (arith, h)
      after (some u) t1 h = omega (arith, h, free_umem_mkey_buff-live u a t1)

-- With the registration that mlx5ctl_misc.c compiles, mlx5lib_alloc_umem_mkey_buff always
-- returns NULL.
pub alloc_umem_mkey_buff_fails :
    (os : Os) (size pdn : ℕ) (t : Trace)
    → (mlx5lib_alloc_umem_mkey_buff os mlx5u_umem size pdn t).0 ≡ none
unfolding mlx5lib_alloc_umem_mkey_buff fill_buff register_buff
alloc_umem_mkey_buff_fails os size pdn t = ground arith

module _ (os : Os) where
  -- A buffer that is not registered is given back, and nothing is sent for it.
  pub alloc_umem-Quiet :
      (size pdn : ℕ) (t : Trace) → Quiet t (mlx5lib_alloc_umem_mkey_buff os mlx5u_umem size pdn t).1
  unfolding mlx5lib_alloc_umem_mkey_buff fill_buff register_buff
  alloc_umem-Quiet size pdn t = elim (Option-cases (os.alloc t sizeof_umem_buff)) [
    | inl no_self ↦ rw no_self (λ a. omega arith, refl)
    | inr (self, got) ↦
        let t1 : Trace = allocated sizeof_umem_buff (some self.addr) ∷ t in
        elim (Option-cases (os.alloc_aligned t1 4096 (align size 4096))) [
          | inl no_buff ↦ rw (got, no_buff) (λ a. omega arith, refl)
          | inr (b, got_buff) ↦ rw (got, got_buff) (λ a. omega arith, refl)
        ]
  ]
