-- ===== src/Umem/Buff.antt =====
-- mlx5lib_alloc_umem_mkey_buff and mlx5lib_free_umem_mkey_buff of mlx5lib.c.
pub mod Laws
use mlx5ctl.Base.{
  ℕ, ◌+◌, ◌-◌, ◌*◌, ◌/◌, ◌%◌, ◌^◌, bit_and, if◌then◌else◌, Option, none, some, List, [], ◌∷◌,
}
use mlx5ctl.Base.Int.{ℤ, pos, negsuc, is_nonzero, is_negative, abs}
use mlx5ctl.Os.{Os, Block, M, ◌>>=◌, ◌>>◌, pure, malloc, memalign, free}
use mlx5ctl.Umem.Mkey.{mlx5lib_create_umem_mkey, mlx5lib_destroy_mkey}

abbrev pub umem_page_size : ℕ
umem_page_size = 4096

-- ALIGN(x, a) on `size_t`: `(x + (a - 1)) & ~(a - 1)`.
pub align : ℕ → ℕ → ℕ
align x a = bit_and ((x + (a - 1)) % 2 ^ 64) (2 ^ 64 - 1 - (a - 1))

-- `struct mlx5_umem_buff` with the blocks that it and its buffer stand in.
pub record UmemBuff : Type 0 where
  pub self : Block
  pub buff : Block
  pub size : ℕ
  pub umem_id : ℕ
  pub umem_mkey : ℕ

-- mlx5u_umem_reg and mlx5u_umem_unreg.
pub record UmemApi : Type 0 where
  pub umem_reg : ℕ → ℕ → M ℤ
  pub umem_unreg : ℕ → M ℤ

-- What mlx5ctl_misc.c compiles: the ioctl versions stand under `#if 0`.
abbrev pub mlx5u_umem : UmemApi
mlx5u_umem = record {
  umem_reg = λ addr len. pure (negsuc 0);
  umem_unreg = λ umem_id. pure (negsuc 0);
}

-- `sizeof(struct mlx5_umem_buff)`: two 64-bit and two 32-bit members.
abbrev pub sizeof_umem_buff : ℕ
sizeof_umem_buff = 24

module _ (os : Os) (api : UmemApi) where
  -- From the registration on. A negative result of the registration is an error, any other the id.
  pub register_buff : Block → Block → ℕ → ℕ → M (Option UmemBuff)
  register_buff self buff size pdn = do
    ret ← api.umem_reg buff.addr size
    if is_negative ret then (do free (some buff); free (some self); pure none) else (do
      (err, mkey) ← mlx5lib_create_umem_mkey os pdn (abs ret) buff.addr (size % 2 ^ 32) 0
      if is_nonzero err
          then (do api.umem_unreg (abs ret); free (some buff); free (some self); pure none)
          else pure (
              some record {
                self = self;
                buff = buff;
                size = size;
                umem_id = abs ret;
                umem_mkey = mkey;
              }))

  fill_buff : Option Block → ℕ → ℕ → M (Option UmemBuff)
  unfolding register_buff align
  fill_buff none size pdn = pure none
  fill_buff (some self) size pdn = do
    buff ← memalign os umem_page_size (align size umem_page_size)
    elim buff [
      | none ↦ (do free (some self); pure none)
      | some b ↦ register_buff self b (align size umem_page_size) pdn
    ]

  unfoldable pub mlx5lib_alloc_umem_mkey_buff : ℕ → ℕ → M (Option UmemBuff)
  unfolding fill_buff
  mlx5lib_alloc_umem_mkey_buff size pdn = do
    self ← malloc os sizeof_umem_buff
    fill_buff self size pdn

  unfoldable pub mlx5lib_free_umem_mkey_buff : UmemBuff → M (Unit {0})
  mlx5lib_free_umem_mkey_buff u = do
    mlx5lib_destroy_mkey os u.umem_mkey
    api.umem_unreg u.umem_id
    free (some u.buff)
    free (some u.self)
