-- ===== src/Tests/Sample.antt =====
-- A small machine to run the model on: memory is always granted, and the device answers every command
-- with the same bytes.
use mlx5ctl.Base.{
  ℕ, zero, suc, ◌+◌, ◌-◌, ◌/◌, ◌^◌, ◌≤◌, ◌≡◌, ◌∙◌, refl, false, sym, ap, Option, none, some, List,
  [], ◌∷◌, length, arith, length-replicate, bit_and_mask,
}
use mathlib.Core.Path.{subst}
use mlx5ctl.Base.Int.{pos, is_negative}
use mlx5ctl.Memory.{IsBytes, zeroed, splice, byte_at, read_be32}
use mlx5ctl.Memory.Laws.{length-splice, splice-IsBytes, zeroed-IsBytes}
use mlx5ctl.Ifc.{fld, mlx5_get}
use mlx5ctl.Prm.Dump.{resource_dump}
use mlx5ctl.Os.{Os, IsOs, Block, Trace}
use mlx5ctl.Device.{mlx5u_cmd}
use mlx5ctl.Diag.Cap.{get_dev_freq}

abbrev block_of : Trace → ℕ → Option Block
block_of t n = some record { addr = 4096 + length t; bytes = zeroed n }

-- The answer to every command: status 0, and the resource dump register with seq_num 1, the segment
-- type 0x1000 and 4 bytes of data.
abbrev pub answer : List ℕ
answer =
    0 ∷ 0 ∷ 0 ∷ 0 ∷ 0 ∷ 0 ∷ 0 ∷ 0 ∷ 0 ∷ 0 ∷ 0 ∷ 0 ∷ 0 ∷ 0 ∷ 0 ∷ 0 ∷ 0 ∷ 1 ∷ 16 ∷ 0 ∷ 0 ∷ 0 ∷ 0 ∷ 0
    ∷ 0 ∷ 0 ∷ 0 ∷ 0 ∷ 0 ∷ 0 ∷ 0 ∷ 0 ∷ 0 ∷ 0 ∷ 0 ∷ 0 ∷ 0 ∷ 0 ∷ 0 ∷ 0 ∷ 0 ∷ 0 ∷ 0 ∷ 0 ∷ 0 ∷ 0 ∷ 0 ∷ 0
    ∷ 0 ∷ 0 ∷ 0 ∷ 0 ∷ 0 ∷ 0 ∷ 0 ∷ 4 ∷ 0 ∷ 0 ∷ 0 ∷ 0 ∷ 0 ∷ 0 ∷ 0 ∷ 0 ∷ 171 ∷ 205 ∷ 239 ∷ 1 ∷ []

unfoldable pub sample_os : Os
unfolding splice
sample_os = record {
  alloc = block_of;
  alloc_aligned = λ t align n. block_of t n;
  grow = λ t p old n. block_of t (n - old);
  rpc = λ t input out. record { ret = pos 0; out = splice (zeroed (length out)) 0 answer };
}

abbrev bytes_of : Option Block → List ℕ
bytes_of none = []
bytes_of (some b) = b.bytes

answer-IsBytes : IsBytes answer
answer-IsBytes = omega arith

sized : (n : ℕ) (t : Trace) (b : Block) → block_of t n ≡ some b → n ≡ length b.bytes
sized n t b e = sym (length-replicate n 0) ∙ ap (λ o. length (bytes_of o)) e

pub sample_os-IsOs : IsOs sample_os
unfolding sample_os
sample_os-IsOs = record {
  alloc_size = λ t n b e. sym (sized n t b e);
  grow_size = λ t p old n b h e. omega (arith, sized (n - old) t b e);
  alloc_bytes = λ t n b e. subst IsBytes (ap bytes_of e) (zeroed-IsBytes n);
  rpc_size =
      λ t input out. length-splice (zeroed (length out)) 0 answer ∙ length-replicate (length out) 0;
  rpc_bytes = λ t input out h.
      splice-IsBytes (zeroed (length out)) 0 answer (zeroed-IsBytes (length out)) answer-IsBytes;
}

-- A byte of the answer is at most what it should be, also in a short buffer.
answered : (n i : ℕ) (xs : List ℕ) → byte_at (splice (zeroed n) 0 xs) i ≤ byte_at xs i
unfolding splice
answered zero i xs = omega arith
answered (suc n) i [] = none_there (suc n) i
  where
    none_there : (n i : ℕ) → byte_at (zeroed n) i ≤ 0
    none_there zero i = omega arith
    none_there (suc n) zero = omega arith
    none_there (suc n) (suc i) = none_there n i
answered (suc n) zero (x ∷ xs) = omega arith
answered (suc n) (suc i) (x ∷ xs) = answered n i xs

pub sample_os_fits :
    (t : Trace) (request o : List ℕ)
    → mlx5_get (sample_os.rpc t request o).out 16 (fld resource_dump "size") ≤ 208
unfolding sample_os mlx5_get fld
sample_os_fits t request o = omega (
  arith,
  bit_and_mask 32 (read_be32 (splice (zeroed (length o)) 0 answer) 52 / 2 ^ 0),
  answered (length o) 52 answer,
  answered (length o) 53 answer,
  answered (length o) 54 answer,
  answered (length o) 55 answer,
)

-- Every reply is the last.
pub sample_os_stops :
    (t : Trace) (request o : List ℕ)
    → mlx5_get (sample_os.rpc t request o).out 16 (fld resource_dump "more_dump") ≡ 0
unfolding sample_os mlx5_get fld
sample_os_stops t request o =
    let w : ℕ = read_be32 (splice (zeroed (length o)) 0 answer) 16 in
    bit_and_mask 1 (w / 2 ^ 31)
    ∙ omega (
      arith,
      answered (length o) 16 answer,
      answered (length o) 17 answer,
      answered (length o) 18 answer,
      answered (length o) 19 answer,
    )

-- Memory is always granted.
pub sample_granted : (t : Trace) (n : ℕ) → (b : Block) × (sample_os.alloc t n ≡ some b)
unfolding sample_os
sample_granted t n = (record { addr = 4096 + length t; bytes = zeroed n }, refl)

-- The device tells a frequency.
pub sample_clocked : (t : Trace) → is_negative (get_dev_freq sample_os t).0 ≡ false
unfolding sample_os get_dev_freq mlx5u_cmd mlx5_get fld
sample_clocked t = refl
