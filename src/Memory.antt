-- ===== src/Memory.antt =====
-- C buffers as lists of bytes, and the big-endian words that `be32_to_cpu` and `be64_to_cpu` of
-- ifcutil.h read from them. A position outside the buffer, undefined in C, reads as 0 here, and a
-- write there is dropped: the theorems that rest on an access state that it lies inside.
pub mod Laws
use mlx5ctl.Base.{
  ℕ, zero, suc, ◌+◌, ◌*◌, ◌/◌, ◌%◌, ◌^◌, ◌<◌, List, [], ◌∷◌, length, get_or, take, drop, replicate,
}

-- `memset(buf, 0, n)` of a fresh buffer of `n` bytes, or `u8 buf[n] = {}`.
abbrev pub zeroed : ℕ → List ℕ
zeroed n = replicate n 0

-- `memcpy(dst + off, src, length src)`.
unfoldable pub splice : List ℕ → ℕ → List ℕ → List ℕ
splice [] off src = []
splice (x ∷ xs) zero [] = x ∷ xs
splice (x ∷ xs) zero (b ∷ src) = b ∷ splice xs zero src
splice (x ∷ xs) (suc off) src = x ∷ splice xs off src

-- The `n` bytes at `buf + off`, as the source of a `memcpy`.
abbrev pub slice : List ℕ → ℕ → ℕ → List ℕ
slice buf off n = take n (drop off buf)

abbrev pub byte_at : List ℕ → ℕ → ℕ
byte_at buf i = get_or buf i 0

-- `be32_to_cpu(*(__be32 *)(buf + i))`.
abbrev pub read_be32 : List ℕ → ℕ → ℕ
read_be32 buf i =
    byte_at buf i * 0x1000000
    + byte_at buf (i + 1) * 0x10000
    + byte_at buf (i + 2) * 0x100
    + byte_at buf (i + 3)

abbrev pub be32_bytes : ℕ → List ℕ
be32_bytes w = w / 0x1000000 % 0x100 ∷ w / 0x10000 % 0x100 ∷ w / 0x100 % 0x100 ∷ w % 0x100 ∷ []

-- `*(__be32 *)(buf + i) = cpu_to_be32(w)`.
unfoldable pub write_be32 : List ℕ → ℕ → ℕ → List ℕ
unfolding splice
write_be32 buf i w = splice buf i (be32_bytes w)

-- `be64_to_cpu(*(__be64 *)(buf + i))`, by its two halves.
abbrev pub read_be64 : List ℕ → ℕ → ℕ
read_be64 buf i = read_be32 buf i * 0x100000000 + read_be32 buf (i + 4)

-- `*(__be64 *)(buf + i) = cpu_to_be64(w)`.
unfoldable pub write_be64 : List ℕ → ℕ → ℕ → List ℕ
unfolding write_be32
write_be64 buf i w = write_be32 (write_be32 buf i (w / 0x100000000)) (i + 4) (w % 0x100000000)

-- Every element is a byte.
abbrev pub IsBytes : List ℕ → Type 0
IsBytes [] = Unit {0}
IsBytes (x ∷ xs) = (x < 256) × IsBytes xs
