-- ===== src/Memory/Laws.antt =====
-- What the writes of Memory leave and change, byte by byte and word by word.
use mlx5ctl.Base.{
  ℕ, zero, suc, ◌+◌, ◌/◌, ◌%◌, ◌^◌, ◌≤◌, ◌<◌, ◌≡◌, refl, ap, ◌∙◌, ◌⊎◌, List, [], ◌∷◌, arith, length,
}
use mlx5ctl.Memory.{
  zeroed, splice, byte_at, read_be32, read_be64, be32_bytes, write_be32, write_be64, IsBytes,
}

pub length-splice : (xs : List ℕ) (off : ℕ) (src : List ℕ) → length (splice xs off src) ≡ length xs
unfolding splice
length-splice [] off src = refl
length-splice (x ∷ xs) zero [] = refl
length-splice (x ∷ xs) zero (b ∷ src) = ap suc (length-splice xs zero src)
length-splice (x ∷ xs) (suc off) src = ap suc (length-splice xs off src)

pub splice_inside :
    (xs : List ℕ) (off : ℕ) (src : List ℕ) (i j : ℕ)
    → i ≡ off + j
    → j < length src
    → i < length xs
    → byte_at (splice xs off src) i ≡ byte_at src j
unfolding splice
splice_inside [] off src i j e h k = absurd (omega arith)
splice_inside (x ∷ xs) zero [] i j e h k = absurd (omega arith)
splice_inside (x ∷ xs) zero (b ∷ src) zero zero e h k = refl
splice_inside (x ∷ xs) zero (b ∷ src) zero (suc j) e h k = absurd (omega arith)
splice_inside (x ∷ xs) zero (b ∷ src) (suc i) zero e h k = absurd (omega arith)
splice_inside (x ∷ xs) zero (b ∷ src) (suc i) (suc j) e h k =
    splice_inside xs zero src i j (omega arith) (omega arith) (omega arith)
splice_inside (x ∷ xs) (suc off) src zero j e h k = absurd (omega arith)
splice_inside (x ∷ xs) (suc off) src (suc i) j e h k =
    splice_inside xs off src i j (omega arith) h (omega arith)

pub splice_outside :
    (xs : List ℕ) (off : ℕ) (src : List ℕ) (j : ℕ)
    → (j < off) ⊎ (off + length src ≤ j)
    → byte_at (splice xs off src) j ≡ byte_at xs j
unfolding splice
splice_outside [] off src j h = refl
splice_outside (x ∷ xs) zero [] j h = refl
splice_outside (x ∷ xs) zero (b ∷ src) zero h = absurd (omega arith)
splice_outside (x ∷ xs) zero (b ∷ src) (suc j) h = splice_outside xs zero src j (omega arith)
splice_outside (x ∷ xs) (suc off) src zero h = refl
splice_outside (x ∷ xs) (suc off) src (suc j) h = splice_outside xs off src j (omega arith)

pub byte_at-lt : (xs : List ℕ) (j : ℕ) → IsBytes xs → byte_at xs j < 256
byte_at-lt [] j h = omega arith
byte_at-lt (x ∷ xs) zero h = h.0
byte_at-lt (x ∷ xs) (suc j) h = byte_at-lt xs j h.1

pub splice-IsBytes :
    (xs : List ℕ) (off : ℕ) (src : List ℕ) → IsBytes xs → IsBytes src → IsBytes (splice xs off src)
unfolding splice
splice-IsBytes [] off src h k = tt
splice-IsBytes (x ∷ xs) zero [] h k = h
splice-IsBytes (x ∷ xs) zero (b ∷ src) h k = (k.0, splice-IsBytes xs zero src h.1 k.1)
splice-IsBytes (x ∷ xs) (suc off) src h k = (h.0, splice-IsBytes xs off src h.1 k)

pub zeroed-IsBytes : (n : ℕ) → IsBytes (zeroed n)
zeroed-IsBytes zero = tt
zeroed-IsBytes (suc n) = (omega arith, zeroed-IsBytes n)

pub write_be32-IsBytes : (xs : List ℕ) (i w : ℕ) → IsBytes xs → IsBytes (write_be32 xs i w)
unfolding write_be32
write_be32-IsBytes xs i w h = splice-IsBytes xs i (be32_bytes w) h (omega arith)

pub read_be32-lt : (xs : List ℕ) (i : ℕ) → IsBytes xs → read_be32 xs i < 2 ^ 32
read_be32-lt xs i h = omega (
  arith,
  byte_at-lt xs i h,
  byte_at-lt xs (i + 1) h,
  byte_at-lt xs (i + 2) h,
  byte_at-lt xs (i + 3) h,
)

pub length-write_be32 : (xs : List ℕ) (i w : ℕ) → length (write_be32 xs i w) ≡ length xs
unfolding write_be32
length-write_be32 xs i w = length-splice xs i (be32_bytes w)

pub read-write_be32 :
    (xs : List ℕ) (i w : ℕ) → i + 4 ≤ length xs → w < 2 ^ 32 → read_be32 (write_be32 xs i w) i ≡ w
unfolding write_be32
read-write_be32 xs i w fits small =
    let src : List ℕ = be32_bytes w in
    let b0 : byte_at (splice xs i src) i ≡ w / 0x1000000 % 0x100 =
      splice_inside xs i src i 0 (omega arith) (omega arith) (omega arith) in
    let b1 : byte_at (splice xs i src) (i + 1) ≡ w / 0x10000 % 0x100 =
      splice_inside xs i src (i + 1) 1 (omega arith) (omega arith) (omega arith) in
    let b2 : byte_at (splice xs i src) (i + 2) ≡ w / 0x100 % 0x100 =
      splice_inside xs i src (i + 2) 2 (omega arith) (omega arith) (omega arith) in
    let b3 : byte_at (splice xs i src) (i + 3) ≡ w % 0x100 =
      splice_inside xs i src (i + 3) 3 (omega arith) (omega arith) (omega arith) in
    rw (b0, b1, b2, b3) (omega arith)

pub read-write_be32_ne :
    (xs : List ℕ) (i j w : ℕ)
    → (j + 4 ≤ i) ⊎ (i + 4 ≤ j)
    → read_be32 (write_be32 xs i w) j ≡ read_be32 xs j
unfolding write_be32
read-write_be32_ne xs i j w apart = omega (
  arith,
  splice_outside xs i (be32_bytes w) j (omega arith),
  splice_outside xs i (be32_bytes w) (j + 1) (omega arith),
  splice_outside xs i (be32_bytes w) (j + 2) (omega arith),
  splice_outside xs i (be32_bytes w) (j + 3) (omega arith),
)

pub length-write_be64 : (xs : List ℕ) (i w : ℕ) → length (write_be64 xs i w) ≡ length xs
unfolding write_be64
length-write_be64 xs i w = length-splice _ _ _ ∙ length-splice _ _ _

pub read-write_be64 :
    (xs : List ℕ) (i w : ℕ) → i + 8 ≤ length xs → w < 2 ^ 64 → read_be64 (write_be64 xs i w) i ≡ w
unfolding write_be64
read-write_be64 xs i w fits small =
    let half : List ℕ = write_be32 xs i (w / 0x100000000) in
    omega (
      arith,
      length-write_be32 xs i (w / 0x100000000),
      read-write_be32_ne half (i + 4) i (w % 0x100000000) (omega arith),
      read-write_be32 xs i (w / 0x100000000) (omega arith) (omega arith),
      read-write_be32 half (i + 4) (w % 0x100000000)
          (omega (arith, length-write_be32 xs i (w / 0x100000000))) (omega arith),
    )

pub byte_at-write_be32 :
    (xs : List ℕ) (i w j : ℕ) → (j < i) ⊎ (i + 4 ≤ j) → byte_at (write_be32 xs i w) j ≡ byte_at xs j
unfolding write_be32
byte_at-write_be32 xs i w j away = splice_outside xs i (be32_bytes w) j away

pub read-write_be64_ne :
    (xs : List ℕ) (i j w : ℕ)
    → (j + 4 ≤ i) ⊎ (i + 8 ≤ j)
    → read_be32 (write_be64 xs i w) j ≡ read_be32 xs j
unfolding write_be64
read-write_be64_ne xs i j w apart =
    read-write_be32_ne (write_be32 xs i (w / 0x100000000)) (i + 4) j (w % 0x100000000) (omega arith)
    ∙ read-write_be32_ne xs i j (w / 0x100000000) (omega arith)
