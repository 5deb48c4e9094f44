-- ===== src/Ifc/Laws.antt =====
-- MLX5_GET and MLX5_SET against plain arithmetic on the word of a field, and against each other.
use mlx5ctl.Base.{
  ℕ, ◌+◌, ◌-◌, ◌*◌, ◌/◌, ◌%◌, ◌^◌, ◌≤◌, ◌<◌, ◌≡◌, ◌∙◌, sym, ap, ap₂, bit_and, bit_or, List, length,
  arith, bit_and_mask, get_bits, put_bits, clear_fill, get_put_bits, put_bits-lt, two_pow_pos,
  field_fits, mod_mod_pow, get_put_above, get_put_below, ◌⊎◌, inl, inr, refl, ◌==◌, ==_iff,
  Bool-cases, false,
}
use native.Mathlib.Nat.{pow-le-pow_right, mod-lt, mod-eq_of_lt}
use mlx5ctl.Memory.{read_be32, write_be32, byte_at, IsBytes}
use mlx5ctl.Memory.Laws.{
  read-write_be32, read-write_be32_ne, read_be32-lt, length-write_be32, write_be32-IsBytes,
  byte_at-write_be32, read-write_be64, read-write_be64_ne,
}
use mlx5ctl.Ifc.{
  Field, dw_off, dw_bit_off, mask, not32, off_64, mlx5_get, mlx5_set, mlx5_get64, mlx5_set64,
  IsWord, Holds,
}

-- Position and width of a field inside its word, counted from the low end.
abbrev pub low_bit : Field → ℕ
low_bit f = 32 - f.bit_sz - f.bit_off % 32

dw_bit_off_lem : (f : Field) → dw_bit_off f ≡ low_bit f
dw_bit_off_lem f = ap (λ (t : ℕ). 32 - f.bit_sz - t) (bit_and_mask 5 f.bit_off)

two_pow-le : (s : ℕ) → s ≤ 32 → 2 ^ s ≤ 2 ^ 32
two_pow-le s h = pow-le-pow_right (omega arith) h

mask_lem : (f : Field) → IsWord f → mask f ≡ 2 ^ f.bit_sz - 1
mask_lem f h = mod-eq_of_lt (omega (arith, two_pow-le f.bit_sz (omega arith), two_pow_pos f.bit_sz))

-- The word that a field lies in.
abbrev pub word_of : List ℕ → ℕ → Field → ℕ
word_of buf p f = read_be32 buf (p + 4 * dw_off f)

-- MLX5_GET reads the bits of the field.
pub mlx5_get_bits :
    (buf : List ℕ) (p : ℕ) (f : Field)
    → IsWord f
    → mlx5_get buf p f ≡ get_bits (low_bit f) f.bit_sz (word_of buf p f)
unfolding mlx5_get
mlx5_get_bits buf p f h =
    ap₂ (λ a b. bit_and (word_of buf p f / 2 ^ a) b) (dw_bit_off_lem f) (mask_lem f h)
    ∙ bit_and_mask f.bit_sz (word_of buf p f / 2 ^ low_bit f)

-- The new word that MLX5_SET computes, at shift `a` and mask `b`.
abbrev set_word : ℕ → ℕ → ℕ → ℕ → ℕ
set_word a b w v =
    bit_or (bit_and w (not32 (b * 2 ^ a % 2 ^ 32))) (bit_and (v % 2 ^ 32) b * 2 ^ a % 2 ^ 32)

block-lt : (x k s : ℕ) → k + s ≤ 32 → x < 2 ^ s → x * 2 ^ k < 2 ^ 32
block-lt x k s h q = grind (arith, field_fits k s h, two_pow_pos k)

set_word_lem :
    (k s v w : ℕ)
    → k + s ≤ 32
    → w < 2 ^ 32
    → set_word k (2 ^ s - 1) w v ≡ put_bits k s (v % 2 ^ s) w
set_word_lem k s v w h small =
    let new-lt : v % 2 ^ s < 2 ^ s = mod-lt v (two_pow_pos s) in
    ap₂ (λ (a b : ℕ). bit_or (bit_and w (not32 a)) b)
      (mod-eq_of_lt (block-lt (2 ^ s - 1) k s h (omega (arith, two_pow_pos s))))
      (ap (λ (t : ℕ). t * 2 ^ k % 2 ^ 32)
          (bit_and_mask s (v % 2 ^ 32) ∙ mod_mod_pow s v (omega arith))
        ∙ mod-eq_of_lt (block-lt (v % 2 ^ s) k s h new-lt))
    ∙ clear_fill k s (v % 2 ^ s) w h new-lt small

-- MLX5_SET replaces them, by the low bits of the value.
pub mlx5_set_bits :
    (buf : List ℕ) (p : ℕ) (f : Field) (v : ℕ)
    → IsWord f
    → IsBytes buf
    → mlx5_set buf p f v
      ≡ write_be32 buf
          (p + 4 * dw_off f)
          (put_bits (low_bit f) f.bit_sz (v % 2 ^ f.bit_sz) (word_of buf p f))
unfolding mlx5_set
mlx5_set_bits buf p f v h bytes =
    ap₂ (λ (a b : ℕ). write_be32 buf (p + 4 * dw_off f) (set_word a b (word_of buf p f) v))
      (dw_bit_off_lem f) (mask_lem f h)
    ∙ ap (write_be32 buf (p + 4 * dw_off f)) (
        set_word_lem (low_bit f) f.bit_sz v (word_of buf p f) (omega arith)
          (read_be32-lt buf (p + 4 * dw_off f) bytes))

-- MLX5_GET of a field after MLX5_SET of it gives the low bits of the value, as many as the field
-- has, when the field lies inside a 32-bit word, that word inside the buffer and the buffer
-- holds bytes.
pub get-set :
    (buf : List ℕ) (p : ℕ) (f : Field) (v : ℕ)
    → IsWord f
    → Holds (length buf) p f
    → IsBytes buf
    → mlx5_get (mlx5_set buf p f v) p f ≡ v % 2 ^ f.bit_sz
get-set buf p f v h inside bytes =
    let at : ℕ = p + 4 * dw_off f in
    let k : ℕ = low_bit f in
    let w : ℕ = word_of buf p f in
    let new-lt : v % 2 ^ f.bit_sz < 2 ^ f.bit_sz = mod-lt v (two_pow_pos f.bit_sz) in
    ap (λ b. mlx5_get b p f) (mlx5_set_bits buf p f v h bytes)
    ∙ mlx5_get_bits (write_be32 buf at (put_bits k f.bit_sz (v % 2 ^ f.bit_sz) w)) p f h
    ∙ ap (get_bits k f.bit_sz) (
        read-write_be32 buf at (put_bits k f.bit_sz (v % 2 ^ f.bit_sz) w) inside (
          put_bits-lt k f.bit_sz (v % 2 ^ f.bit_sz) w (omega arith) new-lt
            (read_be32-lt buf at bytes)))
    ∙ get_put_bits k f.bit_sz (v % 2 ^ f.bit_sz) w new-lt

abbrev pub Disjoint : Field → Field → Type 0
Disjoint f g = (f.bit_off + f.bit_sz ≤ g.bit_off) ⊎ (g.bit_off + g.bit_sz ≤ f.bit_off)

words_apart :
    (p a b : ℕ) → (a == b) ≡ false → (p + 4 * b + 4 ≤ p + 4 * a) ⊎ (p + 4 * a + 4 ≤ p + 4 * b)
words_apart p a b h = ground arith

-- Two fields of one word, as positions in it.
same_word_apart :
    (f g : Field)
    → IsWord f
    → IsWord g
    → Disjoint f g
    → dw_off f ≡ dw_off g
    → (low_bit f + f.bit_sz ≤ low_bit g) ⊎ (low_bit g + g.bit_sz ≤ low_bit f)
same_word_apart f g hf hg (inl before) e = inr (omega arith)
same_word_apart f g hf hg (inr after) e = inl (omega arith)

get_put_apart :
    (k s k' s' v w : ℕ)
    → (k + s ≤ k') ⊎ (k' + s' ≤ k)
    → v < 2 ^ s
    → get_bits k' s' (put_bits k s v w) ≡ get_bits k' s' w
get_put_apart k s k' s' v w (inl above) h = get_put_above k s k' s' v w above h
get_put_apart k s k' s' v w (inr below) h = get_put_below k s k' s' v w below

-- The word of `g` after the write of `f`, in the same word or in another.
word_after :
    (buf : List ℕ) (p : ℕ) (f g : Field) (v w : ℕ)
    → w ≡ put_bits (low_bit f) f.bit_sz v (word_of buf p f)
    → v < 2 ^ f.bit_sz
    → w < 2 ^ 32
    → IsWord f
    → IsWord g
    → Disjoint f g
    → Holds (length buf) p f
    → get_bits (low_bit g) g.bit_sz (word_of (write_be32 buf (p + 4 * dw_off f) w) p g)
      ≡ get_bits (low_bit g) g.bit_sz (word_of buf p g)
word_after buf p f g v w def new-lt small hf hg apart inside =
    elim (Bool-cases (dw_off f == dw_off g)) [
      | inl same ↦
          let e : dw_off f ≡ dw_off g = (==_iff (dw_off f) (dw_off g)).0 same in
          let k : ℕ = low_bit g in
          ap
            (λ d. get_bits k g.bit_sz (read_be32 (write_be32 buf (p + 4 * dw_off f) w) (p + 4 * d)))
            (sym e)
          ∙ ap (get_bits k g.bit_sz) (read-write_be32 buf (p + 4 * dw_off f) w inside small ∙ def)
          ∙ get_put_apart (low_bit f) f.bit_sz k g.bit_sz v (word_of buf p f)
              (same_word_apart f g hf hg apart e) new-lt
          ∙ ap (λ d. get_bits k g.bit_sz (read_be32 buf (p + 4 * d))) e
      | inr other ↦ ap (get_bits (low_bit g) g.bit_sz) (
          read-write_be32_ne buf (p + 4 * dw_off f) (p + 4 * dw_off g) w
            (words_apart p (dw_off f) (dw_off g) other))
    ]

-- Setting a field leaves every other field alone.
pub get-set_ne :
    (buf : List ℕ) (p : ℕ) (f g : Field) (v : ℕ)
    → IsWord f
    → IsWord g
    → Disjoint f g
    → Holds (length buf) p f
    → IsBytes buf
    → mlx5_get (mlx5_set buf p f v) p g ≡ mlx5_get buf p g
get-set_ne buf p f g v hf hg apart inside bytes =
    let new : ℕ = v % 2 ^ f.bit_sz in
    let w : ℕ = put_bits (low_bit f) f.bit_sz new (word_of buf p f) in
    let new-lt : new < 2 ^ f.bit_sz = mod-lt v (two_pow_pos f.bit_sz) in
    ap (λ b. mlx5_get b p g) (mlx5_set_bits buf p f v hf bytes)
    ∙ mlx5_get_bits (write_be32 buf (p + 4 * dw_off f) w) p g hg
    ∙ word_after buf p f g new w refl new-lt
        (put_bits-lt (low_bit f) f.bit_sz new (word_of buf p f) (omega arith) new-lt
          (read_be32-lt buf (p + 4 * dw_off f) bytes))
        hf hg apart inside
    ∙ sym (mlx5_get_bits buf p g hg)

-- The value of a field is below two to its width.
pub mlx5_get-lt : (buf : List ℕ) (p : ℕ) (f : Field) → IsWord f → mlx5_get buf p f < 2 ^ f.bit_sz
mlx5_get-lt buf p f h = rw (mlx5_get_bits buf p f h) (mod-lt _ (two_pow_pos f.bit_sz))

pub length-mlx5_set :
    (buf : List ℕ) (p : ℕ) (f : Field) (v : ℕ) → length (mlx5_set buf p f v) ≡ length buf
unfolding mlx5_set
length-mlx5_set buf p f v = length-write_be32 buf _ _

pub mlx5_set-IsBytes :
    (buf : List ℕ) (p : ℕ) (f : Field) (v : ℕ) → IsBytes buf → IsBytes (mlx5_set buf p f v)
unfolding mlx5_set
mlx5_set-IsBytes buf p f v h = write_be32-IsBytes buf _ _ h

-- MLX5_SET writes no byte outside the word of the field.
pub byte_at-mlx5_set :
    (buf : List ℕ) (p : ℕ) (f : Field) (v j : ℕ)
    → (j < p + 4 * dw_off f) ⊎ (p + 4 * dw_off f + 4 ≤ j)
    → byte_at (mlx5_set buf p f v) j ≡ byte_at buf j
unfolding mlx5_set
byte_at-mlx5_set buf p f v j away = byte_at-write_be32 buf (p + 4 * dw_off f) _ j away

-- A field in another word, also behind another pointer, reads the same after MLX5_SET.
pub get-set_far :
    (buf : List ℕ) (p : ℕ) (f : Field) (v q : ℕ) (g : Field)
    → (q + 4 * dw_off g + 4 ≤ p + 4 * dw_off f) ⊎ (p + 4 * dw_off f + 4 ≤ q + 4 * dw_off g)
    → mlx5_get (mlx5_set buf p f v) q g ≡ mlx5_get buf q g
unfolding mlx5_set mlx5_get
get-set_far buf p f v q g apart =
    ap (λ w. bit_and (w / 2 ^ dw_bit_off g) (mask g))
      (read-write_be32_ne buf (p + 4 * dw_off f) (q + 4 * dw_off g) _ apart)

pub get-set64_far :
    (buf : List ℕ) (p : ℕ) (f : Field) (v q : ℕ) (g : Field)
    → (q + 4 * dw_off g + 4 ≤ p + 8 * off_64 f) ⊎ (p + 8 * off_64 f + 8 ≤ q + 4 * dw_off g)
    → mlx5_get (mlx5_set64 buf p f v) q g ≡ mlx5_get buf q g
unfolding mlx5_set64 mlx5_get
get-set64_far buf p f v q g apart =
    ap (λ w. bit_and (w / 2 ^ dw_bit_off g) (mask g))
      (read-write_be64_ne buf (p + 8 * off_64 f) (q + 4 * dw_off g) _ apart)

-- MLX5_GET64 of a field after MLX5_SET64 of it gives the value cut to 64 bits, when its 8 bytes
-- lie inside the buffer.
pub get64-set64 :
    (buf : List ℕ) (p : ℕ) (f : Field) (v : ℕ)
    → p + 8 * off_64 f + 8 ≤ length buf
    → mlx5_get64 (mlx5_set64 buf p f v) p f ≡ v % 2 ^ 64
unfolding mlx5_set64 mlx5_get64
get64-set64 buf p f v inside =
    read-write_be64 buf (p + 8 * off_64 f) (v % 2 ^ 64) inside (omega arith)
