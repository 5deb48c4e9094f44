-- ===== src/Base/Words.antt =====
-- A 32-bit word seen as a field of `s` bits at position `k` with the bits above and below it.
use Prim.Native.Nat.{ℕ, zero, suc, ◌+◌, ◌-◌, ◌*◌, ◌/◌, ◌%◌, ◌^◌, ◌≤◌, ◌<◌, bit_and, bit_or}
use mathlib.Core.Path.{◌≡◌, sym, ap, ap₂, ◌∙◌}
use native.Mathlib.Omega.{arith}
use native.Mathlib.Nat.{
  one-le-pow, div-add-mod', mod-lt, div-div-eq-div-mul, mul_comm, add_comm, mod-mod_of_dvd,
  dvd_of_mod-eq-zero, mul-mod_left, suc-mul, mul-add-div_right, div-eq_of_lt, div-lt_iff_lt-mul,
  mod-eq_of_lt, mul-add-mod_self_right,
}
use mlx5ctl.Base.Bits.{bit_and_keep, bit_or_fill, word, two_pow_add}

pub two_pow_pos : (k : ℕ) → 0 < 2 ^ k
two_pow_pos k = one-le-pow k 2 (omega arith)

-- The bits of the field, and the word with the field replaced.
abbrev pub get_bits : ℕ → ℕ → ℕ → ℕ
get_bits k s w = w / 2 ^ k % 2 ^ s

abbrev pub put_bits : ℕ → ℕ → ℕ → ℕ → ℕ
put_bits k s v w = word k s (w / (2 ^ s * 2 ^ k)) v (w % 2 ^ k)

div_steps : (a b w : ℕ) → w / (b * a) ≡ w / a / b
div_steps a b w = ap (λ (t : ℕ). w / t) (mul_comm b a) ∙ sym (div-div-eq-div-mul w a b)

word_parts : (k s w : ℕ) → w ≡ word k s (w / (2 ^ s * 2 ^ k)) (w / 2 ^ k % 2 ^ s) (w % 2 ^ k)
word_parts k s w = omega (
  arith,
  div-add-mod' w (2 ^ k),
  ap (λ (t : ℕ). t * 2 ^ k) (div-add-mod' (w / 2 ^ k) (2 ^ s)),
  ap (λ (t : ℕ). t * (2 ^ s * 2 ^ k)) (div_steps (2 ^ k) (2 ^ s) w),
)

div_low : (p q r : ℕ) → r < p → (q * p + r) / p ≡ q
div_low p q r h = omega (arith, mul-add-div_right {m = p} (omega arith) q r, div-eq_of_lt h)

pub get_put_bits : (k s v w : ℕ) → v < 2 ^ s → get_bits k s (put_bits k s v w) ≡ v
get_put_bits k s v w h =
    let rest : ℕ = w / (2 ^ s * 2 ^ k) in
    ap (λ (t : ℕ). t % 2 ^ s)
      (ap (λ (t : ℕ). t / 2 ^ k) {x = put_bits k s v w} {y = (rest * 2 ^ s + v) * 2 ^ k + w % 2 ^ k}
          (omega arith)
        ∙ div_low (2 ^ k) (rest * 2 ^ s + v) (w % 2 ^ k) (mod-lt w (two_pow_pos k)))
    ∙ mul-add-mod_self_right rest (2 ^ s) v
    ∙ mod-eq_of_lt h

low_part-lt : (k s v w : ℕ) → v < 2 ^ s → v * 2 ^ k + w % 2 ^ k < 2 ^ s * 2 ^ k
low_part-lt k s v w h = grind (arith, mod-lt w (two_pow_pos k))

put_bits_high : (k s v w : ℕ) → v < 2 ^ s → put_bits k s v w / (2 ^ s * 2 ^ k) ≡ w / (2 ^ s * 2 ^ k)
put_bits_high k s v w h =
    ap (λ (t : ℕ). t / (2 ^ s * 2 ^ k))
      {y = w / (2 ^ s * 2 ^ k) * (2 ^ s * 2 ^ k) + (v * 2 ^ k + w % 2 ^ k)} (omega arith)
    ∙ div_low (2 ^ s * 2 ^ k) (w / (2 ^ s * 2 ^ k)) (v * 2 ^ k + w % 2 ^ k) (low_part-lt k s v w h)

split_pow : (k s k' : ℕ) → k + s ≤ k' → 2 ^ k' ≡ 2 ^ (k' - (k + s)) * (2 ^ s * 2 ^ k)
split_pow k s k' h =
    ap (λ (t : ℕ). 2 ^ t) {y = k' - (k + s) + (s + k)} (omega arith)
    ∙ two_pow_add (k' - (k + s)) (s + k)
    ∙ ap (λ (t : ℕ). 2 ^ (k' - (k + s)) * t) (two_pow_add s k)

pub get_put_above :
    (k s k' s' v w : ℕ)
    → k + s ≤ k'
    → v < 2 ^ s
    → get_bits k' s' (put_bits k s v w) ≡ get_bits k' s' w
get_put_above k s k' s' v w h q =
    ap (λ (t : ℕ). t % 2 ^ s')
      (above (put_bits k s v w) ∙ ap (λ (t : ℕ). t / gap) (put_bits_high k s v w q) ∙ sym (above w))
  where
    gap : ℕ
    gap = 2 ^ (k' - (k + s))

    above : (x : ℕ) → x / 2 ^ k' ≡ x / (2 ^ s * 2 ^ k) / gap
    above x = ap (λ (t : ℕ). x / t) (split_pow k s k' h) ∙ div_steps (2 ^ s * 2 ^ k) gap x

-- What lies above a field does not show in it.
get_bits_low :
    (k k' s' q lo : ℕ) → k' + s' ≤ k → get_bits k' s' (q * 2 ^ k + lo) ≡ get_bits k' s' lo
get_bits_low k k' s' q lo h =
    let gap : ℕ = 2 ^ (k - (s' + k')) in
    let pow : 2 ^ k ≡ gap * (2 ^ s' * 2 ^ k') =
      split_pow k' s' k h ∙ ap (λ (t : ℕ). 2 ^ (k - t) * (2 ^ s' * 2 ^ k')) (add_comm k' s') in
    ap (λ (t : ℕ). t % 2 ^ s')
      (ap (λ (t : ℕ). t / 2 ^ k') {y = q * gap * 2 ^ s' * 2 ^ k' + lo}
          (omega (arith, ap (λ (t : ℕ). q * t) pow))
        ∙ mul-add-div_right (two_pow_pos k') (q * gap * 2 ^ s') lo)
    ∙ mul-add-mod_self_right (q * gap) (2 ^ s') (lo / 2 ^ k')

pub get_put_below :
    (k s k' s' v w : ℕ) → k' + s' ≤ k → get_bits k' s' (put_bits k s v w) ≡ get_bits k' s' w
get_put_below k s k' s' v w h =
    let hi : ℕ = w / (2 ^ s * 2 ^ k) * 2 ^ s + v in
    ap (get_bits k' s') {y = hi * 2 ^ k + w % 2 ^ k} (omega arith)
    ∙ get_bits_low k k' s' hi (w % 2 ^ k) h
    ∙ sym (get_bits_low k k' s' (w / 2 ^ k) (w % 2 ^ k) h)
    ∙ ap (get_bits k' s') (div-add-mod' w (2 ^ k))

-- 2 ^ 32 around a field.
pow_32 : (k s : ℕ) → k + s ≤ 32 → 2 ^ 32 ≡ 2 ^ (32 - (k + s)) * (2 ^ s * 2 ^ k)
pow_32 k s h = split_pow k s 32 h

high-lt : (k s w : ℕ) → k + s ≤ 32 → w < 2 ^ 32 → w / (2 ^ s * 2 ^ k) < 2 ^ (32 - (k + s))
high-lt k s w h small =
    (div-lt_iff_lt-mul {k = 2 ^ s * 2 ^ k} (grind (arith, two_pow_pos k, two_pow_pos s))).1
      (omega (arith, pow_32 k s h))

pub field_fits : (k s : ℕ) → k + s ≤ 32 → 2 ^ s * 2 ^ k ≤ 2 ^ 32
field_fits k s h = rw (pow_32 k s h) (grind (arith, two_pow_pos (32 - (k + s))))

pub mod_mod_pow : (s v : ℕ) → s ≤ 32 → v % 2 ^ 32 % 2 ^ s ≡ v % 2 ^ s
mod_mod_pow s v h = mod-mod_of_dvd (2 ^ s) v (
    dvd_of_mod-eq-zero (2 ^ s) (
      ap (λ (t : ℕ). t % 2 ^ s) {y = 2 ^ (32 - s) * 2 ^ s}
        (ap (λ (t : ℕ). 2 ^ t) {x = 32} {y = 32 - s + s} (omega arith) ∙ two_pow_add (32 - s) s)
      ∙ mul-mod_left (2 ^ (32 - s)) (2 ^ s)))

next_block : (x y e low : ℕ) → x < y → low < e → x * e + low < y * e
next_block x y e low p q = grind arith

mask_shape :
    (a b r : ℕ)
    → 0 < a
    → 0 < b
    → 0 < r
    → r * (b * a) - 1 - (b - 1) * a ≡ (r - 1) * (b * a) + 0 * a + (a - 1)
mask_shape zero b r p q t = absurd (omega arith)
mask_shape (suc a) zero r p q t = absurd (omega arith)
mask_shape (suc a) (suc b) zero p q t = absurd (omega arith)
mask_shape (suc a) (suc b) (suc r) p q t =
    let pred_b : suc b - 1 ≡ b = omega arith in
    let pred_r : suc r - 1 ≡ r = omega arith in
    rw (pred_b, pred_r) (omega (arith, suc-mul b (suc a), suc-mul r (suc b * suc a)))

pub put_bits-lt : (k s v w : ℕ) → k + s ≤ 32 → v < 2 ^ s → w < 2 ^ 32 → put_bits k s v w < 2 ^ 32
put_bits-lt k s v w h q small = omega (
  arith,
  pow_32 k s h,
  next_block (w / (2 ^ s * 2 ^ k)) (2 ^ (32 - (k + s))) (2 ^ s * 2 ^ k) (v * 2 ^ k + w % 2 ^ k)
      (high-lt k s w h small) (low_part-lt k s v w q),
)

-- The expression of MLX5_SET on the word, as `put_bits`.
pub clear_fill :
    (k s v w : ℕ)
    → k + s ≤ 32
    → v < 2 ^ s
    → w < 2 ^ 32
    → bit_or (bit_and w (2 ^ 32 - 1 - (2 ^ s - 1) * 2 ^ k)) (v * 2 ^ k) ≡ put_bits k s v w
clear_fill k s v w h q small =
    let r : ℕ = 32 - (k + s) in
    ap (λ (t : ℕ). bit_or t (v * 2 ^ k))
      (ap₂ bit_and (word_parts k s w) (
          ap (λ (t : ℕ). t - 1 - (2 ^ s - 1) * 2 ^ k) (pow_32 k s h)
          ∙ mask_shape (2 ^ k) (2 ^ s) (2 ^ r) (two_pow_pos k) (two_pow_pos s) (two_pow_pos r))
        ∙ bit_and_keep k s r (w / (2 ^ s * 2 ^ k)) (w / 2 ^ k % 2 ^ s) (w % 2 ^ k)
            (high-lt k s w h small) (mod-lt (w / 2 ^ k) (two_pow_pos s)) (mod-lt w (two_pow_pos k)))
    ∙ bit_or_fill k s (w / (2 ^ s * 2 ^ k)) v (w % 2 ^ k) q (mod-lt w (two_pow_pos k))
