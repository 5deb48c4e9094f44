-- ===== src/Base/Bits.antt =====
-- `|` and `&` of the machine words as arithmetic, for every field position and width.
use Prim.Native.Nat.{
  ℕ, zero, suc, ◌+◌, ◌-◌, ◌*◌, ◌/◌, ◌%◌, ◌^◌, ◌≤◌, ◌<◌, min, max, bit_and, bit_or, digits,
  bit_and-bitwise, bit_or-bitwise,
}
use mathlib.Core.Path.{◌≡◌, refl, ap, ap₂, ◌∙◌}
use native.Mathlib.Omega.{arith}
use native.Mathlib.Nat.{pow-suc, one-le-pow, div-add-mod, add-zero, add-suc, mod-lt, mod-eq_of_lt}

-- Two amounts of fuel that both cover the first operand give the same digits.
module _ (base : ℕ → ℕ) (digit : ℕ → ℕ → ℕ) where
  digits_cover :
      (a n m b : ℕ) (bound : ℕ)
      → a ≤ bound
      → a ≤ n
      → a ≤ m
      → digits base digit n a b ≡ digits base digit m a b
  digits_cover zero zero zero b bound h p q = refl
  digits_cover zero zero (suc m) b bound h p q = refl
  digits_cover zero (suc n) zero b bound h p q = refl
  digits_cover zero (suc n) (suc m) b bound h p q = refl
  digits_cover (suc a) zero m b bound h p q = absurd (omega arith)
  digits_cover (suc a) (suc n) zero b bound h p q = absurd (omega arith)
  digits_cover (suc a) (suc n) (suc m) b zero h p q = absurd (omega arith)
  digits_cover (suc a) (suc n) (suc m) b (suc bound) h p q =
      omega (
        arith,
        digits_cover (suc a / 2) n m (b / 2) bound (omega arith) (omega arith) (omega arith),
      )

-- Both operations by their lowest digit.
bit_and_low : (a b : ℕ) → bit_and a b ≡ bit_and (a / 2) (b / 2) * 2 + min (a % 2) (b % 2)
bit_and_low zero b = omega (arith, bit_and-bitwise 0 b, bit_and-bitwise 0 (b / 2))
bit_and_low (suc a) b = omega (
  arith,
  bit_and-bitwise (suc a) b,
  bit_and-bitwise (suc a / 2) (b / 2),
  digits_cover (λ _. 0) min (suc a / 2) a (suc a / 2) (b / 2) a (omega arith) (omega arith)
      (omega arith),
)

bit_or_low : (a b : ℕ) → bit_or a b ≡ bit_or (a / 2) (b / 2) * 2 + max (a % 2) (b % 2)
bit_or_low zero b = omega (arith, bit_or-bitwise 0 b, bit_or-bitwise 0 (b / 2))
bit_or_low (suc a) b = omega (
  arith,
  bit_or-bitwise (suc a) b,
  bit_or-bitwise (suc a / 2) (b / 2),
  digits_cover (λ y. y) max (suc a / 2) a (suc a / 2) (b / 2) a (omega arith) (omega arith)
      (omega arith),
)

bit_and_nothing : (bound a : ℕ) → a ≤ bound → bit_and a 0 ≡ 0
bit_and_nothing bound zero h = omega (arith, bit_and-bitwise 0 0)
bit_and_nothing zero (suc a) h = absurd (omega arith)
bit_and_nothing (suc bound) (suc a) h =
    omega (arith, bit_and_low (suc a) 0, bit_and_nothing bound (suc a / 2) (omega arith))

bit_or_nothing : (bound a : ℕ) → a ≤ bound → bit_or a 0 ≡ a
bit_or_nothing bound zero h = omega (arith, bit_or-bitwise 0 0)
bit_or_nothing zero (suc a) h = absurd (omega arith)
bit_or_nothing (suc bound) (suc a) h =
    omega (arith, bit_or_low (suc a) 0, bit_or_nothing bound (suc a / 2) (omega arith))

and_double :
    (a d b e : ℕ) → d < 2 → e < 2 → bit_and (2 * a + d) (2 * b + e) ≡ 2 * bit_and a b + min d e
and_double a d b e p q = ground (arith, bit_and_low (2 * a + d) (2 * b + e))

or_double :
    (a d b e : ℕ) → d < 2 → e < 2 → bit_or (2 * a + d) (2 * b + e) ≡ 2 * bit_or a b + max d e
or_double a d b e p q = ground (arith, bit_or_low (2 * a + d) (2 * b + e))

times_pow_suc : (q k : ℕ) → q * 2 ^ suc k ≡ 2 * (q * 2 ^ k)
times_pow_suc q k = omega (arith, ap (λ (t : ℕ). q * t) (pow-suc 2 k))

pub two_pow_add : (a b : ℕ) → 2 ^ (a + b) ≡ 2 ^ a * 2 ^ b
two_pow_add a zero = rw add-zero (omega arith)
two_pow_add a (suc b) =
    rw add-suc (omega (arith, pow-suc 2 (a + b), two_pow_add a b, times_pow_suc (2 ^ a) b))

mod_twice : (p a : ℕ) → 0 < p → a % (2 * p) ≡ 2 * (a / 2 % p) + a % 2
mod_twice p a h = grind (arith, div-add-mod (a / 2) p, mod-lt (a / 2) h)

pow_two_suc : (k a : ℕ) → a % 2 ^ suc k ≡ a % (2 * 2 ^ k)
pow_two_suc k a = ap (λ (t : ℕ). a % t) (omega (arith, pow-suc 2 k))

-- `a & (2^k - 1)` keeps the low `k` bits.
pub bit_and_mask : (k a : ℕ) → bit_and a (2 ^ k - 1) ≡ a % 2 ^ k
bit_and_mask zero a = omega (arith, bit_and_nothing a a (omega arith))
bit_and_mask (suc k) a =
    ap₂ bit_and (omega (arith, div-add-mod a 2))
      (omega (arith, pow-suc 2 k, one-le-pow k 2 (omega arith)))
    ∙ and_double (a / 2) (a % 2) (2 ^ k - 1) 1 (omega arith) (omega arith)
    ∙ omega (
      arith,
      bit_and_mask k (a / 2),
      mod_twice (2 ^ k) a (one-le-pow k 2 (omega arith)),
      pow_two_suc k a,
    )

-- The word with a field of `s` bits at position `k`, `hi` above it and `lo` below.
abbrev pub word : ℕ → ℕ → ℕ → ℕ → ℕ → ℕ
word k s hi mid lo = hi * (2 ^ s * 2 ^ k) + mid * 2 ^ k + lo

word-suc : (k s hi mid lo : ℕ) → word (suc k) s hi mid lo ≡ 2 * word k s hi mid (lo / 2) + lo % 2
word-suc k s hi mid lo =
    omega (arith, times_pow_suc mid k, ap (λ (t : ℕ). hi * t) (times_pow_suc (2 ^ s) k))

word_at_zero :
    (s hi mid lo : ℕ) → lo < 1 → word 0 (suc s) hi mid lo ≡ 2 * word 0 s hi (mid / 2) 0 + mid % 2
word_at_zero s hi mid lo h = omega (arith, times_pow_suc hi s)

-- A middle field of width `s` at position `k` is cleared by the mask with zeros there.
pub bit_and_keep :
    (k s r hi mid lo : ℕ)
    → hi < 2 ^ r
    → mid < 2 ^ s
    → lo < 2 ^ k
    → bit_and (word k s hi mid lo) (word k s (2 ^ r - 1) 0 (2 ^ k - 1)) ≡ word k s hi 0 lo
bit_and_keep zero zero r hi mid lo p q h =
    ap₂ bit_and {y = hi} {v = 2 ^ r - 1} (omega arith) (omega arith)
    ∙ bit_and_mask r hi
    ∙ mod-eq_of_lt p
    ∙ omega arith
bit_and_keep zero (suc s) r hi mid lo p q h =
    ap₂ bit_and (word_at_zero s hi mid lo h) (word_at_zero s (2 ^ r - 1) 0 0 (omega arith))
    ∙ and_double (word 0 s hi (mid / 2) 0) (mid % 2) (word 0 s (2 ^ r - 1) 0 0) 0 (omega arith)
        (omega arith)
    ∙ omega (
      arith,
      bit_and_keep 0 s r hi (mid / 2) 0 p (omega (arith, pow-suc 2 s)) (omega arith),
      word_at_zero s hi 0 lo h,
    )
bit_and_keep (suc k) s r hi mid lo p q h =
    ap₂ bit_and (word-suc k s hi mid lo) (
      word-suc k s (2 ^ r - 1) 0 (2 ^ suc k - 1)
      ∙ omega (arith, pow-suc 2 k, one-le-pow k 2 (omega arith)))
    ∙ and_double (word k s hi mid (lo / 2)) (lo % 2) (word k s (2 ^ r - 1) 0 (2 ^ k - 1)) 1
        (omega arith) (omega arith)
    ∙ omega (
      arith,
      bit_and_keep k s r hi mid (lo / 2) p q (omega (arith, pow-suc 2 k)),
      word-suc k s hi 0 lo,
    )

-- A value of `s` bits at position `k` is added by `|` where the word holds zeros there.
pub bit_or_fill :
    (k s hi mid lo : ℕ)
    → mid < 2 ^ s
    → lo < 2 ^ k
    → bit_or (word k s hi 0 lo) (mid * 2 ^ k) ≡ word k s hi mid lo
bit_or_fill zero zero hi mid lo q h =
    ap₂ bit_or {y = hi} {v = 0} (omega arith) (omega arith)
    ∙ bit_or_nothing hi hi (omega arith)
    ∙ omega arith
bit_or_fill zero (suc s) hi mid lo q h =
    ap₂ bit_or {v = 2 * (mid / 2 * 2 ^ 0) + mid % 2} (word_at_zero s hi 0 lo h) (omega arith)
    ∙ or_double (word 0 s hi 0 0) 0 (mid / 2 * 2 ^ 0) (mid % 2) (omega arith) (omega arith)
    ∙ omega (
      arith,
      bit_or_fill 0 s hi (mid / 2) 0 (omega (arith, pow-suc 2 s)) (omega arith),
      word_at_zero s hi mid lo h,
    )
bit_or_fill (suc k) s hi mid lo q h =
    ap₂ bit_or (word-suc k s hi 0 lo) (times_pow_suc mid k ∙ omega arith)
    ∙ or_double (word k s hi 0 (lo / 2)) (lo % 2) (mid * 2 ^ k) 0 (omega arith) (omega arith)
    ∙ omega (
      arith,
      bit_or_fill k s hi mid (lo / 2) q (omega (arith, pow-suc 2 k)),
      word-suc k s hi mid lo,
    )

-- `|` stays inside the width of its operands.
pub bit_or_bound : (k a b : ℕ) → a < 2 ^ k → b < 2 ^ k → bit_or a b < 2 ^ k
bit_or_bound zero zero zero p q = omega (arith, bit_or-bitwise 0 0)
bit_or_bound zero (suc a) b p q = absurd (omega arith)
bit_or_bound zero zero (suc b) p q = absurd (omega arith)
bit_or_bound (suc k) a b p q = ground (
  arith,
  bit_or_low a b,
  pow-suc 2 k,
  bit_or_bound k (a / 2) (b / 2) (omega (arith, pow-suc 2 k)) (omega (arith, pow-suc 2 k)),
)

pub bit_or_zero : (b : ℕ) → bit_or 0 b ≡ b
bit_or_zero b = omega (arith, bit_or-bitwise 0 b)
