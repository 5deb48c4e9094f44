-- ===== src/Print/Hex.antt =====
-- hexdump of ifcutil.h: the text that `bytes_hex` stands for.
use mlx5ctl.Base.{
  ℕ, ◌+◌, ◌*◌, ◌/◌, ◌%◌, ◌<◌, ◌≡◌, ◌∙◌, ap, ap₂, refl, inl, inr, arith, ◌==◌, ==_iff, ltb,
  Bool-cases, if◌then◌else◌, List, [], ◌∷◌,
}
use mlx5ctl.Memory.{IsBytes}
use mlx5ctl.Cstring.{digit_value}

-- A digit of `%02x`.
abbrev pub hex_digit : ℕ → ℕ
hex_digit d = if ltb d 10 then d + b'0' else d + 87

-- A newline behind every sixteenth byte.
abbrev pub end_of_row : ℕ → List ℕ → List ℕ
end_of_row i text = if (i + 1) % 16 == 0 then 10 ∷ text else text

-- The bytes from number `i` on.
unfoldable pub hexdump_from : ℕ → List ℕ → List ℕ
hexdump_from i [] = 10 ∷ []
hexdump_from i (b ∷ rest) =
    hex_digit (b / 16) ∷ hex_digit (b % 16) ∷ b' ' ∷ end_of_row i (hexdump_from (i + 1) rest)

unfoldable pub hexdump : List ℕ → List ℕ
unfolding hexdump_from
hexdump bytes = hexdump_from 0 bytes

-- The text without its newlines.
abbrev pub join_rows : List ℕ → List ℕ
join_rows [] = []
join_rows (c ∷ text) = if c == 10 then join_rows text else c ∷ join_rows text

-- Two digits and a space for each byte.
abbrev pub read_bytes : List ℕ → List ℕ
read_bytes [] = []
read_bytes (h ∷ []) = []
read_bytes (h ∷ l ∷ []) = []
read_bytes (h ∷ l ∷ space ∷ text) = (digit_value h * 16 + digit_value l) ∷ read_bytes text

digit_value-hex_digit : (d : ℕ) → d < 16 → digit_value (hex_digit d) ≡ d
digit_value-hex_digit d h = ground arith

hex_digit-large : (d : ℕ) → 10 < hex_digit d
hex_digit-large d = ground arith

join_rows-hex_digit :
    (d : ℕ) (text : List ℕ) → join_rows (hex_digit d ∷ text) ≡ hex_digit d ∷ join_rows text
join_rows-hex_digit d text = elim (Bool-cases (hex_digit d == 10)) [
  | inl newline ↦ absurd (omega (arith, (==_iff (hex_digit d) 10).0 newline, hex_digit-large d))
  | inr digit ↦ rw digit refl
]

join_rows-end_of_row : (i : ℕ) (text : List ℕ) → join_rows (end_of_row i text) ≡ join_rows text
join_rows-end_of_row i text = elim (Bool-cases ((i + 1) % 16 == 0)) [
  | inl full ↦ rw full refl
  | inr more ↦ rw more refl
]

read-hexdump_from :
    (i : ℕ) (bytes : List ℕ) → IsBytes bytes → read_bytes (join_rows (hexdump_from i bytes)) ≡ bytes
unfolding hexdump_from
read-hexdump_from i [] h = refl
read-hexdump_from i (b ∷ rest) (small, h) =
    let text : List ℕ = hexdump_from (i + 1) rest in
    let tail : List ℕ = b' ' ∷ end_of_row i text in
    ap read_bytes (
      join_rows-hex_digit (b / 16) (hex_digit (b % 16) ∷ tail)
      ∙ ap (λ xs. hex_digit (b / 16) ∷ xs) (join_rows-hex_digit (b % 16) tail)
      ∙ ap (λ xs. hex_digit (b / 16) ∷ hex_digit (b % 16) ∷ b' ' ∷ xs)
          (join_rows-end_of_row i text))
    ∙ ap₂ (λ x xs. x ∷ xs)
        (omega (
          arith,
          digit_value-hex_digit (b / 16) (omega (arith, small)),
          digit_value-hex_digit (b % 16) (omega arith),
        ))
        (read-hexdump_from (i + 1) rest h)

-- The bytes are read back from the two digits that hexdump prints for each, for any list of
-- bytes.
pub read-hexdump : (bytes : List ℕ) → IsBytes bytes → read_bytes (join_rows (hexdump bytes)) ≡ bytes
unfolding hexdump
read-hexdump bytes h = read-hexdump_from 0 bytes h
