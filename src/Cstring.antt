-- ===== src/Cstring.antt =====
-- What the program uses of the C library on strings: atoi, strtoul and strtok. A string is a native
-- `String` where it is only compared, and else the list of its bytes.
pub mod Laws
use Prim.Native.Char.{code}
use mlx5ctl.Base.{
  ℕ, zero, suc, ◌+◌, ◌-◌, ◌*◌, ◌/◌, ◌%◌, ◌^◌, ◌==◌, ltb, leb, min, if◌then◌else◌, Bool, ◌&&◌, ◌||◌,
  String, Option, none, some, List, [], ◌∷◌, ◌++◌,
}
use mlx5ctl.Base.Int.{ℤ, pos, neg}

-- The bytes of a string without its NUL.
abbrev pub codes : String → List ℕ
codes String.[] = []
codes (String.◌∷◌ c s) = code c ∷ codes s

-- `tolower` in the C locale.
abbrev pub tolower : ℕ → ℕ
tolower c = if leb b'A' c && leb c b'Z' then c + 32 else c

abbrev pub is_space : ℕ → Bool
is_space c = (c == 32) || (leb 9 c && leb c 13)

abbrev pub is_digit : ℕ → Bool
is_digit c = leb b'0' c && leb c b'9'

-- The value of a digit up to base 16; 16 for any other byte.
abbrev pub digit_value : ℕ → ℕ
digit_value c =
    if is_digit c
    then c - b'0'
    else if leb b'a' c && leb c b'f'
    then c - 87
    else if leb b'A' c && leb c b'F'
    then c - 55
    else 16

-- The leading white space and the sign, for a reading of what follows.
unfoldable pub skip_spaces : List ℕ → List ℕ
skip_spaces [] = []
skip_spaces (c ∷ rest) = if is_space c then skip_spaces rest else c ∷ rest

-- The digits of `base` at the front, behind those that make up `acc`.
unfoldable pub read_digits : ℕ → ℕ → List ℕ → ℕ
read_digits base acc [] = acc
read_digits base acc (c ∷ rest) =
    if ltb (digit_value c) base then read_digits base (acc * base + digit_value c) rest else acc

-- `atoi`. A value outside `int`, undefined in C, is kept as it is.
unfoldable pub atoi_signed : List ℕ → ℤ
unfolding read_digits
atoi_signed [] = pos 0
atoi_signed (c ∷ rest) =
    if c == b'-'
    then neg (read_digits 10 0 rest)
    else if c == b'+'
    then pos (read_digits 10 0 rest)
    else pos (read_digits 10 0 (c ∷ rest))

unfoldable pub atoi : List ℕ → ℤ
unfolding atoi_signed skip_spaces
atoi s = atoi_signed (skip_spaces s)

-- `strtoul(s, NULL, 0)`: hexadecimal behind 0x, octal behind 0, and decimal; too large a value is
-- ULONG_MAX, and a minus sign negates on 64 bits.
unfoldable pub read_prefixed : List ℕ → ℕ
unfolding read_digits
read_prefixed [] = 0
read_prefixed (c ∷ []) = read_digits 10 0 (c ∷ [])
read_prefixed (c ∷ d ∷ rest) =
    if c == b'0'
    then (if (d == b'x') || (d == b'X') then read_digits 16 0 rest else read_digits 8 0 (d ∷ rest))
    else read_digits 10 0 (c ∷ d ∷ rest)

abbrev pub saturated : ℕ → ℕ
saturated n = min n (2 ^ 64 - 1)

unfoldable pub strtoul_signed : List ℕ → ℕ
unfolding read_prefixed
strtoul_signed [] = 0
strtoul_signed (c ∷ rest) =
    if c == b'-'
    then (2 ^ 64 - saturated (read_prefixed rest)) % 2 ^ 64
    else if c == b'+'
    then saturated (read_prefixed rest)
    else saturated (read_prefixed (c ∷ rest))

unfoldable pub strtoul : List ℕ → ℕ
unfolding strtoul_signed skip_spaces
strtoul s = strtoul_signed (skip_spaces s)

-- The pieces of a string between commas, empty ones included.
abbrev pub push_first : ℕ → List (List ℕ) → List (List ℕ)
push_first c [] = (c ∷ []) ∷ []
push_first c (piece ∷ pieces) = (c ∷ piece) ∷ pieces

unfoldable pub split_commas : List ℕ → List (List ℕ)
split_commas [] = [] ∷ []
split_commas (c ∷ rest) =
    let pieces = split_commas rest in if c == b',' then [] ∷ pieces else push_first c pieces

-- The tokens that `strtok(s, ",")` and then `strtok(NULL, ",")` give: the pieces that are not empty.
abbrev pub nonempty : List (List ℕ) → List (List ℕ)
nonempty [] = []
nonempty ([] ∷ pieces) = nonempty pieces
nonempty ((c ∷ piece) ∷ pieces) = (c ∷ piece) ∷ nonempty pieces

unfoldable pub tokens : List ℕ → List (List ℕ)
unfolding split_commas
tokens s = nonempty (split_commas s)

-- How many commas a string has.
abbrev pub count_commas : List ℕ → ℕ
count_commas [] = 0
count_commas (c ∷ rest) = (if c == b',' then 1 else 0) + count_commas rest

-- What follows a prefix; `none` where the string begins otherwise.
unfoldable pub after_prefix : List ℕ → List ℕ → Option (List ℕ)
after_prefix [] s = some s
after_prefix (p ∷ prefix) [] = none
after_prefix (p ∷ prefix) (c ∷ rest) = if p == c then after_prefix prefix rest else none

-- `%x` of `sscanf` behind the white space and the sign: 32 bits, with or without 0x.
unfoldable pub scan_digits : List ℕ → Option ℕ
unfolding read_digits
scan_digits [] = none
scan_digits (c ∷ []) = if ltb (digit_value c) 16 then some (digit_value c) else none
scan_digits (c ∷ d ∷ rest) =
    if (c == b'0') && ((d == b'x') || (d == b'X'))
    then some (read_digits 16 0 rest % 2 ^ 32)
    else if ltb (digit_value c) 16
    then some (read_digits 16 0 (c ∷ d ∷ rest) % 2 ^ 32)
    else none

abbrev pub negated : Option ℕ → Option ℕ
negated none = none
negated (some n) = some ((2 ^ 32 - n) % 2 ^ 32)

unfoldable pub scan_signed : List ℕ → Option ℕ
unfolding scan_digits
scan_signed [] = none
scan_signed (c ∷ rest) =
    if c == b'-'
    then negated (scan_digits rest)
    else if c == b'+'
    then scan_digits rest
    else scan_digits (c ∷ rest)

abbrev pub scan_after : Option (List ℕ) → Option ℕ
scan_after none = none
scan_after (some s) = scan_signed (skip_spaces s)

-- `sscanf(s, "0x%x", &n) == 1`.
unfoldable pub scan_hex : List ℕ → Option ℕ
unfolding after_prefix scan_signed skip_spaces
scan_hex s = scan_after (after_prefix (codes "0x") s)

-- `%s` of `sscanf`: the first word.
unfoldable pub first_word : List ℕ → List ℕ
first_word [] = []
first_word (c ∷ rest) = if is_space c then [] else c ∷ first_word rest

-- `%u` of `printf` on a number with at most that many digits.
unfoldable pub decimal : ℕ → ℕ → List ℕ
decimal zero n = []
decimal (suc digits) n =
    let front = decimal digits (n / 10) in
    if ltb n 10 then (n + b'0') ∷ [] else front ++ ((n % 10 + b'0') ∷ [])
