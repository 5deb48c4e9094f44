-- ===== src/Cstring/Laws.antt =====
-- How many tokens a string has.
use mlx5ctl.Base.{ℕ, ◌+◌, ◌≤◌, ◌≡◌, List, [], ◌∷◌, length, arith, ◌==◌, Bool-cases, inl, inr}
use mlx5ctl.Cstring.{split_commas, tokens, nonempty, push_first, count_commas}

length-push_first :
    (c : ℕ) (pieces : List (List ℕ)) (n : ℕ)
    → length pieces ≡ n + 1
    → length (push_first c pieces) ≡ n + 1
length-push_first c [] n h = absurd (omega arith)
length-push_first c (piece ∷ pieces) n h = h

length-split_commas : (s : List ℕ) → length (split_commas s) ≡ count_commas s + 1
unfolding split_commas
length-split_commas [] = omega arith
length-split_commas (c ∷ rest) = elim (Bool-cases (c == b',')) [
  | inl comma ↦ rw comma (omega (arith, length-split_commas rest))
  | inr other ↦ rw other (
      length-push_first c (split_commas rest) (0 + count_commas rest)
        (omega (arith, length-split_commas rest)))
]

length-nonempty : (pieces : List (List ℕ)) → length (nonempty pieces) ≤ length pieces
length-nonempty [] = omega arith
length-nonempty ([] ∷ pieces) = omega (arith, length-nonempty pieces)
length-nonempty ((c ∷ piece) ∷ pieces) = omega (arith, length-nonempty pieces)

-- A string has at most one token more than commas.
pub length-tokens : (s : List ℕ) → length (tokens s) ≤ count_commas s + 1
unfolding tokens
length-tokens s = omega (arith, length-nonempty (split_commas s), length-split_commas s)
