-- ===== src/Reg/Lookup/Laws.antt =====
-- What the searches of the register table find.
use mlx5ctl.Base.{
  ℕ, zero, suc, ◌+◌, ◌-◌, ◌≤◌, ◌<◌, ◌≡◌, ◌≢◌, ◌∙◌, sym, ap, inl, inr, arith, Bool-cases, str_eq,
  eq_iff, ◌==◌, String, Option, none, some, List, [], ◌∷◌,
}
use mathlib.Core.Bool.{false, false≢true}
use mathlib.Core.Path.{subst}
use mlx5ctl.Reg.Ids.{reg_ids_first, reg_last_enum}
use mlx5ctl.Reg.Table.{RegInfo, regs, document_size}
use mlx5ctl.Reg.Lookup.{
  find_reg, reg2str, get_reg_size, size_or_document, scan_ids, get_reg_id_from_str,
}

-- `reg_id` is the first id from `i` on, and before `last`, whose name is `reg_name`; with `none`
-- there is no such id.
abbrev pub IsFirstNamed : ℕ → ℕ → String → Option ℕ → Type 0
IsFirstNamed i last reg_name none = (k : ℕ) → i ≤ k → k < last → reg2str k ≢ reg_name
IsFirstNamed i last reg_name (some reg_id) =
    (i ≤ reg_id)
    × (reg_id < last)
    × (reg2str reg_id ≡ reg_name)
    × ((k : ℕ) → i ≤ k → k < reg_id → reg2str k ≢ reg_name)

not_named :
    (i : ℕ) (reg_name : String)
    → str_eq (reg2str i) reg_name ≡ false
    → (k : ℕ) → k ≡ i
    → reg2str k ≢ reg_name
not_named i reg_name h k e same =
    false≢true (sym h ∙ (eq_iff (reg2str i) reg_name).1 (ap reg2str (sym e) ∙ same))

before_or_later :
    (i last : ℕ) (reg_name : String)
    → str_eq (reg2str i) reg_name ≡ false
    → ((k : ℕ) → i + 1 ≤ k → k < last → reg2str k ≢ reg_name)
    → (k : ℕ) → i ≤ k
    → k < last
    → reg2str k ≢ reg_name
before_or_later i last reg_name other later k low high = elim (Bool-cases (k == i)) [
  | inl here ↦ not_named i reg_name other k (ground arith)
  | inr behind ↦ later k (ground arith) high
]

-- The answer for the ids behind `i`, when the name of `i` is another one.
named_later :
    (i last : ℕ) (reg_name : String) (o : Option ℕ)
    → str_eq (reg2str i) reg_name ≡ false
    → IsFirstNamed (i + 1) last reg_name o
    → IsFirstNamed i last reg_name o
named_later i last reg_name none other h = before_or_later i last reg_name other h
named_later i last reg_name (some r) other (low, high, named, before) =
    (omega arith, high, named, before_or_later i r reg_name other before)

scan_ids_lem :
    (left i : ℕ) (reg_name : String) → IsFirstNamed i (i + left) reg_name (scan_ids left i reg_name)
unfolding scan_ids
scan_ids_lem zero i reg_name = λ k low high. absurd (omega arith)
scan_ids_lem (suc left) i reg_name = elim (Bool-cases (str_eq (reg2str i) reg_name)) [
  | inl found ↦ rw found (
    omega arith,
    omega arith,
    (eq_iff (reg2str i) reg_name).0 found,
    λ k low high. absurd (omega arith),
  )
  | inr other ↦ rw other (
      named_later i (i + suc left) reg_name (scan_ids left (i + 1) reg_name) other (
        subst (λ last. IsFirstNamed (i + 1) last reg_name (scan_ids left (i + 1) reg_name))
          {x = i + 1 + left} {y = i + suc left} (omega arith) (scan_ids_lem left (i + 1) reg_name)))
]

-- get_reg_id_from_str finds the first id from MLX5_REG_IDS_FIRST to MLX5_REG_LAST_ENUM, both
-- tried, that reg2str gives the name, and fails only when there is none.
pub get_reg_id_from_str_lem :
    (reg_name : String)
    → IsFirstNamed reg_ids_first (reg_last_enum + 1) reg_name (get_reg_id_from_str reg_name)
unfolding get_reg_id_from_str
get_reg_id_from_str_lem reg_name =
    scan_ids_lem (reg_last_enum + 1 - reg_ids_first) reg_ids_first reg_name

-- Every entry of a table has a size that the buffers of mlx5_reg_dump hold.
abbrev AllFit : List RegInfo → Type 0
AllFit [] = Unit {0}
AllFit (r ∷ rest) = (r.size ≤ document_size) × AllFit rest

find_reg-le :
    (table : List RegInfo) (reg_id : ℕ)
    → AllFit table
    → size_or_document (find_reg table reg_id) ≤ document_size
unfolding find_reg
find_reg-le [] reg_id h = omega arith
find_reg-le (r ∷ rest) reg_id (fits, later) = elim (Bool-cases (r.reg_id == reg_id)) [
  | inl here ↦ rw here fits
  | inr other ↦ rw other (find_reg-le rest reg_id later)
]

-- The size of every register, in the table or not, is at most that of the two buffers of
-- mlx5_reg_dump.
pub get_reg_size-le : (reg_id : ℕ) → get_reg_size reg_id ≤ document_size
unfolding get_reg_size regs
get_reg_size-le reg_id = find_reg-le regs reg_id (omega arith)
