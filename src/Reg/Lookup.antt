-- ===== src/Reg/Lookup.antt =====
-- The searches of the register table in reg.c.
pub mod Laws
use mlx5ctl.Base.{
  ℕ, zero, suc, ◌+◌, ◌-◌, ◌==◌, if◌then◌else◌, str_eq, String, Option, none, some, List, [], ◌∷◌,
}
use mlx5ctl.Reg.Ids.{reg_ids_first, reg_last_enum}
use mlx5ctl.Reg.Table.{Pretty, RegInfo, regs, document_size}

-- The loop that the three lookups share: the first entry with the id.
pub find_reg : List RegInfo → ℕ → Option RegInfo
find_reg [] reg_id = none
find_reg (r ∷ rest) reg_id = if r.reg_id == reg_id then some r else find_reg rest reg_id

abbrev pub unknown_reg_str : String
unknown_reg_str = "UNKNOWN_REG_STR"

abbrev pub str_or_unknown : Option RegInfo → String
str_or_unknown none = unknown_reg_str
str_or_unknown (some r) = r.str

pub reg2str : ℕ → String
unfolding find_reg regs
reg2str reg_id = str_or_unknown (find_reg regs reg_id)

abbrev pub size_or_document : Option RegInfo → ℕ
size_or_document none = document_size
size_or_document (some r) = r.size

pub get_reg_size : ℕ → ℕ
unfolding find_reg regs
get_reg_size reg_id = size_or_document (find_reg regs reg_id)

abbrev pub ppfun_or_null : Option RegInfo → Option Pretty
ppfun_or_null none = none
ppfun_or_null (some r) = r.ppfun

pub get_print_func_for_reg : ℕ → Option Pretty
unfolding find_reg regs
get_print_func_for_reg reg_id = ppfun_or_null (find_reg regs reg_id)

-- The loop of get_reg_id_from_str with `left` ids still to try, from `i` on.
pub scan_ids : ℕ → ℕ → String → Option ℕ
scan_ids zero i reg_name = none
scan_ids (suc left) i reg_name =
    let rest = scan_ids left (i + 1) reg_name in
    if str_eq (reg2str i) reg_name then some i else rest

-- `none` is the -1 of the source. The bound MLX5_REG_LAST_ENUM itself is tried too.
pub get_reg_id_from_str : String → Option ℕ
unfolding scan_ids reg2str
get_reg_id_from_str reg_name = scan_ids (reg_last_enum + 1 - reg_ids_first) reg_ids_first reg_name
