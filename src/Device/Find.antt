-- ===== src/Device/Find.antt =====
-- The search for a device in mlx5ctl_misc.c. What the file system answers is a parameter.
pub mod Laws
use mlx5ctl.Base.{
  ℕ, zero, suc, ◌+◌, ◌-◌, ◌%◌, ◌/◌, ◌==◌, leb, if◌then◌else◌, Bool, true, false, ◌&&◌, String,
  Option, none, some, List, [], ◌∷◌, ◌++◌, length, take, drop,
}
use mlx5ctl.Base.Int.{ℤ, pos}
use mlx5ctl.Cstring.{codes, is_digit, after_prefix}
use mlx5ctl.Os.{Os, Block, number, chars, M, ◌>>=◌, ◌>>◌, pure, show, malloc, free}

-- The C library and the kernel on paths, given as their bytes.
pub record Sysfs : Type 0 where
  -- `open(path, O_DIRECTORY)` succeeds.
  pub is_dir : List ℕ → Bool
  -- The bytes of the link `device/driver` below a directory.
  pub driver_link : List ℕ → Option (List ℕ)
  -- What stands behind the link in the buffer up to the first NUL; readlinkat writes none itself.
  pub left_behind : List ℕ → List ℕ
  -- realpathat of `device` below a directory.
  pub device_path : List ℕ → Option (List ℕ)
  -- `glob("/sys/class/fwctl/*", ...)`.
  pub glob : Option (List (List ℕ))
  -- `open(path, O_RDWR)`: the descriptor, or `none` for -1.
  pub open_rw : List ℕ → Option ℕ

abbrev pub path_max : ℕ
path_max = 4096

abbrev pub dev_name_max : ℕ
dev_name_max = 64

-- `struct mlx5ctl_dev`, the two strings without their NUL.
pub record CtlDev : Type 0 where
  pub ctldev : List ℕ
  pub mdev : List ℕ

abbrev pub is_some : {A : Type 0} → Option A → Bool
is_some none = false
is_some (some a) = true

-- strstr: whether the second string stands in the first.
unfoldable pub contains : List ℕ → List ℕ → Bool
unfolding after_prefix
contains [] part = is_some (after_prefix part [])
contains (c ∷ rest) part =
    let later = contains rest part in if is_some (after_prefix part (c ∷ rest)) then true else later

-- snprintf with "%s" to a buffer of `n` bytes.
abbrev pub snprintf : ℕ → List ℕ → List ℕ
snprintf n s = take (n - 1) s

-- The result of readlinkat of `PATH_MAX` bytes, and the string that `strstr` is given.
abbrev pub driver_of : Sysfs → List ℕ → Option (List ℕ) → Option (List ℕ)
driver_of sys path none = none
driver_of sys path (some link) =
    if leb path_max (length link) then none else some (link ++ sys.left_behind path)

abbrev pub is_mlx5 : Option (List ℕ) → Bool
is_mlx5 none = false
is_mlx5 (some driver) = contains driver (codes "drivers/mlx5_core")

abbrev pub device_of : Option (List ℕ) → Option (List ℕ)
device_of none = none
device_of (some path) = after_prefix (codes "/sys/devices/") path

abbrev pub ctl_dev : List ℕ → Option (List ℕ) → Option CtlDev
ctl_dev sysfs_path none = none
ctl_dev sysfs_path (some device) = some record {
  ctldev =
      snprintf dev_name_max
        (codes "/dev/fwctl/" ++ drop (length (codes "/sys/class/fwctl/")) sysfs_path);
  mdev = snprintf dev_name_max device;
}

-- The device of a directory; `none` is the -1 of the source.
unfoldable pub check_fwctl : Sysfs → List ℕ → Option CtlDev
unfolding contains after_prefix
check_fwctl sys sysfs_path =
    if sys.is_dir sysfs_path && is_mlx5 (driver_of sys sysfs_path (sys.driver_link sysfs_path))
    then ctl_dev sysfs_path (device_of (sys.device_path sysfs_path))
    else none

abbrev pub add_dev : Option CtlDev → List CtlDev → List CtlDev
add_dev none devs = devs
add_dev (some d) devs = d ∷ devs

-- The loop of _scan_ctl_devs.
unfoldable pub check_all : Sysfs → List (List ℕ) → List CtlDev
unfolding check_fwctl
check_all sys [] = []
check_all sys (path ∷ rest) = add_dev (check_fwctl sys path) (check_all sys rest)

abbrev pub found_in : Sysfs → Option (List (List ℕ)) → List CtlDev
found_in sys none = []
found_in sys (some paths) = check_all sys paths

-- _scan_ctl_devs; the empty list is its NULL.
unfoldable pub scan_ctl_devs : Sysfs → List CtlDev
unfolding check_all
scan_ctl_devs sys = found_in sys sys.glob

unfoldable pub is_a_number : List ℕ → Bool
is_a_number [] = true
is_a_number (c ∷ rest) = is_digit c && is_a_number rest

-- `struct mlx5u_dev`.
pub record Dev : Type 0 where
  pub devname : List ℕ
  pub fd : ℕ

abbrev pub named : List ℕ → Option ℕ → Option Dev
named name none = none
named name (some fd) = some record { devname = name; fd = fd }

-- `snprintf(dev->devname, ...)` and `open`.
abbrev pub try_open : Sysfs → List ℕ → Option Dev
try_open sys path = named (snprintf dev_name_max path) (sys.open_rw (snprintf dev_name_max path))

-- The first device, or the next attempt.
abbrev pub or_else : Option Dev → Option Dev → Option Dev
or_else none next = next
or_else (some d) next = some d

-- `strcmp`.
unfoldable pub same : List ℕ → List ℕ → Bool
same [] [] = true
same [] (c ∷ s) = false
same (c ∷ s) [] = false
same (c ∷ s) (d ∷ r) = (c == d) && same s r

-- The loop of find_dev.
unfoldable pub open_matching : Sysfs → List ℕ → List CtlDev → Option Dev
unfolding same
open_matching sys str [] = none
open_matching sys str (d ∷ rest) =
    let later = open_matching sys str rest in
    if same d.mdev str then or_else (try_open sys d.ctldev) later else later

unfoldable pub find_dev : Sysfs → List ℕ → Option Dev
unfolding open_matching scan_ctl_devs is_a_number
find_dev sys str =
    or_else (if is_a_number str then try_open sys (codes "/dev/fwctl/fwctl" ++ str) else none) (
      or_else (try_open sys (codes "/dev/fwctl/" ++ str))
        (open_matching sys str (scan_ctl_devs sys)))

-- The lines of mlx5u_lsdevs.
unfoldable pub show_devs : List CtlDev → M (Unit {0})
show_devs [] = pure tt
show_devs (d ∷ rest) = do show (chars d.ctldev); show (chars d.mdev); show_devs rest

unfoldable pub list_devs : List CtlDev → M ℤ
unfolding show_devs
list_devs [] = pure (pos 0)
list_devs (d ∷ rest) = do
  show (number "mlx5ctl devices" (length (d ∷ rest)))
  show_devs (d ∷ rest)
  pure (pos 0)

unfoldable pub mlx5u_lsdevs : Sysfs → M ℤ
unfolding list_devs scan_ctl_devs
mlx5u_lsdevs sys = list_devs (scan_ctl_devs sys)

-- `sizeof(struct mlx5u_dev)`.
abbrev pub sizeof_dev : ℕ
sizeof_dev = 68

-- An open device and the block it stands in.
pub record Opened : Type 0 where
  pub self : Block
  pub dev : Dev

module _ (os : Os) (sys : Sysfs) where
  abbrev pub fill_dev : Block → Option Dev → M (Option Opened)
  fill_dev self none = free (some self) >> pure none
  fill_dev self (some d) = pure (some record { self = self; dev = d })

  abbrev pub open_in : List ℕ → Option Block → M (Option Opened)
  open_in name none = pure none
  open_in name (some self) = fill_dev self (find_dev sys name)

  unfoldable pub mlx5u_open : List ℕ → M (Option Opened)
  unfolding find_dev
  mlx5u_open name = do self ← malloc os sizeof_dev; open_in name self

-- The descriptor is closed as well.
unfoldable pub mlx5u_close : Opened → M (Unit {0})
mlx5u_close d = free (some d.self)
