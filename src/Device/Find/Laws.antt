-- ===== src/Device/Find/Laws.antt =====
-- Which device find_dev opens, how many a scan finds, and the memory of opening and closing.
use mlx5ctl.Base.{
  ℕ, ◌+◌, ◌≤◌, ◌≡◌, ap, refl, inl, inr, arith, Bool-cases, Option-cases, Option, none, some, List,
  [], ◌∷◌, ◌++◌, length, if◌then◌else◌,
}
use mlx5ctl.Cstring.{codes}
use mlx5ctl.Os.{Os, Trace, M, ◌>>=◌, pure}
use mlx5ctl.Os.Live.{live, is_at, KeepsLive}
use mlx5ctl.Device.Find.{
  Sysfs, CtlDev, Dev, Opened, check_fwctl, add_dev, check_all, scan_ctl_devs, is_a_number, try_open,
  or_else, same, open_matching, find_dev, sizeof_dev, mlx5u_open, mlx5u_close,
}

-- The paths of the scanned devices that have the name.
abbrev pub ctl_paths : List ℕ → List CtlDev → List (List ℕ)
ctl_paths str [] = []
ctl_paths str (d ∷ rest) =
    if same d.mdev str then d.ctldev ∷ ctl_paths str rest else ctl_paths str rest

-- The paths that a name stands for, in the order of the comment on find_dev.
abbrev pub candidates : Sysfs → List ℕ → List (List ℕ)
candidates sys str =
    (if is_a_number str then (codes "/dev/fwctl/fwctl" ++ str) ∷ [] else [])
    ++ ((codes "/dev/fwctl/" ++ str) ∷ ctl_paths str (scan_ctl_devs sys))

-- The first of the paths that can be opened.
abbrev pub first_open : Sysfs → List (List ℕ) → Option Dev
first_open sys [] = none
first_open sys (path ∷ rest) = or_else (try_open sys path) (first_open sys rest)

open_matching_lem :
    (sys : Sysfs) (str : List ℕ) (devs : List CtlDev)
    → open_matching sys str devs ≡ first_open sys (ctl_paths str devs)
unfolding open_matching
open_matching_lem sys str [] = refl
open_matching_lem sys str (d ∷ rest) = elim (Bool-cases (same d.mdev str)) [
  | inl here ↦ rw here (ap (or_else (try_open sys d.ctldev)) (open_matching_lem sys str rest))
  | inr other ↦ rw other (open_matching_lem sys str rest)
]

-- find_dev opens the first of these paths that can be opened: for a number the path of the fwctl
-- device with that number, then the name under /dev/fwctl, then the devices found by the scan
-- whose parent has the name, in their order.
pub find_dev_lem :
    (sys : Sysfs) (str : List ℕ) → find_dev sys str ≡ first_open sys (candidates sys str)
unfolding find_dev
find_dev_lem sys str =
    let rest = open_matching_lem sys str (scan_ctl_devs sys) in
    elim (Bool-cases (is_a_number str)) [
      | inl num ↦ rw (num, rest) refl
      | inr name ↦ rw (name, rest) refl
    ]

length-add_dev :
    (o : Option CtlDev) (devs : List CtlDev) → length (add_dev o devs) ≤ length devs + 1
length-add_dev none devs = omega arith
length-add_dev (some d) devs = omega arith

pub length-check_all :
    (sys : Sysfs) (paths : List (List ℕ)) → length (check_all sys paths) ≤ length paths
unfolding check_all
length-check_all sys [] = omega arith
length-check_all sys (path ∷ rest) =
    omega
      (arith, length-add_dev (check_fwctl sys path) (check_all sys rest), length-check_all sys rest)

-- What is alive for an open device.
abbrev pub block_of : ℕ → Option Opened → ℕ
block_of a none = 0
block_of a (some d) = is_at a (some d.self.addr)

abbrev pub close_if_any : Option Opened → M (Unit {0})
close_if_any none = pure tt
close_if_any (some d) = mlx5u_close d

module _ (os : Os) (sys : Sysfs) where
  pub open-live :
      (name : List ℕ) (a : ℕ) (t : Trace)
      → let (d, t1) = mlx5u_open os sys name t in live a t1 ≡ live a t + block_of a d
  unfolding mlx5u_open
  open-live name a t = elim (Option-cases (os.alloc t sizeof_dev)) [
    | inl no_memory ↦ rw no_memory (omega arith)
    | inr (self, got) ↦ elim (Option-cases (find_dev sys name)) [
      | inl missing ↦ rw (got, missing) (omega arith)
      | inr (d, found) ↦ rw (got, found) refl
    ]
  ]

  pub open-close-live : (name : List ℕ) → KeepsLive (mlx5u_open os sys name >>= close_if_any)
  unfolding mlx5u_close
  open-close-live name a t =
      after (mlx5u_open os sys name t).0 (mlx5u_open os sys name t).1 (open-live name a t)
    where
      after :
          (d : Option Opened) (t1 : Trace)
          → live a t1 ≡ live a t + block_of a d
          → live a (close_if_any d t1).1 ≡ live a t
      after none t1 h = omega (arith, h)
      after (some d) t1 h = omega (arith, h)
