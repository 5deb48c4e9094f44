-- ===== src/Device/Info.antt =====
-- mlx5u_devinfo of mlx5ctl_misc.c.
use mlx5ctl.Base.{ℕ, ◌==◌, not, if◌then◌else◌, Option, none, some, List, ◌++◌}
use mlx5ctl.Base.Int.{ℤ, pos, negsuc, is_nonzero}
use mlx5ctl.Cstring.{codes, decimal}
use mlx5ctl.Os.{number, chars, M, ◌>>◌, pure, show}
use mlx5ctl.Device.Find.{Sysfs, CtlDev, Dev, check_fwctl}

-- `ioctl(fd, FWCTL_INFO, ...)` with what it fills in, `fstat` with the numbers of the device, and the
-- process.
pub record InfoApi : Type 0 where
  pub ret : ℤ
  pub out_device_type : ℕ
  pub uid : ℕ
  pub uctx_caps : ℕ
  pub rdev : Option (ℕ × ℕ)
  pub pid : ℕ

-- FWCTL_DEVICE_TYPE_MLX5.
abbrev pub fwctl_device_type_mlx5 : ℕ
fwctl_device_type_mlx5 = 1

-- `snprintf(sysfs_dev, ..., "/sys/dev/char/%u:%u", ...)` on 32-bit numbers.
abbrev pub sysfs_dev : ℕ → ℕ → List ℕ
sysfs_dev major minor =
    codes "/sys/dev/char/" ++ (decimal 10 major ++ (codes ":" ++ decimal 10 minor))

abbrev pub show_info : Dev → InfoApi → Option CtlDev → M ℤ
show_info dev info none = pure (negsuc 0)
show_info dev info (some dev_desc) = do
  show (chars dev.devname)
  show (chars dev_desc.mdev)
  show (number "UCTX UID" info.uid)
  show (number "UCTX CAP" info.uctx_caps)
  show (number "Current PID" info.pid)
  show (number "FD" dev.fd)
  pure (pos 0)

abbrev pub info_at : Sysfs → Dev → InfoApi → Option (ℕ × ℕ) → M ℤ
info_at sys dev info none = pure (negsuc 0)
info_at sys dev info (some (major, minor)) =
    show_info dev info (check_fwctl sys (sysfs_dev major minor))

unfoldable pub mlx5u_devinfo : Sysfs → InfoApi → Dev → M ℤ
unfolding check_fwctl decimal
mlx5u_devinfo sys info dev =
    if is_nonzero info.ret
    then pure info.ret
    else if not (info.out_device_type == fwctl_device_type_mlx5)
    then pure (negsuc 0)
    else info_at sys dev info info.rdev
