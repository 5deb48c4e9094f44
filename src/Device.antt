-- ===== src/Device.antt =====
-- mlx5u_cmd of mlx5ctl_misc.c: a firmware command through the fwctl character device.
pub mod Find
pub mod Info
use mlx5ctl.Base.{ℕ, List, if◌then◌else◌, ◌==◌, not}
use mlx5ctl.Base.Int.{ℤ, pos, is_nonzero}
use mlx5ctl.Ifc.{fld, mlx5_get}
use mlx5ctl.Os.{Os, Reply, M, ◌>>=◌, pure, ioctl_rpc}
use mlx5ctl.Prm.Commands.{mbox_out}

-- MLX5_GET(mbox_out, out, status).
abbrev pub status_of : List ℕ → ℕ
status_of out = mlx5_get out 0 (fld mbox_out "status")

-- The result of the command: a failed ioctl first, then the status that the firmware left.
abbrev pub command_result : Reply → ℤ
command_result r =
    if is_nonzero r.ret
    then r.ret
    else if not (status_of r.out == 0)
    then pos (status_of r.out)
    else r.ret

-- `inlen` and `outlen` are the lengths of the two buffers. The result and the output buffer after
-- the call.
unfoldable pub mlx5u_cmd : Os → List ℕ → List ℕ → M (ℤ × List ℕ)
mlx5u_cmd os input out = do r ← ioctl_rpc os input out; pure (command_result r, r.out)
