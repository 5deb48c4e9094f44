-- ===== src/Tests/Tool.antt =====
-- The theorems on the diagnostic counters, the command line and the dumps, run on the sample machine.
use mlx5ctl.Base.{
  ◌++◌, ◌<◌, ℕ, ◌+◌, ◌≡◌, ◌⊎◌, refl, arith, none, some, List, [], ◌∷◌, true, false, length,
}
use mlx5ctl.Base.Int.{pos, negsuc, is_nonzero, is_negative}
use mlx5ctl.Cstring.{codes}
use mlx5ctl.Os.{pure, shown, bytes_hex, address, freed, Block, Trace}
use mlx5ctl.Os.Live.{live, requests, Quiet}
use mlx5ctl.Memory.{zeroed}
use mlx5ctl.Device.{mlx5u_cmd}
use mlx5ctl.Ifc.{fld, mlx5_get}
use mlx5ctl.Device.Find.{Sysfs, find_dev, Dev}
use mlx5ctl.Device.Find.Laws.{first_open, candidates, find_dev_lem}
use mlx5ctl.Umem.Buff.{mlx5u_umem}
use mlx5ctl.Print.Hex.{hexdump, join_rows, read_bytes, read-hexdump}
use mlx5ctl.Reg.Dump.{mlx5_reg_dump, pr_hex, dumped}
use mlx5ctl.Reg.Dump.Laws.{accessed, reg_dump_hex}
use mlx5ctl.Reg.Lookup.{get_reg_size}
use mlx5ctl.Cli.Select.{Cmd, cmd_select, returned}
use mlx5ctl.Cli.Select.Laws.{IsFirstNamed, IsAbsent, cmd_select_lem}
use mlx5ctl.Cli.Main.{World, select, main}
use mlx5ctl.Cli.Main.Laws.{Clean, main_reg-Clean, asleep, select-sleeping}
use mlx5ctl.Diag.Cap.{get_dev_freq, devcap_request, cap_general_type}
use mlx5ctl.Diag.Counters.{counters_out_sz, query_diag_counters}
use mlx5ctl.Diag.Counters.Laws.{answered, first_samples, query_counters-first}
use mlx5ctl.Diag.Params.{mlx5_diag_cnt_set_param, mlx5_diag_cnt_query_param, param_out_sz}
use mlx5ctl.Diag.Params.Laws.{left_over, query_param-live}
use mlx5ctl.Diag.Flags.{parse_flags}
use mlx5ctl.Diag.Flags.Laws.{flags_set, parse_flags_params}
use mlx5ctl.Diag.Commands.{no_params, set_args, einval}
use mlx5ctl.Diag.Commands.Laws.{set_args-refused, set_args-live}
use mlx5ctl.Diag.Commands.Sends.{IsAsked, set_args-sends}
use mlx5ctl.Rscdump.Collect.{Args, Collected, rscdump_collect}
use mlx5ctl.Rscdump.Collect.Fuel.{Ended}
use mlx5ctl.Rscdump.Collect.Total.{rscdump_collect-returns}
use mlx5ctl.Rscdump.Collect.Protocol.{IsDump}
use mlx5ctl.Rscdump.Collect.Stream.{rscdump_collect-IsDump}
use mlx5ctl.Rscdump.Umem.{Dma}
use mlx5ctl.Rscdump.Args.{no_args}
use mlx5ctl.Rscdump.Run.{mlx5_rsc_dump}
use mlx5ctl.Rscdump.Run.Laws.{Leaves, rsc_dump-Leaves, Unavailable, dump_umem-Unavailable}
use mlx5ctl.Tests.Sample.{
  sample_os, sample_os-IsOs, sample_os_fits, sample_os_stops, sample_granted, sample_clocked,
}

abbrev sample_dma : Dma
sample_dma t b = b.bytes

abbrev dump_of : Args
dump_of = record { umem = 0; type = 0x1000; index1 = 1; index2 = 0; vhca_id = 0 }

-- One device, under its link in sysfs.
abbrev sample_sys : Sysfs
sample_sys = record {
  is_dir = λ path. true;
  driver_link = λ path. some (codes "../../bus/pci/drivers/mlx5_core");
  left_behind = λ path. [];
  device_path = λ path. some (codes "/sys/devices/pci0000:00/0000:00:0a.0");
  glob = some (codes "/sys/class/fwctl/fwctl0" ∷ []);
  open_rw = λ path. none;
}

abbrev sample_world : World
sample_world = record {
  os = sample_os;
  sys = sample_sys;
  info = record { ret = pos 0; out_device_type = 1; uid = 3; uctx_caps = 1; rdev = none; pid = 7 };
  getopt_long = λ short long argv. record { char = b'i'; optarg = some "PTYS" } ∷ [];
  dma = sample_dma;
  umem = mlx5u_umem;
  fuel = 10;
}

abbrev sample_dev : Dev
sample_dev = record { devname = codes "/dev/fwctl/fwctl0"; fd = 3 }

-- `mlx5ctl 0 diagcnt set -cS 3 4 1,2`.
set_args-sends_example :
    (request : List ℕ) × (requests
        (set_args sample_os ("set" ∷ "-cS" ∷ "3" ∷ "4" ∷ "1,2" ∷ []) []).1
      ≡ request ∷ devcap_request cap_general_type ∷ requests [])
    × IsAsked "-cS" "1,2" request
set_args-sends_example =
    set_args-sends sample_os sample_os-IsOs sample_granted sample_clocked "set" "-cS" "3" "4" "1,2"
      [] [] refl

set_args-refused_example :
    ((set_args sample_os ("set" ∷ "-o" ∷ "3" ∷ "4" ∷ "1" ∷ []) []).0 ≡ pos einval)
    × Quiet [] (set_args sample_os ("set" ∷ "-o" ∷ "3" ∷ "4" ∷ "1" ∷ []) []).1
set_args-refused_example = set_args-refused sample_os "set" "-o" "3" "4" "1" [] [] refl

set_ends : is_negative (set_args sample_os ("set" ∷ "-cS" ∷ "3" ∷ "4" ∷ "1,2" ∷ []) []).0 ≡ false
unfolding sample_os set_args mlx5u_cmd mlx5_get fld parse_flags get_dev_freq mlx5_diag_cnt_set_param
set_ends = refl

set_args-live_example :
    live 4096 (set_args sample_os ("set" ∷ "-cS" ∷ "3" ∷ "4" ∷ "1,2" ∷ []) []).1 ≡ live 4096 []
set_args-live_example = set_args-live sample_os "set" "-cS" "3" "4" "1,2" [] [] set_ends 4096

parse_flags_params_example :
    (parse_flags (codes "-cS") 0 no_params []).0.1 ≡ flags_set (codes "-cS") no_params
parse_flags_params_example = parse_flags_params (codes "-cS") 0 no_params [] refl

query_param-live_example :
    live 4096 (mlx5_diag_cnt_query_param sample_os (pos 3) []).1
    ≡ live 4096 []
      + left_over 4096
          (mlx5_diag_cnt_query_param sample_os (pos 3) []).0
          (address (sample_os.alloc [] (param_out_sz (pos 3))))
query_param-live_example = query_param-live sample_os (pos 3) 4096 []

rsc_dump-Leaves_example :
    Leaves 4096 (live 4096 []) (mlx5_rsc_dump sample_os 5 sample_dma none dump_of [])
rsc_dump-Leaves_example = rsc_dump-Leaves sample_os 5 sample_dma dump_of 4096 []

dump_umem-Unavailable_example :
    Unavailable sample_os 5 sample_dma "rscdump" (record no_args { umem = pos 4 }) []
dump_umem-Unavailable_example =
    dump_umem-Unavailable sample_os 5 sample_dma "rscdump" (record no_args { umem = pos 4 }) []

reg_dump_hex_example :
    let ((err, out), t1) = accessed sample_os 0x5004 1 0 [] in
    let run = mlx5_reg_dump sample_os pr_hex 0x5004 1 0 [] in
    ((is_nonzero err ≡ true) × (run ≡ (err, t1)))
    ⊎ ((is_nonzero err ≡ false)
        × (length (dumped 0x5004 out) ≡ get_reg_size 0x5004)
        × (run ≡ (pos 0, shown (bytes_hex (dumped 0x5004 out)) ∷ t1)))
reg_dump_hex_example = reg_dump_hex sample_os 0x5004 1 0 []

read-hexdump_example : read_bytes (join_rows (hexdump (171 ∷ 5 ∷ []))) ≡ 171 ∷ 5 ∷ []
read-hexdump_example = read-hexdump (171 ∷ 5 ∷ []) (omega arith)

find_dev_lem_example :
    find_dev sample_sys (codes "pci0000:00/0000:00:0a.0")
    ≡ first_open sample_sys (candidates sample_sys (codes "pci0000:00/0000:00:0a.0"))
find_dev_lem_example = find_dev_lem sample_sys (codes "pci0000:00/0000:00:0a.0")

abbrev first_cmd : Cmd
first_cmd = record { name = "info"; func = λ argv. pure (returned (pos 0)); desc = "" }

abbrev second_cmd : Cmd
second_cmd = record { name = "cap"; func = λ argv. pure (returned (pos 1)); desc = "" }

cmd_select_lem_example :
    ((c : Cmd) × IsFirstNamed (first_cmd ∷ second_cmd ∷ []) "cap" c
      × (cmd_select (pure (pos 0)) first_cmd (second_cmd ∷ []) ("cap" ∷ []) []
          ≡ c.func ("cap" ∷ []) []))
    ⊎ (IsAbsent (first_cmd ∷ second_cmd ∷ []) "cap"
        × (cmd_select (pure (pos 0)) first_cmd (second_cmd ∷ []) ("cap" ∷ []) []
            ≡ (returned (negsuc 0), [])))
cmd_select_lem_example = cmd_select_lem (pure (pos 0)) first_cmd (second_cmd ∷ []) "cap" [] []

main_reg-Clean_example :
    Clean [] (main sample_world ("mlx5ctl" ∷ "0" ∷ "reg" ∷ "--id=PTYS" ∷ []) [])
main_reg-Clean_example = main_reg-Clean sample_world "mlx5ctl" "0" ("--id=PTYS" ∷ []) [] refl refl

rscdump_collect-IsDump_example :
    IsDump sample_os dump_of [] (rscdump_collect sample_os 5 dump_of 0 [])
rscdump_collect-IsDump_example =
    rscdump_collect-IsDump sample_os sample_os-IsOs sample_os_fits 5 dump_of []

rscdump_collect-returns_example :
    (r : Collected × Trace) × ((fuel : ℕ)
      → 1 < fuel
      → rscdump_collect sample_os fuel dump_of 0 [] ≡ r)
    × Ended r.0
    × IsDump sample_os dump_of [] r
rscdump_collect-returns_example =
    rscdump_collect-returns sample_os sample_os-IsOs 1
      (λ t request o late. sample_os_stops t request o) sample_os_fits dump_of []

-- `mlx5ctl 0 sleep 1 sleep 2 help`, from the first `sleep` on.
select-sleeping_example :
    select sample_world "mlx5ctl" sample_dev 5 ("sleep" ∷ "1" ∷ "sleep" ∷ "2" ∷ "help" ∷ []) []
    ≡ (let (r, t1) = select sample_world "mlx5ctl" sample_dev 1 ("help" ∷ []) [] in (asleep r, t1))
select-sleeping_example =
    select-sleeping sample_world "mlx5ctl" sample_dev 5 "1" ("2" ∷ []) ("help" ∷ []) []
      (omega arith)

abbrev three_samples : Block
three_samples = record { addr = 4096; bytes = zeroed (counters_out_sz (pos 3)) }

three_granted : sample_os.alloc [] (counters_out_sz (pos 3)) ≡ some three_samples
unfolding sample_os
three_granted = refl

counters_answered : is_nonzero (answered sample_os 3 (pos 0) [] three_samples).0.0 ≡ false
unfolding sample_os mlx5u_cmd mlx5_get fld
counters_answered = refl

query_counters-first_example :
    let ((err, out), t1) = answered sample_os 3 (pos 0) [] three_samples in
    (query_diag_counters sample_os (pos 3) (pos 0) false []
      ≡ (err, freed (some three_samples.addr) ∷ (first_samples false out 3 ++ t1)))
    × (first_samples false (out ++ (9 ∷ [])) 3 ≡ first_samples false out 3)
query_counters-first_example =
    query_counters-first sample_os sample_os-IsOs 3 (pos 0) false [] three_samples (9 ∷ [])
      (omega arith) three_granted counters_answered
