-- ===== src/Tests/Dump.antt =====
-- The theorems on the resource dump, run on the sample machine.
use mlx5ctl.Base.{ℕ, ◌≡◌, arith, List, [], ◌++◌, replicate}
use mlx5ctl.Memory.{zeroed}
use mlx5ctl.Memory.Laws.{zeroed-IsBytes}
use mlx5ctl.Ifc.{fld, mlx5_get, mlx5_get64}
use mlx5ctl.Prm.Dump.{resource_dump}
use mlx5ctl.Rscdump.Iter.{dump_get, next_input}
use mlx5ctl.Rscdump.Iter.Laws.{next_input_takes, next_input_keeps}
use mlx5ctl.Rscdump.Collect.{Args, Collecting, rscdump_collect, store_chunk}
use mlx5ctl.Rscdump.Collect.Chunk.{Stored, store_chunk_lem}
use mlx5ctl.Rscdump.Collect.Laws.{Within, rscdump_collect_sound}
use mlx5ctl.Rscdump.Segments.{unfinished, parse_loop}
use mlx5ctl.Rscdump.Segments.Laws.{parse_loop_stuck}
use mlx5ctl.Tests.Sample.{sample_os, sample_os-IsOs, sample_os_fits, answer}

abbrev dump_args : Args
dump_args = record { umem = 0; type = 0x1000; index1 = 1; index2 = 2; vhca_id = 0 }

next_input_takes_example :
    (dump_get (next_input (zeroed 256) (zeroed 256)) "seq_num" ≡ dump_get (zeroed 256) "seq_num")
    × (dump_get (next_input (zeroed 256) (zeroed 256)) "index1" ≡ dump_get (zeroed 256) "index1")
    × (dump_get (next_input (zeroed 256) (zeroed 256)) "index2" ≡ dump_get (zeroed 256) "index2")
    × (dump_get (next_input (zeroed 256) (zeroed 256)) "num_of_obj1"
        ≡ dump_get (zeroed 256) "num_of_obj1")
    × (dump_get (next_input (zeroed 256) (zeroed 256)) "num_of_obj2"
        ≡ dump_get (zeroed 256) "num_of_obj2")
    × (dump_get (next_input (zeroed 256) (zeroed 256)) "more_dump"
        ≡ dump_get (zeroed 256) "more_dump")
    × (mlx5_get64 (next_input (zeroed 256) (zeroed 256)) 0 (fld resource_dump "device_opaque")
        ≡ mlx5_get64 (zeroed 256) 0 (fld resource_dump "device_opaque"))
next_input_takes_example =
    next_input_takes (zeroed 256) (zeroed 256) (omega arith) (zeroed-IsBytes 256)
      (zeroed-IsBytes 256)

next_input_keeps_example :
    (dump_get (next_input (zeroed 256) (zeroed 256)) "segment_type"
      ≡ dump_get (zeroed 256) "segment_type")
    × (dump_get (next_input (zeroed 256) (zeroed 256)) "vhca_id" ≡ dump_get (zeroed 256) "vhca_id")
    × (dump_get (next_input (zeroed 256) (zeroed 256)) "inline_dump"
        ≡ dump_get (zeroed 256) "inline_dump")
    × (dump_get (next_input (zeroed 256) (zeroed 256)) "mkey" ≡ dump_get (zeroed 256) "mkey")
    × (dump_get (next_input (zeroed 256) (zeroed 256)) "size" ≡ dump_get (zeroed 256) "size")
next_input_keeps_example =
    next_input_keeps (zeroed 256) (zeroed 256) (omega arith) (zeroed-IsBytes 256)

rscdump_collect_sound_example : Within (rscdump_collect sample_os 5 dump_args 0 []).0
rscdump_collect_sound_example =
    rscdump_collect_sound sample_os sample_os-IsOs sample_os_fits 5 dump_args []

abbrev part_filled : Collecting
part_filled = record { data_block = record { addr = 1; bytes = zeroed 300 }; size = 300; total = 7 }

store_chunk_lem_example :
    Stored part_filled (answer ++ answer) 4 (store_chunk part_filled (answer ++ answer) 4)
unfolding fld
store_chunk_lem_example =
    store_chunk_lem part_filled (answer ++ answer) 4 (omega arith) (omega arith) (omega arith)

-- A dump of ones: each of its segments is longer than the dump.
abbrev ones : ℕ → List ℕ
ones n = replicate n 1

parse_loop_stuck_example : (parse_loop 1000 (zeroed 60) 60 36 []).0 ≡ unfinished
unfolding fld mlx5_get
parse_loop_stuck_example =
    parse_loop_stuck (zeroed 60) 60 36 (omega arith) (omega arith) (omega arith) (omega arith) 1000
      []
