-- ===== src/Tests/Commands.antt =====
-- The theorems on registers, memory keys, queries and capabilities, run on the sample machine.
use mlx5ctl.Base.{ℕ, ◌+◌, ◌/◌, ◌%◌, ◌^◌, ◌≡◌, ◌⊎◌, refl, arith, none, some, List, [], ◌∷◌, false}
use mlx5ctl.Base.Int.{pos, is_nonzero}
use mlx5ctl.Memory.{byte_at}
use mlx5ctl.Ifc.{fld, mlx5_get, mlx5_st_sz_bytes}
use mlx5ctl.Os.{address, ◌>>=◌}
use mlx5ctl.Os.Live.{live, is_at, requests}
use mlx5ctl.Prm.Commands.{access_register_in, create_mkey_out}
use mlx5ctl.Prm.Caps.Part5.{query_hca_cap_out}
use mlx5ctl.Reg.Ids.{reg_ids_first, reg_last_enum}
use mlx5ctl.Reg.Lookup.{get_reg_id_from_str}
use mlx5ctl.Reg.Lookup.Laws.{IsFirstNamed, get_reg_id_from_str_lem}
use mlx5ctl.Reg.Access.{mlx5_access_reg, access_request, lnot}
use mlx5ctl.Reg.Access.Laws.{
  access_reg-live, access_request_fields, access_request_data, access_reg_run, RunsOut, Sends,
}
use mlx5ctl.Device.{mlx5u_cmd}
use mlx5ctl.Umem.Mkey.{mlx5_mkey_variant, mlx5lib_create_umem_mkey, mlx5lib_destroy_mkey}
use mlx5ctl.Umem.Mkey.Laws.{created, Destroys, destroy-create}
use mlx5ctl.Umem.Buff.{UmemApi, mlx5lib_alloc_umem_mkey_buff}
use mlx5ctl.Umem.Buff.Laws.{alloc_umem_mkey_buff-live, alloc-free-live, free_if_any, holding}
use mlx5ctl.Query.Run.{query_obj, get_query_func}
use mlx5ctl.Query.Run.Laws.{query_obj-live, get_query_func-Fits, IfFits}
use mlx5ctl.Caps.Run.{do_devcap, cap_op_mod, pr_hex, pr_pretty}
use mlx5ctl.Caps.Run.Laws.{do_devcap_all-live, do_devcap_one-live, cap_op_mod_lem}
use mlx5ctl.Tests.Sample.{sample_os}

abbrev data_in : List ℕ
data_in = 10 ∷ 20 ∷ 30 ∷ 40 ∷ []

access_reg-live_example :
    live 4096 (mlx5_access_reg sample_os data_in data_in 0x5008 0 1 []).1 ≡ live 4096 []
access_reg-live_example = access_reg-live sample_os data_in data_in 0x5008 0 1 [] 4096

access_request_fields_example :
    (mlx5_get (access_request data_in 0x5008 7 1) 0 (fld access_register_in "opcode") ≡ 0x805)
    × (mlx5_get (access_request data_in 0x5008 7 1) 0 (fld access_register_in "op_mod")
        ≡ lnot 1 % 2 ^ 16)
    × (mlx5_get (access_request data_in 0x5008 7 1) 0 (fld access_register_in "register_id")
        ≡ 0x5008 % 2 ^ 16)
    × (mlx5_get (access_request data_in 0x5008 7 1) 0 (fld access_register_in "argument")
        ≡ 7 % 2 ^ 32)
access_request_fields_example = access_request_fields data_in 0x5008 7 1 (omega arith)

access_request_data_example :
    byte_at (access_request data_in 0x5008 7 1) (16 + 2) ≡ byte_at data_in 2
access_request_data_example = access_request_data data_in 0x5008 7 1 (omega arith) 2 (omega arith)

access_reg_run_example :
    RunsOut sample_os data_in data_in 0x5008 0 1 []
    ⊎ ((a : ℕ) × (b : ℕ) × Sends sample_os data_in data_in 0x5008 0 1 [] a b)
access_reg_run_example = access_reg_run sample_os data_in data_in 0x5008 0 1 []

get_reg_id_from_str_lem_example :
    IsFirstNamed reg_ids_first (reg_last_enum + 1) "PAOS" (get_reg_id_from_str "PAOS")
get_reg_id_from_str_lem_example = get_reg_id_from_str_lem "PAOS"

-- A kernel that registers every buffer, as the ioctl versions would.
abbrev registering : UmemApi
registering = record { umem_reg = λ addr len t. (pos 9, t); umem_unreg = λ umem_id t. (pos 0, t) }

alloc_umem_mkey_buff-live_example :
    let (u, t') = mlx5lib_alloc_umem_mkey_buff sample_os registering 5000 3 [] in
    live 4097 t' ≡ live 4097 [] + holding 4097 u
alloc_umem_mkey_buff-live_example =
    alloc_umem_mkey_buff-live sample_os registering (λ addr len a t. refl) (λ id a t. refl) 5000 3
      4097 []

alloc-free-live_example :
    live 4097
      ((mlx5lib_alloc_umem_mkey_buff sample_os registering 5000 3
          >>= free_if_any sample_os registering (λ addr len a t. refl) (λ id a t. refl))
        []).1
    ≡ live 4097 []
alloc-free-live_example =
    alloc-free-live sample_os registering (λ addr len a t. refl) (λ id a t. refl) 5000 3 4097 []

query_obj-live_example : live 4096 (query_obj sample_os "cq" 12 0 false []).1 ≡ live 4096 []
query_obj-live_example = query_obj-live sample_os "cq" 12 0 false 4096 []

get_query_func-Fits_example : IfFits 12 0 [] (get_query_func "cq")
get_query_func-Fits_example = get_query_func-Fits 12 0 [] "cq"

do_devcap_all-live_example : live 4096 (do_devcap sample_os none 1 pr_pretty []).1 ≡ live 4096 []
do_devcap_all-live_example = do_devcap_all-live sample_os 1 pr_pretty 4096 []

do_devcap_one-live_example :
    live 4096 (do_devcap sample_os (some 0) 1 pr_hex []).1
    ≡ live 4096 [] + is_at 4096 (address (sample_os.alloc [] (mlx5_st_sz_bytes query_hca_cap_out)))
do_devcap_one-live_example = do_devcap_one-live sample_os 0 1 pr_hex 4096 []

cap_op_mod_lem_example : (cap_op_mod 0x20 1 / 2 ≡ 0x20 % 2 ^ 15) × (cap_op_mod 0x20 1 % 2 ≡ 1 % 2)
cap_op_mod_lem_example = cap_op_mod_lem 0x20 1

mkey_created : is_nonzero (created sample_os 5 6 0x10000 4096 0 []).0 ≡ false
unfolding sample_os mlx5u_cmd mlx5_get fld
mkey_created = refl

destroy-create_example :
    let ((err, key), t1) = mlx5lib_create_umem_mkey sample_os 5 6 0x10000 4096 0 [] in
    (err ≡ pos 0)
    × (mlx5_mkey_variant key ≡ 0)
    × ((request : List ℕ) × (requests (mlx5lib_destroy_mkey sample_os key t1).1
          ≡ request ∷ requests t1)
        × Destroys
            (mlx5_get
              (created sample_os 5 6 0x10000 4096 0 []).1
              0
              (fld create_mkey_out "mkey_index"))
            request)
destroy-create_example = destroy-create sample_os 5 6 0x10000 4096 0 [] mkey_created
