-- ===== src/Rscdump/Collect/Total.antt =====
-- The collecting loop ends with a device that at some point has no more to dump.
use mlx5ctl.Base.{
  ℕ, zero, suc, ◌+◌, ◌<◌, ◌≤◌, ◌≡◌, ◌∙◌, sym, ap, refl, inl, inr, List, length, arith, true, false,
  Option, none, some, Bool-cases, Option-cases, ◌==◌, leb, leb→le, length-replicate,
}
use mathlib.Core.Bool.{false≢true}
use mlx5ctl.Base.Int.{ℤ, pos, negsuc, is_nonzero}
use mlx5ctl.Memory.{zeroed}
use mlx5ctl.Ifc.{fld, mlx5_get}
use mlx5ctl.Os.{Os, IsOs, M, Trace}
use mlx5ctl.Os.Live.{requests}
use mlx5ctl.Prm.Dump.{resource_dump}
use mlx5ctl.Reg.Ids.{reg_resource_dump}
use mlx5ctl.Reg.Access.{copy_register}
use mlx5ctl.Reg.Access.Laws.{access_reg_run}
use mlx5ctl.Rscdump.Iter.{Iteration, dump_get, mlx5_rsc_dump_iter}
use mlx5ctl.Rscdump.Iter.Cases.{InOrder, Continues, answer, iter-cases, copied_more}
use mlx5ctl.Rscdump.Iter.Reply.{length-iter_out}
use mlx5ctl.Rscdump.Collect.{
  Collected, Collecting, Args, no_room, store_chunk, after_store, after_room, make_room,
  collect_loop, rscdump_collect,
}
use mlx5ctl.Rscdump.Collect.Fuel.{Ended, rscdump_collect_enough}
use mlx5ctl.Rscdump.Collect.Protocol.{sent, IsDump}
use mlx5ctl.Rscdump.Collect.Stream.{rscdump_collect-IsDump}

make_room-requests :
    (os : Os) (s : Collecting) (n : ℕ) (t : Trace) → requests (make_room os s n t).1 ≡ requests t
unfolding make_room
make_room-requests os s n t = elim (Bool-cases (no_room s n)) [
  | inr roomy ↦ rw roomy refl
  | inl full ↦ rw full refl
]

-- A round ends when the next one does, if there is one.
store-Ended :
    (next : Collecting → M Collected) (err : ℤ) (o : Option Collecting) (t : Trace)
    → (is_nonzero err ≡ true → (s : Collecting) → Ended (next s t).0)
    → Ended (after_store next err o t).0
unfolding after_store
store-Ended next err none t later = tt
store-Ended next err (some s) t later = elim (Bool-cases (is_nonzero err)) [
  | inl again ↦ rw again (later again s)
  | inr done ↦ rw done tt
]

room-Ended :
    (next : Collecting → M Collected) (s : Collecting) (r : Iteration) (o : Option Collecting)
    (t : Trace)
    → (is_nonzero r.ret ≡ true → (s : Collecting) → Ended (next s t).0)
    → Ended (after_room next s r o t).0
unfolding after_room
room-Ended next s r none t later = tt
room-Ended next s r (some s1) t later =
    store-Ended next r.ret (store_chunk s1 r.out (dump_get r.out "size")) t later

-- A register that says that there is more comes from a command's output that says so.
copied_more-zero :
    (out : List ℕ) (r : ℤ × List ℕ)
    → length out ≡ 256
    → length r.1 ≡ 272
    → mlx5_get r.1 16 (fld resource_dump "more_dump") ≡ 0
    → is_nonzero (copy_register out r).0 ≡ false
    → dump_get (copy_register out r).1 "more_dump" ≡ 0
unfolding fld
copied_more-zero out (pos zero, reply) eo er none_left h = copied_more out reply eo er ∙ none_left
copied_more-zero out (pos (suc n), reply) eo er none_left h = absurd (false≢true (sym h))
copied_more-zero out (negsuc n, reply) eo er none_left h = absurd (false≢true (sym h))

module _ (os : Os) (ok : IsOs os) (k : ℕ)
    (stops : (t : Trace) (request o : List ℕ)
      → k ≤ length (requests t)
      → mlx5_get (os.rpc t request o).out 16 (fld resource_dump "more_dump") ≡ 0) where
  -- An access in order has sent one command, and after `k` of them there is no more.
  answer-last :
      (input out : List ℕ) (t : Trace)
      → length out ≡ 256
      → InOrder input (answer os input out t)
      → (length (requests (sent os input out t)) ≡ length (requests t) + 1)
        × (k ≤ length (requests t) → dump_get (answer os input out t).1 "more_dump" ≡ 0)
  answer-last input out t eo (fine, order) =
      elim (access_reg_run os input out reg_resource_dump 0 0 t) [
        | inl (_, failed, _) ↦
            absurd (false≢true (sym fine ∙ ap (λ (r : ℤ × List ℕ). is_nonzero r.0) failed))
        | inr (a, b, (result, run)) ↦ (
          omega (arith, ap (λ (t1 : Trace). length (requests t1)) run),
          λ late.
              ap (λ (r : ℤ × List ℕ). dump_get r.1 "more_dump") result
              ∙ copied_more-zero out _ eo
                  (ok.rpc_size _ _ _ ∙ length-replicate _ 0 ∙ omega (arith, eo)) (stops _ _ _ late)
                  (ap (λ (r : ℤ × List ℕ). is_nonzero r.0) (sym result) ∙ fine),
        )
      ]

  -- A reply that says that there is more is one of the first `k`.
  early :
      (input out : List ℕ) (t : Trace) (r : Iteration)
      → length out ≡ 256
      → InOrder input (answer os input out t)
      → Continues input (answer os input out t) r
      → is_nonzero r.ret ≡ true
      → length (requests t) < k
  early input out t r eo order (inl (again, left, ei)) h =
      elim (Bool-cases (leb k (length (requests t)))) [
        | inl late ↦ absurd (
            false≢true (
              sym left
              ∙ ap (λ (m : ℕ). m == 0)
                  ((answer-last input out t eo order).1 (leb→le k (length (requests t)) late))))
        | inr soon ↦ ground arith
      ]
  early input out t r eo order (inr (done, end)) h = absurd (false≢true (sym done ∙ h))

  collect_loop-Ended :
      (fuel : ℕ) (s : Collecting) (input out : List ℕ) (t : Trace)
      → length out ≡ 256
      → 0 < fuel
      → k < fuel + length (requests t)
      → Ended (collect_loop os fuel s input out t).0
  unfolding collect_loop mlx5_rsc_dump_iter fld
  collect_loop-Ended zero s input out t eo some_fuel enough = absurd (omega arith)
  collect_loop-Ended (suc fuel) s input out t eo some_fuel enough =
      let (r, t1) = mlx5_rsc_dump_iter os input out t in
      let n : ℕ = dump_get r.out "size" in
      let len : length r.out ≡ 256 = length-iter_out os ok input out t ∙ eo in
      elim (iter-cases os input out t) [
        | inl (broken, why) ↦ rw broken tt
        | inr (fine, order, cont) ↦
            let (one, _) = answer-last input out t eo order in
            let kept = make_room-requests os s n t1 in
            rw fine (
              room-Ended (λ s2. collect_loop os fuel s2 r.input r.out) s r (make_room os s n t1).0
                (make_room os s n t1).1
                (λ again s2.
                  let first : length (requests t) < k = early input out t r eo order cont again in
                  collect_loop-Ended fuel s2 r.input r.out (make_room os s n t1).1 len
                    (omega (arith, first, enough))
                    (omega (arith, enough, one, ap (λ (l : List (List ℕ)). length l) kept))))
      ]

  collect-Ended :
      (fuel : ℕ) (args : Args) (t : Trace) → k < fuel → Ended (rscdump_collect os fuel args 0 t).0
  unfolding rscdump_collect
  collect-Ended fuel args t enough = elim (Option-cases (os.alloc t 4069)) [
    | inl no_data ↦ rw no_data tt
    | inr (b, got) ↦ rw got (
        collect_loop-Ended fuel _ _ (zeroed 256) _ (length-replicate {A = ℕ} 256 0) (omega arith)
          (omega (arith, enough)))
  ]

  -- On a C library and a kernel that keep to their documentation, with a device that never says
  -- more than the 208 bytes of inline data and that, once k commands were sent, always says that
  -- there is no more, rscdump_collect from a total of 0 ends: every fuel above k gives one and
  -- the same run, which returns, and what it returns is a dump by the protocol of the register.
  pub rscdump_collect-returns :
      ((t : Trace) (request o : List ℕ)
        → mlx5_get (os.rpc t request o).out 16 (fld resource_dump "size") ≤ 208)
      → (args : Args) (t : Trace)
      → (r : Collected × Trace) × ((fuel : ℕ) → k < fuel → rscdump_collect os fuel args 0 t ≡ r)
        × Ended r.0
        × IsDump os args t r
  rscdump_collect-returns fits args t = (
    rscdump_collect os (k + 1) args 0 t,
    λ fuel enough.
        rscdump_collect_enough os (k + 1) fuel args 0 t (omega arith)
          (collect-Ended (k + 1) args t (omega arith)),
    collect-Ended (k + 1) args t (omega arith),
    rscdump_collect-IsDump os ok fits (k + 1) args t,
  )
