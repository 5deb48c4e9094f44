-- ===== src/Rscdump/Collect/Stream.antt =====
-- What rscdump_collect returns is a dump by the protocol of the register.
use mlx5ctl.Base.{
  ℕ, zero, suc, ◌+◌, ◌*◌, ◌<◌, ◌≤◌, ◌≡◌, ◌∙◌, sym, ap, refl, inl, inr, List, [], ◌∷◌, ◌++◌, length,
  take, arith, false, Option, none, some, Bool-cases, Option-cases, ◌==◌, if◌then◌else◌,
  length-replicate,
}
use mathlib.Core.List.{append_assoc, append-nil}
use mathlib.Core.Path.{subst}
use mlx5ctl.Base.Int.{ℤ}
use mlx5ctl.Memory.{zeroed}
use mlx5ctl.Ifc.{fld, mlx5_get}
use mlx5ctl.Os.{Os, IsOs, Block, M, Trace, allocated, reallocated}
use mlx5ctl.Prm.Dump.{resource_dump}
use mlx5ctl.Rscdump.Iter.{Iteration, dump_get, next_input, mlx5_rsc_dump_iter}
use mlx5ctl.Rscdump.Iter.Cases.{Refused, InOrder, Continues, answer, iter-cases}
use mlx5ctl.Rscdump.Iter.Reply.{length-iter_out, iter_size-le, iter-out}
use mlx5ctl.Rscdump.Collect.{
  Collected, returned, overran, spent, Collecting, Args, inline_data, dump_request, no_room,
  store_chunk, after_store, after_room, make_room, collect_loop, rscdump_collect,
}
use mlx5ctl.Rscdump.Collect.Chunk.{Valid, collected, Roomy, make_room_lem, Stored, store_chunk_lem}
use mlx5ctl.Rscdump.Collect.Laws.{rscdump_collect_sound}
use mlx5ctl.Rscdump.Collect.Protocol.{
  chunk, sent, Grown, Dumped, refused, no_memory, last, more, data_of, Reads, IsDump,
}

-- The bytes collected at the end are those of `s` and then what the dump carries from here on.
abbrev pub Follows : Os → Collecting → List ℕ → List ℕ → Trace → Collected × Trace → Type 0
Follows os s input out t (returned p total, t') =
    (bytes : List ℕ) × (data_of p total ≡ collected s ++ bytes)
    × Dumped os s.total input out t bytes t'
Follows os s input out t (overran, t') = ⊥
Follows os s input out t (spent, t') = Unit {0}

-- How room is made, by the trace: the `realloc` fails for data without room, or was granted.
abbrev pub Makes : Os → Collecting → ℕ → Trace → Option Collecting × Trace → Type 0
Makes os s n t (none, t2) =
    (s.size < s.total + n)
    × (os.grow t s.data_block.addr s.size (s.size * 2) ≡ none)
    × (t2 ≡ reallocated s.data_block.addr (s.size * 2) none ∷ t)
Makes os s n t (some s1, t2) = Grown t t2

make_room-Makes :
    (os : Os) (s : Collecting) (n : ℕ) (t : Trace) → Valid s → Makes os s n t (make_room os s n t)
unfolding make_room
make_room-Makes os s n t (same, low, large) = elim (Bool-cases (no_room s n)) [
  | inr roomy ↦ rw roomy (inl refl)
  | inl full ↦
      rw full
        (elim (Option-cases
          (os.grow t s.data_block.addr (length s.data_block.bytes) (s.size * 2))) [
            | inl failed ↦ rw failed (
              ground arith,
              ap (λ (k : ℕ). os.grow t s.data_block.addr k (s.size * 2)) (sym same) ∙ failed,
              refl,
            )
            | inr (b, grown) ↦ rw grown (inr (s.data_block.addr, s.size * 2, b.addr, refl))
          ])
]

module _ (os : Os) (ok : IsOs os) where
  Follows-later :
      (s s2 : Collecting) (input out : List ℕ) (t t2 : Trace) (r : Iteration)
      (c : Collected × Trace)
      → let a = answer os input out t in
        InOrder input a
        → (dump_get a.1 "more_dump" == 0) ≡ false
        → r.input ≡ next_input input a.1
        → r.out ≡ a.1
        → Grown (sent os input out t) t2
        → s2.total ≡ s.total + dump_get a.1 "size"
        → collected s2 ≡ collected s ++ chunk a.1
        → Follows os s2 r.input r.out t2 c
        → Follows os s input out t c
  Follows-later s s2 input out t t2 r (returned p total, t') order again ei eo g grew appended
        (bytes, e, d) =
      (
        chunk (answer os input out t).1 ++ bytes,
        e ∙ ap (λ xs. xs ++ bytes) appended ∙ append_assoc (collected s) _ bytes,
        more s.total input out t t2 bytes t' order again g (
            subst
              (λ (n : ℕ).
                Dumped os n (next_input input (answer os input out t).1) (answer os input out t).1
                  t2 bytes t')
              grew
              (subst (λ (i : List ℕ). Dumped os s2.total i (answer os input out t).1 t2 bytes t') ei
                (subst (λ (o : List ℕ). Dumped os s2.total r.input o t2 bytes t') eo d))),
      )
  Follows-later s s2 input out t t2 r (overran, t') order again ei eo g grew appended h = h
  Follows-later s s2 input out t t2 r (spent, t') order again ei eo g grew appended h = tt

  Follows-Stored :
      (next : Collecting → M Collected) (s s1 : Collecting) (input out : List ℕ) (t : Trace)
      (r : Iteration) (o : Option Collecting) (t2 : Trace)
      → let a = answer os input out t in
        InOrder input a
        → Continues input a r
        → r.out ≡ a.1
        → Grown (sent os input out t) t2
        → s1.total ≡ s.total
        → collected s1 ≡ collected s
        → Stored s1 a.1 (dump_get a.1 "size") o
        → ((s2 : Collecting) → Valid s2 → Follows os s2 r.input r.out t2 (next s2 t2))
        → Follows os s input out t (after_store next r.ret o t2)
  unfolding after_store
  Follows-Stored next s s1 input out t r none t2 order cont eo g total same h later = absurd h
  Follows-Stored next s s1 input out t r (some s2) t2 order (inl (again, left, ei)) eo g total same
        (v, grew, appended) later =
      rw again (
        Follows-later s s2 input out t t2 r (next s2 t2) order left ei eo g
          (grew ∙ ap (λ (k : ℕ). k + dump_get (answer os input out t).1 "size") total)
          (appended ∙ ap (λ xs. xs ++ chunk (answer os input out t).1) same) (later s2 v))
  Follows-Stored next s s1 input out t r (some s2) t2 order (inr (done, end)) eo g total same
        (v, grew, appended) later =
      rw done (
        chunk (answer os input out t).1,
        appended ∙ ap (λ xs. xs ++ chunk (answer os input out t).1) same,
        last s.total input out t t2 order end g,
      )

  Follows-Roomy :
      (next : Collecting → M Collected) (s : Collecting) (input out : List ℕ) (t : Trace)
      (r : Iteration) (o : Option Collecting) (t2 : Trace)
      → let a = answer os input out t in
        let n : ℕ = dump_get a.1 "size" in
        InOrder input a
        → Continues input a r
        → r.out ≡ a.1
        → Makes os s n (sent os input out t) (o, t2)
        → Roomy s n o
        → inline_data + n ≤ length a.1
        → ((s2 : Collecting) → Valid s2 → Follows os s2 r.input r.out t2 (next s2 t2))
        → Follows os s input out t (after_room next s r o t2)
  unfolding after_room
  Follows-Roomy next s input out t r none t2 order cont eo (full, failed, e) h inside later = (
    [],
    sym (append-nil (collected s)),
    subst (Dumped os s.total input out t []) (sym e)
        (no_memory s.total input out t s.data_block.addr s.size order full failed),
  )
  Follows-Roomy next s input out t r (some s1) t2 order cont eo g (v1, total, room, same) inside
        later =
      let a : ℤ × List ℕ = answer os input out t in
      let n : ℕ = dump_get a.1 "size" in
      subst
        (λ (buf : List ℕ).
          Follows os s input out t
            (after_store next r.ret (store_chunk s1 buf (dump_get buf "size")) t2))
        (sym eo)
        (Follows-Stored next s s1 input out t r (store_chunk s1 a.1 n) t2 order cont eo g total same
          (store_chunk_lem s1 a.1 n v1 (omega (arith, total, room)) inside) later)

  Follows-Refused :
      (s : Collecting) (input out : List ℕ) (t : Trace)
      → Refused input (answer os input out t)
      → Follows os s input out t
          (returned (if s.total == 0 then none else some s.data_block) s.total, sent os input out t)
  Follows-Refused s input out t broken = elim (Bool-cases (s.total == 0)) [
    | inl empty ↦ rw empty (
      [],
      ap (λ (k : ℕ). take k s.data_block.bytes ++ []) {x = 0} {y = s.total} (ground arith),
      refused s.total input out t broken,
    )
    | inr something ↦
        rw something ([], sym (append-nil (collected s)), refused s.total input out t broken)
  ]

  module _
      (fits : (t : Trace) (request o : List ℕ)
        → mlx5_get (os.rpc t request o).out 16 (fld resource_dump "size") ≤ 208) where
    collect_loop-Follows :
        (fuel : ℕ) (s : Collecting) (input out : List ℕ) (t : Trace)
        → Valid s
        → length out ≡ 256
        → Follows os s input out t (collect_loop os fuel s input out t)
    unfolding collect_loop mlx5_rsc_dump_iter fld
    collect_loop-Follows zero s input out t v eo = tt
    collect_loop-Follows (suc fuel) s input out t v eo =
        let (r, t1) = mlx5_rsc_dump_iter os input out t in
        let n : ℕ = dump_get r.out "size" in
        let len : length r.out ≡ 256 = length-iter_out os ok input out t ∙ eo in
        let same : r.out ≡ (answer os input out t).1 = iter-out os ok input out t in
        elim (iter-cases os input out t) [
          | inl (broken, why) ↦ rw broken (Follows-Refused s input out t why)
          | inr (fine, order, cont) ↦
              let small : n ≤ 208 = iter_size-le os ok input out t 208 fits eo fine in
              let size : n ≡ dump_get (answer os input out t).1 "size" =
                ap (λ buf. dump_get buf "size") same in
              rw fine (
                Follows-Roomy (λ s2. collect_loop os fuel s2 r.input r.out) s input out t r
                  (make_room os s n t1).0 (make_room os s n t1).1 order cont same
                  (subst (λ (k : ℕ). Makes os s k t1 (make_room os s n t1)) size
                    (make_room-Makes os s n t1 v))
                  (subst (λ (k : ℕ). Roomy s k (make_room os s n t1).0) size
                    (make_room_lem os ok s n t1 v small))
                  (omega (arith, len, small, size, ap (λ (b : List ℕ). length b) same))
                  (λ s2 v2.
                    collect_loop-Follows fuel s2 r.input r.out (make_room os s n t1).1 v2 len))
        ]

    Follows-Reads :
        (b : Block) (args : Args) (t : Trace) (r : Collected × Trace)
        → Follows os
            (record { data_block = b; size = 4069; total = 0 })
            (dump_request args)
            (zeroed 256)
            (allocated 4069 (some b.addr) ∷ t)
            r
        → Reads os args t r
    Follows-Reads b args t (returned p total, t') (bytes, e, d) = inr (
      b.addr,
      subst
          (λ (bs : List ℕ).
            Dumped os 0 (dump_request args) (zeroed 256) (allocated 4069 (some b.addr) ∷ t) bs t')
          (sym e) d,
    )
    Follows-Reads b args t (overran, t') h = h
    Follows-Reads b args t (spent, t') h = tt

    rscdump_collect-Reads :
        (fuel : ℕ) (args : Args) (t : Trace) → Reads os args t (rscdump_collect os fuel args 0 t)
    unfolding rscdump_collect
    rscdump_collect-Reads fuel args t = elim (Option-cases (os.alloc t 4069)) [
      | inl no_data ↦ rw no_data (inl (no_data, refl))
      | inr (b, got) ↦
          let start : Collecting = record { data_block = b; size = 4069; total = 0 } in
          let same : length b.bytes ≡ 4069 = ok.alloc_size t 4069 b got in
          rw got (
            Follows-Reads b args t
              (collect_loop os fuel start (dump_request args) (zeroed 256)
                (allocated 4069 (some b.addr) ∷ t))
              (collect_loop-Follows fuel start (dump_request args) (zeroed 256) _
                (omega (arith, same)) (length-replicate {A = ℕ} 256 0)))
    ]

    -- On a C library and a kernel that keep to their documentation, with a device that never
    -- says more than the 208 bytes of inline data, what a run of rscdump_collect from a total of
    -- 0 returns is a dump by the protocol of the register, along the calls of the run itself:
    -- the first request is made from the arguments and each other from the reply before it; the
    -- bytes are the inline data of the replies in order, each as many as the reply says; the
    -- dump ends with the reply that says that there is no more, and stops before only with an
    -- access that fails or is out of order, or where the reply has no room and realloc fails for
    -- it. NULL goes with a total of 0, malloc having failed or no bytes having come, and no copy
    -- overruns.
    pub rscdump_collect-IsDump :
        (fuel : ℕ) (args : Args) (t : Trace) → IsDump os args t (rscdump_collect os fuel args 0 t)
    rscdump_collect-IsDump fuel args t =
        (rscdump_collect-Reads fuel args t, rscdump_collect_sound os ok fits fuel args t)
