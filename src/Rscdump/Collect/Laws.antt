-- ===== src/Rscdump/Collect/Laws.antt =====
-- What rscdump_collect comes to: no copy outside the buffers, and a result inside its block.
use mlx5ctl.Base.{
  ℕ, zero, suc, ◌+◌, ◌≤◌, ◌≡◌, ◌∙◌, sym, ap, refl, inl, inr, List, [], ◌++◌, length, take, arith,
  Option, none, some, Bool-cases, Option-cases, ◌==◌, if◌then◌else◌, length-replicate,
}
use mathlib.Core.List.{append_assoc, append-nil}
use mlx5ctl.Base.Int.{ℤ, is_negative, is_nonzero}
use mlx5ctl.Memory.{zeroed, slice}
use mlx5ctl.Ifc.{fld, mlx5_get}
use mlx5ctl.Os.{Os, IsOs, M, Trace}
use mlx5ctl.Prm.Dump.{resource_dump}
use mlx5ctl.Rscdump.Iter.{Iteration, dump_get, mlx5_rsc_dump_iter}
use mlx5ctl.Rscdump.Iter.Reply.{length-iter_out, iter_size-le}
use mlx5ctl.Rscdump.Collect.{
  Collected, returned, overran, spent, Collecting, Args, inline_data, store_chunk, after_store,
  after_room, make_room, collect_loop, rscdump_collect,
}
use mlx5ctl.Rscdump.Collect.Chunk.{Valid, collected, Roomy, make_room_lem, Stored, store_chunk_lem}

-- What the loop may come to from the state `s`: never a copy outside the buffers, and a result that
-- lies inside its block and begins with what was there.
abbrev pub Sound : Collecting → Collected → Type 0
Sound s (returned none total) = (s.total ≡ 0) × (total ≡ 0)
Sound s (returned (some b) total) =
    (total ≤ length b.bytes) × ((rest : List ℕ) × (take total b.bytes ≡ collected s ++ rest))
Sound s overran = ⊥
Sound s spent = Unit {0}

-- What is sound from a later state of the loop is sound from an earlier one.
Sound-later :
    (s s2 : Collecting) (c : Collected) (chunk : List ℕ)
    → s.total ≤ s2.total
    → collected s2 ≡ collected s ++ chunk
    → Sound s2 c
    → Sound s c
Sound-later s s2 (returned none total) chunk low more h = omega (arith, low, h)
Sound-later s s2 (returned (some b) total) chunk low more (inside, (rest, e)) = (
  inside,
  (chunk ++ rest, e ∙ ap (λ xs. xs ++ rest) more ∙ append_assoc (collected s) chunk rest),
)
Sound-later s s2 overran chunk low more h = h
Sound-later s s2 spent chunk low more h = tt

Sound-here : (s : Collecting) → Valid s → Sound s (returned (some s.data_block) s.total)
Sound-here s v = (omega (arith, v), ([], sym (append-nil (collected s))))

Sound-failed :
    (s : Collecting)
    → Valid s
    → Sound s (returned (if s.total == 0 then none else some s.data_block) s.total)
Sound-failed s v = elim (Bool-cases (s.total == 0)) [
  | inl empty ↦ rw empty (ground arith)
  | inr something ↦ rw something (Sound-here s v)
]

Sound-Stored :
    (next : Collecting → M Collected) (err : ℤ) (s : Collecting) (out : List ℕ) (n : ℕ)
    (o : Option Collecting) (t : Trace)
    → Stored s out n o
    → ((s2 : Collecting) (t2 : Trace) → Valid s2 → Sound s2 (next s2 t2).0)
    → Sound s (after_store next err o t).0
unfolding after_store
Sound-Stored next err s out n none t h later = absurd h
Sound-Stored next err s out n (some s2) t (v, grew, more) later =
    Sound-later s s2 (after_store next err (some s2) t).0 (slice out inline_data n)
      (omega (arith, grew)) more
      (elim (Bool-cases (is_nonzero err)) [
        | inl again ↦ rw again (later s2 t v)
        | inr last ↦ rw last (Sound-here s2 v)
      ])

Sound-Roomy :
    (next : Collecting → M Collected) (s : Collecting) (r : Iteration) (o : Option Collecting)
    (t : Trace)
    → Valid s
    → Roomy s (dump_get r.out "size") o
    → inline_data + dump_get r.out "size" ≤ length r.out
    → ((s2 : Collecting) (t2 : Trace) → Valid s2 → Sound s2 (next s2 t2).0)
    → Sound s (after_room next s r o t).0
unfolding after_room
Sound-Roomy next s r none t v h inside later = Sound-here s v
Sound-Roomy next s r (some s1) t v (v1, total, room, same) inside later =
    let n : ℕ = dump_get r.out "size" in
    Sound-later s s1 _ [] (omega (arith, total)) (same ∙ sym (append-nil (collected s))) (
      Sound-Stored next r.ret s1 r.out n (store_chunk s1 r.out n) t
        (store_chunk_lem s1 r.out n v1 (omega (arith, total, room)) inside) later)

abbrev pub Within : Collected → Type 0
Within (returned none total) = total ≡ 0
Within (returned (some b) total) = total ≤ length b.bytes
Within overran = ⊥
Within spent = Unit {0}

Sound-Within : (s : Collecting) (c : Collected) → Sound s c → Within c
Sound-Within s (returned none total) h = h.1
Sound-Within s (returned (some b) total) h = h.0
Sound-Within s overran h = h
Sound-Within s spent h = h

module _ (os : Os) (ok : IsOs os)
    (fits : (t : Trace) (request o : List ℕ)
      → mlx5_get (os.rpc t request o).out 16 (fld resource_dump "size") ≤ 208) where
  collect_loop_lem :
      (fuel : ℕ) (s : Collecting) (input out : List ℕ) (t : Trace)
      → Valid s
      → length out ≡ 256
      → Sound s (collect_loop os fuel s input out t).0
  unfolding collect_loop fld mlx5_rsc_dump_iter
  collect_loop_lem zero s input out t v eo = tt
  collect_loop_lem (suc fuel) s input out t v eo =
      let (r, t1) = mlx5_rsc_dump_iter os input out t in
      let n : ℕ = dump_get r.out "size" in
      let len : length r.out ≡ 256 = length-iter_out os ok input out t ∙ eo in
      elim (Bool-cases (is_negative r.ret)) [
        | inl failed ↦ rw failed (Sound-failed s v)
        | inr fine ↦
            let small : n ≤ 208 = iter_size-le os ok input out t 208 fits eo fine in
            rw fine (
              Sound-Roomy (λ s2. collect_loop os fuel s2 r.input r.out) s r (make_room os s n t1).0
                (make_room os s n t1).1 v (make_room_lem os ok s n t1 v small)
                (omega (arith, len, small))
                (λ s2 t2 v2. collect_loop_lem fuel s2 r.input r.out t2 v2 len))
      ]

  -- On a C library and a kernel that keep to their documentation, with a device that never says
  -- more than the 208 bytes of inline data, a run of rscdump_collect that starts with a total of
  -- 0 never copies outside its buffers, and what it returns lies inside the block it returns;
  -- NULL goes with a total of 0.
  pub rscdump_collect_sound :
      (fuel : ℕ) (args : Args) (t : Trace) → Within (rscdump_collect os fuel args 0 t).0
  unfolding rscdump_collect
  rscdump_collect_sound fuel args t = elim (Option-cases (os.alloc t 4069)) [
    | inl no_data ↦ rw no_data refl
    | inr (b, got) ↦
        let start : Collecting = record { data_block = b; size = 4069; total = 0 } in
        let same : length b.bytes ≡ 4069 = ok.alloc_size t 4069 b got in
        rw got (
          Sound-Within start _ (
            collect_loop_lem fuel start _ (zeroed 256) _ (omega (arith, same))
              (length-replicate {A = ℕ} 256 0)))
  ]
