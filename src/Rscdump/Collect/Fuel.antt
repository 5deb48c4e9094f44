-- ===== src/Rscdump/Collect/Fuel.antt =====
-- The fuel of the collecting loop: once a run ends, more fuel changes nothing.
use mlx5ctl.Base.{
  ℕ, zero, suc, ◌≤◌, ◌≡◌, refl, List, arith, Option, none, some, Bool-cases, Option-cases, ◌==◌,
  inl, inr, if◌then◌else◌,
}
use mlx5ctl.Base.Int.{ℤ, is_negative, is_nonzero}
use mlx5ctl.Os.{Os, M, Trace}
use mlx5ctl.Rscdump.Iter.{Iteration, dump_get, mlx5_rsc_dump_iter}
use mlx5ctl.Rscdump.Collect.{
  Collected, returned, overran, spent, Collecting, Args, store_chunk, after_store, after_room,
  make_room, collect_loop, rscdump_collect,
}

-- The run came to its end.
abbrev pub Ended : Collected → Type 0
Ended (returned b total) = Unit {0}
Ended overran = Unit {0}
Ended spent = ⊥

-- `more` does what `less` does, wherever `less` ends.
abbrev Extends : (Collecting → M Collected) → (Collecting → M Collected) → Type 0
Extends more less = (s : Collecting) (t : Trace) → Ended (less s t).0 → more s t ≡ less s t

store-Extends :
    (more less : Collecting → M Collected) (err : ℤ) (o : Option Collecting) (t : Trace)
    → Extends more less
    → Ended (after_store less err o t).0
    → after_store more err o t ≡ after_store less err o t
unfolding after_store
store-Extends more less err none t ext = λ h. refl
store-Extends more less err (some s) t ext = elim (Bool-cases (is_nonzero err)) [
  | inl again ↦ rw again (λ h. ext s t h)
  | inr last ↦ rw last (λ h. refl)
]

room-Extends :
    (more less : Collecting → M Collected) (s : Collecting) (r : Iteration) (o : Option Collecting)
    (t : Trace)
    → Extends more less
    → Ended (after_room less s r o t).0
    → after_room more s r o t ≡ after_room less s r o t
unfolding after_room
room-Extends more less s r none t ext h = refl
room-Extends more less s r (some s1) t ext h =
    store-Extends more less r.ret (store_chunk s1 r.out (dump_get r.out "size")) t ext h

module _ (os : Os) where
  loop-Extends :
      (fuel j : ℕ) (s : Collecting) (input out : List ℕ) (t : Trace)
      → fuel ≤ j
      → Ended (collect_loop os fuel s input out t).0
      → collect_loop os j s input out t ≡ collect_loop os fuel s input out t
  unfolding collect_loop
  loop-Extends zero j s input out t le = λ h. absurd h
  loop-Extends (suc fuel) zero s input out t le = λ h. absurd (omega arith)
  loop-Extends (suc fuel) (suc j) s input out t le =
      let (r, t1) = mlx5_rsc_dump_iter os input out t in
      elim (Bool-cases (is_negative r.ret)) [
        | inl failed ↦ rw failed (λ h. refl)
        | inr fine ↦ rw fine (
            room-Extends (λ s2. collect_loop os j s2 r.input r.out)
              (λ s2. collect_loop os fuel s2 r.input r.out) s r
              (make_room os s (dump_get r.out "size") t1).0
              (make_room os s (dump_get r.out "size") t1).1
              (λ s2 t2. loop-Extends fuel j s2 r.input r.out t2 (omega arith)))
      ]

  -- A run of rscdump_collect that ends with some fuel has the same result and the same trace of
  -- calls with any more fuel.
  pub rscdump_collect_enough :
      (fuel j : ℕ) (args : Args) (total : ℕ) (t : Trace)
      → fuel ≤ j
      → Ended (rscdump_collect os fuel args total t).0
      → rscdump_collect os j args total t ≡ rscdump_collect os fuel args total t
  unfolding rscdump_collect
  rscdump_collect_enough fuel j args total t le =
      let size : ℕ = if total == 0 then 4069 else total in
      elim (Option-cases (os.alloc t size)) [
        | inl no_data ↦ rw no_data (λ h. refl)
        | inr (b, got) ↦ rw got (λ h. loop-Extends fuel j _ _ _ _ le h)
      ]
