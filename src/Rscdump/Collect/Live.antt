-- ===== src/Rscdump/Collect/Live.antt =====
-- The block that rscdump_collect returns is the one it leaves allocated.
use mlx5ctl.Base.{
  ℕ, zero, suc, ◌+◌, ◌*◌, ◌≡◌, ◌∙◌, refl, inl, inr, arith, Bool-cases, Option-cases, ◌==◌, Option,
  none, some, List, length, ltb, if◌then◌else◌,
}
use mlx5ctl.Base.Int.{ℤ, is_negative, is_nonzero}
use mlx5ctl.Os.{Os, Trace, M}
use mlx5ctl.Os.Live.{live, is_at}
use mlx5ctl.Rscdump.Iter.{Iteration, dump_get, mlx5_rsc_dump_iter}
use mlx5ctl.Rscdump.Umem.Laws.{iter-live}
use mlx5ctl.Rscdump.Collect.{
  Args, inline_data, Collected, returned, overran, spent, Collecting, no_room, make_room,
  store_chunk, after_store, after_room, collect_loop, rscdump_collect,
}

-- A block that is returned is alive, and nothing else is left.
abbrev pub Holds : ℕ → ℕ → Collected × Trace → Type 0
Holds a base (returned (some b) total, t) = live a t ≡ base + is_at a (some b.addr)
Holds a base (returned none total, t) = Unit {0}
Holds a base (overran, t) = Unit {0}
Holds a base (spent, t) = Unit {0}

-- The block of a state is alive.
abbrev Owned : ℕ → ℕ → Collecting → Trace → Type 0
Owned a base s t = live a t ≡ base + is_at a (some s.data_block.addr)

abbrev OwnedIf : ℕ → ℕ → Collecting → Option Collecting → Trace → Type 0
OwnedIf a base s none t = Owned a base s t
OwnedIf a base s (some s1) t = Owned a base s1 t

make_room-Owned :
    (os : Os) (a base : ℕ) (s : Collecting) (n : ℕ) (t : Trace)
    → Owned a base s t
    → OwnedIf a base s (make_room os s n t).0 (make_room os s n t).1
unfolding make_room
make_room-Owned os a base s n t h = elim (Bool-cases (no_room s n)) [
  | inr roomy ↦ rw roomy h
  | inl full ↦
      rw full
        (elim (Option-cases
          (os.grow t s.data_block.addr (length s.data_block.bytes) (s.size * 2))) [
            | inl failed ↦ rw failed h
            | inr (b, grown) ↦ rw grown (omega (arith, h))
          ])
]

store_chunk-Owned :
    (a base : ℕ) (s : Collecting) (out : List ℕ) (n : ℕ) (t : Trace)
    → Owned a base s t
    → OwnedIf a base s (store_chunk s out n) t
unfolding store_chunk
store_chunk-Owned a base s out n t h = elim (Bool-cases (ltb s.size (s.total + n))) [
  | inl full ↦ rw full h
  | inr roomy ↦ elim (Bool-cases (ltb (length out) (inline_data + n))) [
    | inl short ↦ rw (roomy, short) h
    | inr long ↦ rw (roomy, long) h
  ]
]

-- What the next round does for the state it starts from.
abbrev Keeps : ℕ → ℕ → (Collecting → M Collected) → Type 0
Keeps a base next = (s : Collecting) (t : Trace) → Owned a base s t → Holds a base (next s t)

after_store-Holds :
    (a base : ℕ) (next : Collecting → M Collected) (err : ℤ) (s : Collecting)
    (o : Option Collecting) (t : Trace)
    → Keeps a base next
    → OwnedIf a base s o t
    → Holds a base (after_store next err o t)
unfolding after_store
after_store-Holds a base next err s none t keeps h = tt
after_store-Holds a base next err s (some s1) t keeps h = elim (Bool-cases (is_nonzero err)) [
  | inl again ↦ rw again (keeps s1 t h)
  | inr last ↦ rw last h
]

after_room-Holds :
    (a base : ℕ) (next : Collecting → M Collected) (s : Collecting) (r : Iteration)
    (o : Option Collecting) (t : Trace)
    → Keeps a base next
    → OwnedIf a base s o t
    → Holds a base (after_room next s r o t)
unfolding after_room
after_room-Holds a base next s r none t keeps h = h
after_room-Holds a base next s r (some s1) t keeps h =
    after_store-Holds a base next r.ret s1 (store_chunk s1 r.out (dump_get r.out "size")) t keeps
      (store_chunk-Owned a base s1 r.out (dump_get r.out "size") t h)

Holds-failed :
    (a base : ℕ) (s : Collecting) (t : Trace)
    → Owned a base s t
    → Holds a base (returned (if s.total == 0 then none else some s.data_block) s.total, t)
Holds-failed a base s t h = elim (Bool-cases (s.total == 0)) [
  | inl empty ↦ rw empty tt
  | inr something ↦ rw something h
]

module _ (os : Os) where
  collect_loop-Holds :
      (fuel : ℕ) (a base : ℕ) (s : Collecting) (input out : List ℕ) (t : Trace)
      → Owned a base s t
      → Holds a base (collect_loop os fuel s input out t)
  unfolding collect_loop
  collect_loop-Holds zero a base s input out t h = tt
  collect_loop-Holds (suc fuel) a base s input out t h =
      let (r, t1) = mlx5_rsc_dump_iter os input out t in
      let n : ℕ = dump_get r.out "size" in
      let owned : Owned a base s t1 = iter-live os input out a t ∙ h in
      elim (Bool-cases (is_negative r.ret)) [
        | inl failed ↦ rw failed (Holds-failed a base s t1 owned)
        | inr fine ↦ rw fine (
            after_room-Holds a base (λ s2. collect_loop os fuel s2 r.input r.out) s r
              (make_room os s n t1).0 (make_room os s n t1).1
              (λ s2 t2 h2. collect_loop-Holds fuel a base s2 r.input r.out t2 h2)
              (make_room-Owned os a base s n t1 owned))
      ]

  pub rscdump_collect-Holds :
      (fuel : ℕ) (args : Args) (a total : ℕ) (t : Trace)
      → Holds a (live a t) (rscdump_collect os fuel args total t)
  unfolding rscdump_collect
  rscdump_collect-Holds fuel args a total t =
      let size : ℕ = if total == 0 then 4069 else total in
      elim (Option-cases (os.alloc t size)) [
        | inl no_data ↦ rw no_data tt
        | inr (b, got) ↦ rw got (collect_loop-Holds fuel a (live a t) _ _ _ _ refl)
      ]
