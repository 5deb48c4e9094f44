-- ===== src/Rscdump/Collect/Protocol.antt =====
-- What a resource dump is by the protocol of the register, apart from the buffers: the chunks of the
-- replies in their order, and when it may stop short.
use mlx5ctl.Base.{
  ℕ, ◌+◌, ◌*◌, ◌<◌, ◌≡◌, ◌⊎◌, List, [], ◌∷◌, ◌++◌, take, true, false, Option, none, some, ◌==◌,
}
use mlx5ctl.Memory.{zeroed, slice}
use mlx5ctl.Os.{Os, Block, Trace, allocated, reallocated}
use mlx5ctl.Reg.Ids.{reg_resource_dump}
use mlx5ctl.Reg.Access.{mlx5_access_reg}
use mlx5ctl.Rscdump.Iter.{dump_get, next_input}
use mlx5ctl.Rscdump.Iter.Cases.{Refused, InOrder, answer}
use mlx5ctl.Rscdump.Collect.{Collected, returned, overran, spent, Args, inline_data, dump_request}
use mlx5ctl.Rscdump.Collect.Laws.{Within}

-- The data that a register holds.
abbrev pub chunk : List ℕ → List ℕ
chunk out = slice out inline_data (dump_get out "size")

-- The trace after an access, and after a `realloc` that was granted or not needed.
abbrev pub sent : Os → List ℕ → List ℕ → Trace → Trace
sent os input out t = (mlx5_access_reg os input out reg_resource_dump 0 0 t).1

abbrev pub Grown : Trace → Trace → Type 0
Grown t t2 = (t2 ≡ t) ⊎ ((p : ℕ) × (n : ℕ) × (q : ℕ) × (t2 ≡ reallocated p n (some q) ∷ t))

-- `Dumped os sofar input out t bytes t'`: a dump that goes on with a request and an output buffer
-- after `sofar` bytes, in a run from the trace `t` to the trace `t'`, and carries `bytes`. It ends with
-- the reply that says that there is no more. It is cut short by an error or a reply out of order, or
-- where `realloc` fails for a reply that has no room.
pub data Dumped (os : Os) : ℕ → List ℕ → List ℕ → Trace → List ℕ → Trace → Type 0 where
  refused :
      (sofar : ℕ) (input out : List ℕ) (t : Trace)
      → Refused input (answer os input out t)
      → Dumped os sofar input out t [] (sent os input out t)
  no_memory :
      (sofar : ℕ) (input out : List ℕ) (t : Trace) (p old : ℕ)
      → InOrder input (answer os input out t)
      → old < sofar + dump_get (answer os input out t).1 "size"
      → os.grow (sent os input out t) p old (old * 2) ≡ none
      → Dumped os sofar input out t [] (reallocated p (old * 2) none ∷ sent os input out t)
  last :
      (sofar : ℕ) (input out : List ℕ) (t t2 : Trace)
      → InOrder input (answer os input out t)
      → (dump_get (answer os input out t).1 "more_dump" == 0) ≡ true
      → Grown (sent os input out t) t2
      → Dumped os sofar input out t (chunk (answer os input out t).1) t2
  more :
      (sofar : ℕ) (input out : List ℕ) (t t2 : Trace) (rest : List ℕ) (t3 : Trace)
      → InOrder input (answer os input out t)
      → (dump_get (answer os input out t).1 "more_dump" == 0) ≡ false
      → Grown (sent os input out t) t2
      → Dumped os
          (sofar + dump_get (answer os input out t).1 "size")
          (next_input input (answer os input out t).1)
          (answer os input out t).1
          t2
          rest
          t3
      → Dumped os sofar input out t (chunk (answer os input out t).1 ++ rest) t3

-- The data returned.
abbrev pub data_of : Option Block → ℕ → List ℕ
data_of none total = []
data_of (some b) total = take total b.bytes

module _ (os : Os) where
  -- A dump that is returned, of a run with the first block at some address, or without a block.
  abbrev pub Reads : Args → Trace → Collected × Trace → Type 0
  Reads args t (returned p total, t') =
      ((os.alloc t 4069 ≡ none) × (p ≡ none))
      ⊎ ((addr : ℕ) × Dumped os 0 (dump_request args) (zeroed 256) (allocated 4069 (some addr) ∷ t)
            (data_of p total) t')
  Reads args t (overran, t') = ⊥
  Reads args t (spent, t') = Unit {0}

  abbrev pub IsDump : Args → Trace → Collected × Trace → Type 0
  IsDump args t r = Reads args t r × Within r.0
