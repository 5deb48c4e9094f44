-- ===== src/Rscdump/Collect/Chunk.antt =====
-- One step of the collecting loop: making room, and copying a chunk behind what was collected.
use mlx5ctl.Base.{
  ℕ, zero, suc, ◌+◌, ◌*◌, ◌≤◌, ◌≡◌, ◌∙◌, ap, refl, inl, inr, List, [], ◌∷◌, ◌++◌, length, take,
  drop, arith, Option, none, some, Bool-cases, Option-cases, ltb, length-append, length-take,
  length-drop,
}
use mlx5ctl.Memory.{splice, slice}
use mlx5ctl.Memory.Laws.{length-splice}
use mlx5ctl.Os.{Os, IsOs, Trace}
use mlx5ctl.Rscdump.Collect.{Collecting, inline_data, no_room, store_chunk, make_room}

take-append : (n : ℕ) (xs ys : List ℕ) → n ≤ length xs → take n (xs ++ ys) ≡ take n xs
take-append zero xs ys h = refl
take-append (suc n) [] ys h = absurd (omega arith)
take-append (suc n) (x ∷ xs) ys h = ap (λ zs. x ∷ zs) (take-append n xs ys (omega arith))

take-splice :
    (xs : List ℕ) (off : ℕ) (src : List ℕ) (m : ℕ)
    → m ≡ off + length src
    → m ≤ length xs
    → take m (splice xs off src) ≡ take off xs ++ src
unfolding splice
take-splice xs zero [] zero e h = refl
take-splice [] off src (suc m) e h = absurd (omega arith)
take-splice [] zero (b ∷ src) zero e h = absurd (omega arith)
take-splice [] (suc off) src zero e h = absurd (omega arith)
take-splice (x ∷ xs) zero [] (suc m) e h = absurd (omega arith)
take-splice (x ∷ xs) zero (b ∷ src) zero e h = absurd (omega arith)
take-splice (x ∷ xs) zero (b ∷ src) (suc m) e h =
    ap (λ zs. b ∷ zs) (take-splice xs zero src m (omega arith) (omega arith))
take-splice (x ∷ xs) (suc off) src zero e h = absurd (omega arith)
take-splice (x ∷ xs) (suc off) src (suc m) e h =
    ap (λ zs. x ∷ zs) (take-splice xs off src m (omega arith) (omega arith))

-- The state of the loop: the block has the size noted, and at least that of a chunk.
abbrev pub Valid : Collecting → Type 0
Valid s = (length s.data_block.bytes ≡ s.size) × (s.total ≤ s.size) × (208 ≤ s.size)

abbrev pub collected : Collecting → List ℕ
collected s = take s.total s.data_block.bytes

-- What `make_room` gives: room for the chunk, nothing lost.
abbrev pub Roomy : Collecting → ℕ → Option Collecting → Type 0
Roomy s n none = Unit {0}
Roomy s n (some s1) =
    Valid s1 × (s1.total ≡ s.total) × (s.total + n ≤ s1.size) × (collected s1 ≡ collected s)

pub make_room_lem :
    (os : Os)
    → IsOs os
    → (s : Collecting) (n : ℕ) (t : Trace) → Valid s
    → n ≤ 208
    → Roomy s n (make_room os s n t).0
unfolding make_room
make_room_lem os ok s n t (same, low, large) h = elim (Bool-cases (no_room s n)) [
  | inr roomy ↦ rw roomy ((same, low, large), refl, ground arith, refl)
  | inl full ↦
      rw full
        (elim (Option-cases
          (os.grow t s.data_block.addr (length s.data_block.bytes) (s.size * 2))) [
            | inl failed ↦ rw failed tt
            | inr (b, grown) ↦ rw grown (
              (
                length-append s.data_block.bytes b.bytes
                    ∙ ok.grow_size t _ _ _ b (omega arith) grown,
                omega arith,
                omega arith,
              ),
              refl,
              omega arith,
              take-append s.total s.data_block.bytes b.bytes (omega arith),
            )
          ])
]

-- What `store_chunk` gives: the chunk behind what was collected before.
abbrev pub Stored : Collecting → List ℕ → ℕ → Option Collecting → Type 0
Stored s out n none = ⊥
Stored s out n (some s1) =
    Valid s1 × (s1.total ≡ s.total + n) × (collected s1 ≡ collected s ++ slice out inline_data n)

-- From a valid state with room for the chunk, and a chunk inside the register, the copy of
-- rscdump_collect leaves the bytes collected so far followed by exactly the chunk, the total
-- grown by its size, and the state valid.
pub store_chunk_lem :
    (s : Collecting) (out : List ℕ) (n : ℕ)
    → Valid s
    → s.total + n ≤ s.size
    → inline_data + n ≤ length out
    → Stored s out n (store_chunk s out n)
unfolding store_chunk
store_chunk_lem s out n (same, low, large) room inside =
    let chunk : length (slice out inline_data n) ≡ n =
      length-take n (drop inline_data out) ∙ omega (arith, length-drop inline_data out, inside) in
    elim (Bool-cases (ltb s.size (s.total + n))) [
      | inl full ↦ absurd (ground arith)
      | inr roomy ↦ elim (Bool-cases (ltb (length out) (inline_data + n))) [
        | inl short ↦ absurd (ground arith)
        | inr long ↦
            rw (roomy, long)
              (
                (length-splice s.data_block.bytes s.total _ ∙ same, room, large),
                refl,
                take-splice s.data_block.bytes s.total (slice out inline_data n) (s.total + n)
                    (omega (arith, chunk)) (omega arith),
              )
      ]
    ]
