-- ===== src/Rscdump/Segments/Laws.antt =====
-- When the walk over the segments ends, and where.
use mlx5ctl.Base.{
  ℕ, zero, suc, ◌+◌, ◌%◌, ◌≤◌, ◌<◌, ◌≡◌, ◌≢◌, inl, inr, List, arith, Bool-cases, leb, refl,
}
use mlx5ctl.Os.{Trace}
use mlx5ctl.Rscdump.Segments.{
  Walk, ended, overflowed, unfinished, get_sgmnt_hdr, parse_segment, parse_loop,
}

-- Not run out of fuel; an overflow lies at or behind the end of the data.
abbrev pub Settled : ℕ → Walk → Type 0
Settled size ended = Unit {0}
Settled size (overflowed p) = size ≤ p
Settled size unfinished = ⊥

-- Every segment that can start inside the data, at a whole word from the first segment on, has a
-- length.
abbrev pub Advances : List ℕ → ℕ → Type 0
Advances data_in size = (p : ℕ) → 36 ≤ p → p < size → p % 4 ≡ 0 → 0 < (get_sgmnt_hdr data_in p).len

-- The walk goes on behind a segment of any type but terminate and error.
parse_segment-goes :
    (data_in : List ℕ) (p : ℕ) (t : Trace)
    → let kind = (get_sgmnt_hdr data_in p).segment_type in
      kind ≢ 0xfffb → kind ≢ 0xfffc → (parse_segment data_in p t).0 ≡ 0
unfolding parse_segment
parse_segment-goes data_in p t h k = ground arith

-- From a segment inside the data that has no length and is of neither the type terminate nor the
-- type error, the loop of parse_resource_dump never ends: no fuel is enough.
pub parse_loop_stuck :
    (data_in : List ℕ) (size p : ℕ)
    → p < size
    → (get_sgmnt_hdr data_in p).len ≡ 0
    → (get_sgmnt_hdr data_in p).segment_type ≢ 0xfffb
    → (get_sgmnt_hdr data_in p).segment_type ≢ 0xfffc
    → (fuel : ℕ) (t : Trace) → (parse_loop fuel data_in size p t).0 ≡ unfinished
unfolding parse_loop
parse_loop_stuck data_in size p inside empty h k zero t = refl
parse_loop_stuck data_in size p inside empty h k (suc fuel) t =
    let (stop, t1) = parse_segment data_in p t in
    let stays : p + (get_sgmnt_hdr data_in p).len ≡ p = omega (arith, empty) in
    rw (parse_segment-goes data_in p t h k, stays)
      (elim (Bool-cases (leb size p)) [
        | inl past ↦ absurd (ground arith)
        | inr within ↦ rw within (parse_loop_stuck data_in size p inside empty h k fuel t1)
      ])
