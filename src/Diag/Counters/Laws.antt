-- ===== src/Diag/Counters/Laws.antt =====
-- The value of a counter, and what query_diag_counters prints and leaves allocated.
use mlx5ctl.Base.{
  ℕ, zero, suc, ◌+◌, ◌-◌, ◌*◌, ◌%◌, ◌^◌, ◌≤◌, ◌<◌, ◌≡◌, ◌↔◌, ◌∙◌, ap, refl, inl, inr, bit_or,
  bit_and, sym, [], ◌++◌, length, ◌/◌, bit_or_bound, bit_or_zero, List, ◌∷◌, arith, Bool, true,
  false, Option, none, some, Bool-cases,
}
use mlx5ctl.Base.Int.{ℤ, pos, is_nonzero, rounds}
use mathlib.Core.List.{append_assoc}
use mlx5ctl.Memory.{byte_at, read_be32}
use mlx5ctl.Ifc.{Field, fld, dw_off, dw_bit_off, mask, mlx5_get}
use mlx5ctl.Prm.Diag.{diagnostic_cntr_struct}
use mlx5ctl.Os.{Os, IsOs, Block, Trace, address, allocated, freed, shown, number, raw64}
use mlx5ctl.Os.Live.{live, is_at, KeepsLive}
use mlx5ctl.Device.{mlx5u_cmd}
use mlx5ctl.Diag.Counters.{
  Sample, read_sample, counter_value, sample_at, counters_out_sz, show_sample, show_samples,
  counters_request, ask_counters, query_diag_counters,
}

-- An odd upper half sets bit 31 of the value, and an even one leaves it.
counter_value_lt : (h l : ℕ) → l < 2 ^ 32 → counter_value h l < 2 ^ 32
unfolding counter_value
counter_value_lt h l small = bit_or_bound 32 (h * 2 ^ 31 % 2 ^ 32) l (omega arith) small

pub counter_value_right : (h l : ℕ) → l < 2 ^ 32 → ((counter_value h l ≡ h * 2 ^ 32 + l) ↔ (h ≡ 0))
unfolding counter_value
counter_value_right h l small = (
  λ e. omega (arith, e, counter_value_lt h l small),
  λ e. ap (λ (h' : ℕ). bit_or (h' * 2 ^ 31 % 2 ^ 32) l) e ∙ bit_or_zero l ∙ omega (arith, e),
)

show_samples-live :
    (left i : ℕ) (bin : Bool) (out : List ℕ) → KeepsLive (show_samples left i bin out)
unfolding show_samples show_sample
show_samples-live zero i bin out a t = refl
show_samples-live (suc left) i bin out a t = elim (Bool-cases bin) [
  | inl binary ↦ rw binary (show_samples-live left (i + 1) true out a _)
  | inr printed ↦ rw printed (show_samples-live left (i + 1) false out a _)
]

module _ (os : Os) where
  ask_counters-live :
      (lines index : ℤ) (bin : Bool) (block : Option Block) (a : ℕ) (t : Trace)
      → live a (ask_counters os lines index bin block t).1 ≡ live a t - is_at a (address block)
  unfolding ask_counters mlx5u_cmd
  ask_counters-live lines index bin none a t = omega arith
  ask_counters-live lines index bin (some block) a t =
      let (r, t1) = mlx5u_cmd os (counters_request lines index) block.bytes t in
      elim (Bool-cases (is_nonzero r.0)) [
        | inl failed ↦ rw failed refl
        | inr fine ↦ rw fine (omega (arith, show_samples-live (rounds lines) 0 bin r.1 a t1))
      ]

  pub query_counters-live :
      (lines index : ℤ) (bin : Bool) → KeepsLive (query_diag_counters os lines index bin)
  unfolding query_diag_counters
  query_counters-live lines index bin a t =
      let block : Option Block = os.alloc t (counters_out_sz lines) in
      ask_counters-live lines index bin block a
        (allocated (counters_out_sz lines) (address block) ∷ t)
      ∙ omega arith

-- What is printed of a sample, the newest first.
abbrev pub printed : Bool → Sample → Trace
printed true s =
    shown (raw64 s.value)
    ∷ shown (raw64 s.time_stamp)
    ∷ shown (raw64 s.sample_id)
    ∷ shown (raw64 s.counter_id)
    ∷ []
printed false s =
    shown (number "counter_value" s.value)
    ∷ shown (number "time_stamp" s.time_stamp)
    ∷ shown (number "sample_id" s.sample_id)
    ∷ shown (number "counter_id" s.counter_id)
    ∷ []

-- What is printed of the first samples of an output, the newest first: 16 bytes each, behind a header
-- of 16 bytes.
abbrev pub first_samples : Bool → List ℕ → ℕ → Trace
first_samples bin out zero = []
first_samples bin out (suc n) =
    printed bin (read_sample out (16 + n * 16)) ++ first_samples bin out n

show_sample-printed :
    (bin : Bool) (s : Sample) (t : Trace) → (show_sample bin s t).1 ≡ printed bin s ++ t
unfolding show_sample
show_sample-printed true s t = refl
show_sample-printed false s t = refl

show_samples-first :
    (left i : ℕ) (bin : Bool) (out : List ℕ) (t : Trace)
    → (show_samples left i bin out (first_samples bin out i ++ t)).1
      ≡ first_samples bin out (left + i) ++ t
unfolding show_samples fld
show_samples-first zero i bin out t =
    ap (λ (n : ℕ). first_samples bin out n ++ t) {x = i} {y = 0 + i} (omega arith)
show_samples-first (suc left) i bin out t =
    let s : Sample = read_sample out (sample_at i) in
    ap (λ (t1 : Trace). (show_samples left (i + 1) bin out t1).1)
      (show_sample-printed bin s (first_samples bin out i ++ t)
        ∙ sym (append_assoc (printed bin s) (first_samples bin out i) t)
        ∙ ap (λ (n : ℕ). first_samples bin out n ++ t) {x = suc i} {y = i + 1} (omega arith))
    ∙ show_samples-first left (i + 1) bin out t
    ∙ ap (λ (n : ℕ). first_samples bin out n ++ t) {x = left + (i + 1)} {y = suc left + i}
        (omega arith)

-- Bytes behind a word do not change what is read of it.
byte_at-append : (xs ys : List ℕ) (i : ℕ) → i < length xs → byte_at (xs ++ ys) i ≡ byte_at xs i
byte_at-append [] ys i h = absurd (omega arith)
byte_at-append (x ∷ xs) ys zero h = refl
byte_at-append (x ∷ xs) ys (suc i) h = byte_at-append xs ys i (omega arith)

get-append :
    (xs ys : List ℕ) (p : ℕ) (f : Field)
    → p + 4 * dw_off f + 4 ≤ length xs
    → mlx5_get (xs ++ ys) p f ≡ mlx5_get xs p f
unfolding mlx5_get
get-append xs ys p f h =
    let at : ℕ = p + 4 * dw_off f in
    ap (λ w. bit_and (w / 2 ^ dw_bit_off f) (mask f)) {x = read_be32 (xs ++ ys) at}
      {y = read_be32 xs at}
      (omega (
        arith,
        byte_at-append xs ys at (omega arith),
        byte_at-append xs ys (at + 1) (omega arith),
        byte_at-append xs ys (at + 2) (omega arith),
        byte_at-append xs ys (at + 3) (omega arith),
      ))

read_sample-append :
    (xs ys : List ℕ) (p : ℕ) → p + 16 ≤ length xs → read_sample (xs ++ ys) p ≡ read_sample xs p
unfolding read_sample fld
read_sample-append xs ys p h =
    rw
      (
        get-append xs ys p (fld diagnostic_cntr_struct "counter_id") (omega arith),
        get-append xs ys p (fld diagnostic_cntr_struct "sample_id") (omega arith),
        get-append xs ys p (fld diagnostic_cntr_struct "time_stamp_31_0") (omega arith),
        get-append xs ys p (fld diagnostic_cntr_struct "counter_value_h") (omega arith),
        get-append xs ys p (fld diagnostic_cntr_struct "counter_value_l") (omega arith),
      )
      refl

first_samples-append :
    (bin : Bool) (xs ys : List ℕ) (n : ℕ)
    → sample_at n ≤ length xs
    → first_samples bin (xs ++ ys) n ≡ first_samples bin xs n
unfolding fld
first_samples-append bin xs ys zero h = refl
first_samples-append bin xs ys (suc n) h =
    ap (λ (s : Sample). printed bin s ++ first_samples bin (xs ++ ys) n)
      (read_sample-append xs ys (sample_at n) (omega (arith, h)))
    ∙ ap (λ (t : Trace). printed bin (read_sample xs (sample_at n)) ++ t)
        (first_samples-append bin xs ys n (omega (arith, h)))

-- The command in a block of the size asked for.
abbrev pub answered : Os → ℕ → ℤ → Trace → Block → (ℤ × List ℕ) × Trace
answered os n index t b =
    mlx5u_cmd os (counters_request (pos n) index) b.bytes
      (allocated (counters_out_sz (pos n)) (some b.addr) ∷ t)

module _ (os : Os) (ok : IsOs os) (n : ℕ) (index : ℤ) (bin : Bool) (t : Trace) where
  length-answered :
      (b : Block)
      → os.alloc t (counters_out_sz (pos n)) ≡ some b
      → length (answered os n index t b).0.1 ≡ counters_out_sz (pos n)
  unfolding mlx5u_cmd
  length-answered b got = ok.rpc_size _ _ _ ∙ ok.alloc_size t (counters_out_sz (pos n)) b got

  -- On a C library and a kernel that keep to their documentation, query_diag_counters of at most
  -- 4094 samples, when its output is allocated and the command succeeds, returns what the
  -- command returned, prints just these samples of the output, which stand at 16 bytes each
  -- behind a header of 16 bytes, each once and in their order, and frees the output; what is
  -- printed does not depend on any bytes behind the output.
  pub query_counters-first :
      (b : Block) (beyond : List ℕ)
      → n ≤ 4094
      → os.alloc t (counters_out_sz (pos n)) ≡ some b
      → is_nonzero (answered os n index t b).0.0 ≡ false
      → let ((err, out), t1) = answered os n index t b in
        (query_diag_counters os (pos n) index bin t
          ≡ (err, freed (some b.addr) ∷ (first_samples bin out n ++ t1)))
        × (first_samples bin (out ++ beyond) n ≡ first_samples bin out n)
  unfolding query_diag_counters ask_counters fld
  query_counters-first b beyond few got fine =
      let ((err, out), t1) = answered os n index t b in
      (
        rw (got, fine)
            (ap (λ (t2 : Trace). (err, freed (some b.addr) ∷ t2))
              (show_samples-first n 0 bin out t1
                ∙ ap (λ (k : ℕ). first_samples bin out k ++ t1) {x = n + 0} {y = n} (omega arith))),
        first_samples-append bin out beyond n (omega (arith, length-answered b got, few)),
      )
