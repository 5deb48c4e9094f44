-- ===== src/Diag/Commands/Sends.antt =====
-- What the `set` command sends: the ids and settings on its command line.
use mlx5ctl.Base.{
  ℕ, ◌+◌, ◌*◌, ◌%◌, ◌^◌, ◌<◌, ◌≡◌, ◌∙◌, refl, ap, sym, inl, inr, arith, true, false, Bool-cases,
  String, Option, some, List, [], ◌∷◌, length, get_or, if◌then◌else◌,
}
use mathlib.Core.Path.{subst}
use mlx5ctl.Base.Int.{ℤ, is_nonzero, is_negative}
use mlx5ctl.Memory.{IsBytes}
use mlx5ctl.Ifc.{fld, mlx5_get}
use mlx5ctl.Cstring.Laws.{length-tokens}
use mlx5ctl.Cstring.{codes, strtoul, tokens}
use mlx5ctl.Os.{Os, IsOs, Block, Trace}
use mlx5ctl.Os.Live.{requests}
use mlx5ctl.Device.{mlx5u_cmd}
use mlx5ctl.Prm.Diag.{diagnostic_params_context, set_diagnostic_params_in}
use mlx5ctl.Diag.Cap.{get_dev_freq, devcap_request, cap_general_type}
use mlx5ctl.Diag.Params.{
  SetDiagParams, set_param_request, set_param_size, set_ctx, first_id, id_field,
  mlx5_diag_cnt_set_param,
}
use mlx5ctl.Diag.Params.Laws.{
  set_param-requests, set_param_request_ids, set_param_request_opcode, set_param_request_fields,
}
use mlx5ctl.Diag.Flags.{parse_flags}
use mlx5ctl.Diag.Flags.Laws.{all_flags, mentions, set_by, parse_flags_params, parse_flags-Quiet}
use mlx5ctl.Diag.Commands.{
  no_params, read_ids, num_of_counters, set_arguments, show_counter_ids, show_set, send_set,
  set_counters, set_accepted, set_args,
}
use mlx5ctl.Diag.Commands.Laws.{refused, set_args-accepted, set_ids}

show_counter_ids-requests :
    (i : ℕ) (ids : List ℕ) (t : Trace) → requests (show_counter_ids i ids t).1 ≡ requests t
unfolding show_counter_ids
show_counter_ids-requests i [] t = refl
show_counter_ids-requests i (id ∷ rest) t = show_counter_ids-requests (i + 1) rest _

show_set-requests :
    (p : SetDiagParams) (freq : ℤ) (t : Trace) → requests (show_set p freq t).1 ≡ requests t
unfolding show_set
show_set-requests p freq t = show_counter_ids-requests 0 p.counter_ids _

-- In a run the settings `p` are sent last, with the block's bytes where the command leaves them.
record Sent (p : SetDiagParams) (before after : List (List ℕ)) : Type 0 where
  block : Block
  size : length block.bytes ≡ set_param_size p
  bytes : IsBytes block.bytes
  sent : after ≡ set_param_request p block.bytes ∷ before

module _ (os : Os) where
  send_set-requests :
      (p : SetDiagParams) (ids : Option Block) (freq : ℤ) (t : Trace)
      → is_negative freq ≡ false
      → requests (send_set os p ids freq t).1
        ≡ requests (mlx5_diag_cnt_set_param os p (show_set p freq t).1).1
  unfolding send_set
  send_set-requests p ids freq t had =
      elim (Bool-cases (is_nonzero (mlx5_diag_cnt_set_param os p (show_set p freq t).1).0)) [
        | inl refusal ↦ rw (had, refusal) refl
        | inr done ↦ rw (had, done) refl
      ]

-- What the `set` command asks for: its opcode, the settings of its flags, and an id for each token.
abbrev pub IsAsked : String → String → List ℕ → Type 0
IsAsked flags counters request =
    (mlx5_get request 0 (fld set_diagnostic_params_in "opcode") ≡ 0x820)
    × (mlx5_get request set_ctx (fld diagnostic_params_context "num_of_counters")
        ≡ num_of_counters (codes counters) % 2 ^ 16)
    × (mlx5_get request set_ctx (fld diagnostic_params_context "single")
        ≡ set_by b's' (codes flags) 0 % 2)
    × (mlx5_get request set_ctx (fld diagnostic_params_context "repetitive")
        ≡ set_by b'r' (codes flags) 0 % 2)
    × (mlx5_get request set_ctx (fld diagnostic_params_context "sync")
        ≡ set_by b'S' (codes flags) 0 % 2)
    × (mlx5_get request set_ctx (fld diagnostic_params_context "clear")
        ≡ set_by b'c' (codes flags) 0 % 2)
    × (mlx5_get request set_ctx (fld diagnostic_params_context "enable") ≡ 1)
    × ((j : ℕ)
        → j < length (tokens (codes counters))
        → mlx5_get request (set_ctx + first_id + 4 * j) id_field
          ≡ strtoul (get_or (tokens (codes counters)) j []) % 2 ^ 32 % 2 ^ 16)

module _ (os : Os) (documented : IsOs os)
    (granted : (t : Trace) (n : ℕ) → (b : Block) × (os.alloc t n ≡ some b))
    (clocked : (t : Trace) → is_negative (get_dev_freq os t).0 ≡ false) where
  send_set-Sent :
      (p : SetDiagParams) (ids : Option Block) (freq : ℤ) (t : Trace)
      → is_negative freq ≡ false
      → Sent p (requests t) (requests (send_set os p ids freq t).1)
  send_set-Sent p ids freq t had =
      let (b, e) = granted (show_set p freq t).1 (set_param_size p) in
      record {
        block = b;
        size = documented.alloc_size _ (set_param_size p) b e;
        bytes = documented.alloc_bytes _ (set_param_size p) b e;
        sent =
            send_set-requests os p ids freq t had
            ∙ set_param-requests os p b (show_set p freq t).1 e
            ∙ ap (λ r. set_param_request p b.bytes ∷ r) (show_set-requests p freq t);
      }

  set_counters-Sent :
      (p : SetDiagParams) (samples period counters : String) (block : Block) (t : Trace)
      → Sent
          (set_arguments p samples period
            (read_ids block.bytes (tokens (codes counters)) 0 (num_of_counters (codes counters))))
          (devcap_request cap_general_type ∷ requests t)
          (requests (set_counters os p samples period counters (some block) t).1)
  unfolding set_counters get_dev_freq mlx5u_cmd
  set_counters-Sent p samples period counters block t =
      send_set-Sent _ (some block) (get_dev_freq os t).0 (get_dev_freq os t).1 (clocked t)

  set_accepted-Sent :
      (p : SetDiagParams) (samples period counters : String) (block : Block) (t : Trace)
      → os.alloc t (num_of_counters (codes counters) * 4) ≡ some block
      → Sent
          (set_arguments p samples period
            (read_ids block.bytes (tokens (codes counters)) 0 (num_of_counters (codes counters))))
          (devcap_request cap_general_type ∷ requests t)
          (requests (set_accepted os p samples period counters t).1)
  unfolding set_accepted
  set_accepted-Sent p samples period counters block t e =
      rw e (set_counters-Sent p samples period counters block _)

  known_flags : (s : List ℕ) → refused s ≡ false → all_flags s ≡ true
  known_flags s good = elim (Bool-cases (all_flags s)) [
    | inl known ↦ known
    | inr unknown ↦ absurd (cc (good, ap (λ b. if b then mentions b'o' s else true) unknown))
  ]

  module _ (cmd flags samples period counters : String) (more : List String) where
    abbrev settings : Trace → List ℕ → SetDiagParams
    settings t found =
        set_arguments (parse_flags (codes flags) 0 no_params t).0.1 samples period
          (read_ids found (tokens (codes counters)) 0 (num_of_counters (codes counters)))

    settings-IsAsked :
        (t : Trace) (found buf : List ℕ)
        → refused (codes flags) ≡ false
        → length buf ≡ set_param_size (settings t found)
        → IsBytes buf
        → IsAsked flags counters (set_param_request (settings t found) buf)
    settings-IsAsked t found buf good size bytes =
        let s : List ℕ = codes counters in
        let p : SetDiagParams = settings t found in
        let (n, log, period', single, repetitive, sync, clear, on_demand, enable) =
          set_param_request_fields p buf size bytes in
        let flags_read =
          parse_flags_params (codes flags) 0 no_params t (known_flags (codes flags) good) in
        let (many, ids) = set_ids found s in
        (
          set_param_request_opcode p buf size bytes,
          n ∙ ap (λ (k : ℕ). k % 2 ^ 16) many,
          single ∙ ap (λ (q : SetDiagParams). q.single % 2) flags_read,
          repetitive ∙ ap (λ (q : SetDiagParams). q.repetitive % 2) flags_read,
          sync ∙ ap (λ (q : SetDiagParams). q.sync % 2) flags_read,
          clear ∙ ap (λ (q : SetDiagParams). q.clear % 2) flags_read,
          enable,
          λ j here.
              set_param_request_ids p buf size bytes j (omega (arith, here, many, length-tokens s))
              ∙ ap (λ (k : ℕ). k % 2 ^ 16) (ids j here),
        )

    set_args-Sent :
        (t : Trace)
        → refused (codes flags) ≡ false
        → (found : List ℕ) × Sent
            (settings t found)
            (devcap_request cap_general_type ∷ requests t)
            (requests (set_args os (cmd ∷ flags ∷ samples ∷ period ∷ counters ∷ more) t).1)
    set_args-Sent t good =
        let ((ret, p), t') = parse_flags (codes flags) 0 no_params t in
        let n : ℕ = num_of_counters (codes counters) * 4 in
        let (b, e) = granted t' n in
        (
          b.bytes,
          subst
              (λ r.
                Sent (settings t b.bytes) (devcap_request cap_general_type ∷ requests t)
                  (requests r.1))
              (sym (set_args-accepted os cmd flags samples period counters more t good))
              (subst
                (λ older.
                  Sent (settings t b.bytes) (devcap_request cap_general_type ∷ older)
                    (requests (set_accepted os p samples period counters t').1))
                (parse_flags-Quiet (codes flags) 0 no_params t).1
                (set_accepted-Sent p samples period counters b t' e)),
        )

    -- On a C library and a kernel that keep to their documentation, where memory is always given
    -- and the frequency read is not negative, `diagcnt set` with flags that are not refused
    -- sends exactly two commands: the query of the general capabilities and then one with the
    -- opcode SET_DIAGNOSTIC_PARAMS, in which num_of_counters, single, repetitive, sync and clear
    -- are what the command line asks for, enable is 1, and the id of every counter is the number
    -- of its token, cut to the width of the field.
    pub set_args-sends :
        (t : Trace)
        → refused (codes flags) ≡ false
        → (request : List ℕ) × (requests
              (set_args os (cmd ∷ flags ∷ samples ∷ period ∷ counters ∷ more) t).1
            ≡ request ∷ devcap_request cap_general_type ∷ requests t)
          × IsAsked flags counters request
    set_args-sends t good =
        let (found, s) = set_args-Sent t good in
        (
          set_param_request (settings t found) s.block.bytes,
          s.sent,
          settings-IsAsked t found s.block.bytes good s.size s.bytes,
        )
