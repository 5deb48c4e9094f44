-- ===== src/Os.antt =====
-- What the program asks of the C library and of the kernel. Neither is part of the repository: the
-- answers are a parameter `os`, which may look at all that was asked before. A run is a function on
-- the trace of those calls, the newest first.
pub mod Live
use mlx5ctl.Base.{
  ℕ, zero, suc, ◌+◌, ◌<◌, ◌≤◌, ◌≡◌, Bool, String, Option, none, some, List, [], ◌∷◌, ◌++◌, length,
}
use mlx5ctl.Base.Int.{ℤ}
use mlx5ctl.Memory.{IsBytes}

-- A block of the heap: its address, and the bytes found in it.
pub record Block : Type 0 where
  pub addr : ℕ
  pub bytes : List ℕ

-- `printf`, `hexdump` and `fwrite` to stdout, by what they show. Messages on stderr, the debug messages
-- and the INFO lines are left out, but those of the core dump.
pub data Output : Type 0 where
  number : String → ℕ → Output
  element : String → ℕ → ℕ → Output
  text : String → Output
  chars : List ℕ → Output
  bytes_hex : List ℕ → Output
  bytes_raw : List ℕ → Output
  raw64 : ℕ → Output

pub data Event : Type 0 where
  -- `malloc(n)` or `memalign(a, n)`: the address, or NULL.
  allocated : ℕ → Option ℕ → Event
  -- `realloc(p, n)`: the old address, and the new one or NULL, which leaves the block as it was.
  reallocated : ℕ → ℕ → Option ℕ → Event
  -- `free(p)`.
  freed : Option ℕ → Event
  -- `ioctl(fd, FWCTL_RPC, ...)`: the input, what it returned, and the output buffer after it.
  called : List ℕ → ℤ → List ℕ → Event
  shown : Output → Event

abbrev pub Trace : Type 0
Trace = List Event

pub record Reply : Type 0 where
  pub ret : ℤ
  pub out : List ℕ

pub record Os : Type 0 where
  -- `malloc(n)`; the contents of a new block are whatever is found there.
  pub alloc : Trace → ℕ → Option Block
  -- `memalign(a, n)`.
  pub alloc_aligned : Trace → ℕ → ℕ → Option Block
  -- `realloc(p, n)` of a block of `old` bytes, which is only made larger: the address of the new
  -- block, and the bytes that follow the old ones in it.
  pub grow : Trace → ℕ → ℕ → ℕ → Option Block
  -- The ioctl on an input and an output buffer.
  pub rpc : Trace → List ℕ → List ℕ → Reply

-- The documented behaviour: a block has the size asked for and holds bytes, and the ioctl writes
-- bytes inside the output buffer only.
pub record IsOs (os : Os) : Type 0 where
  pub alloc_size : (t : Trace) (n : ℕ) (b : Block) → os.alloc t n ≡ some b → length b.bytes ≡ n
  pub grow_size :
      (t : Trace) (p old n : ℕ) (b : Block)
      → old ≤ n
      → os.grow t p old n ≡ some b
      → old + length b.bytes ≡ n
  pub alloc_bytes : (t : Trace) (n : ℕ) (b : Block) → os.alloc t n ≡ some b → IsBytes b.bytes
  pub rpc_size : (t : Trace) (input out : List ℕ) → length (os.rpc t input out).out ≡ length out
  pub rpc_bytes : (t : Trace) (input out : List ℕ) → IsBytes out → IsBytes (os.rpc t input out).out

abbrev pub M : Type 0 → Type 0
M A = Trace → A × Trace

infixl 5 ◌>>=◌ ◌>>◌
abbrev pub ◌>>=◌ : {A B : Type 0} → M A → (A → M B) → M B
◌>>=◌ m f t = let (a, t') = m t in f a t'

abbrev pub ◌>>◌ : {A B : Type 0} → M A → M B → M B
m >> k = m >>= λ _. k

abbrev pub pure : {A : Type 0} → A → M A
pure a t = (a, t)

abbrev pub address : Option Block → Option ℕ
address none = none
address (some b) = some b.addr

abbrev pub free : Option Block → M (Unit {0})
free b t = (tt, freed (address b) ∷ t)

abbrev pub show : Output → M (Unit {0})
show o t = (tt, shown o ∷ t)

-- The old bytes come first in a block that was extended.
abbrev pub extended : Block → Option Block → Option Block
extended old none = none
extended old (some b) = some record { addr = b.addr; bytes = old.bytes ++ b.bytes }

module _ (os : Os) where
  abbrev pub malloc : ℕ → M (Option Block)
  malloc n t = let b = os.alloc t n in (b, allocated n (address b) ∷ t)

  abbrev pub memalign : ℕ → ℕ → M (Option Block)
  memalign align n t = let b = os.alloc_aligned t align n in (b, allocated n (address b) ∷ t)

  -- The block stays where a failed `realloc` leaves it.
  abbrev pub realloc : Block → ℕ → M (Option Block)
  realloc old n t =
      let b = os.grow t old.addr (length old.bytes) n in
      (extended old b, reallocated old.addr n (address b) ∷ t)

  abbrev pub ioctl_rpc : List ℕ → List ℕ → M Reply
  ioctl_rpc input out t = let r = os.rpc t input out in (r, called input r.ret r.out ∷ t)
