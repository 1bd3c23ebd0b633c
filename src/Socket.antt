-- ===== src/Socket.antt =====
-- The socket calls that src/reactor.rs makes of the standard library. The socket itself is outside
-- of the repository: `write` and `read` are parameters wherever they are used.
use reactio_rs.Base.{refl, ◌⊎◌, inl, inr, ℕ, ◌≤◌, ◌<◌, ◌≡◌, ◌≢◌, List, [], ◌++◌, take, length}

-- `std::io::ErrorKind`, as far as the source tells kinds apart.
pub data ErrorKind : Type 0 where
  would_block connection_reset connection_aborted interrupted other_kind : ErrorKind

-- `std::io::Result`.
pub data IoResult {ℓ} (A : Type ℓ) : Type ℓ where
  io_ok : A → IoResult A
  io_err : ErrorKind → IoResult A

pub IoResult-cases {ℓ} :
    {A : Type ℓ} (r : IoResult A) → ((a : A) × (r ≡ io_ok a)) ⊎ ((k : ErrorKind) × (r ≡ io_err k))
IoResult-cases (io_ok a) = inl (a, refl)
IoResult-cases (io_err k) = inr (k, refl)

-- `sock.write(buf)`: a result, and the socket afterwards.
abbrev pub Write : Type 0 → Type 0
Write S = S → List ℕ → IoResult ℕ × S

-- `sock.read(&mut buf)` for a buffer of a size: the bytes that were read, and the socket afterwards.
abbrev pub Read : Type 0 → Type 0
Read S = S → ℕ → IoResult (List ℕ) × S

-- The bytes of `buf` that a write with this result has taken.
abbrev pub taken : IoResult ℕ → List ℕ → List ℕ
taken (io_ok n) buf = take n buf
taken (io_err kind) buf = []

-- The range of the count that a write of a buffer reports.
abbrev pub InRange : IoResult ℕ → List ℕ → Type 0
InRange (io_ok n) buf = n ≤ length buf
InRange (io_err kind) buf = Unit

-- A write of a buffer that has bytes takes one of them, or reports an error.
abbrev pub MakesProgress : List ℕ → IoResult ℕ → Type 0
MakesProgress buf (io_ok n) = (length buf ≡ 0) ⊎ (0 < n)
MakesProgress buf (io_err kind) = Unit

-- Some write of a buffer that has bytes fails so, and not to ask to wait.
abbrev pub Fails : {S : Type 0} → Write S → ErrorKind → Type 0
Fails {S} write kind =
    (kind ≢ would_block)
    × ((s : S) × (buf : List ℕ) × (0 < length buf) × ((write s buf).0 ≡ io_err kind))

-- What the standard library documents of `write`: the count is at most the buffer's length, and
-- that many bytes of the buffer go out, in order, after all that went out before (`wire`).
pub record IsSocket {S : Type 0} (write : Write S) (wire : S → List ℕ) : Type 0 where
  pub in_range : (s : S) (buf : List ℕ) → InRange (write s buf).0 buf
  pub sends : (s : S) (buf : List ℕ) → wire (write s buf).1 ≡ wire s ++ taken (write s buf).0 buf
