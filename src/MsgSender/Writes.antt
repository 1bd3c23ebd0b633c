-- ===== src/MsgSender/Writes.antt =====
-- The loop of `try_send_all` in src/reactor.rs: it ends, and reports what went out.
use mathlib.Core.List.{append-nil, append_assoc}
use reactio_rs.Base.{
  ℕ, zero, suc, ◌+◌, ◌≤◌, ◌<◌, ◌≡◌, refl, sym, List, [], ◌++◌, arith, done, no_fuel, Returns, ltb,
  Bool-cases, inl, inr, length, take, drop, length-drop, take-take-drop, drop-drop, ltb→lt, lt→ltb,
  subst, is_nil, is_nil-false,
}
use reactio_rs.Socket.{
  IoResult-cases, ErrorKind, would_block, IoResult, io_ok, io_err, Write, InRange, MakesProgress,
  IsSocket, Fails,
}
use reactio_rs.MsgSender.{try_send_loop, try_send_all}

module _ {S : Type 0} (write : Write S) (wire : S → List ℕ) (sock : S) (msg : List ℕ) where
  -- What `try_send_all` reports of a message: its first bytes went out, as many as it says. An error
  -- is that of a write that failed and did not ask to wait, and also comes after a beginning of the
  -- message.
  abbrev pub Report : IoResult ℕ → S → Type 0
  Report (io_ok n) sock' = (n ≤ length msg) × (wire sock' ≡ wire sock ++ take n msg)
  Report (io_err k) sock' = Fails write k × ((n : ℕ) × (wire sock' ≡ wire sock ++ take n msg))

module _ {S : Type 0} {write : Write S} {wire : S → List ℕ} (socket : IsSocket write wire)
    (progress : (s : S) (buf : List ℕ) → MakesProgress buf (write s buf).0) (start : S)
    (msg : List ℕ) where
  -- `count` bytes of the message are out.
  abbrev Out : S → ℕ → Type 0
  Out s count = wire s ≡ wire start ++ take count msg

  more :
      (s : S) (count n : ℕ)
      → Out s count
      → (write s (drop count msg)).0 ≡ io_ok n
      → Out (write s (drop count msg)).1 (count + n)
  more s count n out e =
      let next : wire (write s (drop count msg)).1 ≡ wire s ++ take n (drop count msg) =
        rw e at (socket.sends s (drop count msg)) in
      rw (next, out, append_assoc, take-take-drop count n msg)

  still :
      (s : S) (count : ℕ) (k : ErrorKind)
      → Out s count
      → (write s (drop count msg)).0 ≡ io_err k
      → Out (write s (drop count msg)).1 count
  still s count k out e =
      let same : wire (write s (drop count msg)).1 ≡ wire s ++ [] =
        rw e at (socket.sends s (drop count msg)) in
      rw (same, append-nil) out

  on_error :
      (k : ErrorKind) (s0 s : S) (count : ℕ)
      → (write s0 (drop count msg)).0 ≡ io_err k
      → count < length msg
      → Out s count
      → Returns
          (λ (r, s'). Report write wire start msg r s')
          (elim k [ would_block ↦ done (io_ok count, s) | other ↦ done (io_err other, s) ])
  on_error would_block s0 s count e h out = ((io_ok count, s), refl, (omega arith, out))
  on_error other s0 s count e h out = (
    (io_err other, s),
    refl,
    (((λ same. cc), (s0, drop count msg, omega (arith, length-drop count msg), e)), (count, out)),
  )

  try_send_loop-Report :
      (fuel : ℕ) (s : S) (count : ℕ)
      → length msg ≤ count + fuel
      → count < length msg
      → Out s count
      → Returns
          (λ (r, s'). Report write wire start msg r s')
          (try_send_loop write fuel s (drop count msg) count)
  unfolding try_send_loop
  try_send_loop-Report zero s count f p out = absurd (omega arith)
  try_send_loop-Report (suc fuel) s count f p out =
      elim (IoResult-cases (write s (drop count msg)).0) [
        | inl (n, e) ↦
            let range : n ≤ length (drop count msg) =
              subst (λ r. InRange r (drop count msg)) e (socket.in_range s (drop count msg)) in
            let some_byte : 0 < n = ground (
              arith,
              subst (MakesProgress (drop count msg)) e (progress s (drop count msg)),
              length-drop count msg,
            ) in
            rw (e, try_send_loop)
              (elim (Bool-cases (ltb n (length (drop count msg)))) [
                | inl partial ↦
                    let left : n < length (drop count msg) = ltb→lt _ _ partial in
                    rw (partial, drop-drop count n msg)
                      (try_send_loop-Report fuel (write s (drop count msg)).1 (count + n)
                        (omega arith) (omega (arith, length-drop count msg)) (more s count n out e))
                | inr whole ↦ rw whole (
                  (io_ok (count + n), (write s (drop count msg)).1),
                  refl,
                  (omega (arith, length-drop count msg), more s count n out e),
                )
              ])
        | inr (k, e) ↦
            rw (e, try_send_loop)
              (on_error k s (write s (drop count msg)).1 count e p (still s count k out e))
      ]

  -- On a socket that behaves as documented and takes a byte or reports an error, `try_send_all`
  -- ends after at most one write for each byte. The bytes that it reports are out, in order; with
  -- an error, a beginning of the message is.
  pub try_send_all-Report :
      Returns (λ (r, s'). Report write wire start msg r s') (try_send_all write start msg)
  unfolding try_send_all
  try_send_all-Report = elim (Bool-cases (is_nil msg)) [
    | inl empty ↦ rw empty ((io_ok 0, start), refl, (omega arith, sym (append-nil (wire start))))
    | inr some_bytes ↦ rw some_bytes (
        try_send_loop-Report (length msg) start 0 (omega arith) (is_nil-false msg some_bytes)
          (sym (append-nil (wire start))))
  ]

-- On a socket that takes no byte of a message that has some, and reports no error, the loop does
-- not end within any number of rounds.
pub try_send_loop_spins :
    {S : Type 0} (write : Write S) (msg : List ℕ)
    → 0 < length msg
    → ((s : S) → (write s msg).0 ≡ io_ok 0)
    → (fuel : ℕ) (s : S) (count : ℕ) → try_send_loop write fuel s msg count ≡ no_fuel
unfolding try_send_loop
try_send_loop_spins write msg h stuck zero s count = refl
try_send_loop_spins write msg h stuck (suc fuel) s count =
    rw (stuck s, try_send_loop, lt→ltb _ _ h)
      (try_send_loop_spins write msg h stuck fuel (write s msg).1 (count + 0))
