-- ===== src/MsgSender/Queued.antt =====
-- `send_queued` of src/reactor.rs where no completion waits: the bytes in the buffer go out in order.
use mathlib.Core.List.{append-nil, append_assoc}
use reactio_rs.Base.{
  ℕ, suc, ◌≤◌, ◌≡◌, ◌≢◌, refl, ap, subst, List, [], ◌++◌, true, false, arith, Build, Result, ok,
  err, done, Returns, ltb, ◌==◌, Bool-cases, inl, inr, usize_max, length, take, drop, is_nil,
  is_nil-true, is_nil-false, take-append-drop, debug_assert-true,
}
use reactio_rs.FlatStorage
use reactio_rs.Socket.{
  IoResult-cases, ErrorKind, would_block, interrupted, io_err, Write, InRange, IsSocket,
}
use reactio_rs.MsgSender.{
  MsgSender, SendOrQueResult, complete, in_queue, SendError, write_failed, Sending, quiet, notify,
  assert_idle, move_buf_front_after_send, sent_some, send_queued,
}

-- No completion waits.
pub record NoneWaits {C : Type 0} (m : MsgSender C) : Type 0 where
  pub first : m.first_pending_id ≡ usize_max
  pub last : m.last_pending_id ≡ usize_max
  pub size : FlatStorage.len m.pending ≡ 0

-- The result tells whether bytes are left in the buffer; an error marks the sender.
abbrev pub Tells : {C : Type 0} → Result SendError SendOrQueResult → MsgSender C → Type 0
Tells (ok complete) m = m.buf ≡ []
Tells (ok in_queue) m = m.buf ≢ []
Tells (err e) m = m.close_or_error ≡ true

module _ {S C : Type 0} (wire : S → List ℕ) (m : MsgSender C) (sock : S) where
  pub record Flushed (r : Sending S C (Result SendError SendOrQueResult)) : Type 0 where
    pub bytes : wire r.sock ++ r.sender.buf ≡ wire sock ++ m.buf
    pub called : r.called ≡ []
    pub tells : Tells r.result r.sender
    pub waits : NoneWaits r.sender

assert_idle-done :
    {C : Type 0} (build : Build) (m : MsgSender C) → NoneWaits m → assert_idle build m ≡ done tt
unfolding assert_idle
assert_idle-done build m idle = rw (idle.first, idle.last, idle.size, debug_assert-true build) refl

module _ {S C : Type 0} {write : Write S} {wire : S → List ℕ} (socket : IsSocket write wire)
    (build : Build) (m : MsgSender C) (idle : NoneWaits m) (some_bytes : is_nil m.buf ≡ false) where
  notify-done : (fuel : ℕ) → notify build (suc fuel) m [] ≡ done (m, [])
  unfolding notify
  notify-done fuel = rw idle.first refl

  sent_some-Flushed :
      (sock sock' : S) (n : ℕ)
      → n ≤ length m.buf
      → wire sock' ≡ wire sock ++ take n m.buf
      → Returns (Flushed wire m sock) (sent_some write build m sock' n)
  unfolding sent_some move_buf_front_after_send
  sent_some-Flushed sock sock' n h out =
      let is_max : (m.first_pending_id == usize_max) ≡ true = rw idle.first refl in
      let inside : ltb (length m.buf) n ≡ false = ground arith in
      let kept : wire sock' ++ drop n m.buf ≡ wire sock ++ m.buf =
        rw (out, append_assoc, take-append-drop) refl in
      let none_waits : (b : List ℕ)
          → NoneWaits (record m { buf = b; last_pending_id = usize_max }) =
        λ b. record { first = idle.first; last = refl; size = idle.size } in
      rw (notify-done _, is_max, inside)
        (elim (Bool-cases (is_nil (drop n m.buf))) [
          | inl empty ↦
              rw (empty, assert_idle-done build _ (none_waits (drop n m.buf)))
                (
                  _,
                  refl,
                  record {
                    bytes = kept;
                    called = refl;
                    tells = is_nil-true (drop n m.buf) empty;
                    waits = record { first = idle.first; last = refl; size = idle.size };
                  },
                )
          | inr rest ↦ rw rest (
            _,
            refl,
            record {
              bytes = kept;
              called = refl;
              tells = λ nil. ground (arith, is_nil-false (drop n m.buf) rest, ap length nil);
              waits = record { first = idle.first; last = refl; size = idle.size };
            },
          )
        ])

  unsent :
      (sock : S) (k : ErrorKind)
      → (write sock m.buf).0 ≡ io_err k
      → wire (write sock m.buf).1 ++ m.buf ≡ wire sock ++ m.buf
  unsent sock k e =
      let same : wire (write sock m.buf).1 ≡ wire sock ++ [] = rw e at (socket.sends sock m.buf) in
      rw (same, append-nil) refl

  on_error :
      (sock : S) (k : ErrorKind)
      → (write sock m.buf).0 ≡ io_err k
      → Returns (Flushed wire m sock) (elim k [
        | would_block ↦ done (quiet (ok in_queue) m (write sock m.buf).1)
        | interrupted ↦ done (quiet (ok in_queue) m (write sock m.buf).1)
        | other ↦ done (
            quiet
              (err (write_failed other))
              (record m { close_or_error = true })
              (write sock m.buf).1)
      ])
  on_error sock would_block e = (
    _,
    refl,
    record {
      bytes = unsent sock would_block e;
      called = refl;
      tells = λ nil. ground (arith, is_nil-false m.buf some_bytes, ap length nil);
      waits = idle;
    },
  )
  on_error sock interrupted e = (
    _,
    refl,
    record {
      bytes = unsent sock interrupted e;
      called = refl;
      tells = λ nil. ground (arith, is_nil-false m.buf some_bytes, ap length nil);
      waits = idle;
    },
  )
  on_error sock other e = (
    _,
    refl,
    record {
      bytes = unsent sock other e;
      called = refl;
      tells = refl;
      waits = record { first = idle.first; last = idle.last; size = idle.size };
    },
  )

module _ {S C : Type 0} {write : Write S} {wire : S → List ℕ} (socket : IsSocket write wire) where
  -- On a socket that behaves as documented, and where no completion waits, `send_queued` ends
  -- without a panic in either build. The bytes on the wire and in the buffer are those of before,
  -- in order, errors included. The result tells whether bytes are left, an error marks the sender,
  -- and still no completion waits.
  pub send_queued_flushes :
      (build : Build) (m : MsgSender C) (sock : S)
      → NoneWaits m
      → Returns (Flushed wire m sock) (send_queued write build m sock)
  unfolding send_queued
  send_queued_flushes build m sock idle = elim (Bool-cases (is_nil m.buf)) [
    | inl empty ↦ rw empty (
      _,
      refl,
      record { bytes = refl; called = refl; tells = is_nil-true m.buf empty; waits = idle },
    )
    | inr bytes ↦ rw bytes (elim (IoResult-cases (write sock m.buf).0) [
      | inr (k, e) ↦ rw (e, send_queued) (on_error socket build m idle bytes sock k e)
      | inl (n, e) ↦
          let range : n ≤ length m.buf =
            subst (λ r. InRange r m.buf) e (socket.in_range sock m.buf) in
          let out : wire (write sock m.buf).1 ≡ wire sock ++ take n m.buf =
            rw e at (socket.sends sock m.buf) in
          rw (e, send_queued)
            (elim (Bool-cases (n == 0)) [
              | inr some_sent ↦ rw some_sent (
                  sent_some-Flushed socket build m idle bytes sock (write sock m.buf).1 n range out)
              | inl zero_sent ↦
                  let n0 : n ≡ 0 = ground arith in
                  rw zero_sent (
                    _,
                    refl,
                    record {
                      bytes = rw (out, n0, append-nil) refl;
                      called = refl;
                      tells = refl;
                      waits = record { first = idle.first; last = idle.last; size = idle.size };
                    },
                  )
            ])
    ])
  ]
