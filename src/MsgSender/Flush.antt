-- ===== src/MsgSender/Flush.antt =====
-- `send_queued` of src/reactor.rs where completions wait, in a release build.
use mathlib.Core.List.{append_assoc, append-nil}
use reactio_rs.Base.{
  ℕ, suc, ◌+◌, ◌-◌, length-drop, ◌≤◌, ◌<◌, ◌≡◌, ◌≢◌, refl, sym, ◌∙◌, ap, subst, List, [], ◌++◌,
  Bool, true, false, not, ◌&&◌, arith, done, Returns, ◌==◌, if◌then◌else◌, inl, inr, length, take,
  drop, ltb, Bool-cases, release, is_nil, is_nil-true, is_nil-false, take-append-drop, Result, ok,
  err,
}
use reactio_rs.FlatStorage
use reactio_rs.Socket.{
  IoResult-cases, ErrorKind, would_block, interrupted, IoResult, io_ok, io_err, Write, InRange,
  IsSocket,
}
use reactio_rs.MsgSender.{
  MsgSender, SendOrQueResult, in_queue, SendError, wrote_zero, write_failed, Sending, quiet,
  reset_last, sent_some, send_queued,
}
use reactio_rs.MsgSender.Pending.{Entries, ends, Waits}
use reactio_rs.MsgSender.Notify.{called_at, waiting_at, Fit, EndsAt, notify_lem}
use reactio_rs.MsgSender.Queued.{Tells}
use reactio_rs.MsgSender.Moved.{completions, called-waiting, reset_last-Waits, move_buf-release}

-- A write that takes a byte.
abbrev pub wrote : IoResult ℕ → Bool
wrote (io_ok n) = ltb 0 n
wrote (io_err kind) = false

module _ {S C : Type 0} (write : Write S) (wire : S → List ℕ) (m : MsgSender C) (sock : S)
    (es : Entries C) where
  -- What a call leaves, with the entries that still wait.
  pub record Delivered (r : Sending S C (Result SendError SendOrQueResult)) : Type 0 where
    pub entries : Entries C
    pub waits : Waits r.sender entries
    pub bytes : wire r.sock ++ r.sender.buf ≡ wire sock ++ m.buf
    pub tells : Tells r.result r.sender
    pub order : r.called ++ completions (ends entries) ≡ completions (ends es)
    pub due : r.called ≡ (
        if not (is_nil m.buf) && wrote (write sock m.buf).0
        then called_at m.bytes_sent (ends es)
        else [])
    pub waiting : ends entries ≡ (
        if not (is_nil m.buf) && wrote (write sock m.buf).0
        then waiting_at m.bytes_sent (ends es)
        else ends es)
    pub bytes_sent : r.sender.bytes_sent ≡ (
        if not (is_nil m.buf) && is_nil r.sender.buf
        then 0
        else m.bytes_sent + (length m.buf - length r.sender.buf))

module _ {S C : Type 0} {write : Write S} {wire : S → List ℕ} (socket : IsSocket write wire)
    (m : MsgSender C) (sock : S) (es : Entries C) (w : Waits m es) (fit : Fit es)
    (some_bytes : is_nil m.buf ≡ false) where
  -- The call without a byte sent, and with the sender as it was but for its mark.
  idle_call :
      (res : Result SendError SendOrQueResult) (m' : MsgSender C) (sock' : S)
      → Waits m' es
      → m'.buf ≡ m.buf
      → m'.bytes_sent ≡ m.bytes_sent
      → wire sock' ≡ wire sock
      → Tells res m'
      → wrote (write sock m.buf).0 ≡ false
      → Delivered write wire m sock es (quiet res m' sock')
  idle_call res m' sock' w' same_buf same_count same_wire tells no_byte = record {
    entries = es;
    waits = w';
    bytes = rw (same_buf, same_wire) refl;
    tells = tells;
    order = refl;
    due = rw (some_bytes, no_byte) refl;
    waiting = rw (some_bytes, no_byte) refl;
    bytes_sent = rw (same_buf, same_count, some_bytes) (omega arith);
  }

  sent_some-Delivered :
      (n : ℕ)
      → (write sock m.buf).0 ≡ io_ok n
      → 0 < n
      → Returns (Delivered write wire m sock es) (sent_some write release m (write sock m.buf).1 n)
  unfolding sent_some
  sent_some-Delivered n e pos =
      let range : n ≤ length m.buf = subst (λ r. InRange r m.buf) e (socket.in_range sock m.buf) in
      let out : wire (write sock m.buf).1 ≡ wire sock ++ take n m.buf =
        rw e at (socket.sends sock m.buf) in
      let ((m1, called), e1, d) =
        notify_lem (suc (FlatStorage.len m.pending)) m es [] (omega (arith, w.size)) w.valid w.chain
          w.size fit in
      let (w2, same_buf, same_sent) = reset_last-Waits m1 d.entries d.valid d.chain d.size (
        subst (λ (l : ℕ). EndsAt l d.entries) (sym d.last_id)
          (d.last m.last_pending_id (inr w.last))) in
      let size : n ≤ length (reset_last m1).buf =
        omega (arith, range, ap length same_buf, ap length d.buf) in
      let ((res, m2), e2, (rest, tells, w3, _, count)) =
        move_buf-release (reset_last m1) n d.entries size w2 in
      let moved : wrote (write sock m.buf).0 ≡ true = rw e (ground arith) in
      let left : m2.buf ≡ drop n m.buf = rest ∙ ap (λ (b : List ℕ). drop n b) (same_buf ∙ d.buf) in
      let counted : m2.bytes_sent ≡ (if is_nil (drop n m.buf) then 0 else m.bytes_sent + n) =
        count
        ∙ ap (λ (b : List ℕ). if is_nil (drop n b) then 0 else (reset_last m1).bytes_sent + n)
            (same_buf ∙ d.buf)
        ∙ ap (λ (k : ℕ). if is_nil (drop n m.buf) then 0 else k + n) (same_sent ∙ d.bytes_sent) in
      rw (e1, e2)
        (
          _,
          refl,
          record {
            entries = d.entries;
            waits = w3;
            bytes = rw (left, out, append_assoc, take-append-drop) refl;
            tells = tells;
            order = rw (d.calls, d.waiting) (called-waiting m.bytes_sent (ends es));
            due = rw (some_bytes, moved) d.calls;
            waiting = rw (some_bytes, moved) d.waiting;
            bytes_sent = rw (some_bytes, left) (ground (arith, counted, length-drop n m.buf));
          },
        )

  not_sent :
      (k : ErrorKind)
      → (write sock m.buf).0 ≡ io_err k
      → (wire (write sock m.buf).1 ≡ wire sock) × (wrote (write sock m.buf).0 ≡ false)
  not_sent k e =
      let same : wire (write sock m.buf).1 ≡ wire sock ++ [] = rw e at (socket.sends sock m.buf) in
      (same ∙ append-nil (wire sock), rw e refl)

  bytes_left : m.buf ≢ []
  bytes_left nil = ground (arith, is_nil-false m.buf some_bytes, ap length nil)

  on_error :
      (k : ErrorKind)
      → (write sock m.buf).0 ≡ io_err k
      → Returns (Delivered write wire m sock es) (elim k [
        | would_block ↦ done (quiet (ok in_queue) m (write sock m.buf).1)
        | interrupted ↦ done (quiet (ok in_queue) m (write sock m.buf).1)
        | other ↦ done (
            quiet
              (err (write_failed other))
              (record m { close_or_error = true })
              (write sock m.buf).1)
      ])
  on_error would_block e =
      let (same, stuck) = not_sent would_block e in
      (_, refl, idle_call (ok in_queue) m (write sock m.buf).1 w refl refl same bytes_left stuck)
  on_error interrupted e =
      let (same, stuck) = not_sent interrupted e in
      (_, refl, idle_call (ok in_queue) m (write sock m.buf).1 w refl refl same bytes_left stuck)
  on_error other e =
      let (same, stuck) = not_sent other e in
      (
        _,
        refl,
        idle_call (err (write_failed other)) (record m { close_or_error = true })
            (write sock m.buf).1
            (record { valid = w.valid; chain = w.chain; last = w.last; size = w.size }) refl refl
            same refl stuck,
      )

  wrote_nothing :
      (n : ℕ)
      → (write sock m.buf).0 ≡ io_ok n
      → n ≡ 0
      → Delivered write wire m sock es
          (quiet (err wrote_zero) (record m { close_or_error = true }) (write sock m.buf).1)
  wrote_nothing n e n0 =
      let out : wire (write sock m.buf).1 ≡ wire sock ++ take n m.buf =
        rw e at (socket.sends sock m.buf) in
      let same : wire (write sock m.buf).1 ≡ wire sock =
        out ∙ ap (λ (k : ℕ). wire sock ++ take k m.buf) n0 ∙ append-nil (wire sock) in
      idle_call (err wrote_zero) (record m { close_or_error = true }) (write sock m.buf).1
        (record { valid = w.valid; chain = w.chain; last = w.last; size = w.size }) refl refl same
        refl (rw e (ground arith))

module _ {S C : Type 0} {write : Write S} {wire : S → List ℕ} (socket : IsSocket write wire) where
  -- In a release build, on a socket that behaves as documented, with completions that wait in a list
  -- whose positions fit in a `usize`, `send_queued` ends. It loses no byte and no completion, and
  -- keeps both in order. If the write takes a byte, it calls the completions of the messages that had
  -- gone out before this write by `bytes_sent`, and otherwise none; the others wait again, for the same
  -- positions. `bytes_sent`, by which the positions are told, counts the bytes that went out, and is 0
  -- again when the buffer becomes empty.
  pub send_queued_delivers :
      (m : MsgSender C) (sock : S) (es : Entries C)
      → Waits m es
      → Fit es
      → Returns (Delivered write wire m sock es) (send_queued write release m sock)
  unfolding send_queued
  send_queued_delivers m sock es w fit = elim (Bool-cases (is_nil m.buf)) [
    | inl empty ↦ rw empty (
      _,
      refl,
      record {
        entries = es;
        waits = w;
        bytes = refl;
        tells = is_nil-true m.buf empty;
        order = refl;
        due = rw empty refl;
        waiting = rw empty refl;
        bytes_sent = rw empty (omega arith);
      },
    )
    | inr bytes ↦ rw bytes (elim (IoResult-cases (write sock m.buf).0) [
      | inr (k, e) ↦ rw (e, send_queued) (on_error socket m sock es w fit bytes k e)
      | inl (n, e) ↦
          rw (e, send_queued)
            (elim (Bool-cases (n == 0)) [
              | inl zero_sent ↦
                  rw zero_sent
                    (_, refl, wrote_nothing socket m sock es w fit bytes n e (ground arith))
              | inr some_sent ↦
                  rw some_sent (sent_some-Delivered socket m sock es w fit bytes n e (ground arith))
            ])
    ])
  ]
