-- ===== src/MsgSender/Conservation.antt =====
-- No byte of a message is lost, sent twice or overtaken, and no completion is lost: `send_or_que` of
-- src/reactor.rs, on a socket with the documented behaviour.
use mathlib.Core.List.{append-nil, append_assoc}
use reactio_rs.Base.{
  ℕ, ◌-◌, ◌≤◌, ◌≡◌, ◌≢◌, refl, ◌∙◌, ap, List, [], ◌++◌, Option, arith, Build, release, Result, ok,
  err, done, Returns, ◌==◌, Bool-cases, inl, inr, length, take, drop, is_nil, is_nil-true,
  is_nil-false, take-append-drop, take-all, length-drop, length-append, ◌>>=◌,
}
use reactio_rs.FlatStorage.Laws.{IsValid}
use reactio_rs.Socket.{IoResult, io_ok, io_err, ErrorKind, Write, MakesProgress, IsSocket, Fails}
use reactio_rs.MsgSender.{
  MsgSender, SendOrQueResult, complete, in_queue, SendError, write_failed, Sending, call, quiet,
  assert_idle, try_send_all, queue_rest, send_or_que,
}
use reactio_rs.MsgSender.Writes.{Report, try_send_all-Report}
use reactio_rs.MsgSender.Kept.{HasRoom, Kept, queue_msg_completion_bytes}

-- What `send_or_que` promises of a message. The bytes on the wire and in the buffer are those of
-- before with the message behind them, and the completion is called at once or left for later.
-- An error is that of a write that fails; it comes with nothing in the buffer and a beginning of the
-- message on the wire.
module _ {S C : Type 0} (write : Write S) (wire : S → List ℕ) (m : MsgSender C) (sock : S)
    (msg : List ℕ) (c : Option C) where
  abbrev pub SendSpec :
      Result SendError SendOrQueResult → Sending S C (Result SendError SendOrQueResult) → Type 0
  SendSpec (ok complete) r =
      (wire r.sock ++ r.sender.buf ≡ (wire sock ++ m.buf) ++ msg)
      × (r.called ≡ call c)
      × IsValid r.sender.pending
      × (r.sender ≡ m)
  SendSpec (ok in_queue) r =
      (wire r.sock ++ r.sender.buf ≡ (wire sock ++ m.buf) ++ msg)
      × (r.called ≡ [])
      × IsValid r.sender.pending
      × (r.sender.buf ≢ [])
      × (r.sender.bytes_sent ≡ m.bytes_sent)
      × Kept m r.sender c
  SendSpec (err e) r =
      (m.buf ≡ [])
      × (r.sender ≡ m)
      × (r.called ≡ [])
      × ((n : ℕ) × (wire r.sock ≡ wire sock ++ take n msg))
      × ((k : ErrorKind) × (e ≡ write_failed k) × Fails write k)

module _ {S C : Type 0} {write : Write S} {wire : S → List ℕ} (socket : IsSocket write wire)
    (progress : (s : S) (buf : List ℕ) → MakesProgress buf (write s buf).0) where
  queue_rest_bytes :
      (build : Build) (m : MsgSender C) (start sock : S) (msg : List ℕ) (c : Option C) (n : ℕ)
      → HasRoom m
      → m.buf ≡ []
      → n ≤ length msg
      → wire sock ≡ wire start ++ take n msg
      → Returns
          (λ r. SendSpec write wire m start msg c r.result r)
          (queue_rest write build m sock msg c n)
  unfolding queue_rest
  queue_rest_bytes build m start sock msg c n room empty h out =
      elim (Bool-cases (n == length msg)) [
        | inl whole ↦ rw whole (
          record { result = ok complete; sender = m; sock = sock; called = call c },
          refl,
          (
            cc (
              append-nil (wire sock),
              append-nil (wire start),
              take-all n msg (ground arith),
              empty,
              out,
            ),
            refl,
            room.0,
            refl,
          ),
        )
        | inr part ↦
            let rest = drop n msg in
            let behind : m.buf ++ rest ≡ rest = ap (λ (b : List ℕ). b ++ rest) empty in
            let (m', e, (same, kept)) =
              queue_msg_completion_bytes (record m { buf = m.buf ++ rest }) (length msg - n) c room
                (omega (arith, length-append m.buf rest, length-drop n msg)) in
            let held : m'.buf ≡ rest = same.buf ∙ behind in
            rw (part, e)
              (
                quiet (ok in_queue) m' sock,
                refl,
                (
                  cc (
                    held,
                    out,
                    empty,
                    append-nil (wire start),
                    append_assoc (wire start) (take n msg) rest,
                    take-append-drop n msg,
                  ),
                  refl,
                  same.valid,
                  λ nil. ground (arith, length-drop n msg, ap length nil, ap length held),
                  same.bytes_sent,
                  kept,
                ),
              )
      ]

  send_now :
      (build : Build) (m : MsgSender C) (sock : S) (msg : List ℕ) (c : Option C)
      → HasRoom m
      → m.buf ≡ []
      → Returns
          (λ r. SendSpec write wire m sock msg c r.result r)
          (try_send_all write sock msg >>= λ (res, sock'). elim res [
            | io_ok sentbytes ↦ queue_rest write build m sock' msg c sentbytes
            | io_err kind ↦ done (quiet (err (write_failed kind)) m sock')
          ])
  send_now build m sock msg c room empty =
      let ((res, sock'), e, report) = try_send_all-Report socket progress sock msg in
      rw e (reported res sock' report)
    where
      reported :
          (res : IoResult ℕ) (sock' : S)
          → Report write wire sock msg res sock'
          → Returns
              (λ r. SendSpec write wire m sock msg c r.result r)
              (elim res [
                | io_ok sentbytes ↦ queue_rest write build m sock' msg c sentbytes
                | io_err kind ↦ done (quiet (err (write_failed kind)) m sock')
              ])
      reported (io_ok n) sock' (h, out) =
          queue_rest_bytes build m sock sock' msg c n room empty h out
      reported (io_err k) sock' (fails, begun) =
          (quiet (err (write_failed k)) m sock', refl, (empty, refl, refl, begun, (k, refl, fails)))

  -- In a release build, on a socket that behaves as documented, of which a write of some bytes
  -- takes a byte or reports an error, and with a key left for one more completion, `send_or_que`
  -- ends. It keeps every byte and its place. With `complete` it calls the completion and changes
  -- nothing else in the sender; with `in_queue` it calls none, the completion waits in the last
  -- entry for the end of the buffer, and all that waited before does so still; an error is that
  -- of a write that fails, and leaves the sender as it was, without a byte, and a beginning of
  -- the message on the wire.
  pub send_or_que_conserves :
      (m : MsgSender C) (sock : S) (msg : List ℕ) (c : Option C)
      → HasRoom m
      → Returns
          (λ r. SendSpec write wire m sock msg c r.result r)
          (send_or_que write release m sock msg c)
  unfolding send_or_que assert_idle
  send_or_que_conserves m sock msg c room = elim (Bool-cases (is_nil msg)) [
    | inl no_bytes ↦ rw no_bytes (
      record { result = ok complete; sender = m; sock = sock; called = call c },
      refl,
      (cc (is_nil-true msg no_bytes, append-nil (wire sock ++ m.buf)), refl, room.0, refl),
    )
    | inr bytes ↦ rw bytes (elim (Bool-cases (is_nil m.buf)) [
      | inl idle ↦ rw idle (send_now release m sock msg c room (is_nil-true m.buf idle))
      | inr busy ↦
          let (m', e, (same, kept)) =
            queue_msg_completion_bytes (record m { buf = m.buf ++ msg }) (length msg) c room
              (omega (arith, length-append m.buf msg)) in
          rw (busy, e)
            (
              quiet (ok in_queue) m' sock,
              refl,
              (
                cc (same.buf, append_assoc (wire sock) m.buf msg),
                refl,
                same.valid,
                λ nil. ground (
                  arith,
                  is_nil-false msg bytes,
                  length-append m.buf msg,
                  ap length nil,
                  ap length same.buf,
                ),
                same.bytes_sent,
                kept,
              ),
            )
    ])
  ]
