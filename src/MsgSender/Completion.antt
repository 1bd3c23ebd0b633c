-- ===== src/MsgSender/Completion.antt =====
-- When `send_queued` of src/reactor.rs calls the completion of the message that it sends last.
use reactio_rs.Base.{
  ℕ, suc, ◌+◌, ◌-◌, ◌<◌, ◌≡◌, refl, ◌∙◌, [], false, some, arith, Build, debug, release, ok, Outcome,
  done, panic, no_fuel, Returns, ltb, leb, ◌==◌, usize_max, length, is_nil, drop-all, is_nil-false,
  sub_usize-done, ◌>>=◌, ◌>>◌,
}
use reactio_rs.FlatStorage
use reactio_rs.Socket.{io_ok, Write}
use reactio_rs.MsgSender.{
  MsgSender, PendingSend, complete, notify, assert_idle, move_buf_front_after_send, sent_some,
  send_queued,
}

then-then :
    {A B : Type 0} (o : Outcome (Unit {0})) (a : A) (f : A → Outcome B)
    → ((o >> done a) >>= f) ≡ (o >> f a)
then-then (done u) a f = refl
then-then panic a f = refl
then-then no_fuel a f = refl

module _ {C : Type 0} (m : MsgSender C) (p : PendingSend C)
    (first : (m.first_pending_id == usize_max) ≡ false)
    (found : FlatStorage.get m.pending m.first_pending_id ≡ some p)
    (start : p.startpos ≡ m.bytes_sent) (size : p.msgsize ≡ length m.buf)
    (bytes : is_nil m.buf ≡ false) where
  -- The sender with the first completion found to be incomplete, at its old size.
  abbrev waiting : MsgSender C
  waiting = record m {
    pending =
        FlatStorage.put m.pending m.first_pending_id
          (record p { msgsize = p.msgsize - (m.bytes_sent - p.startpos); startpos = m.bytes_sent });
  }

  notify-waiting : (build : Build) (fuel : ℕ) → notify build (suc fuel) m [] ≡ done (waiting, [])
  unfolding notify
  notify-waiting build fuel =
      let some_left : 0 < length m.buf = is_nil-false m.buf bytes in
      let open_end : leb (p.startpos + p.msgsize) m.bytes_sent ≡ false =
        ground (arith, start, size) in
      rw
        (
          first,
          found,
          open_end,
          sub_usize-done build m.bytes_sent p.startpos (omega (arith, start)),
          sub_usize-done build p.msgsize (m.bytes_sent - p.startpos) (omega (arith, start)),
        )
        refl

  -- After a write of the whole buffer the buffer is empty, and the completion still waits.
  sent-waiting :
      {S : Type 0} (write : Write S) (build : Build) (sock : S)
      → sent_some write build m sock (length m.buf) ≡ (
          assert_idle build (record waiting { buf = [] })
          >> done (record {
            result = ok complete;
            sender = record waiting { buf = []; bytes_sent = 0 };
            sock = sock;
            called = [];
          }))
  unfolding sent_some move_buf_front_after_send
  sent-waiting write build sock =
      let fits : ltb (length m.buf) (length m.buf) ≡ false = ground arith in
      rw (notify-waiting build _, first, fits, drop-all (length m.buf) m.buf (omega arith))
        (then-then (assert_idle build (record waiting { buf = [] })) _ _)

  -- The first completion that waits is that of a message which is the whole buffer, and the socket
  -- takes all of it. Then `send_queued` does not call the completion: a debug build panics, since the
  -- completion still waits, and a release build reports that all is sent.
  pub send_queued_late :
      {S : Type 0} (write : Write S) (sock : S)
      → (write sock m.buf).0 ≡ io_ok (length m.buf)
      → (send_queued write debug m sock ≡ panic)
        × Returns
            (λ r. (r.result ≡ ok complete) × (r.called ≡ []) × (r.sender.buf ≡ []))
            (send_queued write release m sock)
  unfolding send_queued assert_idle
  send_queued_late write sock whole =
      let some_left : 0 < length m.buf = is_nil-false m.buf bytes in
      let not_zero : (length m.buf == 0) ≡ false = ground arith in
      (
        rw (bytes, whole, not_zero) (sent-waiting write debug (write sock m.buf).1 ∙ rw first refl),
        rw (bytes, whole, not_zero)
            (_, sent-waiting write release (write sock m.buf).1, (refl, refl, refl)),
      )
