-- ===== src/MsgSender/AutoConserves.antt =====
-- `send` of src/reactor.rs's `AutoSendBuffer`, in a release build: no byte and no completion is lost.
use mathlib.Core.List.{append_assoc, append-nil}
use reactio_rs.Base.{
  ℕ, ◌+◌, ◌≤◌, ◌<◌, ◌≡◌, refl, sym, ap, subst, List, [], ◌∷◌, ◌++◌, true, false, Option, none, some,
  arith, done, Returns, ◌==◌, if◌then◌else◌, inl, inr, usize_max, length, take, drop, ltb,
  Bool-cases, release, ◌>>=◌, is_nil, take-append-drop, length-drop,
}
use reactio_rs.FlatStorage
use reactio_rs.Socket.{IoResult, io_ok, io_err, Write, MakesProgress, IsSocket}
use reactio_rs.MsgSender.{
  MsgSender, SendOrQueResult, complete, in_queue, call, queue_msg_completion,
  move_buf_front_after_send, try_send_all,
}
use reactio_rs.MsgSender.AutoSend.{AutoSendBuffer, AutoSending, get_written, ended, send_rest, send}
use reactio_rs.MsgSender.Writes.{Report, try_send_all-Report}
use reactio_rs.MsgSender.Pending.{Entries, ends, Waits}
use reactio_rs.MsgSender.Enqueue.{queue_msg_completion_appends}
use reactio_rs.MsgSender.Moved.{move_buf-release}

module _ {C : Type 0} where
  -- What an optional completion adds to those that wait.
  abbrev pub behind : ℕ → Option C → List (ℕ × C)
  behind end none = []
  behind end (some c) = (end, c) ∷ []

  pub record Queued (m : MsgSender C) (es : Entries C) (c : Option C) (m' : MsgSender C)
      : Type 0 where
    pub entries : Entries C
    pub waits : Waits m' entries
    pub appended : ends entries ≡ ends es ++ behind (m.bytes_sent + length m.buf) c
    pub buf : m'.buf ≡ m.buf
    pub bytes_sent : m'.bytes_sent ≡ m.bytes_sent

  pub queue_lem :
      (m : MsgSender C) (es : Entries C) (n : ℕ) (c : Option C)
      → Waits m es
      → n ≤ length m.buf
      → FlatStorage.capacity m.pending < usize_max
      → Returns (Queued m es c) (queue_msg_completion m n c)
  unfolding queue_msg_completion
  queue_lem m es n none w h room = (
    m,
    refl,
    record {
      entries = es;
      waits = w;
      appended = sym (append-nil (ends es));
      buf = refl;
      bytes_sent = refl;
    },
  )
  queue_lem m es n (some c) w h room =
      let (m', e, ((es', w', appended), buf, sent, _)) =
        queue_msg_completion_appends m es n c w h room in
      (
        m',
        e,
        record { entries = es'; waits = w'; appended = appended; buf = buf; bytes_sent = sent },
      )

module _ {S C : Type 0} (wire : S → List ℕ) (m : MsgSender C) (sock : S) (es : Entries C)
    (c : Option C) where
  -- What `send` of a message at the end of the buffer leaves, by its result.
  abbrev pub AutoSpec : IoResult SendOrQueResult → AutoSending S C → Type 0
  AutoSpec (io_ok complete) r =
      (wire r.buffer.sock ++ r.buffer.sender.buf ≡ wire sock ++ m.buf)
      × (r.called ≡ call c)
      × ((es' : Entries C) × Waits r.buffer.sender es' × (ends es' ≡ ends es))
  AutoSpec (io_ok in_queue) r =
      (wire r.buffer.sock ++ r.buffer.sender.buf ≡ wire sock ++ m.buf)
      × (r.called ≡ [])
      × ((es' : Entries C) × Waits r.buffer.sender es'
          × (ends es'
              ≡ ends es ++ behind (r.buffer.sender.bytes_sent + length r.buffer.sender.buf) c))
  AutoSpec (io_err kind) r =
      (r.buffer.sender ≡ record m { close_or_error = true })
      × (r.called ≡ [])
      × ((n : ℕ) × (wire r.buffer.sock ≡ wire sock ++ take n m.buf))

module _ {S C : Type 0} {write : Write S} {wire : S → List ℕ} (socket : IsSocket write wire)
    (progress : (s : S) (buf : List ℕ) → MakesProgress buf (write s buf).0) where
  -- The sender after the move to the front, if there was one.
  moved_lem :
      (m : MsgSender C) (n : ℕ) (es : Entries C)
      → n ≤ length m.buf
      → Waits m es
      → Returns
          (λ m'. (m'.buf ≡ drop n m.buf) × Waits m' es × (m'.pending ≡ m.pending))
          (if ltb 0 n
            then (move_buf_front_after_send release m n >>= λ (_, m'). done m')
            else done m)
  moved_lem m n es h w = elim (Bool-cases (ltb 0 n)) [
    | inl some_sent ↦
        let ((res, m'), e, (rest, _, w', same, _)) = move_buf-release m n es h w in
        rw (some_sent, e) (m', refl, (rest, w', same))
    | inr none_sent ↦
        let zero_sent : n ≡ 0 = ground arith in
        rw none_sent (m, refl, (ap (λ (k : ℕ). drop k m.buf) (sym zero_sent), w, refl))
  ]

  send_rest-AutoSpec :
      (m : MsgSender C) (start sock : S) (es : Entries C) (c : Option C) (n : ℕ)
      → Waits m es
      → FlatStorage.capacity m.pending < usize_max
      → n ≤ length m.buf
      → wire sock ≡ wire start ++ take n m.buf
      → Returns (λ r. AutoSpec wire m start es c r.result r) (send_rest write release m sock c n)
  unfolding send_rest
  send_rest-AutoSpec m start sock es c n w room h out =
      let (m1, e1, (rest, w1, same)) = moved_lem m n es h w in
      let kept : wire sock ++ m1.buf ≡ wire start ++ m.buf =
        rw (rest, out, append_assoc, take-append-drop) refl in
      rw e1 (elim (Bool-cases (n == length m.buf)) [
        | inl whole ↦ rw whole (_, refl, (kept, refl, (es, w1, refl)))
        | inr part ↦
            let room1 = subst (λ p. FlatStorage.capacity p < usize_max) (sym same) room in
            let (m2, e2, q) = queue_lem m1 es (length m1.buf) c w1 (omega arith) room1 in
            rw (part, e2)
              (
                _,
                refl,
                (rw q.buf kept, refl, (q.entries, q.waits, rw (q.bytes_sent, q.buf) q.appended)),
              )
      ])

  try_now :
      (m : MsgSender C) (sock : S) (es : Entries C) (c : Option C)
      → Waits m es
      → FlatStorage.capacity m.pending < usize_max
      → Returns
          (λ r. AutoSpec wire m sock es c r.result r)
          (try_send_all write sock m.buf >>= λ (res, sock'). elim res [
            | io_err kind ↦ done (ended (io_err kind) (record m { close_or_error = true }) sock' [])
            | io_ok sentbytes ↦ send_rest write release m sock' c sentbytes
          ])
  try_now m sock es c w room =
      let ((res, sock'), e, report) = try_send_all-Report socket progress sock m.buf in
      rw e (reported res sock' report)
    where
      reported :
          (res : IoResult ℕ) (sock' : S)
          → Report write wire sock m.buf res sock'
          → Returns
              (λ r. AutoSpec wire m sock es c r.result r)
              (elim res [
                | io_err kind ↦
                    done (ended (io_err kind) (record m { close_or_error = true }) sock' [])
                | io_ok sentbytes ↦ send_rest write release m sock' c sentbytes
              ])
      reported (io_ok n) sock' (h, out) = send_rest-AutoSpec m sock sock' es c n w room h out
      reported (io_err k) sock' (no_wait, begun) = (_, refl, (refl, refl, begun))

  -- In a release build, on a socket that behaves as documented and takes a byte or reports an error,
  -- `send` of a buffer that holds at least what it held when it was acquired ends. It keeps every byte
  -- in its place and every completion that waits, and calls or queues its own, as `AutoSpec` says.
  pub auto_send_conserves :
      (b : AutoSendBuffer S C) (es : Entries C) (c : Option C)
      → Waits b.sender es
      → FlatStorage.capacity b.sender.pending < usize_max
      → b.old_buf_size ≤ length b.sender.buf
      → Returns (λ r. AutoSpec wire b.sender b.sock es c r.result r) (send write release b c)
  unfolding send get_written
  auto_send_conserves b es c w room h =
      let m = b.sender in
      let inside : ltb (length m.buf) b.old_buf_size ≡ false = ground arith in
      let written = drop b.old_buf_size m.buf in
      rw inside (elim (Bool-cases (is_nil written)) [
        | inl nothing ↦ rw nothing (_, refl, (refl, refl, (es, w, refl)))
        | inr bytes ↦ rw bytes (elim (Bool-cases (ltb 0 b.old_buf_size)) [
          | inl older ↦
              let (m', e, q) =
                queue_lem m es (length written) c w
                  (omega (arith, length-drop b.old_buf_size m.buf)) room in
              rw (older, e)
                (
                  _,
                  refl,
                  (rw q.buf refl, refl, (q.entries, q.waits, rw (q.bytes_sent, q.buf) q.appended)),
                )
          | inr only ↦
              let none_older : b.old_buf_size ≡ 0 = ground arith in
              let all : written ≡ m.buf = ap (λ (k : ℕ). drop k m.buf) none_older in
              rw (only, all) (try_now m b.sock es c w room)
        ])
      ])
