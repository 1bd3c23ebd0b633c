-- ===== src/MsgSender/AutoSend.antt =====
-- src/reactor.rs, `AutoSendBuffer`: a message that is written into the sender's buffer and sent from
-- there. It borrows the sender and the socket, which are its fields here.
use reactio_rs.Base.{
  ℕ, true, ◌-◌, List, [], ◌++◌, Option, none, Build, Outcome, done, panic, ◌>>=◌, ltb, ◌==◌,
  if◌then◌else◌, length, take, drop, replicate, is_nil, sub_usize,
}
use reactio_rs.Socket.{IoResult, io_ok, io_err, Write}
use reactio_rs.MsgSender.{
  MsgSender, SendOrQueResult, complete, in_queue, call, queue_msg_completion,
  move_buf_front_after_send, try_send_all,
}

pub record AutoSendBuffer (S C : Type 0) : Type 0 where
  pub sender : MsgSender C
  pub sock : S
  pub old_buf_size : ℕ

-- How `send` ends, with the completions that it called.
pub record AutoSending (S C : Type 0) : Type 0 where
  pub result : IoResult SendOrQueResult
  pub buffer : AutoSendBuffer S C
  pub called : List C

module _ {S C : Type 0} where
  -- `DispatchContext::acquire_send`
  unfoldable pub acquire_send : MsgSender C → S → AutoSendBuffer S C
  acquire_send m sock = record { sender = m; sock = sock; old_buf_size = length m.buf }

  -- `resize` cuts the buffer, or fills it up with zeros.
  unfoldable pub clear : AutoSendBuffer S C → AutoSendBuffer S C
  clear b =
      let buf = b.sender.buf in
      record b {
        sender = record (b.sender) {
          buf = take b.old_buf_size buf ++ replicate (b.old_buf_size - length buf) 0;
        };
      }

  unfoldable pub count_written : Build → AutoSendBuffer S C → Outcome ℕ
  count_written build b = sub_usize build (length b.sender.buf) b.old_buf_size

  -- `&buf[old_buf_size..]`
  unfoldable pub get_written : AutoSendBuffer S C → Outcome (List ℕ)
  get_written b =
      if ltb (length b.sender.buf) b.old_buf_size
      then panic
      else done (drop b.old_buf_size b.sender.buf)

  -- `std::io::Write::write`
  unfoldable pub write_bytes : AutoSendBuffer S C → List ℕ → IoResult ℕ × AutoSendBuffer S C
  write_bytes b bytes = (
    io_ok (length bytes),
    record b { sender = record (b.sender) { buf = b.sender.buf ++ bytes } },
  )

  -- An end of `send`: `self.old_buf_size = self.sender.buf.len()` comes before each `return`.
  abbrev pub ended : IoResult SendOrQueResult → MsgSender C → S → List C → AutoSending S C
  ended res m sock called = record {
    result = res;
    buffer = record { sender = m; sock = sock; old_buf_size = length m.buf };
    called = called;
  }

module _ {S C : Type 0} (write : Write S) (build : Build) where
  -- `send` once `sentbytes` bytes of a buffer that held only this message have gone out.
  unfoldable pub send_rest : MsgSender C → S → Option C → ℕ → Outcome (AutoSending S C)
  send_rest m sock send_completion sentbytes =
      let moved : Outcome (MsgSender C) =
        if ltb 0 sentbytes
        then (move_buf_front_after_send build m sentbytes >>= λ (_, m'). done m')
        else done m in
      let finish = λ (m' : MsgSender C).
        let queue = queue_msg_completion m' (length m'.buf) send_completion >>= λ m''.
        done (ended (io_ok in_queue) m'' sock []) in
        if sentbytes == length m.buf
        then done (ended (io_ok complete) m' sock (call send_completion))
        else queue in
      moved >>= finish

  unfoldable pub send : AutoSendBuffer S C → Option C → Outcome (AutoSending S C)
  send b send_completion =
      let m = b.sender in
      let queue = λ (written : List ℕ).
        queue_msg_completion m (length written) send_completion >>= λ m'.
        done (ended (io_ok in_queue) m' b.sock []) in
      let try_now = λ (written : List ℕ). try_send_all write b.sock written >>= λ (res, sock').
      elim res [
        | io_err kind ↦ done (ended (io_err kind) (record m { close_or_error = true }) sock' [])
        | io_ok sentbytes ↦ send_rest m sock' send_completion sentbytes
      ] in
      get_written b >>= λ written.
      if is_nil written
      then done (ended (io_ok complete) m b.sock (call send_completion))
      else if ltb 0 b.old_buf_size
      then queue written
      else try_now written

  -- `drop`: `self.send(None).unwrap()`, and `flush`.
  unfoldable pub drop_buffer : AutoSendBuffer S C → Outcome (AutoSendBuffer S C)
  drop_buffer b = send b none >>= λ r. elim r.result [ io_ok _ ↦ done r.buffer | io_err _ ↦ panic ]

  unfoldable pub flush : AutoSendBuffer S C → Outcome (IoResult (Unit {0}) × AutoSendBuffer S C)
  flush b = send b none >>= λ r.
      done (elim r.result [ io_ok _ ↦ io_ok tt | io_err kind ↦ io_err kind ], r.buffer)
