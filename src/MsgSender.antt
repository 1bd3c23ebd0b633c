-- ===== src/MsgSender.antt =====
-- src/reactor.rs, `MsgSender` and `PendingSend`: sending on a non-blocking socket.
-- A completion callback is a value of the type `C`; a call of it adds the value to `called`.
-- Positions and sizes count bytes of messages, and are taken not to overflow where they are added.
pub mod Writes
pub mod Kept
pub mod Conservation
pub mod Completion
pub mod Queued
pub mod Pending
pub mod AutoSend
pub mod AutoConserves
pub mod Moved
pub mod Flush
pub mod Notify
pub mod Enqueue
pub mod Plain
mod Tests
use reactio_rs.Base.{
  ℕ, zero, suc, ◌+◌, ◌-◌, List, [], ◌∷◌, ◌++◌, Bool, true, false, Option, none, some, Build,
  Outcome, done, Result, ok, err, panic, no_fuel, ◌>>=◌, ◌>>◌, unwrap, debug_assert, sub_usize, ltb,
  leb, ◌==◌, if◌then◌else◌, usize_max, length, drop, is_nil,
}
use reactio_rs.FlatStorage
use reactio_rs.FlatStorage.{FlatStorage}
use reactio_rs.Socket.{
  ErrorKind, would_block, connection_reset, interrupted, IoResult, io_ok, io_err, Write,
}

pub record PendingSend (C : Type 0) : Type 0 where
  pub next_id : ℕ
  pub startpos : ℕ
  pub msgsize : ℕ
  pub completion : C

pub record MsgSender (C : Type 0) : Type 0 where
  pub buf : List ℕ
  pub pending : FlatStorage (PendingSend C)
  pub first_pending_id : ℕ
  pub last_pending_id : ℕ
  pub bytes_sent : ℕ
  pub close_or_error : Bool

pub data SendOrQueResult : Type 0 where
  complete in_queue : SendOrQueResult

-- The messages of the `String` errors of `MsgSender`.
pub data SendError : Type 0 where
  wrote_zero : SendError
  write_failed : ErrorKind → SendError

-- How a call that sends ends: its result, the sender and the socket afterwards, and the completions
-- that it called, in order.
pub record Sending (S C R : Type 0) : Type 0 where
  pub result : R
  pub sender : MsgSender C
  pub sock : S
  pub called : List C

-- The call of an optional completion.
abbrev pub call : {C : Type 0} → Option C → List C
call none = []
call (some c) = c ∷ []

module _ {C : Type 0} where
  unfoldable pub new : MsgSender C
  new = record {
    buf = [];
    pending = FlatStorage.new;
    first_pending_id = usize_max;
    last_pending_id = usize_max;
    bytes_sent = 0;
    close_or_error = false;
  }

  -- `if let Some(prev) = self.pending.get_mut(prev_id) { prev.next_id = id }`
  unfoldable pub link : FlatStorage (PendingSend C) → ℕ → ℕ → FlatStorage (PendingSend C)
  link p prev_id id = elim (FlatStorage.get p prev_id) [
    | none ↦ p
    | some prev ↦ FlatStorage.put p prev_id (record prev { next_id = id })
  ]

  unfoldable pub queue_msg_completion : MsgSender C → ℕ → Option C → Outcome (MsgSender C)
  queue_msg_completion m queued_size none = done m
  queue_msg_completion m queued_size (some callback) =
      let entry : PendingSend C = record {
        next_id = usize_max;
        startpos = m.bytes_sent + length m.buf - queued_size;
        msgsize = queued_size;
        completion = callback;
      } in
      FlatStorage.add m.pending entry >>= λ (id, p). done (record m {
        pending = link p m.last_pending_id id;
        first_pending_id = if m.first_pending_id == usize_max then id else m.first_pending_id;
        last_pending_id = id;
      })

  -- The three `debug_assert_eq!` on an empty queue of completions.
  unfoldable pub assert_idle : Build → MsgSender C → Outcome (Unit {0})
  assert_idle build m = do
    debug_assert build (m.first_pending_id == usize_max)
    debug_assert build (m.last_pending_id == usize_max)
    debug_assert build (FlatStorage.len m.pending == 0)

  -- `copy_within` panics if the range starts behind the end of the buffer.
  unfoldable pub move_buf_front_after_send :
      Build → MsgSender C → ℕ → Outcome (SendOrQueResult × MsgSender C)
  move_buf_front_after_send build m sentbytes =
      let rest = drop sentbytes m.buf in
      let emptied =
        assert_idle build (record m { buf = rest })
        >> done (complete, record m { buf = rest; bytes_sent = 0 }) in
      if ltb (length m.buf) sentbytes
      then panic
      else if is_nil rest
      then emptied
      else done (in_queue, record m { buf = rest; bytes_sent = m.bytes_sent + sentbytes })

  -- The loop of `send_queued` over the pending completions, with those called so far.
  unfoldable pub notify : Build → ℕ → MsgSender C → List C → Outcome (MsgSender C × List C)
  notify build zero m called = no_fuel
  notify build (suc fuel) m called =
      let id = m.first_pending_id in
      let visit = λ (p : PendingSend C).
        let (gone, rest) = FlatStorage.remove m.pending id in
        let next =
          notify build fuel (record m { first_pending_id = p.next_id; pending = rest })
            (called ++ call (elim gone [ none ↦ none | some g ↦ some g.completion ])) in
        let shorten : Outcome (MsgSender C × List C) = do
          over ← sub_usize build m.bytes_sent p.startpos
          size ← sub_usize build p.msgsize over
          let q = record p { msgsize = size; startpos = m.bytes_sent }
          done (record m { pending = FlatStorage.put m.pending id q }, called)
        in if leb (p.startpos + p.msgsize) m.bytes_sent then next else shorten in
      if id == usize_max
      then done (m, called)
      else (unwrap (FlatStorage.get m.pending id) >>= visit)

  -- `if self.first_pending_id == usize::MAX { self.last_pending_id = usize::MAX }`
  abbrev pub reset_last : MsgSender C → MsgSender C
  reset_last m =
      if m.first_pending_id == usize_max then record m { last_pending_id = usize_max } else m

module _ {S : Type 0} (write : Write S) where
  -- The `loop` of `try_send_all`, after `sentbytes` bytes.
  unfoldable pub try_send_loop : ℕ → S → List ℕ → ℕ → Outcome (IoResult ℕ × S)
  try_send_loop zero sock buf sentbytes = no_fuel
  try_send_loop (suc fuel) sock buf sentbytes =
      let (res, sock') = write sock buf in
      elim res [
        | io_ok bytes ↦
            let retry = try_send_loop fuel sock' (drop bytes buf) (sentbytes + bytes) in
            if ltb bytes (length buf) then retry else done (io_ok (sentbytes + bytes), sock')
        | io_err kind ↦ elim kind [
          | would_block ↦ done (io_ok sentbytes, sock')
          | other ↦ done (io_err other, sock')
        ]
      ]

  -- The fuel is a write for each byte: it is enough if each write takes a byte or fails.
  unfoldable pub try_send_all : S → List ℕ → Outcome (IoResult ℕ × S)
  try_send_all sock buf =
      if is_nil buf then done (io_ok 0, sock) else try_send_loop (length buf) sock buf 0

-- An end of a call that calls no completion.
abbrev pub quiet : {S C R : Type 0} → R → MsgSender C → S → Sending S C R
quiet r m s = record { result = r; sender = m; sock = s; called = [] }

module _ {S C : Type 0} (write : Write S) (build : Build) where
  -- The tail of `send_or_que`, once `sentbytes` of the message have gone out.
  unfoldable pub queue_rest :
      MsgSender C
      → S
      → List ℕ
      → Option C
      → ℕ
      → Outcome (Sending S C (Result SendError SendOrQueResult))
  queue_rest m sock msg send_completion sentbytes =
      let queue = do
        m' ←
            queue_msg_completion (record m { buf = m.buf ++ drop sentbytes msg })
              (length msg - sentbytes) send_completion
        done (quiet (ok in_queue) m' sock)
      in if sentbytes == length msg
        then done (record {
          result = ok complete;
          sender = m;
          sock = sock;
          called = call send_completion;
        })
        else queue

  unfoldable pub send_or_que :
      MsgSender C → S → List ℕ → Option C → Outcome (Sending S C (Result SendError SendOrQueResult))
  send_or_que m sock msg send_completion =
      let queue = do
        m' ← queue_msg_completion (record m { buf = m.buf ++ msg }) (length msg) send_completion
        done (quiet (ok in_queue) m' sock)
      in let try_now =
          (debug_assert build (m.bytes_sent == 0) >> assert_idle build m)
          >> (try_send_all write sock msg >>= λ (res, sock'). elim res [
            | io_ok sentbytes ↦ queue_rest m sock' msg send_completion sentbytes
            | io_err kind ↦ done (quiet (err (write_failed kind)) m sock')
          ]) in
        if is_nil msg
        then done (record {
          result = ok complete;
          sender = m;
          sock = sock;
          called = call send_completion;
        })
        else if is_nil m.buf
        then try_now
        else queue

  -- `send_queued` after a write that took `sentbytes` bytes.
  unfoldable pub sent_some :
      MsgSender C → S → ℕ → Outcome (Sending S C (Result SendError SendOrQueResult))
  sent_some m sock sentbytes =
      notify build (suc (FlatStorage.len m.pending)) m [] >>= λ (m', called).
      move_buf_front_after_send build (reset_last m') sentbytes >>= λ (res, m'').
      done (record { result = ok res; sender = m''; sock = sock; called = called })

  unfoldable pub send_queued :
      MsgSender C → S → Outcome (Sending S C (Result SendError SendOrQueResult))
  send_queued m sock =
      let (res, sock') = write sock m.buf in
      let attempt : Outcome (Sending S C (Result SendError SendOrQueResult)) = elim res [
        | io_ok bytes ↦
            if bytes == 0
            then done (quiet (err wrote_zero) (record m { close_or_error = true }) sock')
            else sent_some m sock' bytes
        | io_err kind ↦ elim kind [
          | would_block ↦ done (quiet (ok in_queue) m sock')
          | interrupted ↦ done (quiet (ok in_queue) m sock')
          | other ↦
              done (quiet (err (write_failed other)) (record m { close_or_error = true }) sock')
        ]
      ] in
      if is_nil m.buf then done (quiet (ok complete) m sock) else attempt
