-- ===== src/MsgReader.antt =====
-- src/reactor.rs, `MsgReader`: reading a non-blocking socket into a buffer, and handing the messages
-- in it to a dispatcher. The dispatcher is the reactor's `on_inbound_message`, user code: it is a
-- parameter, which answers and changes its context `X` (the reactor, the sender, the command sender),
-- with the socket in it, and may write to the slice that it is given.
pub mod Window
pub mod Framing
pub mod Awaits
pub mod Progress
pub mod Buffer
pub mod Reading
pub mod Pipe
pub mod Waiting
pub mod FastDispatch
mod Tests
use reactio_rs.Base.{
  ℕ, zero, suc, ◌+◌, ◌-◌, ◌*◌, List, [], ◌∷◌, ◌++◌, Bool, true, false, ◌||◌, ◌&&◌, Build, debug,
  release, Outcome, done, panic, no_fuel, ◌>>=◌, ◌>>◌, assert, debug_assert, Result, ok, err, ltb,
  leb, ◌==◌, if◌then◌else◌, length, take, drop, replicate,
}
use reactio_rs.Socket.{
  ErrorKind, would_block, connection_reset, connection_aborted, interrupted, other_kind, IoResult,
  io_ok, io_err, Read,
}
use Prim.Native.Nat.{max}

pub data MessageResult : Type 0 where
  expect_msg_size drop_msg_size : ℕ → MessageResult

-- The messages of the `String` errors of `MsgReader`, and one of the dispatcher's own.
pub data ReadError : Type 0 where
  peer_closed sock_reset sock_aborted read_failed : ReadError
  rejected : ℕ → ReadError

pub record MsgReader : Type 0 where
  pub recv_buffer : List ℕ
  pub min_reserve : ℕ
  pub startpos : ℕ
  pub bufsize : ℕ
  pub decoded_msgsize : ℕ

-- What a call of the dispatcher leaves: its answer, the slice, and the context.
pub record Dispatched (X : Type 0) : Type 0 where
  pub answer : Result ReadError MessageResult
  pub slice : List ℕ
  pub context : X

-- `dispatcher(&mut buf, new_bytes, decoded_msg_size, ctx)`
abbrev pub Dispatcher : Type 0 → Type 0
Dispatcher X = X → List ℕ → ℕ → ℕ → Dispatched X

abbrev pub Reading : Type 0 → Type 0
Reading X = Outcome (Result ReadError (Unit {0}) × MsgReader × X)

unfoldable pub new : ℕ → MsgReader
new min_reserved_bytes = record {
  recv_buffer = replicate min_reserved_bytes 0;
  min_reserve = min_reserved_bytes;
  startpos = 0;
  bufsize = 0;
  decoded_msgsize = 0;
}

unfoldable pub bytes_in_buffer : MsgReader → ℕ
bytes_in_buffer r = r.bufsize - r.startpos

unfoldable pub clear : MsgReader → MsgReader
clear r = record r { startpos = 0; bufsize = 0; decoded_msgsize = 0 }

-- `&mut self.recv_buffer[self.startpos..self.bufsize]`, and the buffer after a write to the slice.
abbrev pub unread : MsgReader → List ℕ
unread r = take (r.bufsize - r.startpos) (drop r.startpos r.recv_buffer)

abbrev pub write_back : MsgReader → List ℕ → List ℕ
write_back r slice = take r.startpos r.recv_buffer ++ (slice ++ drop r.bufsize r.recv_buffer)

-- The `copy_within` and the resets at the end of `try_dispatch_all`.
unfoldable pub move_front : MsgReader → MsgReader
move_front r = if r.startpos == 0 then r else record r {
  recv_buffer = unread r ++ drop (r.bufsize - r.startpos) r.recv_buffer;
  bufsize = r.bufsize - r.startpos;
  startpos = 0;
}

-- The `match` on the dispatcher's answer, for a reader with `have` unread bytes. A `break` goes on to
-- `move_front`; `next n` is the next round, after a drop of `n` bytes.
unfoldable pub answered :
    {X : Type 0}
    → Build
    → Result ReadError MessageResult
    → MsgReader
    → ℕ
    → X
    → (ℕ → Reading X)
    → Reading X
answered build (err e) r have x next = done (err e, clear r, x)
answered build (ok (expect_msg_size msgsize)) r have x next =
    debug_assert build (msgsize == 0 || ltb have msgsize)
    >> done (ok tt, move_front (record r { decoded_msgsize = msgsize }), x)
answered build (ok (drop_msg_size msgsize)) r have x next =
    assert (ltb 0 msgsize && leb msgsize have) >> next msgsize

module _ {X : Type 0} (dispatcher : Dispatcher X) (build : Build) where
  -- The `while` loop of `try_dispatch_all`, and the `move_front` behind it.
  unfoldable pub dispatch_loop : ℕ → MsgReader → ℕ → X → Reading X
  dispatch_loop zero r new_bytes x = no_fuel
  dispatch_loop (suc fuel) r new_bytes x =
      let d = dispatcher x (unread r) new_bytes r.decoded_msgsize in
      let r' = record r { recv_buffer = write_back r d.slice } in
      let have = r.bufsize - r.startpos in
      let round = answered build d.answer r' have d.context λ msgsize.
        dispatch_loop fuel (record r' { startpos = r.startpos + msgsize; decoded_msgsize = 0 })
          (have - msgsize) d.context in
      if ltb r.startpos r.bufsize
        && (r.decoded_msgsize == 0 || leb (r.startpos + r.decoded_msgsize) r.bufsize)
      then round
      else done (ok tt, move_front r, x)

  -- Each round drops a byte or ends the loop, so the fuel is a round for each byte and one more.
  unfoldable pub try_dispatch_all : MsgReader → ℕ → X → Reading X
  try_dispatch_all r new_bytes x = dispatch_loop (suc (r.bufsize - r.startpos)) r new_bytes x

-- `recv_buffer.resize(…)` before a read.
unfoldable pub reserve : MsgReader → MsgReader
reserve r =
    let size = length r.recv_buffer in
    if ltb size (r.bufsize + r.min_reserve)
    then record r {
      recv_buffer =
          r.recv_buffer ++ replicate (max (r.bufsize + r.min_reserve) (size * 2) - size) 0;
    }
    else r

-- A read puts its bytes behind the last one.
unfoldable pub fill : MsgReader → List ℕ → MsgReader
fill r bytes = record r {
  recv_buffer =
      take r.bufsize r.recv_buffer ++ (bytes ++ drop (r.bufsize + length bytes) r.recv_buffer);
  bufsize = r.bufsize + length bytes;
}

-- What the two reading loops return on an error of the socket.
abbrev pub after_error : ErrorKind → Result ReadError (Unit {0})
after_error would_block = ok tt
after_error connection_reset = err sock_reset
after_error interrupted = ok tt
after_error connection_aborted = err sock_aborted
after_error other_kind = err read_failed

module _ {X : Type 0} (read : Read X) (build : Build) where
  -- The `loop` of `try_read_all`, a read in each round.
  unfoldable pub try_read_all : ℕ → MsgReader → X → Reading X
  try_read_all zero r x = no_fuel
  try_read_all (suc fuel) r x =
      let r1 = reserve r in
      let (res, x') = read x (length r1.recv_buffer - r1.bufsize) in
      elim res [
        | io_err kind ↦ done (after_error kind, r1, x')
        | io_ok bytes ↦
            let r2 = fill r1 bytes in
            let again = try_read_all fuel r2 x' in
            let full : Reading X =
              debug_assert build (leb (r1.bufsize + length bytes) (length r1.recv_buffer))
              >> (if ltb r2.bufsize (length r2.recv_buffer) then done (ok tt, r2, x') else again) in
            if length bytes == 0 then done (err peer_closed, r1, x') else full
      ]

-- `res?` in front of what follows.
abbrev pub first_error :
    Result ReadError (Unit {0}) → Result ReadError (Unit {0}) → Result ReadError (Unit {0})
first_error (err e) later = err e
first_error (ok _) later = later

module _ {X : Type 0} (read : Read X) (dispatcher : Dispatcher X) (build : Build) where
  -- The `loop` of `try_read_fast_dispatch`, a read in each round.
  unfoldable pub try_read_fast_dispatch : ℕ → MsgReader → X → Reading X
  try_read_fast_dispatch zero r x = no_fuel
  try_read_fast_dispatch (suc fuel) r x =
      let r1 = reserve r in
      let (res, x') = read x (length r1.recv_buffer - r1.bufsize) in
      let round : Reading X = elim res [
        | io_err kind ↦ done (after_error kind, r1, x')
        | io_ok bytes ↦
            let r2 = fill r1 bytes in
            let full : Reading X =
              debug_assert build (leb (r1.bufsize + length bytes) (length r1.recv_buffer))
              >> (try_dispatch_all dispatcher build r2 (length bytes) x' >>= λ (res', r3, x'').
                  elim res' [
                    | err e ↦ done (err e, r3, x'')
                    | ok _ ↦
                        let again = try_read_fast_dispatch fuel r3 x'' in
                        if ltb r2.bufsize (length r2.recv_buffer)
                        then done (ok tt, r3, x'')
                        else again
                  ]) in
            if length bytes == 0 then done (err peer_closed, r1, x') else full
      ] in
      debug_assert build (r.decoded_msgsize == 0 || ltb (r.bufsize - r.startpos) r.decoded_msgsize)
      >> round

  unfoldable pub try_read_fast_read : ℕ → MsgReader → X → Reading X
  try_read_fast_read fuel r x =
      let old_bytes = r.bufsize - r.startpos in
      try_read_all read build fuel r x >>= λ (res, r', x').
      try_dispatch_all dispatcher build r' (r'.bufsize - r'.startpos - old_bytes) x'
      >>= λ (res2, r'', x''). done (first_error res res2, r'', x'')
