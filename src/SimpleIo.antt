-- ===== src/SimpleIo.antt =====
-- src/reactor.rs, `SimpleIoReactor` and `SimpleIoService`: reactors that forward to closures. The
-- closures are parameters of the types below; `A` is the application's data, with what the closures
-- capture, `X` is the dispatch context, with the socket, and `M` is the sender of commands.
pub mod Drains
pub mod Service
mod Tests
use reactio_rs.Base.{
  ℕ, ◌≡◌, List, length, Bool, true, false, Option, none, some, Build, Outcome, done, panic, ◌>>=◌,
  Result, ok, err, if◌then◌else◌,
}
use reactio_rs.ReactorId.{ReactorId}
use reactio_rs.Socket.{IoResult, Read}
use reactio_rs.MsgReader
use reactio_rs.MsgReader.{
  MessageResult, drop_msg_size, ReadError, MsgReader, Dispatched, Dispatcher, Reading,
  try_read_fast_read,
}

-- What the message handler leaves of a slice of `size` bytes: the number of bytes to drop, or an
-- error, and the slice, which it may write to.
pub record Handled (A X : Type 0) (size : ℕ) : Type 0 where
  pub answer : Result ReadError ℕ
  pub slice : List ℕ
  pub same_size : length slice ≡ size
  pub app_data : A
  pub context : X

-- The answer `false` of `on_connected_handler` is an `Err`.
pub record SimpleIoReactor (A X M : Type 0) : Type 0 where
  pub app_data : A
  pub on_connected_handler : Option (A → X → ReactorId → Bool × A × X)
  pub on_closed_handler : Option (A → ReactorId → M → A × M)
  pub on_sock_msg_handler : A → X → (buf : List ℕ) → Handled A X (length buf)

module _ {A X M : Type 0} where
  unfoldable pub new :
      A
      → Option (A → X → ReactorId → Bool × A × X)
      → Option (A → ReactorId → M → A × M)
      → (A → X → (buf : List ℕ) → Handled A X (length buf))
      → SimpleIoReactor A X M
  new app_data on_connected_handler on_closed_handler on_sock_msg_handler = record {
    app_data = app_data;
    on_connected_handler = on_connected_handler;
    on_closed_handler = on_closed_handler;
    on_sock_msg_handler = on_sock_msg_handler;
  }

  -- The reactor is a part of the dispatcher's context.
  unfoldable pub on_inbound_message : Dispatcher (X × SimpleIoReactor A X M)
  on_inbound_message (x, r) buf new_bytes decoded_msg_size =
      let h = r.on_sock_msg_handler r.app_data x buf in
      record {
        answer = elim h.answer [ err e ↦ err e | ok n ↦ ok (drop_msg_size n) ];
        slice = h.slice;
        context = (h.context, record r { app_data = h.app_data });
      }

  unfoldable pub on_connected :
      SimpleIoReactor A X M → X → ReactorId → Bool × SimpleIoReactor A X M × X
  on_connected r x listener = elim r.on_connected_handler [
    | none ↦ (true, r, x)
    | some h ↦
        let (accepted, app_data, x') = h r.app_data x listener in
        (accepted, record r { app_data = app_data }, x')
  ]

  unfoldable pub on_close : SimpleIoReactor A X M → ReactorId → M → SimpleIoReactor A X M × M
  on_close r id cmd_sender = elim r.on_closed_handler [
    | none ↦ (r, cmd_sender)
    | some h ↦
        let (app_data, cmd_sender') = h r.app_data id cmd_sender in
        (record r { app_data = app_data }, cmd_sender')
  ]

pub record IoServiceInner (A X M : Type 0) : Type 0 where
  pub stream_reactor : SimpleIoReactor A X M
  pub msg_reader : MsgReader

-- Whether a call further up the stack has borrowed a `RefCell`, and how.
pub data Borrow : Type 0 where
  unborrowed shared exclusive : Borrow

-- The shared `RefCell`: its content, and its state.
pub record SimpleIoService (A X M : Type 0) : Type 0 where
  pub inner : IoServiceInner A X M
  pub borrowed : Borrow

-- The message of the `String` error of `apply_app_data`.
pub data BorrowError : Type 0 where
  unable_to_borrow : BorrowError

module _ {A X M : Type 0} where
  unfoldable pub new_service : ℕ → SimpleIoReactor A X M → SimpleIoService A X M
  new_service recv_buf_min_size reactor = record {
    inner = record { stream_reactor = reactor; msg_reader = MsgReader.new recv_buf_min_size };
    borrowed = unborrowed;
  }

  -- The effect of the closure, on what it captured, is on a state of the type `E`.
  unfoldable pub apply_app_data :
      {E : Type 0} → SimpleIoService A X M → (A → E → E) → E → Result BorrowError (Unit {0}) × E
  apply_app_data s func e = elim s.borrowed [
    | exclusive ↦ (err unable_to_borrow, e)
    | shared ↦ (ok tt, func s.inner.stream_reactor.app_data e)
    | unborrowed ↦ (ok tt, func s.inner.stream_reactor.app_data e)
  ]

  unfoldable pub apply_app_data_mut :
      SimpleIoService A X M → (A → A) → Result BorrowError (Unit {0}) × SimpleIoService A X M
  apply_app_data_mut s func =
      let reactor = s.inner.stream_reactor in
      let reactor' = record reactor { app_data = func reactor.app_data } in
      elim s.borrowed [
        | unborrowed ↦ (ok tt, record s { inner = record (s.inner) { stream_reactor = reactor' } })
        | shared ↦ (err unable_to_borrow, s)
        | exclusive ↦ (err unable_to_borrow, s)
      ]

  -- `borrow_mut` panics on a cell that is borrowed.
  unfoldable pub borrow_mut : SimpleIoService A X M → Outcome (IoServiceInner A X M)
  borrow_mut s = elim s.borrowed [ unborrowed ↦ done s.inner | shared ↦ panic | exclusive ↦ panic ]

  abbrev pub with_inner : SimpleIoService A X M → IoServiceInner A X M → SimpleIoService A X M
  with_inner s inner = record s { inner = inner }

  -- Reading from the socket, beside the reactor.
  abbrev pub read_beside : Read X → Read (X × SimpleIoReactor A X M)
  read_beside read (x, r) n = let (res, x') = read x n in (res, (x', r))

  -- The shared reader takes the place of the socket's own.
  unfoldable pub service_on_readable :
      Read X
      → Build
      → ℕ
      → SimpleIoService A X M
      → X
      → Outcome (Result ReadError (Unit {0}) × SimpleIoService A X M × X)
  service_on_readable read build fuel s x = borrow_mut s >>= λ inner.
      try_read_fast_read (read_beside read) on_inbound_message build fuel inner.msg_reader
        (x, inner.stream_reactor)
      >>= λ (res, reader, (x', reactor)).
          done (res, with_inner s (record { stream_reactor = reactor; msg_reader = reader }), x')

  unfoldable pub service_on_connected :
      SimpleIoService A X M → X → ReactorId → Outcome (Bool × SimpleIoService A X M × X)
  service_on_connected s x listener = borrow_mut s >>= λ inner.
      let (accepted, reactor, x') = on_connected inner.stream_reactor x listener in
      done (accepted, with_inner s (record inner { stream_reactor = reactor }), x')

  unfoldable pub service_on_close :
      SimpleIoService A X M → ReactorId → M → Outcome (SimpleIoService A X M × M)
  service_on_close s id cmd_sender = borrow_mut s >>= λ inner.
      let (reactor, cmd_sender') = on_close inner.stream_reactor id cmd_sender in
      done (with_inner s (record inner { stream_reactor = reactor }), cmd_sender')
