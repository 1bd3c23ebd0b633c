-- ===== src/Manager.antt =====
-- src/reactor.rs, `ReactorMgr`: the sockets with their reactors, under ids. What the repository does
-- not implement is a parameter of type `World`: the sockets, the poller and the clock of the
-- operating system, and the user code of reactors, listener handlers and completion callbacks.
pub mod Open
pub mod Reuse
pub mod Close
pub mod Managed
pub mod Invariant
pub mod Connects
pub mod Listens
pub mod Tests
use Prim.Native.String.{String}
use reactio_rs.Base.{
  ℕ, ◌%◌, List, Bool, true, false, Option, none, some, Build, Outcome, done, panic, ◌>>=◌, ◌>>◌,
  if◌then◌else◌, unwrap, assert, debug_assert, Result, ok, err, add_usize, sub_usize,
}
use reactio_rs.Base.Int.{ℤ}
use reactio_rs.FlatStorage
use reactio_rs.FlatStorage.{FlatStorage}
use reactio_rs.ReactorId.{ReactorId, half_usize, invalid_reactor_id, same_id, to_usize}
use reactio_rs.Socket.{IoResult, io_ok, io_err, Write}
use reactio_rs.MsgSender
use reactio_rs.MsgSender.{MsgSender}
use reactio_rs.MsgReader
use reactio_rs.MsgReader.{MsgReader}
use reactio_rs.Command.{CmdError, CommandCompletion, Channel}

-- `DispatchContext`, and with the reader `ReactorReableContext`: what a callback may use and change.
pub record Context (S C R H U K : Type 0) : Type 0 where
  pub reactorid : ReactorId
  pub sock : S
  pub sender : MsgSender C
  pub reader : MsgReader
  pub cmd_sender : Channel R H U K

-- `polling::Event`, with the answers of `is_err().unwrap_or(false)` and `is_interrupt()`.
pub record Event : Type 0 where
  pub key : ℕ
  pub readable : Bool
  pub writable : Bool
  pub is_err : Bool
  pub is_interrupt : Bool

-- `S` and `L` are the stream and the listening sockets, `E` is the operating system, `C` and `K` are
-- the completions of sends and of commands, `R`, `H` and `U` are reactors, listener handlers and user
-- commands. The answer `false` of a callback is an `Err`, which asks to close the socket.
-- `on_command` and `on_readable` can panic, as the default `on_command` does (`Reactor.on_command`);
-- the other callbacks are user code that returns.
pub record World (S L E C R H U K : Type 0) : Type 0 where
  pub write : Write S
  pub bind : E → String → IoResult L × E
  pub connect : E → String → IoResult S × E
  pub accept : E → L → IoResult S × E
  pub listener_nonblocking : E → L → IoResult (Unit {0}) × E
  pub stream_nonblocking : E → S → IoResult (Unit {0}) × E
  pub poller_add_stream : E → S → ℕ → IoResult (Unit {0}) × E
  pub poller_add_listener : E → L → ℕ → IoResult (Unit {0}) × E
  pub poller_modify : E → S → ℕ → Bool → IoResult (Unit {0}) × E
  pub poller_delete_stream : E → S → IoResult (Unit {0}) × E
  pub poller_delete_listener : E → L → IoResult (Unit {0}) × E
  pub poller_wait : E → ℕ → IoResult (List Event) × E
  pub now_nanos : E → ℤ × E
  pub on_connected : R → Context S C R H U K → ReactorId → Bool × R × Context S C R H U K
  pub on_readable : R → Context S C R H U K → Outcome (Bool × R × Context S C R H U K)
  pub on_command : R → U → Context S C R H U K → Outcome (Bool × R × Context S C R H U K)
  pub on_close : R → ReactorId → Channel R H U K → Channel R H U K
  pub on_start_listen : H → ReactorId → Channel R H U K → H × Channel R H U K
  pub on_new_connection : H → L → S → Option (R × ℕ) × H × L × S
  pub on_close_listen : H → ReactorId → Channel R H U K → Channel R H U K
  pub complete : K → CommandCompletion → Channel R H U K → Channel R H U K

pub record SockData (S C : Type 0) : Type 0 where
  pub reactorid : ReactorId
  pub sock : S
  pub sender : MsgSender C
  pub reader : MsgReader
  pub interested_writable : Bool

pub data TcpSocketHandler (S L C R H : Type 0) : Type 0 where
  listener_type : ReactorId → L → H → TcpSocketHandler S L C R H
  stream_type : SockData S C → R → TcpSocketHandler S L C R H

-- The fields `poller`, `cmd_recv` and `cmd_sender` are the operating system and the channel.
pub record ReactorMgr (S L E C R H U K : Type 0) : Type 0 where
  pub socket_handlers : FlatStorage (TcpSocketHandler S L C R H)
  pub os : E
  pub count_streams : ℕ
  pub channel : Channel R H U K

-- `.unwrap()` of a call of the operating system that returns no value.
abbrev pub unwrap_os : {E : Type 0} → IoResult (Unit {0}) × E → Outcome E
unwrap_os (io_ok _, os) = done os
unwrap_os (io_err _, os) = panic

-- `ReactorID { sockslot: key as HalfUsize, ver: self.socket_handlers.len() as HalfUsize }`
abbrev pub id_of : ℕ → ℕ → ReactorId
id_of key len = record { sockslot = key % half_usize; ver = len % half_usize }

abbrev pub new_data : {S C : Type 0} → ReactorId → ℕ → S → SockData S C
new_data id recv_buffer_min_size sock = record {
  reactorid = id;
  sock = sock;
  sender = MsgSender.new;
  reader = MsgReader.new recv_buffer_min_size;
  interested_writable = false;
}

module _ {S C R H U K : Type 0} where
  -- `DispatchContext::from` and `ReactorReableContext::from`, and the data after the callback.
  abbrev pub context_of : SockData S C → Channel R H U K → Context S C R H U K
  context_of d ch = record {
    reactorid = d.reactorid;
    sock = d.sock;
    sender = d.sender;
    reader = d.reader;
    cmd_sender = ch;
  }

  abbrev pub data_after : SockData S C → Context S C R H U K → SockData S C
  data_after d ctx = record d { sock = ctx.sock; sender = ctx.sender; reader = ctx.reader }

module _ {S L E C R H U K : Type 0} (world : World S L E C R H U K) (build : Build) where
  unfoldable pub add_stream :
      ReactorMgr S L E C R H U K → ℕ → S → R → Outcome (ReactorId × ReactorMgr S L E C R H U K)
  add_stream mgr recv_buffer_min_size sock handler =
      FlatStorage.add mgr.socket_handlers
        (stream_type (new_data invalid_reactor_id recv_buffer_min_size sock) handler)
      >>= λ (key, handlers).
          let id = id_of key (FlatStorage.len handlers) in
          add_usize build mgr.count_streams 1 >>= λ count_streams.
          unwrap_os (world.poller_add_stream mgr.os sock (to_usize id)) >>= λ os. done (
            id,
            record mgr {
              socket_handlers =
                  FlatStorage.put handlers key
                    (stream_type (new_data id recv_buffer_min_size sock) handler);
              os = os;
              count_streams = count_streams;
            },
          )

  unfoldable pub add_listener :
      ReactorMgr S L E C R H U K → L → H → Outcome (ReactorId × ReactorMgr S L E C R H U K)
  add_listener mgr sock handler =
      FlatStorage.add mgr.socket_handlers (listener_type invalid_reactor_id sock handler)
      >>= λ (key, handlers).
          let id = id_of key (FlatStorage.len handlers) in
          unwrap_os (world.poller_add_listener mgr.os sock (to_usize id)) >>= λ os. done (
            id,
            record mgr {
              socket_handlers = FlatStorage.put handlers key (listener_type id sock handler);
              os = os;
            },
          )

  -- The `match` of `close_reactor` on the handler that was removed.
  unfoldable pub closing :
      ReactorMgr S L E C R H U K
      → ReactorId
      → TcpSocketHandler S L C R H
      → Outcome (ReactorMgr S L E C R H U K)
  closing mgr id (stream_type sockdata reactor) = do
    debug_assert build (same_id id sockdata.reactorid)
    count_streams ← sub_usize build mgr.count_streams 1
    os ← unwrap_os (world.poller_delete_stream mgr.os sockdata.sock)
    done (record mgr {
      os = os;
      count_streams = count_streams;
      channel = world.on_close reactor id mgr.channel;
    })
  closing mgr id (listener_type areactorid sock handler) = do
    debug_assert build (same_id id areactorid)
    os ← unwrap_os (world.poller_delete_listener mgr.os sock)
    done (record mgr { os = os; channel = world.on_close_listen handler id mgr.channel })

  unfoldable pub close_reactor :
      ReactorMgr S L E C R H U K → ReactorId → Outcome (Bool × ReactorMgr S L E C R H U K)
  close_reactor mgr id =
      let (removed, handlers) = FlatStorage.remove mgr.socket_handlers id.sockslot in
      elim removed [
        | none ↦ done (false, record mgr { socket_handlers = handlers })
        | some handler ↦ closing (record mgr { socket_handlers = handlers }) id handler >>= λ mgr'.
            done (true, mgr')
      ]

  -- `on_start_listen` on the handler that was just added.
  unfoldable pub listening :
      ReactorMgr S L E C R H U K
      → ReactorId
      → TcpSocketHandler S L C R H
      → ReactorId × ReactorMgr S L E C R H U K
  listening mgr id (stream_type _ _) = (invalid_reactor_id, mgr)
  listening mgr id (listener_type areactorid sock handler) =
      let (handler', channel) = world.on_start_listen handler id mgr.channel in
      (
        id,
        record mgr {
          socket_handlers =
              FlatStorage.put mgr.socket_handlers id.sockslot
                (listener_type areactorid sock handler');
          channel = channel;
        },
      )

  -- An `Err` of the standard library ends the call; the socket that was made is dropped.
  unfoldable pub start_listen :
      ReactorMgr S L E C R H U K
      → String
      → H
      → Outcome (IoResult ReactorId × ReactorMgr S L E C R H U K)
  start_listen mgr local_addr handler =
      let (bound, os) = world.bind mgr.os local_addr in
      elim bound [
        | io_err kind ↦ done (io_err kind, record mgr { os = os })
        | io_ok socket ↦
            let (unblocked, os') = world.listener_nonblocking os socket in
            elim unblocked [
              | io_err kind ↦ done (io_err kind, record mgr { os = os' })
              | io_ok _ ↦ add_listener (record mgr { os = os' }) socket handler >>= λ (id, mgr').
                  unwrap (FlatStorage.get mgr'.socket_handlers id.sockslot) >>= λ h.
                  let (id', mgr'') = listening mgr' id h in done (io_ok id', mgr'')
            ]
      ]

  -- `on_connected` on the stream that was just added; an answer to close it, or no stream, closes.
  unfoldable pub connecting :
      ReactorMgr S L E C R H U K
      → ReactorId
      → ReactorId
      → TcpSocketHandler S L C R H
      → Outcome (ReactorId × ReactorMgr S L E C R H U K)
  connecting mgr id listener (listener_type _ _ _) =
      close_reactor mgr id >>= λ (_, mgr'). done (invalid_reactor_id, mgr')
  connecting mgr id listener (stream_type sockdata handler) =
      let (accepted, handler', ctx) =
        world.on_connected handler (context_of sockdata mgr.channel) listener in
      let mgr' = record mgr {
        socket_handlers =
            FlatStorage.put mgr.socket_handlers id.sockslot
              (stream_type (data_after sockdata ctx) handler');
        channel = ctx.cmd_sender;
      } in
      let closed : Outcome (ReactorId × ReactorMgr S L E C R H U K) =
        close_reactor mgr' id >>= λ (_, mgr''). done (invalid_reactor_id, mgr'') in
      if accepted then done (id, mgr') else closed

  unfoldable pub start_connect :
      ReactorMgr S L E C R H U K
      → String
      → ℕ
      → R
      → Outcome (IoResult ReactorId × ReactorMgr S L E C R H U K)
  start_connect mgr remote_addr recv_buffer_min_size handler =
      let (connected, os) = world.connect mgr.os remote_addr in
      elim connected [
        | io_err kind ↦ done (io_err kind, record mgr { os = os })
        | io_ok socket ↦
            let (unblocked, os') = world.stream_nonblocking os socket in
            elim unblocked [
              | io_err kind ↦ done (io_err kind, record mgr { os = os' })
              | io_ok _ ↦
                  add_stream (record mgr { os = os' }) recv_buffer_min_size socket handler
                  >>= λ (id, mgr').
                      unwrap (FlatStorage.get mgr'.socket_handlers id.sockslot) >>= λ h.
                      connecting mgr' id invalid_reactor_id h >>= λ (id', mgr'').
                      done (io_ok id', mgr'')
            ]
      ]
