-- ===== src/Reactor.antt =====
-- src/reactor.rs, the default functions of the trait `Reactor`. What a reactor does with its messages
-- is user code: the parameter `inbound`, which also changes the reactor and the context.
pub mod Reads
pub mod Sending
mod Tests
use reactio_rs.Base.{ℕ, Bool, true, List, Build, Outcome, done, panic, ◌>>=◌, Result}
use reactio_rs.ReactorId.{ReactorId}
use reactio_rs.Socket.{Read}
use reactio_rs.MsgReader.{ReadError, Dispatcher, try_read_fast_read}
use reactio_rs.Command.{Channel}
use reactio_rs.Manager.{Context}

module _ {R H U K : Type 0} where
  unfoldable pub on_close : R → ReactorId → Channel R H U K → Channel R H U K
  on_close reactor id cmd_sender = cmd_sender

module _ {S C R H U K : Type 0} where
  unfoldable pub on_connected : R → Context S C R H U K → ReactorId → Bool × R × Context S C R H U K
  on_connected reactor ctx listener = (true, reactor, ctx)

  -- It asks for an implementation.
  unfoldable pub on_command : R → U → Context S C R H U K → Outcome (Bool × R × Context S C R H U K)
  on_command reactor cmd ctx = panic

  -- Reading from the socket of the context.
  abbrev pub read_socket : Read S → Read (R × Context S C R H U K)
  read_socket read (reactor, ctx) n =
      let (res, sock) = read ctx.sock n in (res, (reactor, record ctx { sock = sock }))

  unfoldable pub on_readable :
      Read S
      → Dispatcher (R × Context S C R H U K)
      → Build
      → ℕ
      → R
      → Context S C R H U K
      → Outcome (Result ReadError (Unit {0}) × R × Context S C R H U K)
  on_readable read inbound build fuel reactor ctx =
      try_read_fast_read (read_socket read) inbound build fuel ctx.reader (reactor, ctx)
      >>= λ (res, reader, (reactor', ctx')). done (res, reactor', record ctx' { reader = reader })
