-- ===== src/Lib.antt =====
-- A verification library for reactio, an event-driven TCP framework: a runtime polls sockets, hands
-- readable bytes to reactors and executes the commands that reactors and other threads send to it.
--
-- The parts and the files that model them:
-- * flat_storage.rs, `FlatStorage`: FlatStorage. A vector of slots whose vacant ones form the free
--   list. `get_mut` is `put`, which writes a value where one is. Runtimes and senders store in it.
-- * reactor.rs, `min_heap_push`, `min_heap_pop`: DeferredHeap. They work on a list in place of the slice.
-- * reactor.rs, `ReactorID`: ReactorId. The id of a socket, and its key for the poller.
-- * reactor.rs, `MsgSender`: MsgSender. Sends a message or queues it, with completions to call.
-- * reactor.rs, `MsgReader`: MsgReader. Reads into a buffer, and dispatches the messages in it.
-- * reactor.rs, `CmdSender`, `SysCommand`, `CmdData`, `Deferred`: Command. The channel of commands.
-- * reactor.rs, `ReactorMgr`: Manager. Adds, opens and closes sockets with their reactors.
-- * reactor.rs, `Reactor`: Reactor. The default functions of the trait.
-- * reactor.rs, `ReactRuntime`: Runtime. Commands and deferred commands, and in Runtime/Sockets the
--   socket events and `process_events`.
-- * reactor.rs, `AutoSendBuffer`: MsgSender/AutoSend. Writes into the sender's buffer, and sends.
-- * reactor.rs, `DefaultTcpListenerHandler`, `SimpleIoListener`: Listener. A reactor per connection.
-- * reactor.rs, `SimpleIoReactor`, `SimpleIoService`: SimpleIo. They forward to closures, and the
--   sockets of a service share a `MsgReader`.
-- * threaded_reactors.rs, `ThreadedReactorMgr`: Threaded. The names of reactors, and the senders of
--   the threads in the order of their numbers.
-- * utils.rs, `format_time`, `Timer`, `bytes_to_ref`: Utils.
-- * examples/example/pingpong.rs, `PingpongReactor`: Pingpong. Sends each message back, and measures.
--   Pingpong/Inbound is its `on_inbound_message`, the dispatcher of a `MsgReader`, Pingpong/Latency the
--   measuring, Pingpong/Connect `on_connected` and `send_msg`. Reactor/Sending is what it sends with.
-- * examples/example/threaded_pingpong.rs, `ThreadedPingpongReactor`: ThreadedPingpong. A
--   `PingpongReactor` in a runtime of `ThreadedReactorMgr`, which registers its name there and sends a
--   command to another by its name.
-- The other paths are under src/ of the repository. Functions have the source's names; a loop or an arm of
-- a `match` that has a name of its own says in a comment where it stands.
--
-- Base has the shared types. A call returns an `Outcome`: `done` with a result and the changed state,
-- a `panic`, or `no_fuel`, which is the model's own. `Build` is `debug` (overflow checks and
-- `debug_assert!`) or `release`. Numbers are natural numbers; arithmetic on `usize` that may
-- overflow is written out, on 64 bits.
--
-- Fuel: `min_heap_push` and `min_heap_pop` have a round for each entry, `try_send_all` a write for
-- each byte, `try_dispatch_all` a round for each unread byte and one more, `send_queued` a round for
-- each completion and one more, `process_deferred_queue` a round for each entry of the heap and one
-- more. Each round of these loops uses one up. The reading loops take their fuel as an argument: the
-- peer decides how long they run.
--
-- Parameters: the socket's `write` and `read` (Socket), the poller, the clock and the calls that
-- make sockets, and the user code of reactors, listener handlers and completions (`World` in
-- Manager), libc's conversion of times, and the index that is computed with `f32` (Pingpong). A callback may change its own reactor, the sender, the
-- reader and the channel. A completion of a send adds to the list of the completions that were
-- called. Manager/Invariant names what is asked of the poller and of user code where a call is to end
-- without a panic; `on_command` and `on_readable` may panic in the model, as the default `on_command`
-- does, and the other callbacks are taken to return.
--
-- Not modelled: starting and joining threads (threaded_reactors.rs), the log macros (utils.rs),
-- times before the epoch, the alignment of numbers in a buffer, the programs echo_client.rs and
-- echo_server.rs, and the tests.
pub mod Base
pub mod FlatStorage
pub mod DeferredHeap
pub mod ReactorId
pub mod Socket
pub mod MsgSender
pub mod MsgReader
pub mod Command
pub mod Manager
pub mod Runtime
pub mod Threaded
pub mod Listener
pub mod SimpleIo
pub mod Reactor
pub mod Utils
pub mod Pingpong
pub mod ThreadedPingpong
