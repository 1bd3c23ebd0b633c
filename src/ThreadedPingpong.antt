-- ===== src/ThreadedPingpong.antt =====
-- examples/example/threaded_pingpong.rs: `ThreadedPingpongReactor`, a `PingpongReactor` that registers
-- its name with the manager of the threads. The manager and the counter, which all reactors share, are
-- passed along as `Shared`. A sender in the manager is a handle, and `channels` has the channel of each.
-- The handle of the context's own `cmd_sender` is `own`: that channel is in the context.
pub mod Names
pub mod Hello
pub mod Reaches
mod Tests
use Prim.Native.String.{String}
use reactio_rs.Base.{
  ℕ, ◌+◌, List, [], ◌∷◌, Bool, true, false, Option, none, some, Build, Outcome, done, ◌>>=◌, unwrap,
  Result, ok, err, ◌==◌, if◌then◌else◌,
}
use reactio_rs.Base.Int.{ℤ, pos, negsuc, ltb_ℤ}
use reactio_rs.ReactorId.{ReactorId}
use reactio_rs.Socket.{Write}
use reactio_rs.MsgReader.{Dispatched}
use reactio_rs.Command.{CmdError, Channel, immediate, util_time, send_close, send_user_cmd}
use reactio_rs.Manager.{Context}
use reactio_rs.Listener
use reactio_rs.Listener.{DefaultTcpListenerHandler}
use reactio_rs.Threaded.{
  ThreadedReactorMgr, ReactorUid, NameError, get_cmd_sender, find_reactor_uid, add_reactor_uid,
  remove_reactor_name,
}
use reactio_rs.Utils.Timer.{add_ℤ}
use reactio_rs.Pingpong
use reactio_rs.Pingpong.{PingpongReactor, PingpongError, child_name, i32_max}
use reactio_rs.Pingpong.Inbound
use reactio_rs.Pingpong.Connect.{send_msg}

pub record ThreadedPingpongReactor : Type 0 where
  pub runtimeid : ℕ
  pub inner : PingpongReactor

pub record Shared (R H K : Type 0) : Type 0 where
  pub reactormgr : ThreadedReactorMgr ℕ
  pub stopcounter : ℤ
  pub channels : ℕ → Channel R H String K

unfoldable pub new_client : String → ℕ → ℤ → ℤ → ThreadedPingpongReactor
new_client name runtimeid max_echo latency_batch = record {
  runtimeid = runtimeid;
  inner = Pingpong.new_client name max_echo latency_batch;
}

-- Without the handles of what is shared.
pub record ThreadedServerParam : Type 0 where
  pub runtimeid : ℕ
  pub name : String
  pub latency_batch : ℤ

unfoldable pub new_server_reactor : ℕ → ThreadedServerParam → ThreadedPingpongReactor
new_server_reactor count p = record {
  runtimeid = p.runtimeid;
  inner = Pingpong.new (child_name p.name count) false i32_max p.latency_batch;
}

unfoldable pub create_tcp_listener :
    ℕ → ThreadedServerParam → DefaultTcpListenerHandler ThreadedServerParam
create_tcp_listener recv_buffer_min_size param = Listener.new recv_buffer_min_size param

-- The messages of the `String` errors.
pub data ThreadedError : Type 0 where
  naming : NameError → ThreadedError
  commanding : CmdError → ThreadedError
  echoing : PingpongError → ThreadedError
  no_server no_sender : ThreadedError

-- `fetch_add(1)` of an `AtomicI32`.
abbrev pub fetch_next : ℤ → ℤ
fetch_next a = if ltb_ℤ a i32_max then add_ℤ a (pos 1) else negsuc 0x7fff_ffff

module _ {R H K : Type 0} where
  -- `Drop`
  unfoldable pub drop_reactor : ThreadedPingpongReactor → Shared R H K → Shared R H K
  drop_reactor r shared = record shared {
    reactormgr = (remove_reactor_name shared.reactormgr r.inner.name).1;
    stopcounter = fetch_next shared.stopcounter;
  }

-- "hello world"
abbrev pub hello_bytes : List ℕ
hello_bytes = b'h' ∷ b'e' ∷ b'l' ∷ b'l' ∷ b'o' ∷ b' ' ∷ b'w' ∷ b'o' ∷ b'r' ∷ b'l' ∷ b'd' ∷ []

-- What a callback leaves.
pub record Called (S C R H K : Type 0) : Type 0 where
  pub result : Result ThreadedError (Unit {0})
  pub reactor : ThreadedPingpongReactor
  pub context : Context S C R H String K
  pub shared : Shared R H K

module _ {S C R H K : Type 0} where
  -- The end of `on_connected`, by what a call of `cmd_sender` returned.
  abbrev pub commanded :
      ThreadedPingpongReactor
      → Context S C R H String K
      → Shared R H K
      → Result CmdError (Unit {0}) × Channel R H String K
      → Called S C R H K
  commanded r ctx shared (res, channel) = record {
    result = elim res [ ok _ ↦ ok tt | err e ↦ err (commanding e) ];
    reactor = r;
    context = record ctx { cmd_sender = channel };
    shared = shared;
  }

  -- `ignored` is the completion `|_| {}`, and `start_time` is that of
  -- `SystemTime::now().checked_add(Duration::from_millis(10))`.
  unfoldable pub on_connected :
      K
      → Option ℤ
      → ThreadedPingpongReactor
      → Context S C R H String K
      → Shared R H K
      → ReactorId
      → Outcome (Called S C R H K)
  on_connected ignored start_time r ctx shared listener =
      let r1 = record r { inner = record (r.inner) { parent_listener = listener } } in
      let uid : ReactorUid = record { runtimeid = r.runtimeid; reactorid = ctx.reactorid } in
      let (res, mgr) = add_reactor_uid shared.reactormgr r.inner.name uid in
      let shared1 = record shared { reactormgr = mgr } in
      let start : Outcome (Called S C R H K) = unwrap start_time >>= λ time. done (
        commanded r1 ctx shared1
          (send_user_cmd ctx.cmd_sender ctx.reactorid "StartSending" (util_time time) ignored)) in
      let close : Outcome (Called S C R H K) =
        done (commanded r1 ctx shared1 (send_close ctx.cmd_sender listener immediate ignored)) in
      elim res [
        | err e ↦
            done (record { result = err (naming e); reactor = r1; context = ctx; shared = shared1 })
        | ok _ ↦ if r.inner.is_client then start else close
      ]

  -- A call of a sender, on the channel that the handle stands for.
  abbrev pub call_sender :
      ℕ
      → ℕ
      → Context S C R H String K
      → Shared R H K
      → (Channel R H String K → Result CmdError (Unit {0}) × Channel R H String K)
      → Result CmdError (Unit {0}) × Context S C R H String K × Shared R H K
  call_sender own handle ctx shared call =
      let (res1, channel1) = call ctx.cmd_sender in
      let (res2, channel2) = call (shared.channels handle) in
      if handle == own then (res1, record ctx { cmd_sender = channel1 }, shared) else (
        res2,
        ctx,
        record shared { channels = λ h. if h == handle then channel2 else shared.channels h },
      )

module _ {S C R H K : Type 0} (write : Write S) (cpu_now_nanos : S → ℤ × S) (build : Build) where
  -- It forwards to the reactor inside.
  unfoldable pub on_inbound_message :
      (ℕ → ℕ)
      → ThreadedPingpongReactor × Context S C R H String K
      → List ℕ
      → ℕ
      → ℕ
      → Outcome (Dispatched (ThreadedPingpongReactor × Context S C R H String K))
  on_inbound_message index_99 (r, ctx) buf new_bytes decoded_msg_size =
      Inbound.on_inbound_message write cpu_now_nanos build index_99 (r.inner, ctx) buf new_bytes
        decoded_msg_size
      >>= λ d. done (record {
        answer = d.answer;
        slice = d.slice;
        context = (record r { inner = (d.context).0 }, (d.context).1);
      })

  -- The message that starts the exchange.
  unfoldable pub say_hello :
      ThreadedPingpongReactor → Context S C R H String K → Shared R H K → Outcome (Called S C R H K)
  say_hello r ctx shared =
      send_msg write cpu_now_nanos build r.inner ctx hello_bytes >>= λ (res, inner, ctx').
      done (record {
        result = elim res [ ok _ ↦ ok tt | err e ↦ err (echoing e) ];
        reactor = record r { inner = inner };
        context = ctx';
        shared = shared;
      })

  -- The `?` behind the command to the server's reactor, and what follows.
  unfoldable pub after_command :
      ThreadedPingpongReactor
      → Result CmdError (Unit {0}) × Context S C R H String K × Shared R H K
      → Outcome (Called S C R H K)
  after_command r (ok _, ctx, shared) = say_hello r ctx shared
  after_command r (err e, ctx, shared) =
      done (record { result = err (commanding e); reactor = r; context = ctx; shared = shared })

  -- A client sends a command to the server's reactor, by its name, and then the first message.
  unfoldable pub on_command :
      ℕ
      → K
      → ThreadedPingpongReactor
      → String
      → Context S C R H String K
      → Shared R H K
      → Outcome (Called S C R H K)
  on_command own ignored r cmd ctx shared =
      let stop = λ (e : ThreadedError).
        let left : Called S C R H K = record {
          result = err e;
          reactor = r;
          context = ctx;
          shared = shared;
        } in
        done left in
      let client : Outcome (Called S C R H K) =
        elim (find_reactor_uid shared.reactormgr "server-1") [
          | none ↦ stop no_server
          | some server_uid ↦ elim (get_cmd_sender shared.reactormgr server_uid.runtimeid) [
            | none ↦ stop no_sender
            | some handle ↦ after_command r (
                call_sender own handle ctx shared λ channel.
                  send_user_cmd channel server_uid.reactorid "TestCmdFromClient" immediate ignored)
          ]
        ] in
      if r.inner.is_client
      then client
      else done (record { result = ok tt; reactor = r; context = ctx; shared = shared })
