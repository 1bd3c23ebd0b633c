-- ===== src/ThreadedPingpong/Hello.antt =====
-- examples/example/threaded_pingpong.rs: the channel behind a sender, and the first message of a client.
use Prim.Native.String.{String}
use reactio_rs.Base.{
  ℕ, ◌≡◌, refl, List, [], ◌∷◌, ◌++◌, true, false, release, Result, ok, err, Returns, ◌==◌,
  if◌then◌else◌, take,
}
use reactio_rs.Base.Int.{ℤ}
use reactio_rs.ReactorId.{ReactorId, invalid_reactor_id, same_id}
use reactio_rs.Socket.{ErrorKind, Write, MakesProgress, IsSocket, Fails}
use reactio_rs.MsgSender.Kept.{HasRoom}
use reactio_rs.Command.{Channel, user_cmd, immediate, send, send_cmd, check_target, send_user_cmd}
use reactio_rs.Manager.{Context}
use reactio_rs.Pingpong.{PingpongError}
use reactio_rs.Pingpong.Frames.{frame}
use reactio_rs.Pingpong.Echoes.{outgoing}
use reactio_rs.Pingpong.Greeting.{SendsBytes, send_msg-frame}
use reactio_rs.ThreadedPingpong.{
  ThreadedPingpongReactor, Shared, ThreadedError, naming, commanding, echoing, no_server, no_sender,
  hello_bytes, say_hello,
}

module _ {S C R H K : Type 0} where
  -- The channel of a handle, seen from a context.
  abbrev pub channel_of : ℕ → ℕ → Context S C R H String K → Shared R H K → Channel R H String K
  channel_of own handle ctx shared =
      if handle == own then ctx.cmd_sender else shared.channels handle

module _ {R H K : Type 0} where
  -- A channel with one more user command.
  abbrev pub with_command : Channel R H String K → ReactorId → String → K → Channel R H String K
  with_command channel id cmd completion = record channel {
    queue =
        channel.queue
        ++ record {
          reactorid = id;
          cmd = user_cmd cmd;
          deferred = immediate;
          completion = completion;
        }
          ∷ [];
  }

  pub send_user_cmd-done :
      (channel : Channel R H String K) (id : ReactorId) (cmd : String) (completion : K)
      → channel.connected ≡ true
      → same_id id invalid_reactor_id ≡ false
      → send_user_cmd channel id cmd immediate completion
        ≡ (ok tt, with_command channel id cmd completion)
  unfolding send_user_cmd send_cmd
  send_user_cmd-done channel id cmd completion open_end valid =
      rw (valid, send_cmd, check_target, open_end, send) refl

module _ {S C R H K : Type 0} (write : Write S) (wire : S → List ℕ) where
  -- The first message goes out behind all that was to go, or some write fails within it.
  abbrev pub SaysHello :
      ℤ
      → Context S C R H String K
      → Result ThreadedError (Unit {0})
      → Context S C R H String K
      → Type 0
  SaysHello now ctx (ok _) ctx' = outgoing wire ctx' ≡ outgoing wire ctx ++ frame now hello_bytes
  SaysHello now ctx (err (echoing _)) ctx' =
      ((k : ErrorKind) × Fails write k)
      × ((n : ℕ) × (outgoing wire ctx' ≡ outgoing wire ctx ++ take n (frame now hello_bytes)))
  SaysHello now ctx (err (naming _)) ctx' = ⊥
  SaysHello now ctx (err (commanding _)) ctx' = ⊥
  SaysHello now ctx (err no_server) ctx' = ⊥
  SaysHello now ctx (err no_sender) ctx' = ⊥

module _ {S C R H K : Type 0} {write : Write S} {wire : S → List ℕ} (socket : IsSocket write wire)
    (progress : (s : S) (buf : List ℕ) → MakesProgress buf (write s buf).0)
    (cpu_now_nanos : S → ℤ × S) (clock_wire : (s : S) → wire (cpu_now_nanos s).1 ≡ wire s) where
  says :
      (now : ℤ) (ctx ctx' : Context S C R H String K) (res : Result PingpongError (Unit {0}))
      → SendsBytes write wire ctx (frame now hello_bytes) res ctx'
      → SaysHello write wire now ctx (elim res [ ok _ ↦ ok tt | err e ↦ err (echoing e) ]) ctx'
  says now ctx ctx' (ok _) sent = sent
  says now ctx ctx' (err e) sent = sent

  pub say_hello-SaysHello :
      (r : ThreadedPingpongReactor) (ctx : Context S C R H String K) (shared : Shared R H K)
      → HasRoom ctx.sender
      → Returns
          (λ c.
            SaysHello write wire (cpu_now_nanos ctx.sock).0 ctx c.result c.context
            × (c.context.cmd_sender ≡ ctx.cmd_sender)
            × (c.shared ≡ shared))
          (say_hello write cpu_now_nanos release r ctx shared)
  unfolding say_hello
  say_hello-SaysHello r ctx shared room =
      let ((res, inner, ctx'), e, (same, channel, sent)) =
        send_msg-frame socket progress cpu_now_nanos clock_wire r.inner ctx hello_bytes room in
      rw e (_, refl, (says (cpu_now_nanos ctx.sock).0 ctx ctx' res sent, channel, refl))
