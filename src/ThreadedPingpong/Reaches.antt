-- ===== src/ThreadedPingpong/Reaches.antt =====
-- examples/example/threaded_pingpong.rs: the command of a client to the server's reactor, which it
-- finds by its name.
use Prim.Native.String.{String}
use reactio_rs.Base.{
  ℕ, ◌≡◌, refl, ◌∙◌, ap, subst, List, true, false, Option, some, arith, release, Result, ok,
  Returns, ◌==◌, if◌then◌else◌, Bool-cases, inl, inr,
}
use reactio_rs.Base.Int.{ℤ}
use reactio_rs.ReactorId.{ReactorId, invalid_reactor_id, same_id}
use reactio_rs.Socket.{Write, MakesProgress, IsSocket}
use reactio_rs.MsgSender.Kept.{HasRoom}
use reactio_rs.Command.{CmdError, Channel, immediate, send_user_cmd}
use reactio_rs.Manager.{Context}
use reactio_rs.Threaded.{
  ThreadedReactorMgr, ReactorUid, find_reactor_uid, add_reactor_uid, get_cmd_sender,
}
use reactio_rs.Threaded.Names.{IsMap}
use reactio_rs.Pingpong
use reactio_rs.Pingpong.{PingpongError, child_name}
use reactio_rs.ThreadedPingpong.{
  ThreadedPingpongReactor, Shared, ThreadedServerParam, Called, after_command, new_server_reactor,
  on_connected, call_sender, on_command,
}
use reactio_rs.ThreadedPingpong.Names.{uid_of, Registers-found, on_connected-Registers}
use reactio_rs.ThreadedPingpong.Hello.{
  channel_of, with_command, send_user_cmd-done, SaysHello, say_hello-SaysHello,
}

module _ {S C R H K : Type 0} (write : Write S) (wire : S → List ℕ) where
  -- The end of a client's `on_command`: a command for `target` stands last in the channel of `handle`,
  -- and no other channel has changed.
  pub record Reached (own handle : ℕ) (ignored : K) (target : ReactorId) (now : ℤ)
      (ctx : Context S C R H String K) (shared : Shared R H K) (c : Called S C R H K) : Type 0 where
    pub said : SaysHello write wire now ctx c.result c.context
    pub commanded :
        channel_of own handle c.context c.shared
        ≡ with_command (channel_of own handle ctx shared) target "TestCmdFromClient" ignored
    pub others :
        (other : ℕ)
        → (other == handle) ≡ false
        → channel_of own other c.context c.shared ≡ channel_of own other ctx shared

sender_kept :
    (t : ThreadedReactorMgr ℕ) (name : String) (value : ReactorUid) (k : ℕ)
    → get_cmd_sender (add_reactor_uid t name value).1 k ≡ get_cmd_sender t k
unfolding get_cmd_sender add_reactor_uid
sender_kept t name value k = refl

first_name : (name : String) → name ≡ "server" → child_name name 1 ≡ "server-1"
unfolding child_name
first_name name e = rw e refl

module _ {S C R H K : Type 0} {write : Write S} {wire : S → List ℕ} (socket : IsSocket write wire)
    (progress : (s : S) (buf : List ℕ) → MakesProgress buf (write s buf).0)
    (cpu_now_nanos : S → ℤ × S) (clock_wire : (s : S) → wire (cpu_now_nanos s).1 ≡ wire s) where
  -- The command and the first message, on the client's own channel and on another.
  module _ (own handle : ℕ) (ignored : K) (r : ThreadedPingpongReactor)
      (ctx : Context S C R H String K) (shared : Shared R H K) (target : ReactorId)
      (open_end : (channel_of own handle ctx shared).connected ≡ true)
      (valid : same_id target invalid_reactor_id ≡ false) (room : HasRoom ctx.sender) where
    abbrev command : Channel R H String K → Result CmdError (Unit {0}) × Channel R H String K
    command channel = send_user_cmd channel target "TestCmdFromClient" immediate ignored

    command_own :
        (handle == own) ≡ true
        → Returns
            (Reached write wire own handle ignored target (cpu_now_nanos ctx.sock).0 ctx shared)
            (after_command write cpu_now_nanos release r
              (call_sender own handle ctx shared command))
    unfolding after_command
    command_own mine =
        let open_own : ctx.cmd_sender.connected ≡ true =
          subst (λ b. (if b then ctx.cmd_sender else shared.channels handle).connected ≡ true) mine
            open_end in
        let ctx1 = record ctx {
          cmd_sender = with_command ctx.cmd_sender target "TestCmdFromClient" ignored;
        } in
        let (c, e, (said, channel, same)) =
          say_hello-SaysHello socket progress cpu_now_nanos clock_wire r ctx1 shared room in
        let put : call_sender own handle ctx shared command ≡ (ok tt, ctx1, shared) =
          rw
            (
              mine,
              send_user_cmd-done ctx.cmd_sender target "TestCmdFromClient" ignored open_own valid,
            )
            refl in
        rw put (
          c,
          e,
          record {
            said = said;
            commanded = rw mine channel;
            others = λ other o.
                let apart : (other == own) ≡ false = ground (arith, mine, o) in
                rw apart (ap (λ (t : Shared R H K). t.channels other) same);
          },
        )

    command_other :
        (handle == own) ≡ false
        → Returns
            (Reached write wire own handle ignored target (cpu_now_nanos ctx.sock).0 ctx shared)
            (after_command write cpu_now_nanos release r
              (call_sender own handle ctx shared command))
    unfolding after_command
    command_other theirs =
        let old = shared.channels handle in
        let open_other : old.connected ≡ true =
          subst (λ b. (if b then ctx.cmd_sender else old).connected ≡ true) theirs open_end in
        let channel1 = with_command old target "TestCmdFromClient" ignored in
        let shared1 = record shared {
          channels = λ h. if h == handle then channel1 else shared.channels h;
        } in
        let (c, e, (said, channel, same)) =
          say_hello-SaysHello socket progress cpu_now_nanos clock_wire r ctx shared1 room in
        let itself : (handle == handle) ≡ true = ground arith in
        let put : call_sender own handle ctx shared command ≡ (ok tt, ctx, shared1) =
          rw (theirs, send_user_cmd-done old target "TestCmdFromClient" ignored open_other valid)
            refl in
        rw put (
          c,
          e,
          record {
            said = said;
            commanded =
                rw theirs (ap (λ (t : Shared R H K). t.channels handle) same ∙ rw itself refl);
            others = λ other o. elim (Bool-cases (other == own)) [
              | inl own_one ↦ rw own_one channel
              | inr far ↦ rw far (ap (λ (t : Shared R H K). t.channels other) same ∙ rw o refl)
            ];
          },
        )

  on_command-Reached :
      (own handle : ℕ) (ignored : K) (r : ThreadedPingpongReactor) (cmd : String)
      (ctx : Context S C R H String K) (shared : Shared R H K) (target : ReactorUid)
      → r.inner.is_client ≡ true
      → find_reactor_uid shared.reactormgr "server-1" ≡ some target
      → get_cmd_sender shared.reactormgr target.runtimeid ≡ some handle
      → (channel_of own handle ctx shared).connected ≡ true
      → same_id target.reactorid invalid_reactor_id ≡ false
      → HasRoom ctx.sender
      → Returns
          (Reached write wire own handle ignored target.reactorid
            (cpu_now_nanos ctx.sock).0
            ctx
            shared)
          (on_command write cpu_now_nanos release own ignored r cmd ctx shared)
  unfolding on_command
  on_command-Reached own handle ignored r cmd ctx shared target client found sender open_end valid
        room =
      rw (client, found, sender)
        (elim (Bool-cases (handle == own)) [
          | inl mine ↦
              command_own own handle ignored r ctx shared target.reactorid open_end valid room mine
          | inr theirs ↦
              command_other own handle ignored r ctx shared target.reactorid open_end valid room
                theirs
        ])

  -- The first connection of the listener "server" registers its reactor. Later, in a release
  -- build, a client's `on_command` ends, and finds it: the channel of the server's runtime,
  -- which may be the client's own, has one more command behind those that wait, for the server's
  -- id, and no other channel changes; and the first message goes out behind all that was to go,
  -- or a write fails, and a beginning of it goes out. This asks for a start time that can be counted, for no name twice in
  -- the map, for a sender of the server's runtime whose channel is connected, for a valid id of
  -- the server, for a key for one more completion, and for a clock and a socket of the client
  -- that behave as documented, where a write of some bytes takes a byte or reports an error.
  pub on_command-on_connected :
      (own handle : ℕ) (ignored : K) (start_time : Option ℤ) (time : ℤ)
      (param : ThreadedServerParam) (server_ctx ctx : Context S C R H String K)
      (listener : ReactorId) (shared : Shared R H K) (r : ThreadedPingpongReactor) (cmd : String)
      → start_time ≡ some time
      → IsMap shared.reactormgr.reactor_uid_map
      → param.name ≡ "server"
      → get_cmd_sender shared.reactormgr param.runtimeid ≡ some handle
      → same_id server_ctx.reactorid invalid_reactor_id ≡ false
      → r.inner.is_client ≡ true
      → (channel_of own handle ctx shared).connected ≡ true
      → HasRoom ctx.sender
      → Returns
          (λ c.
            Returns
              (Reached write wire own handle ignored server_ctx.reactorid
                (cpu_now_nanos ctx.sock).0
                ctx
                shared)
              (on_command write cpu_now_nanos release own ignored r cmd ctx c.shared))
          (on_connected ignored start_time (new_server_reactor 1 param) server_ctx shared listener)
  unfolding new_server_reactor Pingpong.new
  on_command-on_connected own handle ignored start_time time param server_ctx ctx listener shared r
        cmd start h named sender valid client open_end room =
      let server = new_server_reactor 1 param in
      let (c, e, left) =
        on_connected-Registers ignored start_time server server_ctx shared listener time start in
      let found : find_reactor_uid (c.shared).reactormgr "server-1"
          ≡ some (uid_of server server_ctx) =
        subst (λ n. find_reactor_uid (c.shared).reactormgr n ≡ some (uid_of server server_ctx))
          (first_name param.name named)
          (Registers-found ignored start_time server server_ctx shared listener left h) in
      let kept : get_cmd_sender (c.shared).reactormgr param.runtimeid ≡ some handle =
        ap (λ (t : ThreadedReactorMgr ℕ). get_cmd_sender t param.runtimeid) left.reactormgr
        ∙ sender_kept shared.reactormgr server.inner.name (uid_of server server_ctx) param.runtimeid
        ∙ sender in
      let open_now : (channel_of own handle ctx c.shared).connected ≡ true =
        ap
          (λ (channels : ℕ → Channel R H String K).
            (if handle == own then ctx.cmd_sender else channels handle).connected)
          left.channels
        ∙ open_end in
      let (c', e', reached) =
        on_command-Reached own handle ignored r cmd ctx c.shared (uid_of server server_ctx) client
          found kept open_now valid room in
      (
        c,
        e,
        (
          c',
          e',
          record {
            said = reached.said;
            commanded =
                reached.commanded
                ∙ ap
                    (λ (channels : ℕ → Channel R H String K).
                      with_command (if handle == own then ctx.cmd_sender else channels handle)
                        server_ctx.reactorid "TestCmdFromClient" ignored)
                    left.channels;
            others = λ other o.
                reached.others other o
                ∙ ap
                    (λ (channels : ℕ → Channel R H String K).
                      if other == own then ctx.cmd_sender else channels other)
                    left.channels;
          },
        ),
      )
