-- ===== src/Runtime/Sockets.antt =====
-- src/reactor.rs, `ReactRuntime::process_sock_events` and `process_events_with`: one turn of the
-- event loop.
use reactio_rs.Base.{
  ℕ, ◌+◌, List, [], ◌∷◌, Bool, true, false, not, ◌||◌, ◌&&◌, Option, none, some, Build, Outcome,
  done, panic, ◌>>=◌, ◌>>◌, unwrap, debug_assert, ok, err, if◌then◌else◌, ltb, length, is_nil,
}
use reactio_rs.FlatStorage
use reactio_rs.ReactorId.{ReactorId, invalid_reactor_id, same_id, from_usize}
use reactio_rs.Socket.{io_ok, io_err}
use reactio_rs.MsgSender.{send_queued}
use reactio_rs.Manager.{
  World, Event, SockData, TcpSocketHandler, listener_type, stream_type, ReactorMgr, context_of,
  data_after, unwrap_os, add_stream, close_reactor,
}
use reactio_rs.Runtime.{ReactRuntime, process_command_queue, process_deferred_queue}

-- What the `match` on the handler of an event decides: whether the socket is to be removed, and a
-- connection to add, with its reactor and its buffer size.
pub record Verdict (S R M : Type 0) : Type 0 where
  pub removesock : Bool
  pub new_connection : Option (S × R × ℕ)
  pub mgr : M

module _ {S L E C R H U K : Type 0} (world : World S L E C R H U K) (build : Build) where
  -- `sock.accept().unwrap()` and what the listener's handler makes of the connection.
  unfoldable pub accepting :
      ReactorMgr S L E C R H U K
      → ℕ
      → ReactorId
      → L
      → H
      → Outcome (Option (S × R × ℕ) × ReactorMgr S L E C R H U K)
  accepting mgr slot id sock handler = elim (world.accept mgr.os sock).0 [
    | io_err _ ↦ panic
    | io_ok newsock ↦
        let os = (world.accept mgr.os sock).1 in
        let (made, handler', sock', newsock') = world.on_new_connection handler sock newsock in
        let mgr' = record mgr {
          socket_handlers =
              FlatStorage.put mgr.socket_handlers slot (listener_type id sock' handler');
          os = os;
        } in
        elim made [
          | none ↦ done (none, mgr')
          | some (reactor, recv_buffer_min_size) ↦
              unwrap_os (world.stream_nonblocking os newsock') >>= λ os'.
              done (some (newsock', reactor, recv_buffer_min_size), record mgr' { os = os' })
        ]
  ]

  unfoldable pub listener_event :
      ReactorMgr S L E C R H U K
      → Event
      → ReactorId
      → ReactorId
      → L
      → H
      → Outcome (Verdict S R (ReactorMgr S L E C R H U K))
  listener_event mgr ev current id sock handler =
      let arrived : Outcome (Option (S × R × ℕ) × ReactorMgr S L E C R H U K) =
        if ev.readable then accepting mgr current.sockslot id sock handler else done (none, mgr) in
      debug_assert build (same_id current id)
      >> (arrived >>= λ (made, mgr').
          done (record { removesock = ev.writable; new_connection = made; mgr = mgr' }))

  -- The writable half of an event: bytes that wait in the sender's buffer go out.
  unfoldable pub stream_writable : Event → SockData S C → Outcome (Bool × SockData S C)
  stream_writable ev sd =
      let wanted = record sd { interested_writable = true } in
      let flush : Outcome (Bool × SockData S C) =
        send_queued world.write build sd.sender sd.sock >>= λ r.
        let sd' = record wanted { sock = r.sock; sender = r.sender } in
        elim r.result [ ok _ ↦ done (false, sd') | err _ ↦ done (true, sd') ] in
      if ev.writable
      then (if is_nil sd.sender.buf then done (false, wanted) else flush)
      else done (false, sd)

  -- The readable half: the reactor's `on_readable`.
  unfoldable pub stream_readable :
      ReactorMgr S L E C R H U K
      → Event
      → SockData S C
      → R
      → Outcome (Bool × SockData S C × R × ReactorMgr S L E C R H U K)
  stream_readable mgr ev sd reactor =
      let read : Outcome (Bool × SockData S C × R × ReactorMgr S L E C R H U K) =
        world.on_readable reactor (context_of sd mgr.channel) >>= λ (keep, reactor', ctx).
        done (not keep, data_after sd ctx, reactor', record mgr { channel = ctx.cmd_sender }) in
      if ev.readable then read else done (false, sd, reactor, mgr)

  -- Write interest is registered while bytes wait in the buffer, and not otherwise.
  unfoldable pub update_interest :
      ReactorMgr S L E C R H U K
      → ℕ
      → SockData S C
      → Outcome (SockData S C × ReactorMgr S L E C R H U K)
  update_interest mgr key sd =
      let idle = is_nil sd.sender.buf in
      let modify = λ (writable : Bool).
        unwrap_os (world.poller_modify mgr.os sd.sock key writable) >>= λ os.
        let r : SockData S C × ReactorMgr S L E C R H U K =
          (record sd { interested_writable = writable }, record mgr { os = os }) in
        done r in
      if not sd.interested_writable && not idle
      then modify true
      else if sd.interested_writable && idle
      then modify false
      else done (sd, mgr)

  unfoldable pub stream_event :
      ReactorMgr S L E C R H U K
      → Event
      → ReactorId
      → SockData S C
      → R
      → Outcome (Verdict S R (ReactorMgr S L E C R H U K))
  stream_event mgr ev current sd reactor =
      debug_assert build (same_id current sd.reactorid)
      >> (stream_writable ev sd >>= λ (failed, data1).
          stream_readable mgr ev data1 reactor >>= λ (closing, data2, reactor', mgr1).
          let removesock = failed || closing || data2.sender.close_or_error in
          let interest : Outcome (SockData S C × ReactorMgr S L E C R H U K) =
            if removesock then done (data2, mgr1) else update_interest mgr1 ev.key data2 in
          interest >>= λ (data3, mgr2). done (record {
            removesock = removesock;
            new_connection = none;
            mgr = record mgr2 {
              socket_handlers =
                  FlatStorage.put mgr2.socket_handlers current.sockslot
                    (stream_type data3 reactor');
            };
          }))

  -- `on_connected` on the stream of an accepted connection, which an answer of `Err` closes.
  unfoldable pub admit :
      ReactorMgr S L E C R H U K
      → ReactorId
      → ReactorId
      → TcpSocketHandler S L C R H
      → Outcome (ReactorMgr S L E C R H U K)
  admit mgr id listener (listener_type _ _ _) = panic
  admit mgr id listener (stream_type sd reactor) =
      let (accepted, reactor', ctx) =
        world.on_connected reactor (context_of sd mgr.channel) listener in
      let mgr' = record mgr {
        socket_handlers =
            FlatStorage.put mgr.socket_handlers id.sockslot
              (stream_type (data_after sd ctx) reactor');
        channel = ctx.cmd_sender;
      } in
      let to_close = if accepted then invalid_reactor_id else sd.reactorid in
      let close = close_reactor world build mgr' to_close >>= λ (_, mgr''). done mgr'' in
      if same_id to_close invalid_reactor_id then done mgr' else close

  -- The end of a round of the loop over events.
  unfoldable pub conclude :
      Event
      → ReactorId
      → Verdict S R (ReactorMgr S L E C R H U K)
      → Outcome (ReactorMgr S L E C R H U K)
  conclude ev current v = elim v.new_connection [
    | some (newsock, reactor, recv_buffer_min_size) ↦
        add_stream world build v.mgr recv_buffer_min_size newsock reactor >>= λ (id, mgr').
        unwrap (FlatStorage.get mgr'.socket_handlers id.sockslot) >>= λ h. admit mgr' id current h
    | none ↦
        let close = close_reactor world build v.mgr current >>= λ (_, mgr'). done mgr' in
        if v.removesock || ev.is_err || ev.is_interrupt then close else done v.mgr
  ]

  unfoldable pub sock_event :
      ReactorMgr S L E C R H U K → Event → Outcome (ReactorMgr S L E C R H U K)
  sock_event mgr ev =
      let current = from_usize ev.key in
      elim (FlatStorage.get mgr.socket_handlers current.sockslot) [
        | none ↦ done mgr
        | some handler ↦
            elim handler [
              | listener_type id sock h ↦ listener_event mgr ev current id sock h
              | stream_type sd reactor ↦ stream_event mgr ev current sd reactor
            ]
            >>= conclude ev current
      ]

  unfoldable pub sock_events :
      ReactorMgr S L E C R H U K → List Event → Outcome (ReactorMgr S L E C R H U K)
  sock_events mgr [] = done mgr
  sock_events mgr (ev ∷ evs) = sock_event mgr ev >>= λ mgr'. sock_events mgr' evs

  unfoldable pub process_sock_events :
      ReactRuntime S L E C R H U K → ℕ → Outcome (ℕ × ReactRuntime S L E C R H U K)
  process_sock_events rt timeout_millis =
      let (waited, os) = world.poller_wait rt.mgr.os timeout_millis in
      elim waited [
        | io_err _ ↦ panic
        | io_ok events ↦ sock_events (record (rt.mgr) { os = os }) events >>= λ mgr.
            done (length events, record rt { mgr = mgr })
      ]

  unfoldable pub process_events_with :
      ReactRuntime S L E C R H U K → ℕ → ℕ → Outcome (Bool × ReactRuntime S L E C R H U K)
  process_events_with rt sock_timeout_millis max_commands =
      process_sock_events rt sock_timeout_millis >>= λ (events, rt1).
      process_deferred_queue world build
        (record rt1 { accum_sock_events = rt1.accum_sock_events + events })
      >>= λ (_, rt2). process_command_queue world build rt2 max_commands >>= λ (cmds, rt3).
          let rt4 = record rt3 { accum_commands = rt3.accum_commands + cmds } in
          done (
            ltb 0 events
                || ltb 0 cmds
                || not (is_nil rt4.deferred_heap)
                || ltb 0 (FlatStorage.len rt4.mgr.socket_handlers),
            rt4,
          )

  unfoldable pub process_events :
      ReactRuntime S L E C R H U K → Outcome (Bool × ReactRuntime S L E C R H U K)
  process_events rt = process_events_with rt 1 32
