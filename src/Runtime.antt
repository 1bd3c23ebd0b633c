-- ===== src/Runtime.antt =====
-- src/reactor.rs, `ReactRuntime`: the event loop over sockets, commands and deferred commands.
pub mod Sockets
pub mod Deferral
pub mod Commands
pub mod Executes
pub mod Queue
pub mod Events
pub mod Rounds
pub mod Fresh
mod Tests
use reactio_rs.Base.{
  ℕ, zero, suc, ◌+◌, ◌*◌, ◌/◌, List, [], ◌∷◌, Bool, not, ◌||◌, Option, none, some, Build, Outcome,
  done, panic, no_fuel, ◌>>=◌, Result, ok, err, if◌then◌else◌, ltb, length, is_nil,
}
use reactio_rs.Base.Int.{ℤ, pos, negsuc, leb_ℤ, as_i64}
use reactio_rs.FlatStorage
use reactio_rs.FlatStorage.{FlatStorage}
use reactio_rs.DeferredHeap.{DeferredKey}
use reactio_rs.DeferredHeap.Push.{push}
use reactio_rs.DeferredHeap.Pop.{pop}
use reactio_rs.ReactorId.{ReactorId, invalid_reactor_id, same_id}
use reactio_rs.Socket.{IoResult, io_ok, io_err}
use reactio_rs.Command.{
  CmdError, connect_failed, listen_failed, no_such_socket, is_listener, wrong_id, CommandCompletion,
  Deferred, immediate, util_time, SysCommand, new_connect, new_listen, close_socket, user_cmd,
  CmdData,
}
use reactio_rs.Manager.{
  World, SockData, TcpSocketHandler, listener_type, stream_type, ReactorMgr, context_of, data_after,
  close_reactor, start_listen, start_connect,
}

-- `sock_events` lives for one call of `process_sock_events` only, and is an argument there.
pub record ReactRuntime (S L E C R H U K : Type 0) : Type 0 where
  pub mgr : ReactorMgr S L E C R H U K
  pub deferred_data : FlatStorage (CmdData R H U K)
  pub deferred_heap : List DeferredKey
  pub accum_sock_events : ℕ
  pub accum_commands : ℕ

-- `millis * 1000000 + 5 * 100000`, for times whose nanoseconds fit in an `i64` (until the year 2262).
abbrev pub due_nanos : ℤ → ℤ
due_nanos (pos n) = pos (n * 1000000 + 500000)
due_nanos (negsuc n) = negsuc (n * 1000000 + 499999)

-- `duration_since(UNIX_EPOCH).unwrap().as_millis() as i64`
unfoldable pub millis_of : ℤ → Outcome ℤ
millis_of (pos nanos) = done (as_i64 (nanos / 1000000))
millis_of (negsuc n) = panic

module _ {S L E C R H U K : Type 0} (world : World S L E C R H U K) (build : Build) where
  -- `is_deferred_current`, which reads the clock.
  unfoldable pub is_deferred_current :
      ReactorMgr S L E C R H U K → ℤ → Bool × ReactorMgr S L E C R H U K
  is_deferred_current mgr millis =
      let (now, os) = world.now_nanos mgr.os in
      (leb_ℤ (due_nanos millis) now, record mgr { os = os })

  -- `(cmddata.completion)(…)`
  unfoldable pub completed :
      ReactorMgr S L E C R H U K → K → CommandCompletion → ReactorMgr S L E C R H U K
  completed mgr k answer = record mgr { channel = world.complete k answer mgr.channel }

  -- The answer to `NewConnect` and to `NewListen`.
  unfoldable pub started :
      K → CmdError → IoResult ReactorId × ReactorMgr S L E C R H U K → ReactorMgr S L E C R H U K
  started k failure (io_ok id, mgr) = completed mgr k (ok id)
  started k failure (io_err kind, mgr) = completed mgr k (err failure)

  -- The completion of a `UserCmd`, and the close that the reactor asked for.
  unfoldable pub finish_command :
      ReactorMgr S L E C R H U K → ReactorId → K → Bool → Outcome (ReactorMgr S L E C R H U K)
  finish_command mgr id k keep =
      let answered = completed mgr k (ok id) in
      let close : Outcome (ReactorMgr S L E C R H U K) =
        close_reactor world build answered id >>= λ (_, mgr'). done mgr' in
      if keep then done answered else close

  -- `UserCmd` on the handler in the slot, if there is one.
  unfoldable pub user_command :
      ReactorMgr S L E C R H U K
      → ReactorId
      → U
      → K
      → Option (TcpSocketHandler S L C R H)
      → Outcome (ReactorMgr S L E C R H U K)
  user_command mgr id cmd k none = done (completed mgr k (err no_such_socket))
  user_command mgr id cmd k (some (listener_type _ _ _)) = done (completed mgr k (err is_listener))
  user_command mgr id cmd k (some (stream_type sockdata reactor)) =
      let ran : Outcome (ReactorMgr S L E C R H U K) =
        world.on_command reactor cmd (record (context_of sockdata mgr.channel) { reactorid = id })
        >>= λ (keep, reactor', ctx).
            finish_command
              (record mgr {
                socket_handlers =
                    FlatStorage.put mgr.socket_handlers id.sockslot
                      (stream_type (data_after sockdata ctx) reactor');
                channel = ctx.cmd_sender;
              })
              id k keep in
      if not (same_id id sockdata.reactorid) then done (completed mgr k (err wrong_id)) else ran

  unfoldable pub execute_immediate_cmd :
      ReactorMgr S L E C R H U K → CmdData R H U K → Outcome (ReactorMgr S L E C R H U K)
  execute_immediate_cmd mgr c = elim c.cmd [
    | new_connect reactor remote_addr recv_buffer_min_size ↦
        start_connect world build mgr remote_addr recv_buffer_min_size reactor >>= λ r.
        done (started c.completion connect_failed r)
    | new_listen handler local_addr ↦ start_listen world build mgr local_addr handler >>= λ r.
        done (started c.completion listen_failed r)
    | close_socket ↦ close_reactor world build mgr c.reactorid >>= λ (closed, mgr').
        done (completed mgr' c.completion (if closed then ok c.reactorid else err no_such_socket))
    | user_cmd cmd ↦
        if same_id c.reactorid invalid_reactor_id
        then panic
        else user_command mgr c.reactorid cmd c.completion
            (FlatStorage.get mgr.socket_handlers c.reactorid.sockslot)
  ]

  -- A command whose time has not come: its data is stored, and its key goes to the heap.
  unfoldable pub defer :
      ReactRuntime S L E C R H U K → ℤ → CmdData R H U K → Outcome (ReactRuntime S L E C R H U K)
  defer rt millis c = FlatStorage.add rt.deferred_data c >>= λ (key, stored).
      push build rt.deferred_heap (record { millis = millis; slot = key }) >>= λ heap.
      done (record rt { deferred_data = stored; deferred_heap = heap })

  unfoldable pub execute :
      ReactRuntime S L E C R H U K → CmdData R H U K → Outcome (ReactRuntime S L E C R H U K)
  execute rt c = execute_immediate_cmd rt.mgr c >>= λ mgr. done (record rt { mgr = mgr })

  -- The `match` on `cmddata.deferred`, and the execution behind it.
  unfoldable pub dispatch_cmd :
      ReactRuntime S L E C R H U K → CmdData R H U K → Outcome (ReactRuntime S L E C R H U K)
  dispatch_cmd rt c = elim c.deferred [
    | immediate ↦ execute rt c
    | util_time time ↦ millis_of time >>= λ millis.
        let (current, mgr) = is_deferred_current rt.mgr millis in
        let rt' = record rt { mgr = mgr } in if current then execute rt' c else defer rt' millis c
  ]

  -- The `for` loop of `process_command_queue`, with its rounds left and the commands received.
  unfoldable pub command_loop :
      ℕ → ReactRuntime S L E C R H U K → ℕ → Outcome (ℕ × ReactRuntime S L E C R H U K)
  command_loop zero rt count_cmd = done (count_cmd, rt)
  command_loop (suc rounds) rt count_cmd = elim rt.mgr.channel.queue [
    | [] ↦ done (count_cmd, rt)
    | c ∷ rest ↦
        let received = record rt {
          mgr = record (rt.mgr) { channel = record (rt.mgr.channel) { queue = rest } };
        } in
        dispatch_cmd received c >>= λ rt'. command_loop rounds rt' (count_cmd + 1)
  ]

  unfoldable pub process_command_queue :
      ReactRuntime S L E C R H U K → ℕ → Outcome (ℕ × ReactRuntime S L E C R H U K)
  process_command_queue rt max_commands = command_loop max_commands rt 0

  -- The `while` loop of `process_deferred_queue`. A round takes an entry out of the heap, so the
  -- fuel is a round for each entry and one more for the last test.
  unfoldable pub deferred_loop :
      ℕ → ReactRuntime S L E C R H U K → ℕ → Outcome (ℕ × ReactRuntime S L E C R H U K)
  deferred_loop zero rt cmds = no_fuel
  deferred_loop (suc fuel) rt cmds = elim rt.deferred_heap [
    | [] ↦ done (cmds, rt)
    | top ∷ others ↦
        let (current, mgr) = is_deferred_current rt.mgr top.millis in
        let rt' = record rt { mgr = mgr } in
        let (removed, stored) = FlatStorage.remove rt.deferred_data top.slot in
        let round : Outcome (ℕ × ReactRuntime S L E C R H U K) = pop (top ∷ others) >>= λ heap.
        elim removed [
          | none ↦ panic
          | some c ↦
              execute (record rt' { deferred_data = stored; deferred_heap = heap }) c >>= λ rt''.
              deferred_loop fuel rt'' (cmds + 1)
        ] in
        if current then round else done (cmds, rt')
  ]

  unfoldable pub process_deferred_queue :
      ReactRuntime S L E C R H U K → Outcome (ℕ × ReactRuntime S L E C R H U K)
  process_deferred_queue rt = deferred_loop (suc (length rt.deferred_heap)) rt 0
