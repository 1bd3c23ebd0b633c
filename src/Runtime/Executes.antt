-- ===== src/Runtime/Executes.antt =====
-- Commands of src/reactor.rs's `ReactRuntime`: each one ends and keeps the invariant of the sockets.
use reactio_rs.Base.{
  ℕ, ◌+◌, ◌<◌, ◌≡◌, refl, arith, ok, err, false, Option, none, some, Build, Returns, inl, inr,
  Bool-cases,
}
use reactio_rs.FlatStorage
use reactio_rs.FlatStorage.{FlatStorage}
use reactio_rs.ReactorId.{ReactorId, half_usize, invalid_reactor_id, same_id}
use reactio_rs.Command.{
  Channel, SysCommand, new_connect, new_listen, close_socket, user_cmd, CmdData, CommandCompletion,
  CmdError, no_such_socket, is_listener, wrong_id,
}
use reactio_rs.Socket.{IoResult, io_ok, io_err}
use reactio_rs.Manager.{
  World, TcpSocketHandler, listener_type, stream_type, ReactorMgr, data_after, context_of,
}
use reactio_rs.Manager.Invariant.{IsAgreeable, Within, MayClose, close_reactor-Within}
use reactio_rs.Manager.Listens.{start_listen-Within}
use reactio_rs.Manager.Connects.{put_stream-Within, start_connect-Within}
use reactio_rs.Runtime.{completed, started, finish_command, user_command, execute_immediate_cmd}

module _ {S L E C R H U K : Type 0} (world : World S L E C R H U K) (build : Build)
    (P : Channel R H U K → Type 0) (agreeable : IsAgreeable P world) where
  completed-Within :
      (n : ℕ) (mgr : ReactorMgr S L E C R H U K) (k : K) (answer : CommandCompletion)
      → Within P n mgr
      → Within P n (completed world build mgr k answer)
  unfolding completed
  completed-Within n mgr k answer (m, fits, ok_channel) =
      (m, fits, agreeable.keeps_complete k answer mgr.channel ok_channel)

  started-Within :
      (n : ℕ) (k : K) (failure : CmdError) (r : IoResult ReactorId)
      (mgr : ReactorMgr S L E C R H U K)
      → Within P n mgr
      → Within P n (started world build k failure (r, mgr))
  unfolding started
  started-Within n k failure (io_ok id) mgr within = completed-Within n mgr k (ok id) within
  started-Within n k failure (io_err kind) mgr within =
      completed-Within n mgr k (err failure) within

  user_command-Within :
      (n : ℕ) (mgr : ReactorMgr S L E C R H U K) (id : ReactorId) (cmd : U) (k : K)
      → Within P n mgr
      → (h : Option (TcpSocketHandler S L C R H))
      → FlatStorage.get mgr.socket_handlers id.sockslot ≡ h
      → Returns (Within P n) (user_command world build mgr id cmd k h)
  unfolding user_command completed finish_command
  user_command-Within n mgr id cmd k within none found =
      (_, refl, completed-Within n mgr k (err no_such_socket) within)
  user_command-Within n mgr id cmd k within (some (listener_type _ _ _)) found =
      (_, refl, completed-Within n mgr k (err is_listener) within)
  user_command-Within n mgr id cmd k within (some (stream_type d reactor)) found =
      let (answer, ran, ok_after) =
        agreeable.keeps_on_command reactor cmd
          (record (context_of d mgr.channel) { reactorid = id }) within.2 in
      let d' = data_after d answer.2 in
      let written = record mgr {
        socket_handlers = FlatStorage.put mgr.socket_handlers id.sockslot (stream_type d' answer.1);
        channel = (answer.2).cmd_sender;
      } in
      let mgr' = completed world build written k (ok id) in
      let (kept, may) =
        put_stream-Within world build P n mgr mgr' id d d' reactor answer.1 within found refl refl
          refl (agreeable.keeps_complete k (ok id) (answer.2).cmd_sender ok_after) in
      elim (Bool-cases (same_id id d.reactorid)) [
        | inr other ↦ rw other (_, refl, completed-Within n mgr k (err wrong_id) within)
        | inl same ↦
            let (closed, e, after) =
              close_reactor-Within world build P agreeable n mgr' id kept (may same) in
            elim (Bool-cases answer.0) [
              | inl keep ↦ rw (same, ran, keep) (_, refl, kept)
              | inr close ↦ rw (same, ran, close, e) (_, refl, after)
            ]
      ]

  -- The commands that the API accepts: a user command is for a valid id, and in a debug build a
  -- `CloseSocket` is for the id that is stored in its slot, if there is one.
  abbrev pub IsAllowed : ReactorMgr S L E C R H U K → CmdData R H U K → Type 0
  IsAllowed mgr c = elim c.cmd [
    | new_connect _ _ _ ↦ Unit
    | new_listen _ _ ↦ Unit
    | close_socket ↦ MayClose build mgr c.reactorid
    | user_cmd _ ↦ same_id c.reactorid invalid_reactor_id ≡ false
  ]

  -- With fewer than 2^32 slots, a poller that accepts and lets go of every socket, and reactors
  -- whose `on_command` returns (the default one panics), each of the four commands ends without
  -- a panic, provided that a user command is for a valid id, and that in a debug build a
  -- `CloseSocket` is for the id that is stored in its slot, if there is one. Also where
  -- connecting or listening fails or user code asks to close, the storage is valid afterwards,
  -- each socket is stored with an id of its slot, `count_streams` is the number of streams, at
  -- most one slot is new, and the channel satisfies what user code keeps.
  pub execute_immediate_cmd-Within :
      (n : ℕ)
      → n < half_usize
      → (mgr : ReactorMgr S L E C R H U K) (c : CmdData R H U K) → Within P n mgr
      → IsAllowed mgr c
      → Returns (Within P (n + 1)) (execute_immediate_cmd world build mgr c)
  unfolding execute_immediate_cmd
  execute_immediate_cmd-Within n room mgr c within allowed = go c.cmd refl
    where
      more : (m : ReactorMgr S L E C R H U K) → Within P n m → Within P (n + 1) m
      more m (managed, fits, ok_channel) = (managed, omega arith, ok_channel)

      go :
          (cmd : SysCommand R H U)
          → c.cmd ≡ cmd
          → Returns (Within P (n + 1)) (execute_immediate_cmd world build mgr c)
      go (new_connect reactor addr size) e =
          let ((res, mgr'), e', after) =
            start_connect-Within world build P agreeable n room mgr addr size reactor within in
          rw (e, execute_immediate_cmd, e')
            (_, refl, started-Within (n + 1) c.completion _ res mgr' after)
      go (new_listen handler addr) e =
          let ((res, mgr'), e', after) =
            start_listen-Within world build P agreeable n room mgr addr handler within in
          rw (e, execute_immediate_cmd, e')
            (_, refl, started-Within (n + 1) c.completion _ res mgr' after)
      go close_socket e =
          let ((closed, mgr'), e', after) =
            close_reactor-Within world build P agreeable n mgr c.reactorid within
              (rw e at allowed) in
          rw (e, execute_immediate_cmd, e')
            (_, refl, completed-Within (n + 1) mgr' c.completion _ (more mgr' after))
      go (user_cmd cmd) e =
          let (mgr', e', after) =
            user_command-Within n mgr c.reactorid cmd c.completion within _ refl in
          rw (e, execute_immediate_cmd, rw e at allowed, e') (_, refl, more mgr' after)
