-- ===== src/Runtime/Commands.antt =====
-- User commands in src/reactor.rs's `execute_immediate_cmd`.
use reactio_rs.Base.{◌≡◌, refl, false, Option, none, some, Build, done, err}
use reactio_rs.FlatStorage
use reactio_rs.ReactorId.{ReactorId, invalid_reactor_id, same_id}
use reactio_rs.Command.{CmdError, no_such_socket, is_listener, wrong_id, user_cmd, Deferred}
use reactio_rs.Manager.{World, SockData, TcpSocketHandler, listener_type, stream_type, ReactorMgr}
use reactio_rs.Runtime.{completed, user_command, execute_immediate_cmd}

module _ {S L E C R H U K : Type 0} (world : World S L E C R H U K) (build : Build) where
  refuse :
      (mgr : ReactorMgr S L E C R H U K) (id : ReactorId) (cmd : U) (k : K)
      (h : Option (TcpSocketHandler S L C R H))
      → ((d : SockData S C) (r : R) → h ≡ some (stream_type d r) → same_id id d.reactorid ≡ false)
      → (e : CmdError) × (user_command world build mgr id cmd k h
          ≡ done (completed world build mgr k (err e)))
  unfolding user_command
  refuse mgr id cmd k none misses = (no_such_socket, refl)
  refuse mgr id cmd k (some (listener_type a sock handler)) misses = (is_listener, refl)
  refuse mgr id cmd k (some (stream_type d r)) misses = (wrong_id, rw (misses d r refl) refl)

  -- A user command with a valid id that is not the id of a stream in the slot that it names is
  -- answered with an error, in either build, and that is all that it changes: it reaches no reactor,
  -- and the sockets stay as they are.
  pub user_cmd_misses :
      (mgr : ReactorMgr S L E C R H U K) (id : ReactorId) (cmd : U) (d : Deferred) (k : K)
      → same_id id invalid_reactor_id ≡ false
      → ((s : SockData S C) (r : R)
          → FlatStorage.get mgr.socket_handlers id.sockslot ≡ some (stream_type s r)
          → same_id id s.reactorid ≡ false)
      → (e : CmdError) × (execute_immediate_cmd world build mgr
            (record { reactorid = id; cmd = user_cmd cmd; deferred = d; completion = k })
          ≡ done (record mgr { channel = world.complete k (err e) mgr.channel }))
  unfolding execute_immediate_cmd completed
  user_cmd_misses mgr id cmd d k valid misses =
      let (e, refused) =
        refuse mgr id cmd k (FlatStorage.get mgr.socket_handlers id.sockslot) misses in
      (e, rw (valid, refused) refl)
