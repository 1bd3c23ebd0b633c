-- ===== src/Command.antt =====
-- src/reactor.rs, `Deferred`, `SysCommand`, `CmdData` and `CmdSender`: the commands that are sent to a
-- runtime over its `mpsc` channel. `R`, `H`, `U` and `K` stand for user code: the reactors, the
-- listener handlers, the user commands and the completion callbacks.
pub mod Send
mod Tests
use Prim.Native.String.{String}
use reactio_rs.Base.{
  ℕ, List, [], ◌∷◌, ◌++◌, Bool, true, false, not, Result, ok, err, if◌then◌else◌, ◌&&◌, ◌==◌,
}
use reactio_rs.Base.Int.{ℤ}
use reactio_rs.ReactorId.{ReactorId, invalid_reactor_id, same_id}

-- The messages of the `String` errors of commands.
pub data CmdError : Type 0 where
  needs_invalid_id needs_valid_id disconnected : CmdError
  connect_failed listen_failed no_such_socket is_listener wrong_id : CmdError

abbrev pub CommandCompletion : Type 0
CommandCompletion = Result CmdError ReactorId

-- A `SystemTime` is its distance from the Unix epoch, in nanoseconds.
pub data Deferred : Type 0 where
  immediate : Deferred
  util_time : ℤ → Deferred

pub data SysCommand (R H U : Type 0) : Type 0 where
  new_connect : R → String → ℕ → SysCommand R H U
  new_listen : H → String → SysCommand R H U
  close_socket : SysCommand R H U
  user_cmd : U → SysCommand R H U

pub record CmdData (R H U K : Type 0) : Type 0 where
  pub reactorid : ReactorId
  pub cmd : SysCommand R H U
  pub deferred : Deferred
  pub completion : K

-- The channel: what was sent and not yet received, oldest first, and whether its receiver lives.
pub record Channel (R H U K : Type 0) : Type 0 where
  pub queue : List (CmdData R H U K)
  pub connected : Bool

module _ {R H U : Type 0} where
  -- The `match` at the head of `send_cmd`.
  unfoldable pub check_target : ReactorId → SysCommand R H U → Result CmdError (Unit {0})
  check_target id (new_connect _ _ _) =
      if same_id id invalid_reactor_id then ok tt else err needs_invalid_id
  check_target id (new_listen _ _) =
      if same_id id invalid_reactor_id then ok tt else err needs_invalid_id
  check_target id (user_cmd _) = if same_id id invalid_reactor_id then err needs_valid_id else ok tt
  check_target id close_socket = ok tt

module _ {R H U K : Type 0} where
  -- `std::sync::mpsc::Sender::send`
  unfoldable pub send :
      Channel R H U K → CmdData R H U K → Result CmdError (Unit {0}) × Channel R H U K
  send ch c =
      if ch.connected
      then (ok tt, record ch { queue = ch.queue ++ c ∷ [] })
      else (err disconnected, ch)

  unfoldable pub send_cmd :
      Channel R H U K
      → ReactorId
      → SysCommand R H U
      → Deferred
      → K
      → Result CmdError (Unit {0}) × Channel R H U K
  unfolding send check_target
  send_cmd ch id cmd deferred completion = elim (check_target id cmd) [
    | err e ↦ (err e, ch)
    | ok _ ↦
        send ch (record { reactorid = id; cmd = cmd; deferred = deferred; completion = completion })
  ]

  unfoldable pub send_connect :
      Channel R H U K → String → ℕ → R → Deferred → K → Result CmdError (Unit {0}) × Channel R H U K
  send_connect ch remote_addr recv_buffer_min_size reactor deferred completion =
      send_cmd ch invalid_reactor_id (new_connect reactor remote_addr recv_buffer_min_size) deferred
        completion

  unfoldable pub send_listen :
      Channel R H U K → String → H → Deferred → K → Result CmdError (Unit {0}) × Channel R H U K
  send_listen ch local_addr handler deferred completion =
      send_cmd ch invalid_reactor_id (new_listen handler local_addr) deferred completion

  unfoldable pub send_close :
      Channel R H U K → ReactorId → Deferred → K → Result CmdError (Unit {0}) × Channel R H U K
  send_close ch id deferred completion = send_cmd ch id close_socket deferred completion

  unfoldable pub send_user_cmd :
      Channel R H U K → ReactorId → U → Deferred → K → Result CmdError (Unit {0}) × Channel R H U K
  send_user_cmd ch id cmd deferred completion = send_cmd ch id (user_cmd cmd) deferred completion
