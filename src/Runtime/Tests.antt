-- ===== src/Runtime/Tests.antt =====
-- Deferred commands of src/reactor.rs's `ReactRuntime` at concrete times.
use reactio_rs.Base.{
  subst, some, false, true, release, Returns, ap, Option, arith, ℕ, ◌≡◌, refl, [], ◌∷◌, debug, done,
  panic, ◌>>=◌,
}
use reactio_rs.Base.Int.{pos}
use reactio_rs.FlatStorage
use reactio_rs.ReactorId.{from_usize, invalid_reactor_id, same_id}
use reactio_rs.DeferredHeap.{DeferredKey}
use reactio_rs.Command.{
  CmdError, new_connect, immediate, user_cmd, CmdData, close_socket, util_time,
}
use reactio_rs.Manager.{SockData, TcpSocketHandler, stream_type}
use reactio_rs.Manager.Invariant.{Within}
use reactio_rs.Runtime.Executes.{execute_immediate_cmd-Within}
use reactio_rs.MsgSender
use reactio_rs.MsgSender.{send_queued}
use reactio_rs.Manager.{Event}
use reactio_rs.Runtime.Sockets.{sock_event}
use reactio_rs.Runtime.Events.{IsServing}
use reactio_rs.MsgSender.{MsgSender}
use reactio_rs.FlatStorage.Laws.{new-IsValid}
use reactio_rs.MsgSender.Pending.{Entries, Waits}
use reactio_rs.MsgSender.Notify.{Fit}
use reactio_rs.Runtime.Rounds.{sock_event_release}
use reactio_rs.Runtime.Queue.{ReadyChannel, Processed, process_command_queue-Processed}
use reactio_rs.Manager.Tests.{at, calm-IsAgreeable, busy-Within, calm, empty, busy}
use reactio_rs.Runtime.{
  execute_immediate_cmd, ReactRuntime, execute, process_deferred_queue, process_command_queue,
}
use reactio_rs.Runtime.Commands.{user_cmd_misses}
use reactio_rs.Runtime.Deferral.{taken_out, process_deferred_queue_two}

abbrev command : ℕ → CmdData ℕ ℕ ℕ ℕ
command k = record {
  reactorid = invalid_reactor_id;
  cmd = close_socket;
  deferred = util_time (pos 500000000);
  completion = k;
}

abbrev key : ℕ → DeferredKey
key slot = record { millis = pos 500; slot = slot }

-- Two deferred commands, both due.
abbrev two : ReactRuntime ℕ ℕ ℕ ℕ ℕ ℕ ℕ ℕ
two = record {
  mgr = empty;
  deferred_data = record {
    nodes = FlatStorage.occupied (command 1) ∷ FlatStorage.occupied (command 2) ∷ [];
    count = 2;
    free = FlatStorage.invalid_id;
  };
  deferred_heap = key 0 ∷ key 1 ∷ [];
  accum_sock_events = 0;
  accum_commands = 0;
}

abbrev one : ReactRuntime ℕ ℕ ℕ ℕ ℕ ℕ ℕ ℕ
one = record two { deferred_heap = key 0 ∷ [] }

process_deferred_queue_two_example :
    process_deferred_queue calm debug two
    ≡ (execute calm debug (taken_out calm two (key 0) (key 0 ∷ [])) (command 1) >>= λ _. panic)
unfolding FlatStorage.get
process_deferred_queue_two_example =
    process_deferred_queue_two calm debug two (key 0) (command 1) refl (λ os. refl) (key 1) refl

abbrev version : Option (TcpSocketHandler ℕ ℕ ℕ ℕ ℕ) → ℕ
version (some (stream_type s r)) = s.reactorid.ver
version _ = 0

-- Slot 0 holds a stream with version 1.
user_cmd_misses_example :
    (e : CmdError) × (execute_immediate_cmd calm debug busy (record {
      reactorid = record { sockslot = 0; ver = 2 };
      cmd = user_cmd 3;
      deferred = immediate;
      completion = 9;
    })
      ≡ done (record busy { channel = busy.channel }))
unfolding FlatStorage.get
user_cmd_misses_example =
    user_cmd_misses calm debug busy (record { sockslot = 0; ver = 2 }) 3 immediate 9 refl stale
  where
    stale :
        (s : SockData ℕ ℕ) (r : ℕ)
        → FlatStorage.get busy.socket_handlers 0 ≡ some (stream_type s r)
        → same_id (record { sockslot = 0; ver = 2 }) s.reactorid ≡ false
    stale s r e = let same : 1 ≡ s.reactorid.ver = ap version e in ground (arith, same)

-- Two commands: a message to the stream, and a connection.
abbrev tell : CmdData ℕ ℕ ℕ ℕ
tell = record { reactorid = at 1; cmd = user_cmd 3; deferred = immediate; completion = 9 }

abbrev call : CmdData ℕ ℕ ℕ ℕ
call = record {
  reactorid = invalid_reactor_id;
  cmd = new_connect 4 "host" 16;
  deferred = immediate;
  completion = 8;
}

execute_immediate_cmd-Within_example :
    Returns (Within (λ _. Unit {0}) 2) (execute_immediate_cmd calm debug busy tell)
execute_immediate_cmd-Within_example =
    execute_immediate_cmd-Within calm debug (λ _. Unit {0}) (calm-IsAgreeable λ _. Unit {0}) 1
      (omega arith) busy tell (busy-Within (λ _. Unit {0}) tt) refl

abbrev asked : ReactRuntime ℕ ℕ ℕ ℕ ℕ ℕ ℕ ℕ
asked = record {
  mgr = record busy { channel = record { queue = tell ∷ call ∷ []; connected = true } };
  deferred_data = FlatStorage.new;
  deferred_heap = [];
  accum_sock_events = 0;
  accum_commands = 0;
}

process_command_queue-Processed_example :
    Returns
      (Processed calm (calm-IsAgreeable ReadyChannel) 1 32 0)
      (process_command_queue calm release asked 32)
process_command_queue-Processed_example =
    process_command_queue-Processed calm (calm-IsAgreeable ReadyChannel) 32 1 asked (omega arith) (
      (busy-Within (λ _. Unit {0}) tt).0,
      (busy-Within (λ _. Unit {0}) tt).1,
      ((refl, λ cmd e. refl), ((refl, λ cmd e. absurd (cc e)), tt)),
    )

calm-IsServing : IsServing (λ _. Unit {0}) calm
calm-IsServing = record {
  agreeable = calm-IsAgreeable λ _. Unit {0};
  connection = λ os sock. (3, refl);
  unblocks = λ os sock. refl;
  modifies = λ os sock key writable. refl;
  reads = λ r ctx p. (_, refl, tt);
}

-- The stream can be read and written.
abbrev event : Event
event = record {
  key = 0x1_0000_0000;
  readable = true;
  writable = true;
  is_err = false;
  is_interrupt = false;
}

abbrev sender_of : MsgSender ℕ → Option (TcpSocketHandler ℕ ℕ ℕ ℕ ℕ) → MsgSender ℕ
sender_of other (some (stream_type s r)) = s.sender
sender_of other _ = other

idle-Waits : Waits {C = ℕ} MsgSender.new []
unfolding MsgSender.new FlatStorage.new FlatStorage.len
idle-Waits = record { valid = new-IsValid; chain = refl; last = refl; size = refl }

sock_event_release_example : Returns (Within (λ _. Unit {0}) 2) (sock_event calm release busy event)
unfolding FlatStorage.get from_usize
sock_event_release_example =
    sock_event_release calm (λ _. Unit {0}) calm-IsServing {wire = λ _. []}
      (record { in_range = λ s buf. tt; sends = λ s buf. refl }) 1 (omega arith) busy event
      (busy-Within (λ _. Unit {0}) tt) listed
  where
    listed :
        (s : SockData ℕ ℕ) (r : ℕ)
        → FlatStorage.get busy.socket_handlers 0 ≡ some (stream_type s r)
        → (es : Entries ℕ) × Waits s.sender es × Fit es
    listed s r e =
        let same : MsgSender.new ≡ s.sender = ap (sender_of MsgSender.new) e in
        ([], subst (λ m. Waits m []) same idle-Waits, tt)
