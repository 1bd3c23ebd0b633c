-- ===== src/Manager/Tests.antt =====
-- A concrete world for src/reactor.rs's managers and runtimes, and calls in it. Sockets, reactors,
-- handlers, commands and completions are numbers; every call of the operating system succeeds, no
-- event comes, and the clock stands at one second.
use mathlib.Core.Option.{some-injective}
use reactio_rs.Base.{
  zero, suc, some, add_usize, ℕ, ◌+◌, ◌≡◌, refl, [], ◌∷◌, true, none, arith, debug, release, done,
  panic, Returns, if◌then◌else◌, ◌==◌,
}
use reactio_rs.Base.Int.{pos}
use reactio_rs.FlatStorage
use reactio_rs.FlatStorage.Laws.{new-IsValid}
use reactio_rs.ReactorId.{ReactorId}
use reactio_rs.Socket.{would_block, io_err, io_ok}
use reactio_rs.Manager.{
  World, TcpSocketHandler, stream_type, ReactorMgr, new_data, add_stream, close_reactor,
}
use reactio_rs.Command.{Channel}
use reactio_rs.FlatStorage.Chain.{vacancies}
use reactio_rs.Manager.Managed.{IsManaged, stored_id}
use reactio_rs.Manager.Invariant.{IsAgreeable, Within}
use reactio_rs.Manager.Close.{close_reactor_stale}
use reactio_rs.Manager.Open.{HasSlot, add_stream-close_reactor}
use reactio_rs.Manager.Reuse.{id_reused}

abbrev pub calm : World ℕ ℕ ℕ ℕ ℕ ℕ ℕ ℕ
calm = record {
  write = λ s buf. (io_err would_block, s);
  bind = λ os addr. (io_ok 1, os);
  connect = λ os addr. (io_ok 2, os);
  accept = λ os l. (io_ok 3, os);
  listener_nonblocking = λ os l. (io_ok tt, os);
  stream_nonblocking = λ os s. (io_ok tt, os);
  poller_add_stream = λ os s key. (io_ok tt, os);
  poller_add_listener = λ os l key. (io_ok tt, os);
  poller_modify = λ os s key writable. (io_ok tt, os);
  poller_delete_stream = λ os s. (io_ok tt, os);
  poller_delete_listener = λ os l. (io_ok tt, os);
  poller_wait = λ os millis. (io_ok [], os);
  now_nanos = λ os. (pos 1000000000, os);
  on_connected = λ r ctx listener. (true, r, ctx);
  on_readable = λ r ctx. done (true, r, ctx);
  on_command = λ r cmd ctx. done (true, r + cmd, ctx);
  on_close = λ r id ch. ch;
  on_start_listen = λ h id ch. (h, ch);
  on_new_connection = λ h l s. (none, h, l, s);
  on_close_listen = λ h id ch. ch;
  complete = λ k answer ch. ch;
}

abbrev pub empty : ReactorMgr ℕ ℕ ℕ ℕ ℕ ℕ ℕ ℕ
empty = record {
  socket_handlers = FlatStorage.new;
  os = 0;
  count_streams = 0;
  channel = record { queue = []; connected = true };
}

abbrev pub at : ℕ → ReactorId
at ver = record { sockslot = 0; ver = ver }

-- One stream, under the id with slot 0 and version 1.
abbrev pub busy : ReactorMgr ℕ ℕ ℕ ℕ ℕ ℕ ℕ ℕ
busy = record empty {
  socket_handlers = record {
    nodes = FlatStorage.occupied (stream_type (new_data (at 1) 16 7) 5) ∷ [];
    count = 1;
    free = FlatStorage.invalid_id;
  };
  count_streams = 1;
}

opens : add_stream calm debug empty 16 7 5 ≡ done (at 1, busy)
unfolding add_stream FlatStorage.add FlatStorage.new FlatStorage.len FlatStorage.put add_usize
opens = refl

empty-HasSlot : HasSlot calm debug empty
unfolding FlatStorage.capacity FlatStorage.new
empty-HasSlot = record { valid = new-IsValid; counted = omega arith; room = omega arith }

close_reactor_stale_example :
    (close_reactor calm debug busy (at 0) ≡ panic)
    × Returns
        (λ (closed, mgr).
          (closed ≡ true)
          × ((j : ℕ)
              → FlatStorage.get mgr.socket_handlers j
                ≡ (if 0 == j then none else FlatStorage.get busy.socket_handlers j)))
        (close_reactor calm release busy (at 0))
unfolding FlatStorage.get
close_reactor_stale_example =
    close_reactor_stale calm busy (at 0) (new_data (at 1) 16 7) 5 refl refl (omega arith)
      (λ os. refl)

add_stream-close_reactor_example :
    Returns
      (λ (id, opened).
        Returns
          (λ (closed, mgr).
            (closed ≡ true)
            × ((j : ℕ)
                → FlatStorage.get mgr.socket_handlers j ≡ FlatStorage.get empty.socket_handlers j)
            × (mgr.count_streams ≡ 0)
            × (mgr.channel ≡ empty.channel))
          (close_reactor calm debug opened id))
      (add_stream calm debug empty 16 7 5)
add_stream-close_reactor_example =
    add_stream-close_reactor calm debug empty 16 7 5 empty-HasSlot (λ key. refl) (λ os. refl)

id_reused_example :
    Returns
      (λ (id, opened).
        Returns
          (λ (_, closed). Returns (λ (id', _). id' ≡ id) (add_stream calm debug closed 16 8 6))
          (close_reactor calm debug opened id))
      (add_stream calm debug empty 16 7 5)
id_reused_example =
    id_reused calm debug (λ os sock key. refl) empty 16 16 7 8 5 6 empty-HasSlot (λ os. refl)

-- Nothing in this world touches the channel.
pub calm-IsAgreeable : (P : Channel ℕ ℕ ℕ ℕ → Type 0) → IsAgreeable P calm
calm-IsAgreeable P = record {
  accepts_stream = λ os sock key. refl;
  accepts_listener = λ os sock key. refl;
  releases_stream = λ os sock. refl;
  releases_listener = λ os sock. refl;
  keeps_on_connected = λ r ctx id p. p;
  keeps_on_command = λ r cmd ctx p. (_, refl, p);
  keeps_on_close = λ r id ch p. p;
  keeps_on_start_listen = λ h id ch p. p;
  keeps_on_close_listen = λ h id ch p. p;
  keeps_complete = λ k answer ch p. p;
}

-- One stream, in slot 0.
busy-IsManaged : IsManaged busy.socket_handlers 1
unfolding FlatStorage.get FlatStorage.capacity vacancies
busy-IsManaged = record {
  valid = record {
    chain = [];
    linked = (refl, tt);
    distinct = tt;
    covered = refl;
    counted = omega arith;
    bounded = omega arith;
  };
  named = names;
  counted = refl;
}
  where
    names :
        (k : ℕ) (h : TcpSocketHandler ℕ ℕ ℕ ℕ ℕ)
        → FlatStorage.get busy.socket_handlers k ≡ some h
        → (stored_id h).sockslot ≡ k
    names zero h e = rw (← some-injective (stream_type (new_data (at 1) 16 7) 5) h e) refl
    names (suc k) h e = absurd (cc e)

pub busy-Within : (P : Channel ℕ ℕ ℕ ℕ → Type 0) → P busy.channel → Within P 1 busy
unfolding FlatStorage.capacity
busy-Within P p = (busy-IsManaged, omega arith, p)
