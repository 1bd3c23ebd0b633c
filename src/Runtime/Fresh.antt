-- ===== src/Runtime/Fresh.antt =====
-- src/reactor.rs, `ReactorMgr::new` and `ReactRuntime::new`, and the counts that a runtime reports.
-- The result of `Poller::new` is an argument.
use reactio_rs.Base.{ℕ, ◌≡◌, refl, arith, [], true, Outcome, done, panic, ◌>>=◌, Returns}
use reactio_rs.FlatStorage
use reactio_rs.Socket.{IoResult, io_ok, io_err}
use reactio_rs.Command.{Channel}
use reactio_rs.Manager.{ReactorMgr}
use reactio_rs.Manager.Managed.{new-IsManaged}
use reactio_rs.Manager.Invariant.{Within}
use reactio_rs.Runtime.{ReactRuntime}

module _ {S L E C R H U K : Type 0} where
  unfoldable pub new_mgr : IoResult E → Outcome (ReactorMgr S L E C R H U K)
  new_mgr (io_err _) = panic
  new_mgr (io_ok poller) = done (record {
    socket_handlers = FlatStorage.new;
    os = poller;
    count_streams = 0;
    channel = record { queue = []; connected = true };
  })

  unfoldable pub new : IoResult E → Outcome (ReactRuntime S L E C R H U K)
  new poller = new_mgr poller >>= λ mgr. done (record {
    mgr = mgr;
    deferred_data = FlatStorage.new;
    deferred_heap = [];
    accum_sock_events = 0;
    accum_commands = 0;
  })

  unfoldable pub count_reactors : ReactRuntime S L E C R H U K → ℕ
  count_reactors rt = FlatStorage.len rt.mgr.socket_handlers

  unfoldable pub count_deferred_queue : ReactRuntime S L E C R H U K → ℕ
  count_deferred_queue rt = FlatStorage.len rt.deferred_data

  unfoldable pub count_streams : ReactRuntime S L E C R H U K → ℕ
  count_streams rt = rt.mgr.count_streams

  unfoldable pub count_sock_events : ReactRuntime S L E C R H U K → ℕ
  count_sock_events rt = rt.accum_sock_events

  unfoldable pub count_received_commands : ReactRuntime S L E C R H U K → ℕ
  count_received_commands rt = rt.accum_commands

  -- A new runtime keeps the invariant, without a slot, and reports no reactor and no command.
  pub new-Within :
      (P : Channel R H U K → Type 0) (poller : E)
      → P (record { queue = []; connected = true })
      → Returns
          (λ rt.
            Within P 0 rt.mgr
            × (count_reactors rt ≡ 0)
            × (count_deferred_queue rt ≡ 0)
            × (count_received_commands rt ≡ 0))
          (new (io_ok poller))
  unfolding new new_mgr count_reactors count_deferred_queue count_received_commands FlatStorage.new
      FlatStorage.len FlatStorage.capacity
  new-Within P poller ok_channel =
      (_, refl, ((new-IsManaged, omega arith, ok_channel), refl, refl, refl))
