-- ===== src/ThreadedPingpong/Tests.antt =====
-- A server and a client of examples/example/threaded_pingpong.rs, in two threads.
use text.Mathlib.Text.{◌==◌ as ◌===◌}
use Prim.Native.String.{String}
use reactio_rs.Base.{
  ℕ, ◌≡◌, refl, [], ◌∷◌, true, false, done, add_usize, none, some, release, err, Returns,
  if◌then◌else◌,
}
use reactio_rs.Base.Int.{pos}
use reactio_rs.ReactorId.{invalid_reactor_id}
use reactio_rs.Threaded.{ReactorUid, duplicate_name, find_reactor_uid, get_cmd_sender}
use reactio_rs.Listener
use reactio_rs.Pingpong
use reactio_rs.Pingpong.Wire.{write, write-IsSocket, write-MakesProgress, now, Ctx, ctx, room}
use reactio_rs.ThreadedPingpong.{
  ThreadedPingpongReactor, Shared, ThreadedServerParam, naming, fetch_next, drop_reactor,
  on_connected, new_client, new_server_reactor, create_tcp_listener, on_command,
}
use reactio_rs.ThreadedPingpong.Names.{uid_of, on_connected-drop_reactor}
use reactio_rs.ThreadedPingpong.Reaches.{Reached, on_command-on_connected}

-- The server is in the thread 0.
abbrev param : ThreadedServerParam
param = record { runtimeid = 0; name = "server"; latency_batch = pos 1000 }

abbrev shared : Shared ℕ ℕ ℕ
shared = record {
  reactormgr = record { senders = (0, 0) ∷ (1, 1) ∷ []; stopcmd = false; reactor_uid_map = [] };
  stopcounter = pos 0;
  channels = λ _. record { queue = []; connected = true };
}

abbrev server_ctx : Ctx
server_ctx = record ctx { reactorid = record { sockslot = 2; ver = 1 } }

abbrev client : ThreadedPingpongReactor
client = new_client "myclient" 1 (pos 5) (pos 1000)

-- The listener's first connection has the number 1.
first_child :
    Listener.on_new_connection new_server_reactor release (create_tcp_listener 1024 param)
    ≡ done (
      some (record { reactor = new_server_reactor 1 param; recv_buffer_min_size = 1024 }),
      record (create_tcp_listener 1024 param) { count_children = 1 },
    )
unfolding Listener.on_new_connection create_tcp_listener Listener.new add_usize
first_child = refl

on_connected-drop_reactor_example :
    Returns
      (λ c.
        (find_reactor_uid (c.shared).reactormgr client.inner.name ≡ some (uid_of client ctx))
        × ((name : String)
            → find_reactor_uid (drop_reactor c.reactor c.shared).reactormgr name ≡ (
                if client.inner.name === name
                then none
                else find_reactor_uid shared.reactormgr name))
        × ((drop_reactor c.reactor c.shared).stopcounter ≡ fetch_next (pos 0))
        × ((other : ReactorUid)
            → find_reactor_uid shared.reactormgr client.inner.name ≡ some other
            → c.result ≡ err (naming duplicate_name)))
      (on_connected 0 (some (pos 9)) client ctx shared invalid_reactor_id)
on_connected-drop_reactor_example =
    on_connected-drop_reactor 0 (some (pos 9)) client ctx shared invalid_reactor_id (pos 9) refl tt

on_command-on_connected_example :
    Returns
      (λ c.
        Returns
          (Reached write (λ wire. wire) 1 0 7 (record { sockslot = 2; ver = 1 }) (pos 7) ctx shared)
          (on_command write now release 1 7 client "StartSending" ctx c.shared))
      (on_connected 7
        (some (pos 9))
        (new_server_reactor 1 param)
        server_ctx
        shared
        invalid_reactor_id)
unfolding get_cmd_sender new_client Pingpong.new_client Pingpong.new
on_command-on_connected_example =
    on_command-on_connected write-IsSocket write-MakesProgress now (λ s. refl) 1 0 7 (some (pos 9))
      (pos 9) param server_ctx ctx invalid_reactor_id shared client "StartSending" refl tt refl refl
      refl refl refl room
