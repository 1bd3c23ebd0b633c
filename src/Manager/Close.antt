-- ===== src/Manager/Close.antt =====
-- `close_reactor` of src/reactor.rs's `ReactorMgr` on a slot that holds a stream: what it does for
-- the id of the stream, and for one that names the slot in another version.
use reactio_rs.Base.{
  ℕ, ◌≡◌, refl, ◌∙◌, true, false, none, some, Build, debug, release, done, panic, ◌>>=◌,
  if◌then◌else◌, Returns, ◌==◌, sub_usize-done, ◌<◌, ◌-◌, debug_assert,
}
use reactio_rs.FlatStorage
use reactio_rs.FlatStorage.Laws.{get-remove}
use reactio_rs.ReactorId.{ReactorId, same_id}
use reactio_rs.Socket.{IoResult, io_ok, io_err}
use reactio_rs.Manager.{World, SockData, stream_type, ReactorMgr, unwrap_os, closing, close_reactor}

-- A call of the operating system that returns no value has succeeded.
abbrev pub Succeeds : {E : Type 0} → IoResult (Unit {0}) × E → Type 0
Succeeds r = r.0 ≡ io_ok tt

pub unwrap_os-done :
    {E : Type 0} (r : IoResult (Unit {0}) × E) → Succeeds r → unwrap_os r ≡ done r.1
unwrap_os-done (io_ok u, os) h = refl
unwrap_os-done (io_err kind, os) h = absurd (cc h)

module _ {S L E C R H U K : Type 0} (world : World S L E C R H U K)
    (mgr : ReactorMgr S L E C R H U K) (id : ReactorId) (d : SockData S C) (reactor : R) where
  -- The manager without the stream.
  abbrev pub closed_mgr : ReactorMgr S L E C R H U K
  closed_mgr = record {
    socket_handlers = (FlatStorage.remove mgr.socket_handlers id.sockslot).1;
    os = (world.poller_delete_stream mgr.os d.sock).1;
    count_streams = mgr.count_streams - 1;
    channel = world.on_close reactor id mgr.channel;
  }

  module _
      (found : FlatStorage.get mgr.socket_handlers id.sockslot ≡ some (stream_type d reactor)) where
    removed : (FlatStorage.remove mgr.socket_handlers id.sockslot).0 ≡ some (stream_type d reactor)
    removed = (get-remove mgr.socket_handlers id.sockslot).0 ∙ found

    close_stream :
        (build : Build)
        → close_reactor world build mgr id ≡ (
            closing world build
              (record mgr {
                socket_handlers = (FlatStorage.remove mgr.socket_handlers id.sockslot).1;
              })
              id
              (stream_type d reactor)
            >>= λ mgr'. done (true, mgr'))
    unfolding close_reactor
    close_stream build = rw (removed, close_reactor) refl

    pub close_reactor_found :
        (build : Build)
        → debug_assert build (same_id id d.reactorid) ≡ done tt
        → 0 < mgr.count_streams
        → ((os : E) → Succeeds (world.poller_delete_stream os d.sock))
        → close_reactor world build mgr id ≡ done (true, closed_mgr)
    unfolding closing
    close_reactor_found build passes counted releases =
        close_stream build
        ∙ rw
            (
              passes,
              sub_usize-done build mgr.count_streams 1 counted,
              unwrap_os-done (world.poller_delete_stream mgr.os d.sock) (releases mgr.os),
            )
            refl

    -- With an id that is not the one of the stream in its slot, closing panics in a debug build. In a
    -- release build it closes that stream, provided that a stream is counted and that the poller lets
    -- go of the socket: it returns `true`, the slot is free, and no other slot changes.
    pub close_reactor_stale :
        same_id id d.reactorid ≡ false
        → 0 < mgr.count_streams
        → ((os : E) → Succeeds (world.poller_delete_stream os d.sock))
        → (close_reactor world debug mgr id ≡ panic)
          × Returns
              (λ (closed, mgr').
                (closed ≡ true)
                × ((j : ℕ)
                    → FlatStorage.get mgr'.socket_handlers j
                      ≡ (if id.sockslot == j then none else FlatStorage.get mgr.socket_handlers j)))
              (close_reactor world release mgr id)
    unfolding closing
    close_reactor_stale stale counted releases = (
      close_stream debug ∙ rw stale refl,
      (
        (true, closed_mgr),
        close_reactor_found release refl counted releases,
        (refl, (get-remove mgr.socket_handlers id.sockslot).1),
      ),
    )
