-- ===== src/Runtime/Rounds.antt =====
-- The end of a round of src/reactor.rs's `process_sock_events`, and the round as a whole.
use reactio_rs.Base.{
  ℕ, ◌+◌, ◌<◌, ◌≡◌, refl, sym, subst, arith, true, ◌||◌, some, List, Build, release, Returns, inl,
  inr, Bool-cases, Option-cases,
}
use reactio_rs.FlatStorage
use reactio_rs.FlatStorage.{FlatStorage}
use reactio_rs.ReactorId.{ReactorId, half_usize, invalid_reactor_id, same_id, from_usize}
use reactio_rs.MsgSender.{send_queued}
use reactio_rs.Command.{Channel}
use reactio_rs.Manager.{
  World, Event, SockData, listener_type, stream_type, ReactorMgr, context_of, data_after, new_data,
}
use reactio_rs.Manager.Invariant.{
  Within, MayClose, same_id_refl, close_reactor-Within, add_stream-Registered,
}
use reactio_rs.Manager.Connects.{put_stream-Within}
use reactio_rs.Socket.{IsSocket}
use reactio_rs.MsgSender.Pending.{Entries, Waits}
use reactio_rs.MsgSender.Notify.{Fit}
use reactio_rs.MsgSender.Flush.{send_queued_delivers}
use reactio_rs.Runtime.Sockets.{Verdict, admit, conclude, sock_event}
use reactio_rs.Runtime.Events.{IsServing, Judged, listener_event-Judged, stream_event-Judged}

module _ {S L E C R H U K : Type 0} (world : World S L E C R H U K) (build : Build)
    (P : Channel R H U K → Type 0) (serving : IsServing P world) where
  admit-Within :
      (n : ℕ) (mgr : ReactorMgr S L E C R H U K) (id listener : ReactorId) (sd : SockData S C)
      (reactor : R)
      → Within P n mgr
      → FlatStorage.get mgr.socket_handlers id.sockslot ≡ some (stream_type sd reactor)
      → sd.reactorid ≡ id
      → Returns (Within P n) (admit world build mgr id listener (stream_type sd reactor))
  unfolding admit
  admit-Within n mgr id listener sd reactor within found name =
      let answer = world.on_connected reactor (context_of sd mgr.channel) listener in
      let sd' = data_after sd answer.2 in
      let mgr' = record mgr {
        socket_handlers =
            FlatStorage.put mgr.socket_handlers id.sockslot (stream_type sd' answer.1);
        channel = (answer.2).cmd_sender;
      } in
      let (kept, may) =
        put_stream-Within world build P n mgr mgr' id sd sd' reactor answer.1 within found refl refl
          refl
          (serving.agreeable.keeps_on_connected reactor (context_of sd mgr.channel) listener
            within.2) in
      let same : same_id id sd.reactorid ≡ true = rw name (same_id_refl id) in
      let (closed, e, after) =
        close_reactor-Within world build P serving.agreeable n mgr' sd.reactorid kept
          (subst (λ i. MayClose build mgr' i) (sym name) (may same)) in
      elim (Bool-cases answer.0) [
        | inl accepted ↦ rw (accepted, admit) (_, refl, kept)
        | inr refused ↦ elim (Bool-cases (same_id sd.reactorid invalid_reactor_id)) [
          | inl nobody ↦ rw (refused, admit, nobody) (_, refl, kept)
          | inr somebody ↦ rw (refused, admit, somebody, e) (_, refl, after)
        ]
      ]

  conclude-Within :
      (n : ℕ)
      → n < half_usize
      → (ev : Event) (current : ReactorId) (v : Verdict S R (ReactorMgr S L E C R H U K))
      → Judged world build P serving n current v
      → Returns (Within P (n + 1)) (conclude world build ev current v)
  unfolding conclude
  conclude-Within n room ev current v ((m, fits, ok_channel), may) =
      elim (Option-cases v.new_connection) [
        | inr ((newsock, reactor, size), e) ↦
            let ((id, mgr'), added, (within, found)) =
              add_stream-Registered world build P serving.agreeable n room v.mgr size newsock
                reactor (m, fits, ok_channel) in
            let (after, admitted, kept) =
              admit-Within (n + 1) mgr' id current (new_data id size newsock) reactor within found
                refl in
            rw (e, conclude, added, found, admitted) (_, refl, kept)
        | inl none_made ↦
            let (closed, e, (m', fits', ok')) =
              close_reactor-Within world build P serving.agreeable n v.mgr current
                (m, fits, ok_channel) may in
            elim (Bool-cases (v.removesock || ev.is_err || ev.is_interrupt)) [
              | inl remove ↦ rw (none_made, conclude, remove, e) (_, refl, (m', omega arith, ok'))
              | inr keep ↦ rw (none_made, conclude, keep) (_, refl, (m, omega arith, ok_channel))
            ]
      ]

  -- A socket that an event is for: in a debug build the event has the id that is stored there, and
  -- the bytes that wait for a stream can be sent.
  abbrev pub IsReady : ReactorMgr S L E C R H U K → Event → Type 0
  IsReady mgr ev =
      MayClose build mgr (from_usize ev.key)
      × ((sd : SockData S C) (reactor : R)
          → FlatStorage.get mgr.socket_handlers (from_usize ev.key).sockslot
            ≡ some (stream_type sd reactor)
          → Returns (λ _. Unit {0}) (send_queued world.write build sd.sender sd.sock))

  -- With fewer than 2^32 slots, a round of the loop over events ends without a panic, provided
  -- that the poller accepts and lets go of every socket, that `accept`, `set_nonblocking` and
  -- `modify` succeed, that the reactors' `on_readable` returns, that `send_queued` returns on
  -- the stream's sender (in a debug build it can panic), and that in a debug build the event is
  -- for the id that is stored in its slot, if there is one. Whatever the event is and user code
  -- answers, the storage is valid afterwards, each socket is stored with an id of its slot,
  -- `count_streams` is the number of streams, at most one slot is new, and the channel satisfies
  -- what user code keeps.
  pub sock_event-Within :
      (n : ℕ)
      → n < half_usize
      → (mgr : ReactorMgr S L E C R H U K) (ev : Event) → Within P n mgr
      → IsReady mgr ev
      → Returns (Within P (n + 1)) (sock_event world build mgr ev)
  unfolding sock_event
  sock_event-Within n room mgr ev (m, fits, ok_channel) (may, sends) =
      let current = from_usize ev.key in
      elim (Option-cases (FlatStorage.get mgr.socket_handlers current.sockslot)) [
        | inl gone ↦ rw (gone, sock_event) (_, refl, (m, omega arith, ok_channel))
        | inr (listener_type id sock h, e) ↦
            let (v, e', judged) =
              listener_event-Judged world build P serving n mgr ev current id sock h
                (m, fits, ok_channel) e may in
            rw (e, sock_event, e') (conclude-Within n room ev current v judged)
        | inr (stream_type sd reactor, e) ↦
            let (v, e', judged) =
              stream_event-Judged world build P serving n mgr ev current sd reactor
                (m, fits, ok_channel) e may (sends sd reactor e) in
            rw (e, sock_event, e') (conclude-Within n room ev current v judged)
      ]

module _ {S L E C R H U K : Type 0} (world : World S L E C R H U K) (P : Channel R H U K → Type 0)
    (serving : IsServing P world) {wire : S → List ℕ} (socket : IsSocket world.write wire) where
  -- In a release build, with fewer than 2^32 slots, a round of the loop over events ends without a
  -- panic, whatever the event is. It asks that the poller accepts and lets go of every socket, that
  -- `accept`, `set_nonblocking` and `modify` succeed, that a write behaves as documented, that
  -- `on_readable` and the other callbacks return, and that the completions of the stream in the
  -- event's slot, if there is one, wait in a list whose positions fit in a `usize`. Whatever user code
  -- answers, the storage is valid afterwards, each socket is stored with an id of its slot,
  -- `count_streams` is the number of streams, at most one slot is new, and the channel satisfies what
  -- user code keeps.
  pub sock_event_release :
      (n : ℕ)
      → n < half_usize
      → (mgr : ReactorMgr S L E C R H U K) (ev : Event) → Within P n mgr
      → ((sd : SockData S C) (reactor : R)
          → FlatStorage.get mgr.socket_handlers (from_usize ev.key).sockslot
            ≡ some (stream_type sd reactor)
          → (es : Entries C) × Waits sd.sender es × Fit es)
      → Returns (Within P (n + 1)) (sock_event world release mgr ev)
  sock_event_release n room mgr ev within listed =
      sock_event-Within world release P serving n room mgr ev within (
        (λ h e. refl),
        λ sd reactor found.
            let (es, waits, fit) = listed sd reactor found in
            let (r, e, _) = send_queued_delivers socket sd.sender sd.sock es waits fit in
            (r, e, tt),
      )
