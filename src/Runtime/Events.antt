-- ===== src/Runtime/Events.antt =====
-- Socket events in src/reactor.rs's `process_sock_events`: each one ends and keeps the invariant.
use reactio_rs.Base.{
  ℕ, ◌≡◌, refl, ◌∙◌, Result-cases, ap, Bool, true, false, not, ◌||◌, ◌&&◌, none, some, Build, done,
  debug_assert, Returns, inl, inr, Bool-cases, Option-cases, is_nil,
}
use reactio_rs.FlatStorage
use reactio_rs.FlatStorage.{FlatStorage}
use reactio_rs.ReactorId.{ReactorId, same_id}
use reactio_rs.Socket.{io_ok}
use reactio_rs.MsgSender.{send_queued}
use reactio_rs.Command.{Channel}
use reactio_rs.Manager.{
  World, Event, Context, SockData, TcpSocketHandler, listener_type, stream_type, ReactorMgr,
  context_of,
}
use reactio_rs.Manager.Close.{Succeeds, unwrap_os-done}
use reactio_rs.Manager.Invariant.{IsAgreeable, Within, MayClose}
use reactio_rs.Manager.Connects.{put_socket-Within}
use reactio_rs.Runtime.Sockets.{
  Verdict, accepting, listener_event, stream_writable, stream_readable, update_interest,
  stream_event,
}

-- Also the calls for events succeed, and the reactors' `on_readable` returns.
pub record IsServing {S L E C R H U K : Type 0} (P : Channel R H U K → Type 0)
    (world : World S L E C R H U K) : Type 0 where
  pub agreeable : IsAgreeable P world
  pub connection : (os : E) (sock : L) → (s : S) × ((world.accept os sock).0 ≡ io_ok s)
  pub unblocks : (os : E) (sock : S) → Succeeds (world.stream_nonblocking os sock)
  pub modifies :
      (os : E) (sock : S) (key : ℕ) (writable : Bool)
      → Succeeds (world.poller_modify os sock key writable)
  pub reads :
      (r : R) (ctx : Context S C R H U K)
      → P ctx.cmd_sender
      → Returns (λ (_, _, ctx'). P ctx'.cmd_sender) (world.on_readable r ctx)

module _ {S L E C R H U K : Type 0} (world : World S L E C R H U K) (build : Build)
    (P : Channel R H U K → Type 0) (serving : IsServing P world) where
  accepting-Within :
      (n : ℕ) (mgr : ReactorMgr S L E C R H U K) (current id : ReactorId) (sock : L) (h : H)
      → Within P n mgr
      → FlatStorage.get mgr.socket_handlers current.sockslot ≡ some (listener_type id sock h)
      → debug_assert build (same_id current id) ≡ done tt
      → Returns
          (λ (_, mgr'). Within P n mgr' × MayClose build mgr' current)
          (accepting world build mgr current.sockslot id sock h)
  unfolding accepting
  accepting-Within n mgr current id sock h within found passes =
      let (newsock, e) = serving.connection mgr.os sock in
      let os = (world.accept mgr.os sock).1 in
      let (made, h', sock', newsock') = world.on_new_connection h sock newsock in
      let put = record mgr {
        socket_handlers =
            FlatStorage.put mgr.socket_handlers current.sockslot (listener_type id sock' h');
        os = os;
      } in
      let (kept, may) =
        put_socket-Within world build P n mgr put current (listener_type id sock h)
          (listener_type id sock' h') within found refl refl refl refl within.2 in
      elim (Option-cases made) [
        | inl refused ↦ rw (e, accepting, refused) (_, refl, (kept, may passes))
        | inr (made', e') ↦
            rw
              (
                e,
                accepting,
                e',
                unwrap_os-done (world.stream_nonblocking os newsock')
                    (serving.unblocks os newsock'),
              )
              (_, refl, (kept, may passes))
      ]

  -- What an event leaves for `conclude`.
  abbrev pub Judged : ℕ → ReactorId → Verdict S R (ReactorMgr S L E C R H U K) → Type 0
  Judged n current v = Within P n v.mgr × MayClose build v.mgr current

  pub listener_event-Judged :
      (n : ℕ) (mgr : ReactorMgr S L E C R H U K) (ev : Event) (current id : ReactorId) (sock : L)
      (h : H)
      → Within P n mgr
      → FlatStorage.get mgr.socket_handlers current.sockslot ≡ some (listener_type id sock h)
      → MayClose build mgr current
      → Returns (Judged n current) (listener_event world build mgr ev current id sock h)
  unfolding listener_event
  listener_event-Judged n mgr ev current id sock h within found may =
      let passes = may (listener_type id sock h) found in
      let (a, e, kept) = accepting-Within n mgr current id sock h within found passes in
      elim (Bool-cases ev.readable) [
        | inl readable ↦ rw (passes, readable, e) (_, refl, kept)
        | inr other ↦ rw (passes, other) (_, refl, (within, may))
      ]

  -- The socket has kept its id, and the sockets of the manager are as before.
  abbrev Alike :
      ReactorMgr S L E C R H U K → SockData S C → SockData S C → ReactorMgr S L E C R H U K → Type 0
  Alike mgr sd sd' mgr' =
      (sd'.reactorid ≡ sd.reactorid)
      × (mgr'.socket_handlers ≡ mgr.socket_handlers)
      × (mgr'.count_streams ≡ mgr.count_streams)
      × P mgr'.channel

  stream_writable-Returns :
      (ev : Event) (sd : SockData S C)
      → Returns (λ _. Unit {0}) (send_queued world.write build sd.sender sd.sock)
      → Returns (λ (_, sd'). sd'.reactorid ≡ sd.reactorid) (stream_writable world build ev sd)
  unfolding stream_writable
  stream_writable-Returns ev sd (sent, e, _) = elim (Bool-cases ev.writable) [
    | inr other ↦ rw other (_, refl, refl)
    | inl writable ↦ elim (Bool-cases (is_nil sd.sender.buf)) [
      | inl empty ↦ rw (writable, empty) (_, refl, refl)
      | inr some_left ↦ elim (Result-cases sent.result) [
        | inl (_, went) ↦ rw (writable, some_left, e, went) (_, refl, refl)
        | inr (_, failed) ↦ rw (writable, some_left, e, failed) (_, refl, refl)
      ]
    ]
  ]

  stream_readable-Alike :
      (mgr : ReactorMgr S L E C R H U K) (ev : Event) (sd : SockData S C) (reactor : R)
      → P mgr.channel
      → Returns
          (λ (_, sd', _, mgr'). Alike mgr sd sd' mgr')
          (stream_readable world build mgr ev sd reactor)
  unfolding stream_readable
  stream_readable-Alike mgr ev sd reactor ok_channel =
      let (a, e, kept) = serving.reads reactor (context_of sd mgr.channel) ok_channel in
      elim (Bool-cases ev.readable) [
        | inl readable ↦ rw (readable, e) (_, refl, (refl, refl, refl, kept))
        | inr other ↦ rw other (_, refl, (refl, refl, refl, ok_channel))
      ]

  update_interest-Alike :
      (mgr : ReactorMgr S L E C R H U K) (key : ℕ) (sd : SockData S C)
      → P mgr.channel
      → Returns (λ (sd', mgr'). Alike mgr sd sd' mgr') (update_interest world build mgr key sd)
  unfolding update_interest
  update_interest-Alike mgr key sd ok_channel =
      let modified = λ (w : Bool).
        unwrap_os-done (world.poller_modify mgr.os sd.sock key w)
          (serving.modifies mgr.os sd.sock key w) in
      elim (Bool-cases (not sd.interested_writable && not (is_nil sd.sender.buf))) [
        | inl more ↦ rw (more, modified true) (_, refl, (refl, refl, refl, ok_channel))
        | inr enough ↦ elim (Bool-cases (sd.interested_writable && is_nil sd.sender.buf)) [
          | inl idle ↦ rw (enough, idle, modified false) (_, refl, (refl, refl, refl, ok_channel))
          | inr same ↦ rw (enough, same) (_, refl, (refl, refl, refl, ok_channel))
        ]
      ]

  -- The socket goes back to its slot.
  put_back :
      (n : ℕ) (mgr mgr' : ReactorMgr S L E C R H U K) (current : ReactorId) (sd sd' : SockData S C)
      (r r' : R)
      → Within P n mgr
      → FlatStorage.get mgr.socket_handlers current.sockslot ≡ some (stream_type sd r)
      → debug_assert build (same_id current sd.reactorid) ≡ done tt
      → Alike mgr sd sd' mgr'
      → (removesock : Bool)
      → Judged n current (record {
        removesock = removesock;
        new_connection = none;
        mgr = record mgr' {
          socket_handlers =
              FlatStorage.put mgr'.socket_handlers current.sockslot (stream_type sd' r');
        };
      })
  put_back n mgr mgr' current sd sd' r r' within found passes (name, handlers, counts, ok_channel)
        removesock =
      let w : TcpSocketHandler S L C R H = stream_type sd' r' in
      let (kept, may) =
        put_socket-Within world build P n mgr
          (record mgr' {
            socket_handlers = FlatStorage.put mgr'.socket_handlers current.sockslot w;
          })
          current (stream_type sd r) w within found refl name
          (ap
            (λ (s : FlatStorage (TcpSocketHandler S L C R H)). FlatStorage.put s current.sockslot w)
            handlers)
          counts ok_channel in
      (kept, may passes)

  pub stream_event-Judged :
      (n : ℕ) (mgr : ReactorMgr S L E C R H U K) (ev : Event) (current : ReactorId)
      (sd : SockData S C) (reactor : R)
      → Within P n mgr
      → FlatStorage.get mgr.socket_handlers current.sockslot ≡ some (stream_type sd reactor)
      → MayClose build mgr current
      → Returns (λ _. Unit {0}) (send_queued world.write build sd.sender sd.sock)
      → Returns (Judged n current) (stream_event world build mgr ev current sd reactor)
  unfolding stream_event
  stream_event-Judged n mgr ev current sd reactor within found may sends =
      let passes = may (stream_type sd reactor) found in
      let ((failed, data1), e1, id1) = stream_writable-Returns ev sd sends in
      let ((closing, data2, reactor', mgr1), e2, (id2, handlers1, count1, ok1)) =
        stream_readable-Alike mgr ev data1 reactor within.2 in
      let ((data3, mgr2), e3, (id3, handlers2, count2, ok2)) =
        update_interest-Alike mgr1 ev.key data2 ok1 in
      let back =
        put_back n mgr mgr1 current sd data2 reactor reactor' within found passes
          (id2 ∙ id1, handlers1, count1, ok1) true in
      let back' =
        put_back n mgr mgr2 current sd data3 reactor reactor' within found passes
          (id3 ∙ id2 ∙ id1, handlers2 ∙ handlers1, count2 ∙ count1, ok2) false in
      elim (Bool-cases (failed || closing || data2.sender.close_or_error)) [
        | inl remove ↦ rw (passes, e1, e2, remove) (_, refl, back)
        | inr keep ↦ rw (passes, e1, e2, keep, e3) (_, refl, back')
      ]
