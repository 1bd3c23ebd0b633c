-- ===== src/Manager/Invariant.antt =====
-- Each operation of src/reactor.rs's `ReactorMgr` ends without a panic, and keeps its invariant.
use native.Mathlib.Nat.{add-zero, sub-zero}
use reactio_rs.Base.{
  ℕ, ◌+◌, ◌%◌, ◌≤◌, ◌<◌, ◌≡◌, refl, ◌∙◌, ap, arith, true, some, Build, done, debug_assert,
  add_usize-done, sub_usize-done, Returns, inl, inr, Option-cases,
}
use reactio_rs.FlatStorage
use reactio_rs.FlatStorage.{FlatStorage}
use reactio_rs.FlatStorage.Laws.{Added, add_correct, get-remove, put-IsValid, len-remove}
use reactio_rs.FlatStorage.Keys.{Added-put}
use reactio_rs.ReactorId.{ReactorId, half_usize, invalid_reactor_id, same_id, to_usize}
use reactio_rs.Command.{Channel, CommandCompletion}
use reactio_rs.Manager.{
  Context, World, TcpSocketHandler, listener_type, stream_type, ReactorMgr, id_of, new_data,
  add_stream, add_listener, closing, close_reactor,
}
use reactio_rs.Manager.Close.{Succeeds, unwrap_os-done}
use reactio_rs.Manager.Managed.{
  IsManaged, stored_id, stream_weight, add-IsManaged, remove-IsManaged, count_le,
}

-- The operating system's poller accepts every socket, and lets go of every socket. What the user
-- code leaves in the channel of commands satisfies `P` again.
pub record IsAgreeable {S L E C R H U K : Type 0} (P : Channel R H U K → Type 0)
    (world : World S L E C R H U K) : Type 0 where
  pub accepts_stream :
      (os : E) (sock : S) (key : ℕ) → Succeeds (world.poller_add_stream os sock key)
  pub accepts_listener :
      (os : E) (sock : L) (key : ℕ) → Succeeds (world.poller_add_listener os sock key)
  pub releases_stream : (os : E) (sock : S) → Succeeds (world.poller_delete_stream os sock)
  pub releases_listener : (os : E) (sock : L) → Succeeds (world.poller_delete_listener os sock)
  pub keeps_on_connected :
      (r : R) (ctx : Context S C R H U K) (id : ReactorId)
      → P ctx.cmd_sender
      → P (world.on_connected r ctx id).2.cmd_sender
  pub keeps_on_command :
      (r : R) (cmd : U) (ctx : Context S C R H U K)
      → P ctx.cmd_sender
      → Returns (λ (_, _, ctx'). P ctx'.cmd_sender) (world.on_command r cmd ctx)
  pub keeps_on_close :
      (r : R) (id : ReactorId) (ch : Channel R H U K) → P ch → P (world.on_close r id ch)
  pub keeps_on_start_listen :
      (h : H) (id : ReactorId) (ch : Channel R H U K) → P ch → P (world.on_start_listen h id ch).1
  pub keeps_on_close_listen :
      (h : H) (id : ReactorId) (ch : Channel R H U K) → P ch → P (world.on_close_listen h id ch)
  pub keeps_complete :
      (k : K) (answer : CommandCompletion) (ch : Channel R H U K)
      → P ch
      → P (world.complete k answer ch)

module _ {S L E C R H U K : Type 0} where
  -- The invariant, with at most `n` slots and `P` of the channel.
  abbrev pub Within : (Channel R H U K → Type 0) → ℕ → ReactorMgr S L E C R H U K → Type 0
  Within P n mgr =
      IsManaged mgr.socket_handlers mgr.count_streams
      × (FlatStorage.capacity mgr.socket_handlers ≤ n)
      × P mgr.channel

  -- The check on the id when a socket is closed: it passes in a release build, and for the stored id.
  abbrev pub MayClose : Build → ReactorMgr S L E C R H U K → ReactorId → Type 0
  MayClose build mgr id =
      (h : TcpSocketHandler S L C R H)
      → FlatStorage.get mgr.socket_handlers id.sockslot ≡ some h
      → debug_assert build (same_id id (stored_id h)) ≡ done tt

  -- What a registration leaves.
  abbrev pub Registered :
      (Channel R H U K → Type 0)
      → ℕ
      → (ReactorId → TcpSocketHandler S L C R H)
      → ReactorId × ReactorMgr S L E C R H U K
      → Type 0
  Registered P n made (id, mgr) =
      Within P (n + 1) mgr × (FlatStorage.get mgr.socket_handlers id.sockslot ≡ some (made id))

-- The slot of a socket that was added, and is then stored with its id.
registered :
    {S L C R H : Type 0} (s t : FlatStorage (TcpSocketHandler S L C R H)) (key count n len : ℕ)
    (v : TcpSocketHandler S L C R H) (made : ReactorId → TcpSocketHandler S L C R H)
    → IsManaged s count
    → FlatStorage.capacity s ≤ n
    → n < half_usize
    → Added s v (key, t)
    → ((id : ReactorId) → stored_id (made id) ≡ id)
    → ((id : ReactorId) → stream_weight (made id) ≡ stream_weight v)
    → IsManaged
        (FlatStorage.put t key (made (id_of key len)))
        (count + stream_weight (made (id_of key len)))
      × (FlatStorage.capacity (FlatStorage.put t key (made (id_of key len))) ≤ n + 1)
      × (FlatStorage.get (FlatStorage.put t key (made (id_of key len))) (key % half_usize)
          ≡ some (made (id_of key len)))
registered s t key count n len v made m fits room a ids weights =
    let w = made (id_of key len) in
    let (inside, reads, _, _) = Added-put s t key v w a in
    let slot : key % half_usize ≡ key = omega (arith, inside, fits, room) in
    (
      add-IsManaged v w m a (weights (id_of key len))
          (ap (λ (i : ReactorId). i.sockslot) (ids (id_of key len)) ∙ slot),
      ground (arith, (put-IsValid t key w a.valid).2, a.growth, fits),
      ground (arith, reads (key % half_usize), slot),
    )

pub same_id_refl : (id : ReactorId) → same_id id id ≡ true
same_id_refl id = ground arith

module _ {S L E C R H U K : Type 0} (world : World S L E C R H U K) (build : Build)
    (P : Channel R H U K → Type 0) (agreeable : IsAgreeable P world) (n : ℕ) where
  -- Where the poller lets go of every socket, closing an id ends without a panic, provided that in a
  -- debug build it is the id that is stored in its slot, if there is one. Afterwards the storage is
  -- valid again, each socket is stored with an id of its slot, `count_streams` is the number of
  -- streams, there are no more slots than before, and the channel satisfies what user code keeps.
  pub close_reactor-Within :
      (mgr : ReactorMgr S L E C R H U K) (id : ReactorId)
      → Within P n mgr
      → MayClose build mgr id
      → Returns (λ (_, mgr'). Within P n mgr') (close_reactor world build mgr id)
  unfolding close_reactor closing
  close_reactor-Within mgr id (m, fits, ok_channel) may =
      let s = mgr.socket_handlers in
      let removed = (get-remove s id.sockslot).0 in
      let (managed, counted) = remove-IsManaged id.sockslot m in
      let slots : FlatStorage.capacity (FlatStorage.remove s id.sockslot).1 ≤ n =
        omega (arith, (len-remove s id.sockslot m.valid).1, fits) in
      elim (Option-cases (FlatStorage.get s id.sockslot)) [
        | inl absent ↦
            rw (removed ∙ absent, close_reactor)
              (_, refl, (rw (absent, sub-zero) at managed, slots, ok_channel))
        | inr (listener_type a sock handler, e) ↦
            rw
              (
                removed ∙ e,
                close_reactor,
                may (listener_type a sock handler) e,
                unwrap_os-done (world.poller_delete_listener mgr.os sock)
                    (agreeable.releases_listener mgr.os sock),
              )
              (
                _,
                refl,
                (
                  rw (e, sub-zero) at managed,
                  slots,
                  agreeable.keeps_on_close_listen handler id mgr.channel ok_channel,
                ),
              )
        | inr (stream_type d reactor, e) ↦
            rw
              (
                removed ∙ e,
                close_reactor,
                may (stream_type d reactor) e,
                sub_usize-done build mgr.count_streams 1 (rw e at counted),
                unwrap_os-done (world.poller_delete_stream mgr.os d.sock)
                    (agreeable.releases_stream mgr.os d.sock),
              )
              (
                _,
                refl,
                (
                  rw e at managed,
                  slots,
                  agreeable.keeps_on_close reactor id mgr.channel ok_channel,
                ),
              )
      ]

module _ {S L E C R H U K : Type 0} (world : World S L E C R H U K) (build : Build)
    (P : Channel R H U K → Type 0) (agreeable : IsAgreeable P world) (n : ℕ)
    (room : n < half_usize) where
  pub add_stream-Registered :
      (mgr : ReactorMgr S L E C R H U K) (size : ℕ) (sock : S) (handler : R)
      → Within P n mgr
      → Returns
          (Registered P n λ id. stream_type (new_data id size sock) handler)
          (add_stream world build mgr size sock handler)
  unfolding add_stream
  add_stream-Registered mgr size sock handler (m, fits, ok_channel) =
      let fresh = stream_type (new_data invalid_reactor_id size sock) handler in
      let ((key, t), e, a) =
        add_correct mgr.socket_handlers fresh m.valid (inl (omega (arith, fits, room))) in
      let id = id_of key (FlatStorage.len t) in
      let (managed, slots, found) =
        registered mgr.socket_handlers t key mgr.count_streams n (FlatStorage.len t) fresh
          (λ i. stream_type (new_data i size sock) handler) m fits room a (λ i. refl) λ i. refl in
      rw
        (
          e,
          add_usize-done build mgr.count_streams 1 (omega (arith, count_le m, fits, room)),
          unwrap_os-done (world.poller_add_stream mgr.os sock (to_usize id))
              (agreeable.accepts_stream mgr.os sock (to_usize id)),
        )
        (_, refl, ((managed, slots, ok_channel), found))

  pub add_listener-Registered :
      (mgr : ReactorMgr S L E C R H U K) (sock : L) (handler : H)
      → Within P n mgr
      → Returns
          (Registered P n λ id. listener_type id sock handler)
          (add_listener world build mgr sock handler)
  unfolding add_listener
  add_listener-Registered mgr sock handler (m, fits, ok_channel) =
      let fresh : TcpSocketHandler S L C R H = listener_type invalid_reactor_id sock handler in
      let ((key, t), e, a) =
        add_correct mgr.socket_handlers fresh m.valid (inl (omega (arith, fits, room))) in
      let id = id_of key (FlatStorage.len t) in
      let (managed, slots, found) =
        registered mgr.socket_handlers t key mgr.count_streams n (FlatStorage.len t) fresh
          (λ i. listener_type i sock handler) m fits room a (λ i. refl) λ i. refl in
      rw
        (
          e,
          unwrap_os-done (world.poller_add_listener mgr.os sock (to_usize id))
              (agreeable.accepts_listener mgr.os sock (to_usize id)),
        )
        (_, refl, ((rw add-zero at managed, slots, ok_channel), found))
