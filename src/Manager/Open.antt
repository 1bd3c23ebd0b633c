-- ===== src/Manager/Open.antt =====
-- `add_stream` of src/reactor.rs's `ReactorMgr`, and the `close_reactor` of the id that it returns.
use reactio_rs.Base.{
  ℕ, ◌+◌, ◌%◌, ◌<◌, ◌≡◌, refl, ap, sym, ◌∙◌, true, none, some, arith, Build, if◌then◌else◌, Returns,
  ◌==◌, inl, usize_max, add_usize-done, debug_assert-true,
}
use reactio_rs.FlatStorage
use reactio_rs.FlatStorage.{FlatStorage}
use reactio_rs.FlatStorage.Laws.{IsValid, add_correct, get-remove}
use reactio_rs.ReactorId.{ReactorId, half_usize, to_usize, invalid_reactor_id}
use reactio_rs.ReactorId.Laws.{IsHalves}
use reactio_rs.Manager.{World, stream_type, ReactorMgr, id_of, new_data, add_stream, close_reactor}
use reactio_rs.FlatStorage.Keys.{Added-put}
use reactio_rs.Manager.Close.{Succeeds, unwrap_os-done, close_reactor_found}

module _ {S L E C R H U K : Type 0} (world : World S L E C R H U K) (build : Build)
    (mgr : ReactorMgr S L E C R H U K) where
  -- There is a slot whose number fits in an id, and one more stream can be counted.
  pub record HasSlot : Type 0 where
    pub valid : IsValid mgr.socket_handlers
    pub counted : mgr.count_streams < usize_max
    pub room : FlatStorage.capacity mgr.socket_handlers < half_usize

  -- What a stream's registration leaves, for the id that it returns.
  pub record Opened (size : ℕ) (sock : S) (handler : R) (r : ReactorId × ReactorMgr S L E C R H U K)
      : Type 0 where
    pub halves : IsHalves r.0
    pub fresh : FlatStorage.get mgr.socket_handlers (r.0).sockslot ≡ none
    pub reads :
        (j : ℕ)
        → FlatStorage.get (r.1).socket_handlers j ≡ (
            if (r.0).sockslot == j
            then some (stream_type (new_data r.0 size sock) handler)
            else FlatStorage.get mgr.socket_handlers j)
    pub valid : IsValid (r.1).socket_handlers
    pub count : (r.1).count_streams ≡ mgr.count_streams + 1
    pub channel : (r.1).channel ≡ mgr.channel
    pub version : (r.0).ver ≡ FlatStorage.len (r.1).socket_handlers % half_usize

  -- If a slot is left and the poller accepts the socket, `add_stream` returns an id of two 32-bit
  -- halves whose slot was free. The slot then holds the reactor with this id, and no other slot changes.
  pub add_stream_correct :
      (size : ℕ) (sock : S) (handler : R)
      → HasSlot
      → ((key : ℕ) → Succeeds (world.poller_add_stream mgr.os sock key))
      → Returns (Opened size sock handler) (add_stream world build mgr size sock handler)
  unfolding add_stream
  add_stream_correct size sock handler h accepts =
      let ((key, t), e, a) =
        add_correct mgr.socket_handlers
          (stream_type (new_data invalid_reactor_id size sock) handler) h.valid
          (inl (omega (arith, h.room))) in
      let id = id_of key (FlatStorage.len t) in
      let stream = stream_type (new_data id size sock) handler in
      let (fits, reads, valid, same_len) = Added-put mgr.socket_handlers t key _ stream a in
      let slot : key % half_usize ≡ key = omega (arith, h.room) in
      rw
        (
          e,
          add_usize-done build mgr.count_streams 1 (omega (arith, h.counted)),
          unwrap_os-done (world.poller_add_stream mgr.os sock (to_usize id))
              (accepts (to_usize id)),
        )
        (
          _,
          refl,
          record {
            halves = (omega arith, omega arith);
            fresh = rw slot a.fresh;
            reads = λ j.
                reads j
                ∙ sym (
                    ap
                      (λ (k : ℕ).
                        if k == j then some stream else FlatStorage.get mgr.socket_handlers j)
                      slot);
            valid = valid;
            count = refl;
            channel = refl;
            version = ap (λ (n : ℕ). n % half_usize) (sym same_len);
          },
        )

  -- If a slot is left, and the poller accepts the socket and lets go of it again, closing the id
  -- that `add_stream` returned succeeds in both builds: every slot and the number of streams are
  -- as before, and the reactor's `on_close` was called with this id.
  pub add_stream-close_reactor :
      (size : ℕ) (sock : S) (handler : R)
      → HasSlot
      → ((key : ℕ) → Succeeds (world.poller_add_stream mgr.os sock key))
      → ((os : E) → Succeeds (world.poller_delete_stream os sock))
      → Returns
          (λ (id, opened).
            Returns
              (λ (closed, mgr').
                (closed ≡ true)
                × ((j : ℕ)
                    → FlatStorage.get mgr'.socket_handlers j
                      ≡ FlatStorage.get mgr.socket_handlers j)
                × (mgr'.count_streams ≡ mgr.count_streams)
                × (mgr'.channel ≡ world.on_close handler id mgr.channel))
              (close_reactor world build opened id))
          (add_stream world build mgr size sock handler)
  add_stream-close_reactor size sock handler h accepts releases =
      let ((id, opened), e, o) = add_stream_correct size sock handler h accepts in
      let found : FlatStorage.get opened.socket_handlers id.sockslot
          ≡ some (stream_type (new_data id size sock) handler) =
        ground (arith, o.reads id.sockslot) in
      (
        (id, opened),
        e,
        (
          _,
          close_reactor_found world opened id (new_data id size sock) handler found build
              (ground (arith, debug_assert-true build)) (omega (arith, o.count)) releases,
          (
            refl,
            λ j.
                ground
                  (arith, (get-remove opened.socket_handlers id.sockslot).1 j, o.reads j, o.fresh),
            ground (arith, o.count),
            ap (world.on_close handler id) o.channel,
          ),
        ),
      )
