-- ===== src/Manager/Reuse.antt =====
-- The ids of src/reactor.rs's `ReactorMgr` over time: `ReactorID.ver` is the number of the sockets at
-- the registration, so that an id comes back.
use reactio_rs.Base.{
  ◌≤◌, ◌-◌, usize_max, add_usize-done, arith, Build, ℕ, ◌%◌, ◌≡◌, refl, some, Returns,
  debug_assert-true,
}
use reactio_rs.FlatStorage
use reactio_rs.FlatStorage.{FlatStorage}
use reactio_rs.FlatStorage.Laws.{IsValid, add-remove}
use reactio_rs.ReactorId.{ReactorId, half_usize, to_usize, invalid_reactor_id}
use reactio_rs.ReactorId.Laws.{IsHalves}
use reactio_rs.Manager.{
  World, SockData, stream_type, ReactorMgr, id_of, new_data, add_stream, close_reactor,
}
use reactio_rs.Manager.Close.{Succeeds, unwrap_os-done, closed_mgr, close_reactor_found}
use reactio_rs.Manager.Open.{HasSlot, add_stream_correct}

module _ {S L E C R H U K : Type 0} (world : World S L E C R H U K) (build : Build)
    (accepts : (os : E) (sock : S) (key : ℕ) → Succeeds (world.poller_add_stream os sock key)) where
  -- A stream in a slot that was freed last gets the id that the slot had, if as many sockets are
  -- registered then as were when that id was given.
  reopen :
      (mgr : ReactorMgr S L E C R H U K) (id : ReactorId) (d : SockData S C) (reactor : R)
      (size : ℕ) (sock : S) (handler : R)
      → IsValid mgr.socket_handlers
      → FlatStorage.get mgr.socket_handlers id.sockslot ≡ some (stream_type d reactor)
      → IsHalves id
      → mgr.count_streams ≤ usize_max
      → id.ver ≡ FlatStorage.len mgr.socket_handlers % half_usize
      → Returns
          (λ (id', mgr'). id' ≡ id)
          (add_stream world build (closed_mgr world mgr id d reactor) size sock handler)
  unfolding add_stream
  reopen mgr id d reactor size sock handler valid found halves counted version =
      let fresh = stream_type (new_data invalid_reactor_id size sock) handler in
      let (t, e, _, same_len) =
        add-remove mgr.socket_handlers id.sockslot (stream_type d reactor) fresh valid found in
      let slot : id.sockslot % half_usize ≡ id.sockslot = omega (arith, halves.0) in
      let id' = id_of id.sockslot (FlatStorage.len t) in
      rw
        (
          e,
          add_usize-done build (mgr.count_streams - 1) 1 (omega arith),
          unwrap_os-done (world.poller_add_stream _ sock (to_usize id'))
              (accepts _ sock (to_usize id')),
        )
        (_, refl, ground (arith, slot, version, same_len))

  -- A stream is registered and closed, and another one is registered: both get the same id, so ids are
  -- not unique over time. It takes a slot that is left, and a poller that accepts every stream and
  -- lets go of the first one.
  pub id_reused :
      (mgr : ReactorMgr S L E C R H U K) (size size' : ℕ) (sock sock' : S) (handler handler' : R)
      → HasSlot world build mgr
      → ((os : E) → Succeeds (world.poller_delete_stream os sock))
      → Returns
          (λ (id, opened).
            Returns
              (λ (_, closed).
                Returns (λ (id', _). id' ≡ id) (add_stream world build closed size' sock' handler'))
              (close_reactor world build opened id))
          (add_stream world build mgr size sock handler)
  id_reused mgr size size' sock sock' handler handler' h releases =
      let ((id, opened), e, o) =
        add_stream_correct world build mgr size sock handler h (λ key. accepts mgr.os sock key) in
      let d = new_data id size sock in
      let found : FlatStorage.get opened.socket_handlers id.sockslot
          ≡ some (stream_type d handler) =
        ground (arith, o.reads id.sockslot) in
      (
        (id, opened),
        e,
        (
          _,
          close_reactor_found world opened id d handler found build
              (ground (arith, debug_assert-true build)) (omega (arith, o.count)) releases,
          reopen opened id d handler size' sock' handler' o.valid found o.halves
              (omega (arith, o.count, h.counted)) o.version,
        ),
      )
