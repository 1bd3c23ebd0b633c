-- ===== src/Manager/Connects.antt =====
-- `start_connect` of src/reactor.rs's `ReactorMgr` keeps the invariant, whatever `on_connected` answers.
use mathlib.Core.Option.{some-injective}
use reactio_rs.Base.{
  ℕ, ◌+◌, ◌<◌, ◌≡◌, refl, sym, ap, arith, true, some, Build, done, debug_assert, debug_assert-true,
  Returns, inl, inr, Bool-cases, ◌∙◌,
}
use Prim.Native.String.{String}
use reactio_rs.FlatStorage
use reactio_rs.FlatStorage.{FlatStorage}
use reactio_rs.FlatStorage.Laws.{get-put, put-IsValid}
use reactio_rs.ReactorId.{ReactorId, half_usize, invalid_reactor_id, same_id}
use reactio_rs.Socket.{IoResult-cases}
use reactio_rs.Command.{Channel}
use reactio_rs.Manager.{
  World, SockData, TcpSocketHandler, stream_type, ReactorMgr, new_data, connecting, start_connect,
  data_after, context_of,
}
use reactio_rs.Manager.Managed.{stored_id, stream_weight, put-IsManaged}
use reactio_rs.Manager.Invariant.{
  IsAgreeable, Within, MayClose, same_id_refl, close_reactor-Within, add_stream-Registered,
}

module _ {S L E C R H U K : Type 0} (world : World S L E C R H U K) (build : Build)
    (P : Channel R H U K → Type 0) where
  -- A write of a socket of the same kind and with the same id, and the check on the id if it is
  -- closed then.
  pub put_socket-Within :
      (n : ℕ) (mgr mgr' : ReactorMgr S L E C R H U K) (id : ReactorId)
      (u w : TcpSocketHandler S L C R H)
      → Within P n mgr
      → FlatStorage.get mgr.socket_handlers id.sockslot ≡ some u
      → stream_weight w ≡ stream_weight u
      → stored_id w ≡ stored_id u
      → mgr'.socket_handlers ≡ FlatStorage.put mgr.socket_handlers id.sockslot w
      → mgr'.count_streams ≡ mgr.count_streams
      → P mgr'.channel
      → Within P n mgr'
        × (debug_assert build (same_id id (stored_id u)) ≡ done tt → MayClose build mgr' id)
  put_socket-Within n mgr mgr' id u w (m, fits, _) found same_kind same_name written same_count
        ok_channel =
      let slot : (stored_id w).sockslot ≡ id.sockslot =
        ap (λ (i : ReactorId). i.sockslot) same_name ∙ m.named id.sockslot u found in
      (
        rw (written, same_count)
            (
              put-IsManaged id.sockslot u w m found same_kind slot,
              omega (arith, (put-IsValid mgr.socket_handlers id.sockslot w m.valid).2, fits),
              ok_channel,
            ),
        λ same h e.
            let here : FlatStorage.get mgr'.socket_handlers id.sockslot ≡ some w =
              rw written
                (ground (arith, get-put mgr.socket_handlers id.sockslot id.sockslot w, found)) in
            let it : w ≡ h = some-injective w h (sym here ∙ e) in rw (← it, same_name) same,
      )

  pub put_stream-Within :
      (n : ℕ) (mgr mgr' : ReactorMgr S L E C R H U K) (id : ReactorId) (d d' : SockData S C)
      (r r' : R)
      → Within P n mgr
      → FlatStorage.get mgr.socket_handlers id.sockslot ≡ some (stream_type d r)
      → d'.reactorid ≡ d.reactorid
      → mgr'.socket_handlers ≡ FlatStorage.put mgr.socket_handlers id.sockslot (stream_type d' r')
      → mgr'.count_streams ≡ mgr.count_streams
      → P mgr'.channel
      → Within P n mgr' × (same_id id d.reactorid ≡ true → MayClose build mgr' id)
  put_stream-Within n mgr mgr' id d d' r r' within found same_name written same_count ok_channel =
      let (kept, may) =
        put_socket-Within n mgr mgr' id (stream_type d r) (stream_type d' r') within found refl
          same_name written same_count ok_channel in
      (kept, λ same. may (rw same (debug_assert-true build)))

module _ {S L E C R H U K : Type 0} (world : World S L E C R H U K) (build : Build)
    (P : Channel R H U K → Type 0) (agreeable : IsAgreeable P world) where
  connecting-Within :
      (n : ℕ) (mgr : ReactorMgr S L E C R H U K) (id listener : ReactorId) (d : SockData S C)
      (reactor : R)
      → Within P n mgr
      → FlatStorage.get mgr.socket_handlers id.sockslot ≡ some (stream_type d reactor)
      → same_id id d.reactorid ≡ true
      → Returns
          (λ (_, mgr'). Within P n mgr')
          (connecting world build mgr id listener (stream_type d reactor))
  unfolding connecting
  connecting-Within n mgr id listener d reactor within found same =
      let answer = world.on_connected reactor (context_of d mgr.channel) listener in
      let d' = data_after d answer.2 in
      let mgr' = record mgr {
        socket_handlers = FlatStorage.put mgr.socket_handlers id.sockslot (stream_type d' answer.1);
        channel = (answer.2).cmd_sender;
      } in
      let (kept, may) =
        put_stream-Within world build P n mgr mgr' id d d' reactor answer.1 within found refl refl
          refl
          (agreeable.keeps_on_connected reactor (context_of d mgr.channel) listener within.2) in
      let (closed, e, after) =
        close_reactor-Within world build P agreeable n mgr' id kept (may same) in
      elim (Bool-cases answer.0) [
        | inl accepted ↦ rw accepted (_, refl, kept)
        | inr refused ↦ rw (refused, e) (_, refl, after)
      ]

  pub start_connect-Within :
      (n : ℕ)
      → n < half_usize
      → (mgr : ReactorMgr S L E C R H U K) (addr : String) (size : ℕ) (handler : R) → Within P n mgr
      → Returns
          (λ (_, mgr'). Within P (n + 1) mgr')
          (start_connect world build mgr addr size handler)
  unfolding start_connect
  start_connect-Within n room mgr addr size handler (m, fits, ok_channel) =
      elim (IoResult-cases (world.connect mgr.os addr).0) [
        | inr (k, e) ↦ rw (e, start_connect) (_, refl, (m, omega arith, ok_channel))
        | inl (socket, e) ↦
            let os = (world.connect mgr.os addr).1 in
            elim (IoResult-cases (world.stream_nonblocking os socket).0) [
              | inr (k, e') ↦ rw (e, start_connect, e') (_, refl, (m, omega arith, ok_channel))
              | inl (_, e') ↦
                  let ((id, mgr'), added, (within, found)) =
                    add_stream-Registered world build P agreeable n room
                      (record mgr { os = (world.stream_nonblocking os socket).1 }) size socket
                      handler (m, fits, ok_channel) in
                  let (r, connected, after) =
                    connecting-Within (n + 1) mgr' id invalid_reactor_id (new_data id size socket)
                      handler within found (same_id_refl id) in
                  rw (e, start_connect, e', added, found, connected) (_, refl, after)
            ]
      ]
