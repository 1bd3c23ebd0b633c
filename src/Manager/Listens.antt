-- ===== src/Manager/Listens.antt =====
-- `start_listen` of src/reactor.rs's `ReactorMgr` keeps the invariant.
use reactio_rs.Base.{ℕ, ◌+◌, ◌<◌, ◌≡◌, refl, arith, some, Build, Returns, inl, inr}
use reactio_rs.FlatStorage
use reactio_rs.FlatStorage.{FlatStorage}
use reactio_rs.FlatStorage.Laws.{put-IsValid}
use reactio_rs.ReactorId.{ReactorId, half_usize}
use reactio_rs.Socket.{IoResult-cases}
use Prim.Native.String.{String}
use reactio_rs.Command.{Channel}
use reactio_rs.Manager.{
  World, TcpSocketHandler, listener_type, stream_type, ReactorMgr, listening, start_listen,
}
use reactio_rs.Manager.Managed.{put-IsManaged}
use reactio_rs.Manager.Invariant.{IsAgreeable, Within, add_listener-Registered}

module _ {S L E C R H U K : Type 0} (world : World S L E C R H U K) (build : Build)
    (P : Channel R H U K → Type 0) (agreeable : IsAgreeable P world) (n : ℕ)
    (room : n < half_usize) where
  listening-Within :
      (mgr : ReactorMgr S L E C R H U K) (id : ReactorId) (h : TcpSocketHandler S L C R H)
      → Within P (n + 1) mgr
      → FlatStorage.get mgr.socket_handlers id.sockslot ≡ some h
      → Within P (n + 1) (listening world build mgr id h).1
  unfolding listening
  listening-Within mgr id (stream_type _ _) within found = within
  listening-Within mgr id (listener_type a sock handler) (m, fits, ok_channel) found =
      let w = listener_type a sock (world.on_start_listen handler id mgr.channel).0 in
      (
        put-IsManaged id.sockslot (listener_type a sock handler) w m found refl
            (m.named id.sockslot _ found),
        omega (arith, (put-IsValid mgr.socket_handlers id.sockslot w m.valid).2, fits),
        agreeable.keeps_on_start_listen handler id mgr.channel ok_channel,
      )

  pub start_listen-Within :
      (mgr : ReactorMgr S L E C R H U K) (addr : String) (handler : H)
      → Within P n mgr
      → Returns (λ (_, mgr'). Within P (n + 1) mgr') (start_listen world build mgr addr handler)
  unfolding start_listen
  start_listen-Within mgr addr handler (m, fits, ok_channel) =
      elim (IoResult-cases (world.bind mgr.os addr).0) [
        | inr (k, e) ↦ rw (e, start_listen) (_, refl, (m, omega arith, ok_channel))
        | inl (socket, e) ↦
            let os = (world.bind mgr.os addr).1 in
            elim (IoResult-cases (world.listener_nonblocking os socket).0) [
              | inr (k, e') ↦ rw (e, start_listen, e') (_, refl, (m, omega arith, ok_channel))
              | inl (_, e') ↦
                  let ((id, mgr'), added, (within, found)) =
                    add_listener-Registered world build P agreeable n room
                      (record mgr { os = (world.listener_nonblocking os socket).1 }) socket handler
                      (m, fits, ok_channel) in
                  rw (e, start_listen, e', added, found)
                    (
                      _,
                      refl,
                      listening-Within mgr' id (listener_type id socket handler) within found,
                    )
            ]
      ]
