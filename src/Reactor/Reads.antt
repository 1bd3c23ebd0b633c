-- ===== src/Reactor/Reads.antt =====
-- The default `on_readable` of src/reactor.rs's `Reactor`: reading, and then dispatching.
use reactio_rs.Base.{ℕ, ◌-◌, ◌<◌, inl, inr, refl, List, Build, Returns}
use reactio_rs.Socket.{IoResult-cases, Read}
use reactio_rs.MsgReader.{Dispatcher, unread, try_read_fast_read}
use reactio_rs.MsgReader.Window.{KeepsLength}
use reactio_rs.MsgReader.Awaits.{Ended-Awaits}
use reactio_rs.MsgReader.Progress.{KeepsContract, try_dispatch_all-Returns}
use reactio_rs.MsgReader.Waiting.{IsWaiting, IsLeft-partial}
use reactio_rs.MsgReader.Reading.{IsRead, try_read_all_appends}
use reactio_rs.Manager.{Context}
use reactio_rs.Reactor.{read_socket, on_readable}

module _ {S C R H U K : Type 0} (read : Read S) (inbound : Dispatcher (R × Context S C R H U K))
    (build : Build) (received : S → List ℕ) (left : S → ℕ) where
  read_socket-IsRead :
      ((s : S) (n : ℕ) → IsRead received left s n (read s n).0 (read s n).1)
      → (y : R × Context S C R H U K) (n : ℕ)
      → IsRead
          (λ (z : R × Context S C R H U K). received z.1.sock)
          (λ (z : R × Context S C R H U K). left z.1.sock)
          y
          n
          (read_socket read y n).0
          (read_socket read y n).1
  read_socket-IsRead source (reactor, ctx) n = elim (IoResult-cases (read ctx.sock n).0) [
    | inl (bytes, e) ↦ rw e (rw e at (source ctx.sock n))
    | inr (kind, e) ↦ rw e (rw e at (source ctx.sock n))
  ]

  -- From a socket with the documented behaviour, and with an `on_inbound_message` that keeps its
  -- documented contract and the length of the slice, the default `on_readable` of a reader that waits
  -- ends without a panic in either build, with fuel for a read of each byte left and one more.
  -- Whatever it returns, the reader waits again: at the front of its buffer stands no byte, with no
  -- size expected, or bytes that a call of `on_inbound_message` was given, with those that arrived
  -- later. The expected size is what that call answered; it is more than the bytes that are there, or
  -- it is unknown, and then none arrived later.
  pub on_readable-IsWaiting :
      ((s : S) (n : ℕ) → IsRead received left s n (read s n).0 (read s n).1)
      → KeepsLength inbound
      → KeepsContract inbound
      → (fuel : ℕ) (reactor : R) (ctx : Context S C R H U K) → IsWaiting inbound ctx.reader
      → left ctx.sock < fuel
      → Returns
          (λ (_, _, ctx'). IsWaiting inbound ctx'.reader)
          (on_readable read inbound build fuel reactor ctx)
  unfolding on_readable try_read_fast_read
  on_readable-IsWaiting source keeps contract fuel reactor ctx waiting f =
      let (a, e, got) =
        try_read_all_appends (read_socket read) build
          (λ (z : R × Context S C R H U K). received z.1.sock)
          (λ (z : R × Context S C R H U K). left z.1.sock) (read_socket-IsRead source) fuel
          ctx.reader (reactor, ctx) waiting.window f in
      let new_bytes = (a.1).bufsize - (a.1).startpos - (ctx.reader.bufsize - ctx.reader.startpos) in
      let (b, e', (rest, window, front, _)) =
        try_dispatch_all-Returns inbound build keeps contract a.1 new_bytes a.2 got.window in
      rw (e, e')
        (
          _,
          refl,
          record {
            window = window;
            front = front;
            partial = IsLeft-partial b.0 (unread b.1) (b.1).decoded_msgsize rest.0;
            awaits =
                Ended-Awaits inbound (unread ctx.reader) got.bytes (unread a.1)
                  (a.1).decoded_msgsize a.2 b.0 (unread b.1) (b.1).decoded_msgsize b.2
                  (rw got.decoded waiting.awaits) got.unread_bytes rest.1;
          },
        )
