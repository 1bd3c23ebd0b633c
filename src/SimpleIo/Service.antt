-- ===== src/SimpleIo/Service.antt =====
-- The reader that the sockets of a `SimpleIoService` of src/reactor.rs share.
use reactio_rs.Base.{
  ℕ, zero, suc, ◌+◌, ◌-◌, ◌<◌, ◌≡◌, refl, ◌∙◌, ap, List, [], ◌++◌, arith, Build, done, Result,
  Returns, debug_assert-cases, Bool-cases, leb, ltb, ◌==◌, inl, inr, length, ◌>>=◌,
}
use reactio_rs.Socket.{IoResult-cases, Read}
use reactio_rs.MsgReader
use reactio_rs.MsgReader.{
  MsgReader, ReadError, reserve, fill, unread, try_dispatch_all, try_read_all, try_read_fast_read,
  first_error,
}
use reactio_rs.MsgReader.Window.{IsWindow, AgreesOn-done, dispatch_bytes, length-unread}
use reactio_rs.MsgReader.Progress.{try_dispatch_all-agrees}
use reactio_rs.MsgReader.Reading.{IsRead, try_read_all_appends, length-nil}
use reactio_rs.SimpleIo.{
  SimpleIoReactor, SimpleIoService, unborrowed, borrow_mut, new_service, on_inbound_message,
  read_beside, service_on_readable,
}
use reactio_rs.SimpleIo.Drains.{Serves, on_inbound_message-KeepsLength, drains}

module _ {A X M : Type 0} where
  -- Between the calls of the runtime: the service is not borrowed, and its reader holds no byte and
  -- expects no message.
  pub record IsIdle (s : SimpleIoService A X M) : Type 0 where
    pub free : s.borrowed ≡ unborrowed
    pub window : IsWindow s.inner.msg_reader
    pub empty : length (unread s.inner.msg_reader) ≡ 0
    pub decoded : s.inner.msg_reader.decoded_msgsize ≡ 0
    pub serves : Serves s.inner.stream_reactor

  pub new_service-IsIdle : (n : ℕ) (r : SimpleIoReactor A X M) → Serves r → IsIdle (new_service n r)
  unfolding new_service MsgReader.new
  new_service-IsIdle n r serves = record {
    free = refl;
    window = record { start = omega arith; inside = omega arith };
    empty = refl;
    decoded = refl;
    serves = serves;
  }

  try_read_all-beside :
      (read : Read X) (build : Build) (fuel : ℕ) (rd : MsgReader) (x : X)
      (r : SimpleIoReactor A X M)
      → try_read_all (read_beside read) build fuel rd (x, r)
        ≡ (try_read_all read build fuel rd x >>= λ (res, rd', x'). done (res, rd', (x', r)))
  unfolding try_read_all
  try_read_all-beside read build zero rd x r = refl
  try_read_all-beside read build (suc fuel) rd x r =
      let n = length (reserve rd).recv_buffer - (reserve rd).bufsize in
      elim (IoResult-cases (read x n).0) [
        | inr (k, e) ↦ rw (e, try_read_all) refl
        | inl (bytes, e) ↦
            let rest =
              try_read_all-beside read build fuel (fill (reserve rd) bytes) (read x n).1 r in
            rw (e, try_read_all, rest)
              (elim (Bool-cases (length bytes == 0)) [
                | inl none_read ↦ rw none_read refl
                | inr some_read ↦
                    rw some_read
                      (elim (debug_assert-cases build (
                        leb ((reserve rd).bufsize + length bytes)
                          (length (reserve rd).recv_buffer))) [
                            | inr over ↦ rw over refl
                            | inl fits ↦
                                rw fits
                                  (elim (Bool-cases (
                                    ltb (fill (reserve rd) bytes).bufsize
                                      (length (fill (reserve rd) bytes).recv_buffer))) [
                                        | inl last ↦ rw last refl
                                        | inr full ↦ rw full refl
                                      ])
                          ])
              ])
      ]

  -- What a dispatch of `bytes` leaves: the handler saw them, and the reader is empty.
  record Dispatches (build : Build) (bytes : List ℕ) (y : X × SimpleIoReactor A X M)
      (a : Result ReadError (Unit {0}) × MsgReader × (X × SimpleIoReactor A X M)) : Type 0 where
    rest : List ℕ
    handled :
        dispatch_bytes on_inbound_message build (suc (length bytes)) bytes (length bytes) 0 y
        ≡ done (a.0, rest, 0, a.2)
    window : IsWindow a.1
    empty : length (unread a.1) ≡ 0
    decoded : (a.1).decoded_msgsize ≡ 0
    serves : Serves (a.2).1

  try_dispatch_all-Dispatches :
      (build : Build) (rd : MsgReader) (bytes : List ℕ) (x : X) (r : SimpleIoReactor A X M)
      → IsWindow rd
      → unread rd ≡ bytes
      → rd.decoded_msgsize ≡ 0
      → Serves r
      → Returns
          (Dispatches build bytes (x, r))
          (try_dispatch_all on_inbound_message build rd (length bytes) (x, r))
  try_dispatch_all-Dispatches build rd bytes x r w same none_expected serves =
      let (b, e, (nothing, size, serves')) =
        drains build (suc (length bytes)) bytes (length bytes) x r serves (omega arith) in
      let reads : dispatch_bytes on_inbound_message build (suc (length (unread rd))) (unread rd)
            (length bytes) rd.decoded_msgsize (x, r)
          ≡ done b =
        rw (same, none_expected) e in
      let (a, e', agrees) =
        AgreesOn-done (length rd.recv_buffer)
          (try_dispatch_all on_inbound_message build rd (length bytes) (x, r)) b
          (rw reads at (
            try_dispatch_all-agrees on_inbound_message build on_inbound_message-KeepsLength rd
              (length bytes) (x, r) w)) in
      (
        a,
        e',
        record {
          rest = b.1;
          handled =
              rw (agrees.result, agrees.context)
                (e ∙ ap (λ (left : ℕ). done (b.0, b.1, left, b.3)) size);
          window = agrees.window;
          empty = rw agrees.bytes nothing;
          decoded = agrees.decoded ∙ size;
          serves = rw agrees.context serves';
        },
      )

  module _ (received : X → List ℕ) (left : X → ℕ) where
    -- The call gives the handler the bytes that it read from the socket `x`, and these only.
    pub record Served (build : Build) (s : SimpleIoService A X M) (x : X)
        (a : Result ReadError (Unit {0}) × SimpleIoService A X M × X) : Type 0 where
      pub bytes : List ℕ
      pub after_read : X
      pub read_result : Result ReadError (Unit {0})
      pub dispatch_result : Result ReadError (Unit {0})
      pub arrived : received after_read ≡ received x ++ bytes
      pub rest : List ℕ
      pub handled :
          dispatch_bytes on_inbound_message build
            (suc (length bytes))
            bytes
            (length bytes)
            0
            (after_read, s.inner.stream_reactor)
          ≡ done (dispatch_result, rest, 0, (a.2, (a.1).inner.stream_reactor))
      pub result : a.0 ≡ first_error read_result dispatch_result
      pub idle : IsIdle a.1

    -- From sockets with the documented behaviour, a service that is idle, and whose message handler
    -- returns an error or drops at least one of the bytes it is given, serves a readable socket
    -- without a panic in either build, with fuel for a read of each byte left and one more: the
    -- handler is called with exactly the bytes that arrived from this socket, and the service is
    -- idle again, so that no byte of one socket gets into the messages of another.
    pub service_on_readable_isolates :
        (read : Read X) (build : Build)
        → ((x : X) (n : ℕ) → IsRead received left x n (read x n).0 (read x n).1)
        → (fuel : ℕ) (s : SimpleIoService A X M) (x : X) → IsIdle s
        → left x < fuel
        → Returns (Served build s x) (service_on_readable read build fuel s x)
    unfolding service_on_readable borrow_mut try_read_fast_read
    service_on_readable_isolates read build source fuel s x idle f =
        let reader = s.inner.msg_reader in
        let reactor = s.inner.stream_reactor in
        let (a, e, got) =
          try_read_all_appends read build received left source fuel reader x idle.window f in
        let none_before : unread reader ≡ [] = length-nil (unread reader) idle.empty in
        let only : unread a.1 ≡ got.bytes =
          got.unread_bytes ∙ ap (λ (b : List ℕ). b ++ got.bytes) none_before in
        let new_bytes : (a.1).bufsize - (a.1).startpos - (reader.bufsize - reader.startpos)
            ≡ length got.bytes =
          omega (
            arith,
            length-unread a.1 got.window,
            length-unread reader idle.window,
            ap (λ (b : List ℕ). length b) only,
            idle.empty,
          ) in
        let (d, e', sees) =
          try_dispatch_all-Dispatches build a.1 got.bytes a.2 reactor got.window only
            (got.decoded ∙ idle.decoded) idle.serves in
        rw (idle.free, try_read_all-beside read build fuel reader x reactor, e, new_bytes, e')
          (
            _,
            refl,
            record {
              bytes = got.bytes;
              after_read = a.2;
              read_result = a.0;
              dispatch_result = d.0;
              arrived = got.arrived;
              rest = sees.rest;
              handled = sees.handled;
              result = refl;
              idle = record {
                free = refl;
                window = sees.window;
                empty = sees.empty;
                decoded = sees.decoded;
                serves = sees.serves;
              };
            },
          )
