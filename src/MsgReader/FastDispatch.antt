-- ===== src/MsgReader/FastDispatch.antt =====
-- `try_read_fast_dispatch` of src/reactor.rs's `MsgReader`: a dispatch behind each read.
use reactio_rs.Base.{
  ℕ, zero, suc, ◌+◌, ◌-◌, ◌≤◌, ◌<◌, ◌≡◌, refl, ◌∙◌, ap, subst, List, ◌++◌, true, ◌||◌, ◌&&◌, arith,
  Build, done, Result, ok, err, Returns, Holds, debug_assert-true, debug_assert-cases, ltb, leb,
  ◌==◌, Bool-cases, Result-cases, inl, inr, length, drop,
}
use reactio_rs.Socket.{IoResult-cases, Read}
use reactio_rs.MsgReader.{
  MsgReader, MessageResult, expect_msg_size, drop_msg_size, ReadError, Dispatcher, unread, reserve,
  fill, try_dispatch_all, try_read_fast_dispatch,
}
use reactio_rs.MsgReader.Window.{
  IsWindow, AgreesOn-done, KeepsLength, Left, answered_bytes, dispatch_bytes, length-unread,
}
use reactio_rs.MsgReader.Awaits.{Awaits, Ended-Awaits}
use reactio_rs.MsgReader.Progress.{KeepsContract, try_dispatch_all-agrees, dispatch_bytes-Returns}
use reactio_rs.MsgReader.Reading.{IsRead}
use reactio_rs.MsgReader.Buffer.{reserve-Roomier, fill-IsWindow}
use reactio_rs.MsgReader.Waiting.{IsWaiting, IsLeft-partial}

module _ {X : Type 0} (dispatcher : Dispatcher X) (build : Build) (left : X → ℕ)
    (takes : (x : X) (bytes : List ℕ) (n d : ℕ)
      → left (dispatcher x bytes n d).context ≤ left x) where
  dispatch_bytes-Holds :
      (fuel : ℕ) (bytes : List ℕ) (new_bytes decoded : ℕ) (x : X) (m : ℕ)
      → left x ≤ m
      → Holds (λ b. left b.3 ≤ m) (dispatch_bytes dispatcher build fuel bytes new_bytes decoded x)
  unfolding dispatch_bytes answered_bytes
  dispatch_bytes-Holds zero bytes new_bytes decoded x m h = tt
  dispatch_bytes-Holds (suc fuel) bytes new_bytes decoded x m h =
      let d = dispatcher x bytes new_bytes decoded in
      let less : left d.context ≤ m = omega (arith, takes x bytes new_bytes decoded) in
      elim (Bool-cases (ltb 0 (length bytes) && (decoded == 0 || leb decoded (length bytes)))) [
        | inr stop ↦ rw stop h
        | inl go ↦ rw go (
            answers d.answer d.slice (length bytes) d.context _ less
              λ k. dispatch_bytes-Holds fuel (drop k d.slice) (length bytes - k) 0 d.context m less)
      ]
    where
      answers :
          (a : Result ReadError MessageResult) (slice : List ℕ) (have : ℕ) (y : X)
          (next : ℕ → Left X)
          → left y ≤ m
          → ((k : ℕ) → Holds (λ b. left b.3 ≤ m) (next k))
          → Holds (λ b. left b.3 ≤ m) (answered_bytes build a slice have y next)
      answers (err e) slice have y next less go = less
      answers (ok (expect_msg_size k)) slice have y next less go =
          elim (debug_assert-cases build (k == 0 || ltb have k)) [
            | inl fits ↦ rw fits less
            | inr early ↦ rw early tt
          ]
      answers (ok (drop_msg_size k)) slice have y next less go =
          elim (Bool-cases (ltb 0 k && leb k have)) [
            | inl fits ↦ rw fits (go k)
            | inr wrong ↦ rw wrong tt
          ]

  -- A dispatch leaves the reader waiting, and brings no byte back.
  dispatched-IsWaiting :
      KeepsLength dispatcher
      → KeepsContract dispatcher
      → (old bytes : List ℕ) (r : MsgReader) (new_bytes : ℕ) (x : X)
      → Awaits dispatcher old r.decoded_msgsize
      → unread r ≡ old ++ bytes
      → IsWindow r
      → Returns
          (λ (_, r', x'). IsWaiting dispatcher r' × (left x' ≤ left x))
          (try_dispatch_all dispatcher build r new_bytes x)
  dispatched-IsWaiting keeps contract old bytes r new_bytes x awaits behind w =
      let fuel = suc (length (unread r)) in
      let (b, e, rest) =
        dispatch_bytes-Returns dispatcher build keeps contract fuel (unread r) new_bytes
          r.decoded_msgsize x (omega arith) in
      let less : left b.3 ≤ left x = subst (Holds (λ c. left c.3 ≤ left x)) e (
        dispatch_bytes-Holds fuel (unread r) new_bytes r.decoded_msgsize x (left x)
          (omega arith)) in
      let (a, e', same) =
        AgreesOn-done (length r.recv_buffer) (try_dispatch_all dispatcher build r new_bytes x) b
          (rw e at (try_dispatch_all-agrees dispatcher build keeps r new_bytes x w)) in
      (
        a,
        e',
        (
          record {
            window = same.window;
            front = same.front;
            partial = rw (same.bytes, same.decoded) (IsLeft-partial b.0 b.1 b.2 rest.0);
            awaits =
                rw (same.bytes, same.decoded)
                  (Ended-Awaits dispatcher old bytes (unread r) r.decoded_msgsize x b.0 b.1 b.2 b.3
                    awaits behind rest.1);
          },
          rw same.context less,
        ),
      )

module _ {X : Type 0} (read : Read X) (dispatcher : Dispatcher X) (build : Build)
    (received : X → List ℕ) (left : X → ℕ)
    (source : (x : X) (n : ℕ) → IsRead received left x n (read x n).0 (read x n).1)
    (takes : (x : X) (bytes : List ℕ) (n d : ℕ) → left (dispatcher x bytes n d).context ≤ left x)
    (keeps : KeepsLength dispatcher) (contract : KeepsContract dispatcher) where
  -- From a socket with the documented behaviour, with a dispatcher that keeps its documented contract
  -- and the length of the slice, and that brings no byte back to the socket, a reader that waits for
  -- bytes ends `try_read_fast_dispatch` without a panic in either build, with fuel for a read of each
  -- byte left and one more, and waits again: at the front of its buffer stands no byte, with no size
  -- expected, or bytes that a call of the dispatcher was given, with those that arrived later. The
  -- expected size is what that call answered; it is more than the bytes that are there, or it is
  -- unknown, and then none arrived later.
  pub try_read_fast_dispatch-IsWaiting :
      (fuel : ℕ) (r : MsgReader) (x : X)
      → IsWaiting dispatcher r
      → left x < fuel
      → Returns
          (λ (_, r', _). IsWaiting dispatcher r')
          (try_read_fast_dispatch read dispatcher build fuel r x)
  unfolding try_read_fast_dispatch
  try_read_fast_dispatch-IsWaiting zero r x waiting f = absurd (omega arith)
  try_read_fast_dispatch-IsWaiting (suc fuel) r x waiting f =
      let more = reserve-Roomier r waiting.window in
      let reserved : IsWaiting dispatcher (reserve r) = record {
        window = more.window;
        front = more.start_same ∙ waiting.front;
        partial = rw (more.unread_same, more.decoded_same) waiting.partial;
        awaits = rw (more.unread_same, more.decoded_same) waiting.awaits;
      } in
      let n = length (reserve r).recv_buffer - (reserve r).bufsize in
      let x' = (read x n).1 in
      let ready : (r.decoded_msgsize == 0 || ltb (r.bufsize - r.startpos) r.decoded_msgsize)
          ≡ true =
        ground (arith, length-unread r waiting.window, waiting.partial) in
      elim (IoResult-cases (read x n).0) [
        | inr (k, e) ↦
            rw (ready, debug_assert-true build, e, try_read_fast_dispatch) (_, refl, reserved)
        | inl (bytes, e) ↦
            let (room, arrived, shrunk) =
              subst (λ res. IsRead received left x n res x') e (source x n) in
            let (window, behind, _, size) = fill-IsWindow (reserve r) bytes more.window room in
            let r2 = fill (reserve r) bytes in
            let fits : leb ((reserve r).bufsize + length bytes) (length (reserve r).recv_buffer)
                ≡ true =
              ground (arith, room, more.window.inside) in
            let ((res, r3, x3), dispatched, (waiting', less)) =
              dispatched-IsWaiting dispatcher build left takes keeps contract (unread (reserve r))
                bytes r2 (length bytes) x' (rw size reserved.awaits) behind window in
            elim (Bool-cases (length bytes == 0)) [
              | inl none_read ↦
                  rw (ready, debug_assert-true build, e, try_read_fast_dispatch, none_read)
                    (_, refl, reserved)
              | inr some_read ↦ elim (Result-cases res) [
                | inr (failure, e') ↦
                    rw
                      (
                        ready,
                        debug_assert-true build,
                        e,
                        try_read_fast_dispatch,
                        some_read,
                        fits,
                        debug_assert-true build,
                        dispatched ∙ ap (λ z. done (z, r3, x3)) e',
                      )
                      (_, refl, waiting')
                | inl (_, e') ↦
                    let (a, e'', after) =
                      try_read_fast_dispatch-IsWaiting fuel r3 x3 waiting'
                        (ground (arith, shrunk, less, f, some_read)) in
                    elim (Bool-cases (ltb r2.bufsize (length r2.recv_buffer))) [
                      | inl last ↦
                          rw
                            (
                              ready,
                              debug_assert-true build,
                              e,
                              try_read_fast_dispatch,
                              some_read,
                              fits,
                              debug_assert-true build,
                              dispatched ∙ ap (λ z. done (z, r3, x3)) e',
                              last,
                            )
                            (_, refl, waiting')
                      | inr full ↦
                          rw
                            (
                              ready,
                              debug_assert-true build,
                              e,
                              try_read_fast_dispatch,
                              some_read,
                              fits,
                              debug_assert-true build,
                              dispatched ∙ ap (λ z. done (z, r3, x3)) e',
                              full,
                              e'',
                            )
                            (_, refl, after)
                    ]
              ]
            ]
      ]
