-- ===== src/MsgReader/Framing.antt =====
-- The loop of src/reactor.rs's `try_dispatch_all` over its window does what the one over a list does.
use native.Mathlib.Nat.{add-zero}
use reactio_rs.Base.{
  ℕ, zero, suc, ◌+◌, ◌-◌, ◌≤◌, ◌≡◌, refl, ◌∙◌, ap, List, ◌++◌, Bool, true, false, ◌||◌, ◌&&◌, arith,
  Build, debug_assert-cases, Result, ok, err, ltb, leb, ◌==◌, Bool-cases, inl, inr, length, take,
  drop, length-take, length-drop, length-append, drop-all, drop-drop, drop-append, take-append,
}
use reactio_rs.MsgReader.{
  MsgReader, MessageResult, expect_msg_size, drop_msg_size, ReadError, Dispatcher, Reading, unread,
  write_back, move_front, clear, answered, dispatch_loop,
}
use reactio_rs.MsgReader.Window.{
  IsWindow, Left, answered_bytes, dispatch_bytes, AgreesOn, length-unread, KeepsLength,
}

-- The window after the dispatcher wrote to it, from its `n`-th byte on.
unread-write_back :
    (r : MsgReader) (slice : List ℕ) (n : ℕ)
    → IsWindow r
    → length slice ≡ r.bufsize - r.startpos
    → n ≤ length slice
    → unread (record r { recv_buffer = write_back r slice; startpos = r.startpos + n })
      ≡ drop n slice
unread-write_back r slice n w size h =
    let tail = drop r.bufsize r.recv_buffer in
    let before : length (take r.startpos r.recv_buffer) ≡ r.startpos =
      omega (arith, length-take r.startpos r.recv_buffer, w.start, w.inside) in
    let cut : drop r.startpos (write_back r slice) ≡ slice ++ tail =
      drop-append r.startpos (take r.startpos r.recv_buffer) (slice ++ tail) (omega arith)
      ∙ ap (λ (p : List ℕ). p ++ (slice ++ tail))
          (drop-all r.startpos (take r.startpos r.recv_buffer) (omega arith)) in
    rw (← drop-drop r.startpos n (write_back r slice), cut, drop-append n slice tail h)
      (take-append (r.bufsize - (r.startpos + n)) (drop n slice) tail
        (omega (arith, length-drop n slice)))

unread-whole :
    (r : MsgReader) (slice : List ℕ)
    → IsWindow r
    → length slice ≡ r.bufsize - r.startpos
    → unread (record r { recv_buffer = write_back r slice }) ≡ slice
unread-whole r slice w size = rw add-zero at (unread-write_back r slice 0 w size (omega arith))

length-write_back :
    (r : MsgReader) (slice : List ℕ)
    → IsWindow r
    → length slice ≡ r.bufsize - r.startpos
    → length (write_back r slice) ≡ length r.recv_buffer
length-write_back r slice w size = omega (
  arith,
  length-append (take r.startpos r.recv_buffer) (slice ++ drop r.bufsize r.recv_buffer),
  length-append slice (drop r.bufsize r.recv_buffer),
  length-take r.startpos r.recv_buffer,
  length-drop r.bufsize r.recv_buffer,
  w.start,
  w.inside,
)

move_front_lem :
    (r : MsgReader)
    → IsWindow r
    → (unread (move_front r) ≡ unread r)
      × IsWindow (move_front r)
      × ((move_front r).startpos ≡ 0)
      × (length (move_front r).recv_buffer ≡ length r.recv_buffer)
      × ((move_front r).decoded_msgsize ≡ r.decoded_msgsize)
unfolding move_front
move_front_lem r w = elim (Bool-cases (r.startpos == 0)) [
  | inl front ↦ rw front (refl, w, ground arith, refl, refl)
  | inr inner ↦
      let tail = drop (r.bufsize - r.startpos) r.recv_buffer in
      let size : length (unread r ++ tail) ≡ length r.recv_buffer = omega (
        arith,
        length-append (unread r) tail,
        length-unread r w,
        length-drop (r.bufsize - r.startpos) r.recv_buffer,
        w.start,
        w.inside,
      ) in
      rw inner (
        take-append (r.bufsize - r.startpos - 0) (unread r) tail (omega (arith, length-unread r w)),
        record { start = omega arith; inside = omega (arith, size, w.inside) },
        refl,
        size,
        refl,
      )
]

tests_agree :
    (r : MsgReader) (b : Bool)
    → IsWindow r
    → (ltb r.startpos r.bufsize
        && (r.decoded_msgsize == 0 || leb (r.startpos + r.decoded_msgsize) r.bufsize))
      ≡ b
    → (ltb 0 (length (unread r))
        && (r.decoded_msgsize == 0 || leb r.decoded_msgsize (length (unread r))))
      ≡ b
tests_agree r b w e = rw (length-unread r w) (ground arith)

-- One answer, with next rounds that agree.
answered-agrees :
    {X : Type 0} (build : Build) (a : Result ReadError MessageResult) (r : MsgReader)
    (slice : List ℕ) (have n : ℕ) (x : X) (f : ℕ → Reading X) (g : ℕ → Left X)
    → IsWindow r
    → unread r ≡ slice
    → length r.recv_buffer ≡ n
    → ((k : ℕ) → k ≤ have → AgreesOn n (f k) (g k))
    → AgreesOn n (answered build a r have x f) (answered_bytes build a slice have x g)
unfolding answered answered_bytes clear
answered-agrees build (err e) r slice have n x f g w same size next = record {
  result = refl;
  bytes = refl;
  decoded = refl;
  context = refl;
  window = record { start = omega arith; inside = omega arith };
  front = refl;
  capacity = size;
}
answered-agrees build (ok (expect_msg_size k)) r slice have n x f g w same size next =
    elim (debug_assert-cases build (k == 0 || ltb have k)) [
      | inl fits ↦
          let (moved, window, front, capacity, decoded) =
            move_front_lem (record r { decoded_msgsize = k })
              (record { start = w.start; inside = w.inside }) in
          rw fits (record {
            result = refl;
            bytes = moved ∙ same;
            decoded = decoded;
            context = refl;
            window = window;
            front = front;
            capacity = capacity ∙ size;
          })
      | inr early ↦ rw early tt
    ]
answered-agrees build (ok (drop_msg_size k)) r slice have n x f g w same size next =
    elim (Bool-cases (ltb 0 k && leb k have)) [
      | inl fits ↦ rw fits (next k (ground arith))
      | inr wrong ↦ rw wrong tt
    ]

module _ {X : Type 0} (dispatcher : Dispatcher X) (build : Build)
    (keeps : KeepsLength dispatcher) where
  pub dispatch_loop-agrees :
      (fuel : ℕ) (r : MsgReader) (new_bytes : ℕ) (x : X)
      → IsWindow r
      → AgreesOn
          (length r.recv_buffer)
          (dispatch_loop dispatcher build fuel r new_bytes x)
          (dispatch_bytes dispatcher build fuel (unread r) new_bytes r.decoded_msgsize x)
  unfolding dispatch_loop dispatch_bytes
  dispatch_loop-agrees zero r new_bytes x w = tt
  dispatch_loop-agrees (suc fuel) r new_bytes x w =
      let d = dispatcher x (unread r) new_bytes r.decoded_msgsize in
      let have = r.bufsize - r.startpos in
      let kept : length d.slice ≡ have =
        keeps x (unread r) new_bytes r.decoded_msgsize ∙ length-unread r w in
      let whole = λ (slice : List ℕ) (e : length slice ≡ have). unread-whole r slice w e in
      elim (Bool-cases (
        ltb r.startpos r.bufsize
        && (r.decoded_msgsize == 0 || leb (r.startpos + r.decoded_msgsize) r.bufsize))) [
          | inl go ↦
              rw (go, tests_agree r true w go, length-unread r w)
                (answered-agrees build d.answer (record r { recv_buffer = write_back r d.slice })
                  d.slice have (length r.recv_buffer) d.context _ _
                  (record {
                    start = w.start;
                    inside = rw (length-write_back r d.slice w kept) w.inside;
                  })
                  (whole d.slice kept) (length-write_back r d.slice w kept)
                  λ k h.
                    rw
                      (
                        unread-write_back r d.slice k w kept (omega (arith, kept)),
                        length-write_back r d.slice w kept,
                      )
                      at
                      (dispatch_loop-agrees fuel
                        (record r {
                          recv_buffer = write_back r d.slice;
                          startpos = r.startpos + k;
                          decoded_msgsize = 0;
                        })
                        (have - k) d.context
                        (record {
                          start = omega (arith, w.start);
                          inside = rw (length-write_back r d.slice w kept) w.inside;
                        })))
          | inr stop ↦
              let (moved, window, front, capacity, decoded) = move_front_lem r w in
              rw (stop, tests_agree r false w stop)
                (record {
                  result = refl;
                  bytes = moved;
                  decoded = decoded;
                  context = refl;
                  window = window;
                  front = front;
                  capacity = capacity;
                })
        ]
