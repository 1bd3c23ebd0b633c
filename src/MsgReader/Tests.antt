-- ===== src/MsgReader/Tests.antt =====
-- Dispatching of src/reactor.rs's `MsgReader` with a concrete dispatcher: the first byte of a message
-- is its size, and the context is the list of the messages that were dispatched.
use reactio_rs.Base.{
  ℕ, ◌+◌, ◌≡◌, refl, List, [], ◌∷◌, ◌++◌, arith, Result, ok, err, done, debug, Returns, ltb, ◌==◌,
  if◌then◌else◌, Bool-cases, inl, inr, length,
}
use reactio_rs.MsgReader
use reactio_rs.MsgReader.Waiting.{IsWaiting}
use reactio_rs.MsgReader.FastDispatch.{try_read_fast_dispatch-IsWaiting}
use reactio_rs.MsgReader.Pipe.{Pipe, read_pipe, read_pipe-IsRead}
use reactio_rs.MsgReader.Reading.{Appended, try_read_all_appends}
use reactio_rs.MsgReader.{
  try_read_all, try_read_fast_dispatch, MsgReader, MessageResult, expect_msg_size, drop_msg_size,
  ReadError, rejected, Dispatcher, unread, answered, dispatch_loop, try_dispatch_all, move_front,
}
use reactio_rs.MsgReader.Window.{IsWindow, KeepsLength, AgreesOn, dispatch_bytes}
use reactio_rs.MsgReader.Progress.{
  try_dispatch_all-agrees, KeepsContract, IsAnswer, Leaves, try_dispatch_all-Returns,
}

unfoldable answer : List ℕ → Result ReadError MessageResult
answer [] = ok (expect_msg_size 0)
answer (size ∷ rest) =
    if size == 0
    then err (rejected 0)
    else if ltb (length rest + 1) size
    then ok (expect_msg_size size)
    else ok (drop_msg_size size)

-- The context collects what the dispatcher was called with.
unfoldable by_size : Dispatcher (List (List ℕ))
by_size calls bytes new_bytes decoded = record {
  answer = answer bytes;
  slice = bytes;
  context = calls ++ bytes ∷ [];
}

by_size-KeepsLength : KeepsLength by_size
unfolding by_size
by_size-KeepsLength x bytes n d = refl

answer-IsAnswer : (bytes : List ℕ) → IsAnswer (length bytes) (answer bytes)
unfolding answer
answer-IsAnswer [] = inl refl
answer-IsAnswer (size ∷ rest) = elim (Bool-cases (size == 0)) [
  | inl e ↦ rw e tt
  | inr pos ↦ rw pos (elim (Bool-cases (ltb (length rest + 1) size)) [
    | inl more ↦ rw more (inr (ground arith))
    | inr whole ↦ rw whole (ground arith, ground arith)
  ])
]

by_size-KeepsContract : KeepsContract by_size
unfolding by_size
by_size-KeepsContract x bytes n d = answer-IsAnswer bytes

-- Two whole messages, and the beginning of a third of four bytes, behind a byte that is processed.
abbrev reader : MsgReader
reader = record {
  recv_buffer = 9 ∷ 2 ∷ 7 ∷ 1 ∷ 4 ∷ 8 ∷ 0 ∷ 0 ∷ [];
  min_reserve = 8;
  startpos = 1;
  bufsize = 6;
  decoded_msgsize = 0;
}

reader-IsWindow : IsWindow reader
reader-IsWindow = record { start = omega arith; inside = omega arith }

-- The two messages are dropped, and the third moves to the front.
dispatched :
    try_dispatch_all by_size debug reader 5 []
    ≡ done (
      ok tt,
      record reader {
        recv_buffer = 4 ∷ 8 ∷ 7 ∷ 1 ∷ 4 ∷ 8 ∷ 0 ∷ 0 ∷ [];
        startpos = 0;
        bufsize = 2;
        decoded_msgsize = 4;
      },
      (2 ∷ 7 ∷ 1 ∷ 4 ∷ 8 ∷ []) ∷ (1 ∷ 4 ∷ 8 ∷ []) ∷ (4 ∷ 8 ∷ []) ∷ [],
    )
unfolding try_dispatch_all dispatch_loop answered move_front by_size answer
dispatched = refl

try_dispatch_all-agrees_example :
    AgreesOn 8
      (try_dispatch_all by_size debug reader 5 [])
      (dispatch_bytes by_size debug 6 (2 ∷ 7 ∷ 1 ∷ 4 ∷ 8 ∷ []) 5 0 [])
try_dispatch_all-agrees_example =
    try_dispatch_all-agrees by_size debug by_size-KeepsLength reader 5 [] reader-IsWindow

try_dispatch_all-Returns_example :
    Returns
      (λ (res, r, calls).
        Leaves by_size (2 ∷ 7 ∷ 1 ∷ 4 ∷ 8 ∷ []) 0 [] (res, unread r, r.decoded_msgsize, calls)
        × IsWindow r
        × (r.startpos ≡ 0)
        × (length r.recv_buffer ≡ 8))
      (try_dispatch_all by_size debug reader 5 [])
try_dispatch_all-Returns_example =
    try_dispatch_all-Returns by_size debug by_size-KeepsLength by_size-KeepsContract reader 5 []
      reader-IsWindow

abbrev pipe : Pipe
pipe = record { got = 1 ∷ []; arriving = 5 ∷ 6 ∷ 7 ∷ 8 ∷ [] }

try_read_all_appends_example :
    Returns (Appended (λ p. p.got) reader pipe) (try_read_all read_pipe debug 5 reader pipe)
try_read_all_appends_example =
    try_read_all_appends read_pipe debug (λ p. p.got) (λ p. length p.arriving) read_pipe-IsRead 5
      reader pipe reader-IsWindow (omega arith)

-- A dispatcher that takes each byte for a message, and counts them in what it got.
unfoldable take_all : List ℕ → Result ReadError MessageResult
take_all [] = ok (expect_msg_size 0)
take_all (b ∷ bs) = ok (drop_msg_size 1)

abbrev byte_by_byte : Dispatcher Pipe
byte_by_byte x bytes new_bytes decoded = record {
  answer = take_all bytes;
  slice = bytes;
  context = record x { got = bytes };
}

take_all-IsAnswer : (bytes : List ℕ) → IsAnswer (length bytes) (take_all bytes)
unfolding take_all
take_all-IsAnswer [] = inl refl
take_all-IsAnswer (b ∷ bs) = (omega arith, omega arith)

fresh-IsWaiting : IsWaiting byte_by_byte (MsgReader.new 2)
unfolding MsgReader.new
fresh-IsWaiting = record {
  window = record { start = omega arith; inside = omega arith };
  front = refl;
  partial = inl refl;
  awaits = inl (refl, refl);
}

try_read_fast_dispatch-IsWaiting_example :
    Returns
      (λ (_, r, _). IsWaiting byte_by_byte r)
      (try_read_fast_dispatch read_pipe byte_by_byte debug 5 (MsgReader.new 2) pipe)
try_read_fast_dispatch-IsWaiting_example =
    try_read_fast_dispatch-IsWaiting read_pipe byte_by_byte debug (λ p. p.got)
      (λ p. length p.arriving) read_pipe-IsRead (λ x bytes n d. omega arith) (λ x bytes n d. refl)
      (λ x bytes n d. take_all-IsAnswer bytes) 5 (MsgReader.new 2) pipe fresh-IsWaiting
      (omega arith)
