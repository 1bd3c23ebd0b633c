-- ===== src/Reactor/Tests.antt =====
-- The default `on_readable` of src/reactor.rs's `Reactor` for a reactor that counts its bytes.
use reactio_rs.Base.{
  ℕ, ◌+◌, refl, List, [], ◌∷◌, inl, arith, debug, true, Returns, Result, ok, length,
}
use reactio_rs.ReactorId.{invalid_reactor_id}
use reactio_rs.MsgSender
use reactio_rs.MsgReader
use reactio_rs.MsgReader.{MessageResult, expect_msg_size, drop_msg_size, ReadError, Dispatcher}
use reactio_rs.MsgReader.Progress.{IsAnswer}
use reactio_rs.MsgReader.Pipe.{Pipe, read_pipe, read_pipe-IsRead}
use reactio_rs.Manager.{Context}
use reactio_rs.Reactor.{on_readable}
use reactio_rs.MsgReader.Waiting.{IsWaiting}
use reactio_rs.Reactor.Reads.{on_readable-IsWaiting}

abbrev take_all : List ℕ → Result ReadError MessageResult
take_all [] = ok (expect_msg_size 0)
take_all (b ∷ bs) = ok (drop_msg_size (length bs + 1))

abbrev counts : Dispatcher (ℕ × Context Pipe ℕ ℕ ℕ ℕ ℕ)
counts (n, ctx) buf new_bytes decoded_msg_size = record {
  answer = take_all buf;
  slice = buf;
  context = (n + length buf, ctx);
}

take_all-IsAnswer : (bytes : List ℕ) → IsAnswer (length bytes) (take_all bytes)
take_all-IsAnswer [] = inl refl
take_all-IsAnswer (b ∷ bs) = (omega arith, omega arith)

abbrev context : Context Pipe ℕ ℕ ℕ ℕ ℕ
context = record {
  reactorid = invalid_reactor_id;
  sock = record { got = []; arriving = 5 ∷ 6 ∷ 7 ∷ [] };
  sender = MsgSender.new;
  reader = MsgReader.new 2;
  cmd_sender = record { queue = []; connected = true };
}

on_readable-IsWaiting_example :
    Returns
      (λ (_, _, ctx). IsWaiting counts ctx.reader)
      (on_readable read_pipe counts debug 4 0 context)
unfolding MsgReader.new
on_readable-IsWaiting_example =
    on_readable-IsWaiting read_pipe counts debug (λ p. p.got) (λ p. length p.arriving)
      read_pipe-IsRead (λ y buf n d. refl) (λ y buf n d. take_all-IsAnswer buf) 4 0 context
      (record {
        window = record { start = omega arith; inside = omega arith };
        front = refl;
        partial = inl refl;
        awaits = inl (refl, refl);
      })
      (omega arith)
