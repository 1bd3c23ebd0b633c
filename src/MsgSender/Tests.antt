-- ===== src/MsgSender/Tests.antt =====
-- Sending of src/reactor.rs's `MsgSender` on a concrete socket: the list of the bytes that went out,
-- which takes a byte at a time, and none once two have gone out.
use reactio_rs.Base.{
  ok, debug, panic, ℕ, false, ◌≡◌, refl, sym, List, [], ◌∷◌, ◌++◌, some, arith, release, done,
  no_fuel, Returns, ltb, if◌then◌else◌, Bool-cases, inl, inr, length, usize_max,
}
use mathlib.Core.List.{append-nil}
use reactio_rs.FlatStorage
use reactio_rs.FlatStorage.Laws.{new-IsValid}
use reactio_rs.Socket.{would_block, io_ok, io_err, Write, taken, InRange, MakesProgress, IsSocket}
use reactio_rs.MsgSender.{
  queue_msg_completion, complete, send_queued, MsgSender, try_send_loop, try_send_all, send_or_que,
}
use reactio_rs.MsgSender.Writes.{Report, try_send_all-Report, try_send_loop_spins}
use reactio_rs.MsgSender.Completion.{send_queued_late}
use reactio_rs.MsgSender.Pending.{Entries, ends, Waits}
use reactio_rs.MsgSender.Enqueue.{queue_msg_completion_appends}
use reactio_rs.MsgSender.Flush.{Delivered, send_queued_delivers}
use reactio_rs.MsgSender.AutoSend
use reactio_rs.MsgSender.AutoSend.{AutoSendBuffer}
use reactio_rs.MsgSender.AutoConserves.{AutoSpec, auto_send_conserves}
use reactio_rs.MsgSender.Conservation.{SendSpec, send_or_que_conserves}

unfoldable write : Write (List ℕ)
write wire [] = (io_err would_block, wire)
write wire (x ∷ buf) =
    if ltb (length wire) 2 then (io_ok 1, wire ++ x ∷ []) else (io_err would_block, wire)

write-IsSocket : IsSocket write (λ wire. wire)
unfolding write
write-IsSocket = record { in_range = range; sends = sends }
  where
    range : (wire buf : List ℕ) → InRange (write wire buf).0 buf
    range wire [] = tt
    range wire (x ∷ buf) = elim (Bool-cases (ltb (length wire) 2)) [
      | inl e ↦ rw e (omega arith)
      | inr e ↦ rw e tt
    ]

    sends : (wire buf : List ℕ) → (write wire buf).1 ≡ wire ++ taken (write wire buf).0 buf
    sends wire [] = sym (append-nil wire)
    sends wire (x ∷ buf) = elim (Bool-cases (ltb (length wire) 2)) [
      | inl e ↦ rw e refl
      | inr e ↦ rw e (sym (append-nil wire))
    ]

write-MakesProgress : (wire buf : List ℕ) → MakesProgress buf (write wire buf).0
unfolding write
write-MakesProgress wire [] = tt
write-MakesProgress wire (x ∷ buf) = elim (Bool-cases (ltb (length wire) 2)) [
  | inl e ↦ rw e (inr (omega arith))
  | inr e ↦ rw e tt
]

abbrev idle : MsgSender ℕ
idle = record {
  buf = [];
  pending = FlatStorage.new;
  first_pending_id = usize_max;
  last_pending_id = usize_max;
  bytes_sent = 0;
  close_or_error = false;
}

-- Two bytes of four go out, and two wait.
partly_sent : try_send_all write [] (5 ∷ 6 ∷ 7 ∷ 8 ∷ []) ≡ done (io_ok 2, 5 ∷ 6 ∷ [])
unfolding try_send_all try_send_loop write
partly_sent = refl

try_send_all-Report_example :
    Returns
      (λ (r, s). Report write (λ wire. wire) [] (5 ∷ 6 ∷ 7 ∷ []) r s)
      (try_send_all write [] (5 ∷ 6 ∷ 7 ∷ []))
try_send_all-Report_example =
    try_send_all-Report write-IsSocket write-MakesProgress [] (5 ∷ 6 ∷ 7 ∷ [])

-- A socket that takes nothing.
abbrev full : Write (List ℕ)
full wire buf = (io_ok 0, wire)

try_send_loop_spins_example : try_send_loop full 40 [] (5 ∷ []) 0 ≡ no_fuel
try_send_loop_spins_example = try_send_loop_spins full (5 ∷ []) (omega arith) (λ s. refl) 40 [] 0

send_or_que_conserves_example :
    Returns
      (λ r. SendSpec write (λ wire. wire) idle [] (5 ∷ 6 ∷ 7 ∷ []) (some 1) r.result r)
      (send_or_que write release idle [] (5 ∷ 6 ∷ 7 ∷ []) (some 1))
unfolding FlatStorage.capacity FlatStorage.new
send_or_que_conserves_example =
    send_or_que_conserves write-IsSocket write-MakesProgress idle [] (5 ∷ 6 ∷ 7 ∷ []) (some 1)
      (new-IsValid, omega arith)

-- Three bytes of one message wait in the buffer, with the completion 4.
abbrev waiting : MsgSender ℕ
waiting = record idle {
  buf = 5 ∷ 6 ∷ 7 ∷ [];
  pending = record {
    nodes =
        FlatStorage.occupied
          (record { next_id = usize_max; startpos = 0; msgsize = 3; completion = 4 })
        ∷ [];
    count = 1;
    free = usize_max;
  };
  first_pending_id = 0;
  last_pending_id = 0;
}

-- A socket that takes everything.
abbrev open_wire : Write (List ℕ)
open_wire wire buf = (io_ok (length buf), wire ++ buf)

send_queued_late_example :
    (send_queued open_wire debug waiting [] ≡ panic)
    × Returns
        (λ r. (r.result ≡ ok complete) × (r.called ≡ []) × (r.sender.buf ≡ []))
        (send_queued open_wire release waiting [])
unfolding FlatStorage.get
send_queued_late_example =
    send_queued_late waiting
      (record { next_id = usize_max; startpos = 0; msgsize = 3; completion = 4 }) refl refl refl
      refl refl open_wire [] refl

abbrev waiting_entries : Entries ℕ
waiting_entries =
    (0, record { next_id = usize_max; startpos = 0; msgsize = 3; completion = 4 }) ∷ []

waiting-Waits : Waits waiting waiting_entries
unfolding reactio_rs.FlatStorage.Chain.vacancies FlatStorage.get FlatStorage.len
waiting-Waits = record {
  valid = record {
    chain = [];
    linked = (refl, tt);
    distinct = tt;
    covered = refl;
    counted = refl;
    bounded = omega arith;
  };
  chain = (refl, refl, tt, refl);
  last = refl;
  size = refl;
}

queue_msg_completion_appends_example :
    Returns
      (λ m.
        ((es : Entries ℕ) × Waits m es × (ends es ≡ (3, 4) ∷ (3, 9) ∷ []))
        × (m.buf ≡ waiting.buf)
        × (m.bytes_sent ≡ 0)
        × (m.close_or_error ≡ false))
      (queue_msg_completion waiting 2 (some 9))
unfolding FlatStorage.capacity
queue_msg_completion_appends_example =
    queue_msg_completion_appends waiting waiting_entries 2 9 waiting-Waits (omega arith)
      (omega arith)

send_queued_delivers_example :
    Returns
      (Delivered write (λ wire. wire) waiting [] waiting_entries)
      (send_queued write release waiting [])
send_queued_delivers_example =
    send_queued_delivers write-IsSocket waiting [] waiting_entries waiting-Waits (omega arith, tt)

-- A message of three bytes is written behind a buffer that is empty, and sent.
abbrev auto : AutoSendBuffer (List ℕ) ℕ
auto = record { sender = record idle { buf = 5 ∷ 6 ∷ 7 ∷ [] }; sock = []; old_buf_size = 0 }

auto_send_conserves_example :
    Returns
      (λ r. AutoSpec (λ wire. wire) auto.sender [] [] (some 1) r.result r)
      (AutoSend.send write release auto (some 1))
unfolding FlatStorage.capacity FlatStorage.new FlatStorage.len
auto_send_conserves_example =
    auto_send_conserves write-IsSocket write-MakesProgress auto [] (some 1)
      (record { valid = new-IsValid; chain = refl; last = refl; size = refl }) (omega arith)
      (omega arith)
