-- ===== src/Pingpong/Wire.antt =====
-- A concrete socket, the list of the bytes that went out, and a clock that stands still, to test the
-- reactors of examples/example with.
use mathlib.Core.List.{append-nil}
use reactio_rs.Base.{
  inr, ℕ, ◌-◌, ◌<◌, ◌≡◌, sym, ap, take-all, List, [], ◌∷◌, ◌++◌, true, false, arith, length,
  usize_max,
}
use reactio_rs.Base.Int.{ℤ, pos}
use reactio_rs.FlatStorage
use reactio_rs.FlatStorage.Laws.{new-IsValid}
use reactio_rs.Socket.{would_block, io_ok, io_err, Write, taken, InRange, MakesProgress, IsSocket}
use reactio_rs.MsgSender.Kept.{HasRoom}
use reactio_rs.ReactorId.{invalid_reactor_id}
use reactio_rs.Manager.{Context}
use reactio_rs.Pingpong.{String}

unfoldable pub write : Write (List ℕ)
write wire [] = (io_err would_block, wire)
write wire (x ∷ buf) = (io_ok (length (x ∷ buf)), wire ++ x ∷ buf)

pub write-IsSocket : IsSocket write (λ wire. wire)
unfolding write
write-IsSocket = record { in_range = range; sends = sends }
  where
    range : (wire buf : List ℕ) → InRange (write wire buf).0 buf
    range wire [] = tt
    range wire (x ∷ buf) = omega arith

    sends : (wire buf : List ℕ) → (write wire buf).1 ≡ wire ++ taken (write wire buf).0 buf
    sends wire [] = sym (append-nil wire)
    sends wire (x ∷ buf) =
        ap (λ (b : List ℕ). wire ++ x ∷ b) (sym (take-all (length buf) buf (omega arith)))

pub write-MakesProgress : (wire buf : List ℕ) → MakesProgress buf (write wire buf).0
unfolding write
write-MakesProgress wire [] = tt
write-MakesProgress wire (x ∷ buf) = inr (omega arith)

-- The clock, and the index of the 99th percentile of ten durations or less.
abbrev pub now : List ℕ → ℤ × List ℕ
now wire = (pos 7, wire)

abbrev pub last : ℕ → ℕ
last n = n - 1

pub last_within : (n : ℕ) → 0 < n → last n < n
last_within n h = omega arith

abbrev pub Ctx : Type 0
Ctx = Context (List ℕ) ℕ ℕ ℕ String ℕ

abbrev pub ctx : Ctx
ctx = record {
  reactorid = invalid_reactor_id;
  sock = [];
  sender = record {
    buf = [];
    pending = FlatStorage.new;
    first_pending_id = usize_max;
    last_pending_id = usize_max;
    bytes_sent = 0;
    close_or_error = false;
  };
  reader = record {
    recv_buffer = [];
    min_reserve = 0;
    startpos = 0;
    bufsize = 0;
    decoded_msgsize = 0;
  };
  cmd_sender = record { queue = []; connected = true };
}

pub room : HasRoom ctx.sender
unfolding FlatStorage.new FlatStorage.capacity
room = (new-IsValid, omega arith)
