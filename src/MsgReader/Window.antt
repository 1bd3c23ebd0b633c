-- ===== src/MsgReader/Window.antt =====
-- The window that src/reactor.rs's `MsgReader` keeps over its buffer, and the loop over a plain list of
-- the bytes that are not yet processed, which it is compared with.
use reactio_rs.Base.{
  Returns, ℕ, zero, suc, ◌-◌, ◌≤◌, ◌≡◌, refl, List, [], ◌||◌, ◌&&◌, arith, Build, Outcome, done,
  panic, no_fuel, ◌>>◌, assert, debug_assert, Result, ok, err, ltb, leb, ◌==◌, if◌then◌else◌,
  length, drop, length-take, length-drop,
}
use reactio_rs.MsgReader.{
  MsgReader, MessageResult, expect_msg_size, drop_msg_size, ReadError, Dispatcher, Reading, unread,
}

-- The window lies in the buffer.
pub record IsWindow (r : MsgReader) : Type 0 where
  pub start : r.startpos ≤ r.bufsize
  pub inside : r.bufsize ≤ length r.recv_buffer

-- The same loop, over the bytes that are left. It returns the bytes that it leaves and the size of
-- the message that they begin, if that is known.
abbrev pub Left : Type 0 → Type 0
Left X = Outcome (Result ReadError (Unit {0}) × List ℕ × ℕ × X)

unfoldable pub answered_bytes :
    {X : Type 0} → Build → Result ReadError MessageResult → List ℕ → ℕ → X → (ℕ → Left X) → Left X
answered_bytes build (err e) slice have x next = done (err e, [], 0, x)
answered_bytes build (ok (expect_msg_size n)) slice have x next =
    debug_assert build (n == 0 || ltb have n) >> done (ok tt, slice, n, x)
answered_bytes build (ok (drop_msg_size n)) slice have x next =
    assert (ltb 0 n && leb n have) >> next n

module _ {X : Type 0} (dispatcher : Dispatcher X) (build : Build) where
  unfoldable pub dispatch_bytes : ℕ → List ℕ → ℕ → ℕ → X → Left X
  dispatch_bytes zero bytes new_bytes decoded x = no_fuel
  dispatch_bytes (suc fuel) bytes new_bytes decoded x =
      let d = dispatcher x bytes new_bytes decoded in
      let have = length bytes in
      let round =
        answered_bytes build d.answer d.slice have d.context
          λ n. dispatch_bytes fuel (drop n d.slice) (have - n) 0 d.context in
      if ltb 0 have && (decoded == 0 || leb decoded have)
      then round
      else done (ok tt, bytes, decoded, x)

-- What the reader and the reference leave is the same: the window holds the reference's bytes, and
-- starts at the front of the buffer.
pub record Agrees {X : Type 0} (m : ℕ) (a : Result ReadError (Unit {0}) × MsgReader × X)
    (b : Result ReadError (Unit {0}) × List ℕ × ℕ × X) : Type 0 where
  pub result : a.0 ≡ b.0
  pub bytes : unread a.1 ≡ b.1
  pub decoded : (a.1).decoded_msgsize ≡ b.2
  pub context : a.2 ≡ b.3
  pub window : IsWindow a.1
  pub front : (a.1).startpos ≡ 0
  pub capacity : length (a.1).recv_buffer ≡ m

-- Both calls end alike: by a panic, without fuel, or with results that agree.
abbrev pub AgreesOn :
    {X : Type 0}
    → ℕ
    → Outcome (Result ReadError (Unit {0}) × MsgReader × X)
    → Outcome (Result ReadError (Unit {0}) × List ℕ × ℕ × X)
    → Type 0
AgreesOn m (done a) (done b) = Agrees m a b
AgreesOn m panic panic = Unit
AgreesOn m no_fuel no_fuel = Unit
AgreesOn m _ _ = ⊥

pub AgreesOn-done :
    {X : Type 0} (n : ℕ) (o : Reading X) (b : Result ReadError (Unit {0}) × List ℕ × ℕ × X)
    → AgreesOn n o (done b)
    → Returns (λ a. Agrees n a b) o
AgreesOn-done n (done a) b h = (a, refl, h)
AgreesOn-done n panic b h = absurd h
AgreesOn-done n no_fuel b h = absurd h

pub length-unread : (r : MsgReader) → IsWindow r → length (unread r) ≡ r.bufsize - r.startpos
length-unread r w = omega (
  arith,
  length-take (r.bufsize - r.startpos) (drop r.startpos r.recv_buffer),
  length-drop r.startpos r.recv_buffer,
  w.start,
  w.inside,
)

-- User code may write to the slice that it is given; it cannot change its length.
abbrev pub KeepsLength : {X : Type 0} → Dispatcher X → Type 0
KeepsLength {X} dispatcher =
    (x : X) (bytes : List ℕ) (n d : ℕ) → length (dispatcher x bytes n d).slice ≡ length bytes
