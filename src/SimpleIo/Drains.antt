-- ===== src/SimpleIo/Drains.antt =====
-- The reader that the sockets of a `SimpleIoService` of src/reactor.rs share.
use reactio_rs.Base.{
  ℕ, zero, suc, ◌-◌, ◌≤◌, ◌<◌, ◌≡◌, refl, List, true, ◌&&◌, arith, Build, Result, ok, err, ltb, leb,
  Bool-cases, inl, inr, Returns, length, drop, length-drop,
}
use reactio_rs.MsgReader.{drop_msg_size, ReadError}
use reactio_rs.MsgReader.Window.{KeepsLength, Left, answered_bytes, dispatch_bytes}
use reactio_rs.SimpleIo.{SimpleIoReactor, on_inbound_message}

-- A message handler that returns an error or drops some of the bytes that it is given.
abbrev pub DropsSome : ℕ → Result ReadError ℕ → Type 0
DropsSome have (err e) = Unit
DropsSome have (ok n) = (0 < n) × (n ≤ have)

module _ {A X M : Type 0} where
  abbrev pub Serves : SimpleIoReactor A X M → Type 0
  Serves r =
      (a : A) (x : X) (buf : List ℕ)
      → 0 < length buf
      → DropsSome (length buf) (r.on_sock_msg_handler a x buf).answer

  pub on_inbound_message-KeepsLength : KeepsLength (on_inbound_message {A = A} {X = X} {M = M})
  unfolding on_inbound_message
  on_inbound_message-KeepsLength (x, r) buf n d = (r.on_sock_msg_handler r.app_data x buf).same_size

  -- No byte is left, no message size is expected, and the handler is still one that drops bytes.
  abbrev pub Drained :
      Result ReadError (Unit {0}) × List ℕ × ℕ × (X × SimpleIoReactor A X M) → Type 0
  Drained (res, rest, decoded, (x, r)) = (length rest ≡ 0) × (decoded ≡ 0) × Serves r

  answered-Drained :
      (build : Build) (a : Result ReadError ℕ) (slice : List ℕ) (have : ℕ) (x : X)
      (r : SimpleIoReactor A X M) (next : ℕ → Left (X × SimpleIoReactor A X M))
      → DropsSome have a
      → Serves r
      → ((n : ℕ) → 0 < n → n ≤ have → Returns Drained (next n))
      → Returns Drained (
          answered_bytes build
            (elim a [ err e ↦ err e | ok n ↦ ok (drop_msg_size n) ])
            slice
            have
            (x, r)
            next)
  unfolding answered_bytes
  answered-Drained build (err e) slice have x r next h serves go = (_, refl, (refl, refl, serves))
  answered-Drained build (ok n) slice have x r next (pos, h) serves go = rw fits (go n pos h)
    where
      fits : (ltb 0 n && leb n have) ≡ true
      fits = ground (arith, pos, h)

  pub drains :
      (build : Build) (fuel : ℕ) (bytes : List ℕ) (n : ℕ) (x : X) (r : SimpleIoReactor A X M)
      → Serves r
      → length bytes < fuel
      → Returns Drained (dispatch_bytes on_inbound_message build fuel bytes n 0 (x, r))
  unfolding dispatch_bytes on_inbound_message
  drains build zero bytes n x r serves f = absurd (omega arith)
  drains build (suc fuel) bytes n x r serves f = elim (Bool-cases (ltb 0 (length bytes))) [
    | inr stop ↦ rw stop ((ok tt, bytes, 0, (x, r)), refl, (ground arith, refl, serves))
    | inl go ↦
        let h = r.on_sock_msg_handler r.app_data x bytes in
        rw go (
          answered-Drained build h.answer h.slice (length bytes) h.context
            (record r { app_data = h.app_data }) _ (serves r.app_data x bytes (ground arith)) serves
            λ k pos le.
              drains build fuel (drop k h.slice) (length bytes - k) h.context
                (record r { app_data = h.app_data }) serves
                (omega (arith, h.same_size, length-drop k h.slice)))
  ]
