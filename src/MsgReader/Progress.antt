-- ===== src/MsgReader/Progress.antt =====
-- The loop of src/reactor.rs's `try_dispatch_all` ends, and where it leaves the reader.
use reactio_rs.Base.{
  ℕ, zero, suc, ◌-◌, ◌≤◌, ◌<◌, ◌≡◌, refl, ap, subst, List, true, ◌||◌, ◌&&◌, arith, Build,
  debug_assert-true, Result, ok, err, ltb, leb, ◌==◌, Bool-cases, inl, inr, ◌⊎◌, Returns, length,
  drop, length-drop,
}
use reactio_rs.MsgReader.{
  MsgReader, MessageResult, expect_msg_size, drop_msg_size, ReadError, Dispatcher, unread,
  try_dispatch_all,
}
use reactio_rs.MsgReader.Window.{
  IsWindow, AgreesOn, KeepsLength, Left, dispatch_bytes, answered_bytes, length-unread,
  AgreesOn-done,
}
use reactio_rs.MsgReader.Awaits.{Ended}
use reactio_rs.MsgReader.Framing.{dispatch_loop-agrees}

module _ {X : Type 0} (dispatcher : Dispatcher X) (build : Build) where
  -- On a valid window and with a dispatcher that keeps the length of the slice, `try_dispatch_all`
  -- ends as the loop over the plain list of unread bytes does: by a panic of both, or with the
  -- same result, the same bytes left, the same expected size and the same context.
  pub try_dispatch_all-agrees :
      KeepsLength dispatcher
      → (r : MsgReader) (new_bytes : ℕ) (x : X) → IsWindow r
      → AgreesOn (length r.recv_buffer) (try_dispatch_all dispatcher build r new_bytes x) (
          dispatch_bytes dispatcher build
            (suc (length (unread r)))
            (unread r)
            new_bytes
            r.decoded_msgsize
            x)
  unfolding try_dispatch_all
  try_dispatch_all-agrees keeps r new_bytes x w =
      rw (length-unread r w)
        (dispatch_loop-agrees dispatcher build keeps (suc (r.bufsize - r.startpos)) r new_bytes x w)

-- The documented contract of `on_inbound_message`: it drops some of the bytes that it is given, or
-- expects a size that is unknown, 0, or more than there is.
abbrev pub IsAnswer : ℕ → Result ReadError MessageResult → Type 0
IsAnswer have (err e) = Unit
IsAnswer have (ok (expect_msg_size n)) = (n ≡ 0) ⊎ (have < n)
IsAnswer have (ok (drop_msg_size n)) = (0 < n) × (n ≤ have)

abbrev pub KeepsContract : {X : Type 0} → Dispatcher X → Type 0
KeepsContract {X} dispatcher =
    (x : X) (bytes : List ℕ) (n d : ℕ) → IsAnswer (length bytes) (dispatcher x bytes n d).answer

-- What is left begins a message of unknown size, or one that is not complete; after an error,
-- nothing is left.
abbrev pub IsLeft : Result ReadError (Unit {0}) → List ℕ → ℕ → Type 0
IsLeft (ok _) rest decoded = (length rest ≡ 0) ⊎ ((decoded ≡ 0) ⊎ (length rest < decoded))
IsLeft (err e) rest decoded = (length rest ≡ 0) × (decoded ≡ 0)

module _ {X : Type 0} (dispatcher : Dispatcher X) where
  -- Both views of what is left: the bytes and the size, and the calls of the dispatcher.
  abbrev pub Leaves : List ℕ → ℕ → X → Result ReadError (Unit {0}) × List ℕ × ℕ × X → Type 0
  Leaves bytes0 decoded0 x0 (res, rest, decoded, x) =
      IsLeft res rest decoded × Ended dispatcher bytes0 decoded0 x0 res rest decoded x

  -- A round that dropped bytes: the loop behind it began with no size.
  Leaves-dropped :
      (bytes bytes0 : List ℕ) (decoded0 : ℕ) (x x0 : X)
      (b : Result ReadError (Unit {0}) × List ℕ × ℕ × X)
      → Leaves bytes 0 x b
      → Leaves bytes0 decoded0 x0 b
  Leaves-dropped bytes bytes0 decoded0 x x0 (err e, rest, decoded, x') h = h
  Leaves-dropped bytes bytes0 decoded0 x x0 (ok _, rest, decoded, x') (l, inl none) = (l, inl none)
  Leaves-dropped bytes bytes0 decoded0 x x0 (ok _, rest, decoded, x') (l, inr (inl asked)) =
      (l, inr (inl asked))
  Leaves-dropped bytes bytes0 decoded0 x x0 (ok _, rest, decoded, x')
        (l, inr (inr (same, size, _, few))) =
      (l, inl (ground (arith, ap length same, few), size))

module _ {X : Type 0} (dispatcher : Dispatcher X) (build : Build) (keeps : KeepsLength dispatcher)
    (contract : KeepsContract dispatcher) (bytes0 : List ℕ) (decoded0 : ℕ) (x0 : X) where
  answered_bytes-Returns :
      (y : X) (given : List ℕ) (n d : ℕ) (a : Result ReadError MessageResult) (next : ℕ → Left X)
      → (dispatcher y given n d).answer ≡ a
      → ((k : ℕ)
          → 0 < k
          → k ≤ length given
          → Returns (Leaves dispatcher bytes0 decoded0 x0) (next k))
      → Returns (Leaves dispatcher bytes0 decoded0 x0) (
          answered_bytes build a
            (dispatcher y given n d).slice
            (length given)
            (dispatcher y given n d).context
            next)
  unfolding answered_bytes
  answered_bytes-Returns y given n d (err e) next called go =
      (_, refl, ((refl, refl), (refl, refl, (y, given, n, d, called, refl))))
  answered_bytes-Returns y given n d (ok (expect_msg_size k)) next called go =
      rw (fits, debug_assert-true build)
        (_, refl, (ground (arith, h, size), inr (inl (y, given, n, d, called, refl, refl))))
    where
      size : length (dispatcher y given n d).slice ≡ length given
      size = keeps y given n d

      h : (k ≡ 0) ⊎ (length given < k)
      h = subst (IsAnswer (length given)) called (contract y given n d)

      fits : (k == 0 || ltb (length given) k) ≡ true
      fits = ground (arith, h)
  answered_bytes-Returns y given n d (ok (drop_msg_size k)) next called go = rw fits (go k h.0 h.1)
    where
      h : (0 < k) × (k ≤ length given)
      h = subst (IsAnswer (length given)) called (contract y given n d)

      fits : (ltb 0 k && leb k (length given)) ≡ true
      fits = ground (arith, h)

module _ {X : Type 0} (dispatcher : Dispatcher X) (build : Build) (keeps : KeepsLength dispatcher)
    (contract : KeepsContract dispatcher) where
  pub dispatch_bytes-Returns :
      (fuel : ℕ) (bytes : List ℕ) (new_bytes decoded : ℕ) (x : X)
      → length bytes < fuel
      → Returns
          (Leaves dispatcher bytes decoded x)
          (dispatch_bytes dispatcher build fuel bytes new_bytes decoded x)
  unfolding dispatch_bytes
  dispatch_bytes-Returns zero bytes new_bytes decoded x f = absurd (omega arith)
  dispatch_bytes-Returns (suc fuel) bytes new_bytes decoded x f =
      elim (Bool-cases (ltb 0 (length bytes) && (decoded == 0 || leb decoded (length bytes)))) [
        | inr stop ↦ rw stop (
          (ok tt, bytes, decoded, x),
          refl,
          (ground arith, inr (inr (refl, refl, refl, ground arith))),
        )
        | inl go ↦
            let d = dispatcher x bytes new_bytes decoded in
            let size : length d.slice ≡ length bytes = keeps x bytes new_bytes decoded in
            rw go (
              answered_bytes-Returns dispatcher build keeps contract bytes decoded x x bytes
                new_bytes decoded d.answer _ refl
                λ n pos h.
                  let (b, e, left) =
                    dispatch_bytes-Returns fuel (drop n d.slice) (length bytes - n) 0 d.context
                      (omega (arith, length-drop n d.slice)) in
                  (b, e, Leaves-dropped dispatcher _ bytes decoded d.context x b left))
      ]

  -- On a valid window and with a dispatcher that keeps its contract and the length of the slice,
  -- `try_dispatch_all` ends without a panic in either build. What it leaves stands at the front of
  -- a buffer of the old size. After an error, which is the answer of a call of the dispatcher, that is
  -- nothing. Else it is no byte, with no size expected; or what a call of the dispatcher left that
  -- answered the size that is now expected, which is unknown or larger than what is there; or what
  -- there was, if that was not a whole message of the expected size, and nothing has happened.
  pub try_dispatch_all-Returns :
      (r : MsgReader) (new_bytes : ℕ) (x : X)
      → IsWindow r
      → Returns
          (λ (res, r', x').
            Leaves dispatcher
              (unread r)
              r.decoded_msgsize
              x
              (res, unread r', r'.decoded_msgsize, x')
            × IsWindow r'
            × (r'.startpos ≡ 0)
            × (length r'.recv_buffer ≡ length r.recv_buffer))
          (try_dispatch_all dispatcher build r new_bytes x)
  try_dispatch_all-Returns r new_bytes x w =
      let (b, e, left) =
        dispatch_bytes-Returns (suc (length (unread r))) (unread r) new_bytes r.decoded_msgsize x
          (omega arith) in
      let (a, e', same) =
        AgreesOn-done (length r.recv_buffer) (try_dispatch_all dispatcher build r new_bytes x) b
          (rw e at (try_dispatch_all-agrees dispatcher build keeps r new_bytes x w)) in
      (
        a,
        e',
        (
          rw (same.result, same.bytes, same.decoded, same.context) left,
          same.window,
          same.front,
          same.capacity,
        ),
      )
