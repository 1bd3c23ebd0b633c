-- ===== src/MsgReader/Reading.antt =====
-- `try_read_all` of src/reactor.rs's `MsgReader`: what it reads stands behind what was in the buffer.
use mathlib.Core.List.{append_assoc, append-nil}
use reactio_rs.Base.{
  err, ℕ, zero, suc, ◌+◌, ◌-◌, ◌≤◌, ◌<◌, ◌≡◌, refl, ◌∙◌, ap, subst, List, [], ◌∷◌, ◌++◌, true,
  arith, Build, Returns, Result, ltb, leb, ◌==◌, Bool-cases, inl, inr, length, debug_assert-true,
}
use reactio_rs.Socket.{IoResult-cases, IoResult, io_ok, io_err, Read}
use reactio_rs.MsgReader.{
  peer_closed, after_error, MsgReader, ReadError, unread, reserve, fill, try_read_all,
}
use reactio_rs.MsgReader.Window.{IsWindow}
use reactio_rs.MsgReader.Buffer.{reserve-Roomier, fill-IsWindow}

-- What the standard library documents of `read`: at most as many bytes as there is room for. They are
-- the next ones of those that the peer sent (`received`); `left` counts those that have not arrived.
abbrev pub IsRead :
    {X : Type 0} (received : X → List ℕ) (left : X → ℕ) (x : X) (n : ℕ)
    → IoResult (List ℕ)
    → X
    → Type 0
IsRead received left x n (io_ok bytes) x' =
    (length bytes ≤ n) × (received x' ≡ received x ++ bytes) × (left x' + length bytes ≡ left x)
IsRead received left x n (io_err kind) x' = received x' ≡ received x

module _ {X : Type 0} (received : X → List ℕ) (r : MsgReader) (x : X) where
  -- The bytes of the call stand behind those that were in the window, and nothing else has changed.
  pub record Appended (a : Result ReadError (Unit {0}) × MsgReader × X) : Type 0 where
    pub bytes : List ℕ
    pub arrived : received a.2 ≡ received x ++ bytes
    pub unread_bytes : unread a.1 ≡ unread r ++ bytes
    pub window : IsWindow a.1
    pub start : (a.1).startpos ≡ r.startpos
    pub decoded : (a.1).decoded_msgsize ≡ r.decoded_msgsize

-- What a read appended, and then the reads behind it.
Appended-after :
    {X : Type 0} (received : X → List ℕ) (r r' : MsgReader) (x x' : X) (bytes : List ℕ)
    {a : Result ReadError (Unit {0}) × MsgReader × X}
    → received x' ≡ received x ++ bytes
    → unread r' ≡ unread r ++ bytes
    → r'.startpos ≡ r.startpos
    → r'.decoded_msgsize ≡ r.decoded_msgsize
    → Appended received r' x' a
    → Appended received r x a
Appended-after received r r' x x' bytes arrived behind start decoded a = record {
  bytes = bytes ++ a.bytes;
  arrived = rw (a.arrived, arrived, append_assoc) refl;
  unread_bytes = rw (a.unread_bytes, behind, append_assoc) refl;
  window = a.window;
  start = a.start ∙ start;
  decoded = a.decoded ∙ decoded;
}

pub length-nil : (xs : List ℕ) → length xs ≡ 0 → xs ≡ []
length-nil [] h = refl
length-nil (x ∷ xs) h = absurd (omega arith)

module _ {X : Type 0} (read : Read X) (build : Build) (received : X → List ℕ) (left : X → ℕ)
    (source : (x : X) (n : ℕ) → IsRead received left x n (read x n).0 (read x n).1) where
  -- A round that reads nothing appends nothing.
  Appended-nothing :
      (res : Result ReadError (Unit {0})) (r : MsgReader) (x x' : X)
      → IsWindow r
      → received x' ≡ received x
      → Appended received r x (res, reserve r, x')
  Appended-nothing res r x x' w same =
      let more = reserve-Roomier r w in
      record {
        bytes = [];
        arrived = rw (append-nil) same;
        unread_bytes = rw (append-nil) more.unread_same;
        window = more.window;
        start = more.start_same;
        decoded = more.decoded_same;
      }

  -- From a source with the documented behaviour and into a valid window, reading ends in either
  -- build after at most as many reads as bytes are left, and one more. All bytes that it read
  -- stand behind those that were in the window, in order, whatever the result is.
  pub try_read_all_appends :
      (fuel : ℕ) (r : MsgReader) (x : X)
      → IsWindow r
      → left x < fuel
      → Returns (Appended received r x) (try_read_all read build fuel r x)
  unfolding try_read_all
  try_read_all_appends zero r x w f = absurd (omega arith)
  try_read_all_appends (suc fuel) r x w f =
      let more = reserve-Roomier r w in
      let n = length (reserve r).recv_buffer - (reserve r).bufsize in
      let x' = (read x n).1 in
      elim (IoResult-cases (read x n).0) [
        | inr (k, e) ↦
            let same : received x' ≡ received x =
              subst (λ res. IsRead received left x n res x') e (source x n) in
            rw (e, try_read_all) (_, refl, Appended-nothing (after_error k) r x x' w same)
        | inl (bytes, e) ↦
            let (room, arrived, shrunk) =
              subst (λ res. IsRead received left x n res x') e (source x n) in
            let (window, behind, start, decoded) =
              fill-IsWindow (reserve r) bytes more.window room in
            let unread_new : unread (fill (reserve r) bytes) ≡ unread r ++ bytes =
              behind ∙ ap (λ (b : List ℕ). b ++ bytes) more.unread_same in
            let fits : leb ((reserve r).bufsize + length bytes) (length (reserve r).recv_buffer)
                ≡ true =
              ground (arith, room, more.window.inside) in
            rw (e, try_read_all)
              (elim (Bool-cases (length bytes == 0)) [
                | inl none_read ↦
                    let empty : bytes ≡ [] = length-nil bytes (ground arith) in
                    rw none_read (
                      _,
                      refl,
                      Appended-nothing (err peer_closed) r x x' w (
                          arrived
                          ∙ ap (λ (b : List ℕ). received x ++ b) empty
                          ∙ append-nil (received x)),
                    )
                | inr some_read ↦
                    rw (some_read, fits, debug_assert-true build)
                      (elim (Bool-cases (
                        ltb (fill (reserve r) bytes).bufsize
                          (length (fill (reserve r) bytes).recv_buffer))) [
                            | inl last ↦ rw last (
                              _,
                              refl,
                              record {
                                bytes = bytes;
                                arrived = arrived;
                                unread_bytes = unread_new;
                                window = window;
                                start = start ∙ more.start_same;
                                decoded = decoded ∙ more.decoded_same;
                              },
                            )
                            | inr full ↦
                                let (a, e', rest) =
                                  try_read_all_appends fuel (fill (reserve r) bytes) x' window
                                    (ground (arith, shrunk, f)) in
                                rw (full, e')
                                  (
                                    a,
                                    refl,
                                    Appended-after received r (fill (reserve r) bytes) x x' bytes
                                        arrived unread_new (start ∙ more.start_same)
                                        (decoded ∙ more.decoded_same) rest,
                                  )
                          ])
              ])
      ]
