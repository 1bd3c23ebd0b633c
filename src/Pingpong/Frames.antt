-- ===== src/Pingpong/Frames.antt =====
-- examples/example/pingpong.rs: the bytes of a message, a length, a time and a body, and how
-- `on_inbound_message` reads them.
use reactio_rs.Base.{
  if◌then◌else◌, ℕ, ◌+◌, ◌-◌, ◌≤◌, ◌<◌, ◌≡◌, refl, ◌∙◌, ap, List, [], ◌∷◌, ◌++◌, true, false, ◌⊎◌,
  inl, inr, arith, Build, release, done, Returns, debug_assert-true, ltb, ltb→le, leb, ◌==◌,
  Bool-cases, length, take, drop, length-append, length-take, length-drop, take-append, drop-append,
  drop-all, take-all, ◌%◌,
}
use reactio_rs.Base.Int.{ℤ, as_i64}
use reactio_rs.Utils.Timer.{as_u64}
use reactio_rs.Utils.Bytes.{
  bytes_to_ref, bytes_to_ref_mut, le_bytes, le_value, le_value-le_bytes, IsI64, as_u64-Fits,
  as_i64-as_u64,
}
use reactio_rs.Pingpong.{PingpongReactor, slice, with_slice}
use reactio_rs.Pingpong.Inbound.{partial, full, decode_size, receive}
use reactio_rs.Pingpong.Reporting.{SameEchoes, measure-SameEchoes}

-- A message of a body that was sent at a time.
unfoldable pub frame : ℤ → List ℕ → List ℕ
frame time body = le_bytes 2 (length body % 0x1_0000) ++ (le_bytes 8 (as_u64 time) ++ body)

-- A body whose length fits in two bytes.
abbrev pub IsBody : List ℕ → Type 0
IsBody body = length body < 0x1_0000

-- The bytes do not hold a whole message.
abbrev pub IsPartial : List ℕ → Type 0
IsPartial bytes = (length bytes < 10) ⊎ (length bytes < le_value (take 2 bytes) + 10)

pub slice_lem :
    (a b : ℕ) (buf : List ℕ)
    → a ≤ b
    → b ≤ length buf
    → slice a b buf ≡ done (take (b - a) (drop a buf))
slice_lem a b buf h k = ground arith

module _ (time : ℤ) (body tail : List ℕ) where
  pub length-frame : length (frame time body ++ tail) ≡ length body + 10 + length tail
  unfolding frame
  length-frame = omega (arith, length-append body tail)

  frame_size : le_value (take 2 (take 10 (frame time body ++ tail))) ≡ length body % 0x1_0000
  unfolding frame
  frame_size = omega arith

  frame_time :
      IsI64 time → as_i64 (le_value (take 8 (take 8 (drop 2 (frame time body ++ tail))))) ≡ time
  unfolding frame
  frame_time h =
      ap as_i64 (le_value-le_bytes 8 (as_u64 time) (as_u64-Fits time h)) ∙ as_i64-as_u64 time h

  frame_payload : drop 10 (frame time body ++ tail) ≡ body ++ tail
  unfolding frame
  frame_payload = refl

  length-frame_only : length body + 10 ≡ length (frame time body)
  unfolding frame
  length-frame_only = omega arith

  frame_stamp :
      (now : ℤ)
      → take 2 (frame time body ++ tail)
          ++ ((le_bytes 8 (as_u64 now) ++ drop 8 (take 8 (drop 2 (frame time body ++ tail))))
              ++ drop 10 (frame time body ++ tail))
        ≡ frame now body ++ tail
  unfolding frame
  frame_stamp now = refl

  frame_first : take (length body + 10) (frame time body ++ tail) ≡ frame time body
  frame_first = take-append (length body + 10) (frame time body) tail length-frame_only

  pub frame_rest : drop (length body + 10) (frame time body ++ tail) ≡ tail
  frame_rest =
      drop-append (length body + 10) (frame time body) tail (omega (arith, length-frame_only))
      ∙ ap (λ (b : List ℕ). b ++ tail)
          (drop-all (length body + 10) (frame time body) (omega (arith, length-frame_only)))

  pub slice-whole : slice 0 (length body + 10) (frame time body ++ tail) ≡ done (frame time body)
  slice-whole =
      slice_lem 0 (length body + 10) (frame time body ++ tail) (omega arith)
        (omega (arith, length-frame))
      ∙ ap (λ k. done (take k (frame time body ++ tail))) (omega arith)
      ∙ ap done frame_first

  pub slice-payload :
      slice 10 (length (frame time body ++ tail)) (frame time body ++ tail) ≡ done (body ++ tail)
  slice-payload =
      let buf = frame time body ++ tail in
      slice_lem 10 (length buf) buf (omega (arith, length-frame)) (omega arith)
      ∙ ap done (
          take-all (length buf - 10) (drop 10 buf) (omega (arith, length-drop 10 buf))
          ∙ frame_payload)

  -- The length in the header is cut to two bytes.
  pub decode_size-cut :
      (build : Build)
      → decode_size build (frame time body ++ tail) 0 ≡ done (full (length body % 0x1_0000 + 10))
  unfolding decode_size bytes_to_ref
  decode_size-cut build =
      let buf = frame time body ++ tail in
      let long : ltb (length buf) 10 ≡ false = ground (arith, length-frame) in
      let header : leb 2 (length (take 10 buf)) ≡ true =
        ground (arith, length-frame, length-take 10 buf) in
      let whole : ltb (length buf) (length body % 0x1_0000 + 10) ≡ false =
        ground (arith, length-frame) in
      rw
        (
          long,
          slice_lem 0 10 buf (omega arith) (omega (arith, length-frame)),
          header,
          debug_assert-true build,
          frame_size,
          whole,
        )
        refl

  pub decode_size-frame :
      (build : Build)
      → IsBody body
      → decode_size build (frame time body ++ tail) 0 ≡ done (full (length body + 10))
  decode_size-frame build h =
      decode_size-cut build ∙ ap (λ (n : ℕ). done (full (n + 10))) (omega arith)

  pub receive-frame :
      (r : PingpongReactor) (now : ℤ)
      → IsBody body
      → IsI64 time
      → Returns
          (λ r'.
            SameEchoes
              (record r {
                last_recv_msg = record (r.last_recv_msg) {
                  header = record { body_len = length body; send_time = time };
                };
              })
              r')
          (receive release r (frame time body ++ tail) now)
  unfolding receive bytes_to_ref
  receive-frame r now h ht =
      let buf = frame time body ++ tail in
      let whole_size : length body % 0x1_0000 ≡ length body = omega arith in
      let enough : 10 ≤ length buf = omega (arith, length-frame) in
      rw
        (
          slice_lem 0 10 buf (omega arith) enough,
          slice_lem 2 10 buf (omega arith) enough,
          (frame_size ∙ whole_size),
          frame_time ht,
        )
        (measure-SameEchoes _ now)

  pub stamp-frame :
      (build : Build) (now : ℤ)
      → with_slice 2 10
          (λ part. bytes_to_ref_mut build 8 part (as_u64 now))
          (frame time body ++ tail)
        ≡ done (frame now body ++ tail)
  unfolding bytes_to_ref_mut
  stamp-frame build now =
      let buf = frame time body ++ tail in
      let enough : 10 ≤ length buf = omega (arith, length-frame) in
      let part : leb 8 (length (take 8 (drop 2 buf))) ≡ true =
        ground (arith, length-frame, length-take 8 (drop 2 buf), length-drop 2 buf) in
      rw (slice_lem 2 10 buf (omega arith) enough, part, debug_assert-true build)
        (ap done (frame_stamp now))

pub decode_size-known :
    (build : Build) (buf : List ℕ) (decoded : ℕ)
    → 0 < decoded
    → decode_size build buf decoded ≡ done (full decoded)
unfolding decode_size
decode_size-known build buf decoded h =
    let known : (decoded == 0) ≡ false = ground arith in rw known refl

pub size_bytes : (buf : List ℕ) → take 2 (take 10 buf) ≡ take 2 buf
size_bytes [] = refl
size_bytes (x ∷ []) = refl
size_bytes (x ∷ y ∷ buf) = refl

-- The size of the message that the bytes begin, or 0 where the header is not complete.
abbrev pub begun_size : List ℕ → ℕ
begun_size bytes = if ltb (length bytes) 10 then 0 else le_value (take 2 bytes) + 10

pub decode_size-partial :
    (build : Build) (buf : List ℕ)
    → IsPartial buf
    → decode_size build buf 0 ≡ done (partial (begun_size buf))
unfolding decode_size bytes_to_ref
decode_size-partial build buf part = elim (Bool-cases (ltb (length buf) 10)) [
  | inl short ↦ rw short refl
  | inr long ↦
      let enough : 10 ≤ length buf = ltb→le (length buf) 10 long in
      let header : leb 2 (length (take 10 buf)) ≡ true = ground (arith, length-take 10 buf) in
      let size : take 2 (take 10 buf) ≡ take 2 buf = size_bytes buf in
      let less : ltb (length buf) (le_value (take 2 buf) + 10) ≡ true = ground (arith, part) in
      rw
        (long, slice_lem 0 10 buf (omega arith) enough, header, debug_assert-true build, size, less)
        refl
]
