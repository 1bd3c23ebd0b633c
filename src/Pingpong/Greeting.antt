-- ===== src/Pingpong/Greeting.antt =====
-- examples/example/pingpong.rs: the message of `send_msg`, and what its receiver makes of it.
use mathlib.Core.List.{append-nil}
use reactio_rs.Base.{
  suc, ℕ, ◌+◌, ◌%◌, ◌≤◌, ◌<◌, ◌≡◌, refl, ◌∙◌, ap, List, [], ◌++◌, inl, inr, arith, Build, release,
  done, Result, ok, err, Returns, debug_assert-true, length, take, replicate,
}
use reactio_rs.Base.Int.{ℤ}
use reactio_rs.Socket.{ErrorKind, Write, MakesProgress, IsSocket, Fails}
use reactio_rs.MsgSender.Kept.{HasRoom}
use reactio_rs.MsgSender.Plain.{send_or_que_plain}
use reactio_rs.Manager.{Context}
use reactio_rs.Reactor.Sending.{context_send_or_que}
use reactio_rs.Utils.Timer.{as_u64}
use reactio_rs.Utils.Bytes.{bytes_to_ref_mut, le_bytes, IsI64}
use reactio_rs.Pingpong.{PingpongReactor, PingpongError, String, slice, with_slice}
use reactio_rs.Pingpong.Inbound.{full, decode_size, on_inbound_message}
use reactio_rs.Pingpong.Connect.{send_msg}
use reactio_rs.Pingpong.Frames.{
  IsBody, decode_size-cut, length-frame, frame, slice_lem, slice-whole,
}
use reactio_rs.Pingpong.Echoes.{
  outgoing, HasEchoes, IsConfigured, IsEcho, on_inbound_message-IsEcho,
}

-- The buffer as `vec!` and `copy_from_slice` leave it, and the two writes of its header.
filled : (msg : List ℕ) → take 10 (replicate (length msg + 10) 0) ++ msg ≡ replicate 10 0 ++ msg
filled msg =
    let size : length msg + 10
        ≡ suc (suc (suc (suc (suc (suc (suc (suc (suc (suc (length msg)))))))))) =
      omega arith in
    ap (λ n. take 10 (replicate n 0) ++ msg) size

length_written :
    (build : Build) (msg : List ℕ) (w : ℕ)
    → with_slice 0 10 (λ header. bytes_to_ref_mut build 2 header w) (replicate 10 0 ++ msg)
      ≡ done (le_bytes 2 w ++ (replicate 8 0 ++ msg))
unfolding bytes_to_ref_mut
length_written build msg w =
    rw (slice_lem 0 10 (replicate 10 0 ++ msg) (omega arith) (omega arith), debug_assert-true build)
      refl

time_written :
    (build : Build) (msg : List ℕ) (now : ℤ)
    → with_slice 2 10
        (λ time. bytes_to_ref_mut build 8 time (as_u64 now))
        (le_bytes 2 (length msg % 0x1_0000) ++ (replicate 8 0 ++ msg))
      ≡ done (frame now msg)
unfolding bytes_to_ref_mut frame
time_written build msg now =
    rw
      (
        slice_lem 2 10 (le_bytes 2 (length msg % 0x1_0000) ++ (replicate 8 0 ++ msg)) (omega arith)
            (omega arith),
        debug_assert-true build,
      )
      refl

module _ {S C R H K : Type 0} (write : Write S) (wire : S → List ℕ) where
  -- All of the bytes go out behind those of before, or some write fails and a beginning of them does.
  abbrev pub SendsBytes :
      Context S C R H String K
      → List ℕ
      → Result PingpongError (Unit {0})
      → Context S C R H String K
      → Type 0
  SendsBytes ctx bytes (ok _) ctx' = outgoing wire ctx' ≡ outgoing wire ctx ++ bytes
  SendsBytes ctx bytes (err e) ctx' =
      ((k : ErrorKind) × Fails write k)
      × ((n : ℕ) × (outgoing wire ctx' ≡ outgoing wire ctx ++ take n bytes))

module _ {S C R H K : Type 0} {write : Write S} {wire : S → List ℕ} (socket : IsSocket write wire)
    (progress : (s : S) (buf : List ℕ) → MakesProgress buf (write s buf).0)
    (cpu_now_nanos : S → ℤ × S) (clock_wire : (s : S) → wire (cpu_now_nanos s).1 ≡ wire s) where
  pub send_msg-frame :
      (r : PingpongReactor) (ctx : Context S C R H String K) (msg : List ℕ)
      → HasRoom ctx.sender
      → Returns
          (λ (res, r', ctx').
            (r' ≡ r)
            × (ctx'.cmd_sender ≡ ctx.cmd_sender)
            × SendsBytes write wire ctx (frame (cpu_now_nanos ctx.sock).0 msg) res ctx')
          (send_msg write cpu_now_nanos release r ctx msg)
  unfolding send_msg context_send_or_que
  send_msg-frame r ctx msg room =
      let now = (cpu_now_nanos ctx.sock).0 in
      let whole : slice 0 (length msg + 10) (frame now msg) ≡ done (frame now msg) =
        rw append-nil at (slice-whole now msg []) in
      let (x, e, (sent, room')) =
        send_or_que_plain socket progress ctx.sender (cpu_now_nanos ctx.sock).1 (frame now msg)
          room in
      let before = clock_wire ctx.sock in
      elim sent [
        | inl (q, e', out) ↦
            rw
              (
                filled msg,
                length_written release msg (length msg % 0x1_0000),
                time_written release msg now,
                whole,
                e,
                e',
              )
              (
                _,
                refl,
                (
                  refl,
                  refl,
                  out ∙ ap (λ (w : List ℕ). (w ++ ctx.sender.buf) ++ frame now msg) before,
                ),
              )
        | inr (f, e', (k, _, fails), (n, out)) ↦
            rw
              (
                filled msg,
                length_written release msg (length msg % 0x1_0000),
                time_written release msg now,
                whole,
                e,
                e',
              )
              (
                _,
                refl,
                (
                  refl,
                  refl,
                  (
                    (k, fails),
                    (
                      n,
                      out
                          ∙ ap (λ (w : List ℕ). (w ++ ctx.sender.buf) ++ take n (frame now msg))
                              before,
                    ),
                  ),
                ),
              )
      ]

  -- In a release build, on a clock and a socket that behave as documented, where a write of some
  -- bytes takes a byte or reports an error, and with a key left for one more completion,
  -- `send_msg` ends without a panic and leaves the reactor and the channel of commands as they
  -- were. It sends bytes behind all that was to go, or some write fails and a beginning of them goes out with an error. For a
  -- text of less than 2^16 bytes these are a message: a receiver on such a socket that has an
  -- echo left, with bytes behind the message or none, sends back the same text and drops that
  -- message; or some write of the socket fails, and it answers `send_failed`, with a beginning
  -- of the text's message sent back.
  pub send_msg-on_inbound_message :
      (clock_time : (s : S) → IsI64 (cpu_now_nanos s).0) (index_99 : ℕ → ℕ)
      (within : (n : ℕ) → 0 < n → index_99 n < n) (r peer : PingpongReactor)
      (ctx peer_ctx : Context S C R H String K) (msg tail : List ℕ) (new_bytes : ℕ)
      → IsBody msg
      → HasRoom ctx.sender
      → HasEchoes 1 peer
      → IsConfigured peer
      → HasRoom peer_ctx.sender
      → (bytes : List ℕ) × Returns
          (λ (res, r', ctx').
            (r' ≡ r)
            × (ctx'.cmd_sender ≡ ctx.cmd_sender)
            × SendsBytes write wire ctx bytes res ctx')
          (send_msg write cpu_now_nanos release r ctx msg)
        × Returns
            (λ d. IsEcho write wire msg tail (cpu_now_nanos ctx.sock).0 peer peer_ctx d.answer d)
            (on_inbound_message write cpu_now_nanos release index_99
              (peer, peer_ctx)
              (bytes ++ tail)
              new_bytes
              0)
  send_msg-on_inbound_message clock_time index_99 within r peer ctx peer_ctx msg tail new_bytes hb
        room left set peer_room =
      (
        frame (cpu_now_nanos ctx.sock).0 msg,
        send_msg-frame r ctx msg room,
        on_inbound_message-IsEcho socket progress cpu_now_nanos clock_time clock_wire index_99 peer
            peer_ctx (cpu_now_nanos ctx.sock).0 msg tail new_bytes 0 within hb (clock_time ctx.sock)
            (inl refl) left set peer_room,
      )

  -- In a release build, on a clock and a socket that behave as documented, where a write of some
  -- bytes takes a byte or reports an error, and with a key left for one more completion,
  -- `send_msg` with a text of 2^16 bytes or more ends, and sends bytes of which a receiver takes
  -- only the first for a message, at least 2^16 less than there are: the length in the header is
  -- cut to two bytes.
  pub send_msg_cuts :
      (r : PingpongReactor) (ctx : Context S C R H String K) (msg tail : List ℕ) (build : Build)
      → 0x1_0000 ≤ length msg
      → HasRoom ctx.sender
      → (bytes : List ℕ) × Returns
          (λ (res, r', ctx').
            (r' ≡ r)
            × (ctx'.cmd_sender ≡ ctx.cmd_sender)
            × SendsBytes write wire ctx bytes res ctx')
          (send_msg write cpu_now_nanos release r ctx msg)
        × ((n : ℕ) × (decode_size build (bytes ++ tail) 0 ≡ done (full n))
            × (n + 0x1_0000 ≤ length bytes))
  send_msg_cuts r ctx msg tail build long room =
      let now = (cpu_now_nanos ctx.sock).0 in
      (
        frame now msg,
        send_msg-frame r ctx msg room,
        (
          length msg % 0x1_0000 + 10,
          decode_size-cut now msg tail build,
          omega (arith, length-frame now msg [], ap length (append-nil (frame now msg))),
        ),
      )
