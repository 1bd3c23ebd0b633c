-- ===== src/Pingpong/Limits.antt =====
-- examples/example/pingpong.rs: where `on_inbound_message` does not send a message back.
use reactio_rs.Base.{
  ℕ, ◌+◌, ◌≤◌, ◌<◌, ◌≡◌, refl, ◌∙◌, ap, List, ◌++◌, true, false, arith, debug, release, panic, err,
  Returns, ltb, leb, ◌==◌, length, length-take, length-drop, take, drop,
}
use reactio_rs.Base.Int.{ℤ, pos, ltb_ℤ, ◌≤ℤ◌}
use reactio_rs.Socket.{Write}
use reactio_rs.Manager.{Context}
use reactio_rs.Utils.Bytes.{IsI64, le_value, bytes_to_ref}
use reactio_rs.Pingpong.{PingpongReactor, String, max_echo_reached, Msg}
use reactio_rs.Pingpong.Inbound.{
  decode_size, receive, keep_payload, echo, full_message, on_inbound_message,
}
use reactio_rs.Pingpong.Reporting.{report_if_due-SameEchoes, SameEchoes-trans}
use reactio_rs.Pingpong.Frames.{
  frame, IsBody, slice_lem, size_bytes, slice-payload, decode_size-frame, receive-frame,
  stamp-frame,
}

-- The limit is reached.
abbrev pub IsSpent : PingpongReactor → Type 0
IsSpent r = r.max_echo ≤ℤ r.count_echo

-- The assertion that the buffer holds one message.
receive-panics :
    (r : PingpongReactor) (buf : List ℕ) (now : ℤ)
    → 10 ≤ length buf
    → le_value (take 2 buf) + 10 < length buf
    → receive debug r buf now ≡ panic
unfolding receive bytes_to_ref
receive-panics r buf now enough more =
    let header : leb 2 (length (take 10 buf)) ≡ true = ground (arith, length-take 10 buf) in
    let time : leb 8 (length (take 8 (drop 2 buf))) ≡ true =
      ground (arith, length-take 8 (drop 2 buf), length-drop 2 buf) in
    let differ : (le_value (take 2 buf) + 10 == length buf) ≡ false = ground arith in
    rw
      (
        slice_lem 0 10 buf (omega arith) enough,
        header,
        size_bytes buf,
        slice_lem 2 10 buf (omega arith) enough,
        time,
        differ,
      )
      refl

module _ {S C R H K : Type 0} (write : Write S) (cpu_now_nanos : S → ℤ × S) (index_99 : ℕ → ℕ) where
  -- In a release build, when as many messages have gone back as `max_echo` says, a whole message with a
  -- body of less than 2^16 bytes is answered by the error that closes the connection, if reports are
  -- made of two durations or more: nothing is sent or put in the sender's buffer, nothing is counted,
  -- and the message is kept as the last one.
  pub on_inbound_message_spent :
      (r : PingpongReactor) (ctx : Context S C R H String K) (time : ℤ) (body tail : List ℕ)
      (new_bytes k : ℕ)
      → ((n : ℕ) → 0 < n → index_99 n < n)
      → IsBody body
      → IsI64 time
      → IsSpent r
      → r.latency_batch ≡ pos k
      → 2 ≤ k
      → Returns
          (λ d.
            (d.answer ≡ err max_echo_reached)
            × ((d.context).1.sender ≡ ctx.sender)
            × ((d.context).1.sock ≡ (cpu_now_nanos (cpu_now_nanos ctx.sock).1).1)
            × ((d.context).0.count_echo ≡ r.count_echo)
            × ((d.context).0.last_recv_msg ≡ record {
              header = record { body_len = length body; send_time = time };
              payload = body ++ tail;
            }))
          (on_inbound_message write cpu_now_nanos release index_99
            (r, ctx)
            (frame time body ++ tail)
            new_bytes
            0)
  unfolding on_inbound_message full_message echo keep_payload
  on_inbound_message_spent r ctx time body tail new_bytes k within hb ht spent batch two =
      let recvtime = (cpu_now_nanos ctx.sock).0 in
      let stamp = (cpu_now_nanos (cpu_now_nanos ctx.sock).1).0 in
      let (r1, e1, same1) = receive-frame time body tail r recvtime hb ht in
      let (r2, e2, same2) =
        report_if_due-SameEchoes release index_99 r1 k within (same1.batch ∙ batch) two in
      let same = SameEchoes-trans same1 same2 in
      let over : ltb_ℤ r2.count_echo r2.max_echo ≡ false =
        rw (same.count, same.limit) (ground arith) in
      rw
        (
          decode_size-frame time body tail release hb,
          e1,
          e2,
          stamp-frame time body tail release stamp,
          over,
          slice-payload stamp body tail,
        )
        (
          _,
          refl,
          (
            refl,
            refl,
            refl,
            same.count,
            ap (λ (m : Msg). record { header = m.header; payload = body ++ tail }) same.message,
          ),
        )

  -- In a debug build, `on_inbound_message` panics on every buffer that holds more than its first
  -- message, as when two messages have arrived in one read.
  pub on_inbound_message-debug_panics :
      (x : PingpongReactor × Context S C R H String K) (buf : List ℕ) (new_bytes : ℕ)
      → 10 ≤ length buf
      → le_value (take 2 buf) + 10 < length buf
      → on_inbound_message write cpu_now_nanos debug index_99 x buf new_bytes 0 ≡ panic
  unfolding on_inbound_message full_message decode_size bytes_to_ref
  on_inbound_message-debug_panics (r, ctx) buf new_bytes enough more =
      let long : ltb (length buf) 10 ≡ false = ground arith in
      let header : leb 2 (length (take 10 buf)) ≡ true = ground (arith, length-take 10 buf) in
      let whole : ltb (length buf) (le_value (take 2 buf) + 10) ≡ false = ground arith in
      let there : leb (le_value (take 2 buf) + 10) (length buf) ≡ true = ground arith in
      rw
        (
          long,
          slice_lem 0 10 buf (omega arith) enough,
          header,
          size_bytes buf,
          whole,
          there,
          receive-panics r buf (cpu_now_nanos ctx.sock).0 enough more,
        )
        refl
