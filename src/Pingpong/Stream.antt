-- ===== src/Pingpong/Stream.antt =====
-- examples/example/pingpong.rs behind src/reactor.rs's `MsgReader`: all the messages of a window.
use mathlib.Core.List.{append-nil}
use reactio_rs.Base.{
  ℕ, zero, suc, ◌+◌, ◌-◌, ◌<◌, ◌≡◌, refl, ◌∙◌, ap, sym, subst, List, [], ◌∷◌, ◌++◌, true, inl, inr,
  arith, release, done, ok, Returns, ltb, leb, ◌==◌, ◌&&◌, ◌||◌, Bool-cases, length, drop,
}
use reactio_rs.Base.Int.{ℤ}
use reactio_rs.Socket.{Write, MakesProgress, IsSocket}
use reactio_rs.MsgSender.Kept.{HasRoom}
use reactio_rs.MsgReader.{MsgReader, expect_msg_size, unread, try_dispatch_all}
use reactio_rs.MsgReader.Window.{IsWindow, AgreesOn, AgreesOn-done, answered_bytes, dispatch_bytes}
use reactio_rs.MsgReader.Progress.{try_dispatch_all-agrees}
use reactio_rs.Manager.{Context}
use reactio_rs.Utils.Bytes.{IsI64}
use reactio_rs.Pingpong.{PingpongReactor, String}
use reactio_rs.Pingpong.Inbound.{on_inbound_message}
use reactio_rs.Pingpong.Frames.{
  frame, IsPartial, length-frame, frame_rest, begun_size, decode_size-partial,
}
use reactio_rs.Pingpong.Echoes.{
  HasEchoes, IsConfigured, Counts-HasEchoes, Counts-IsConfigured, outgoing,
  on_inbound_message-IsEcho,
}
use reactio_rs.Pingpong.Contract.{
  as_dispatcher, as_dispatcher-done, on_inbound_message-KeepsContract,
}
use reactio_rs.Pingpong.Messages.{
  Messages, stream, AreMessages, Expects, add-zero, AreEchoed, Expects-zero, echoed_round,
}

module _ {S C R H K : Type 0} {write : Write S} {wire : S → List ℕ} (socket : IsSocket write wire)
    (progress : (s : S) (buf : List ℕ) → MakesProgress buf (write s buf).0)
    (cpu_now_nanos : S → ℤ × S) (clock_time : (s : S) → IsI64 (cpu_now_nanos s).0)
    (clock_wire : (s : S) → wire (cpu_now_nanos s).1 ≡ wire s) (index_99 : ℕ → ℕ)
    (within : (n : ℕ) → 0 < n → index_99 n < n) where
  waits :
      (rest : List ℕ) (new_bytes : ℕ) (r : PingpongReactor) (ctx : Context S C R H String K)
      → IsPartial rest
      → (n : ℕ) × (on_inbound_message write cpu_now_nanos release index_99 (r, ctx) rest new_bytes 0
          ≡ done (record { answer = ok (expect_msg_size n); slice = rest; context = (r, ctx) }))
  unfolding on_inbound_message
  waits rest new_bytes r ctx part =
      (begun_size rest, rw (decode_size-partial release rest part) refl)

  -- The bytes behind the last whole message.
  dispatch_rest :
      (fuel : ℕ) (rest : List ℕ) (new_bytes decoded : ℕ) (r : PingpongReactor)
      (ctx : Context S C R H String K)
      → IsPartial rest
      → Expects decoded [] rest
      → Returns
          (λ (res, left, size, x). AreEchoed write wire [] rest r ctx res left x)
          (dispatch_bytes
            (as_dispatcher (on_inbound_message write cpu_now_nanos release index_99))
            release
            (suc fuel)
            rest
            new_bytes
            decoded
            (done (r, ctx)))
  unfolding dispatch_bytes answered_bytes
  dispatch_rest fuel rest new_bytes decoded r ctx part expects =
      let spec : AreEchoed write wire [] rest r ctx (ok tt) rest (done (r, ctx)) = (
        refl,
        ((r, ctx), refl, add-zero r.count_echo, ([], tt, sym (append-nil (outgoing wire ctx)))),
      ) in
      elim (Bool-cases (ltb 0 (length rest) && (decoded == 0 || leb decoded (length rest)))) [
        | inr stop ↦ rw stop (_, refl, spec)
        | inl go ↦
            let unknown : decoded ≡ 0 = ground (arith, expects, go) in
            let (n, e) = waits rest new_bytes r ctx part in
            rw
              (
                go,
                unknown,
                as_dispatcher-done (on_inbound_message write cpu_now_nanos release index_99)
                    (r, ctx) rest new_bytes 0 _ e,
              )
              (_, refl, spec)
      ]

  dispatch_stream :
      (ms : Messages) (fuel : ℕ) (rest : List ℕ) (new_bytes decoded : ℕ) (r : PingpongReactor)
      (ctx : Context S C R H String K)
      → length (stream ms rest) < fuel
      → AreMessages ms
      → IsPartial rest
      → Expects decoded ms rest
      → HasEchoes (length ms) r
      → IsConfigured r
      → HasRoom ctx.sender
      → Returns
          (λ (res, left, size, x). AreEchoed write wire ms rest r ctx res left x)
          (dispatch_bytes
            (as_dispatcher (on_inbound_message write cpu_now_nanos release index_99))
            release
            fuel
            (stream ms rest)
            new_bytes
            decoded
            (done (r, ctx)))
  unfolding dispatch_bytes
  dispatch_stream [] zero rest new_bytes decoded r ctx f h part expects left set room =
      absurd (omega arith)
  dispatch_stream [] (suc fuel) rest new_bytes decoded r ctx f h part expects left set room =
      dispatch_rest fuel rest new_bytes decoded r ctx part expects
  dispatch_stream (m ∷ ms) zero rest new_bytes decoded r ctx f h part expects left set room =
      absurd (omega arith)
  dispatch_stream ((time, body) ∷ ms) (suc fuel) rest new_bytes decoded r ctx f (hb, ht, h) part
        expects left set room =
      let tail = stream ms rest in
      let buf = frame time body ++ tail in
      let size : length buf ≡ length body + 10 + length tail = length-frame time body tail in
      let go : (ltb 0 (length buf) && (decoded == 0 || leb decoded (length buf))) ≡ true =
        ground (arith, size, expects) in
      let (d, e, spec) =
        on_inbound_message-IsEcho socket progress cpu_now_nanos clock_time clock_wire index_99 r ctx
          time body tail new_bytes decoded within hb ht expects (omega arith) set room in
      rw
        (
          go,
          as_dispatcher-done (on_inbound_message write cpu_now_nanos release index_99) (r, ctx) buf
              new_bytes decoded d e,
        )
        (echoed_round write wire ms rest r ctx time body (length buf) d.answer d _ h
          (omega (arith, size)) spec
          λ stamp slice room' counts.
            let behind : drop (length body + 10) d.slice ≡ tail =
              ap (drop (length body + 10)) slice ∙ frame_rest stamp body tail in
            subst
              (λ bytes.
                Returns
                  (λ (res, left, size, x).
                    AreEchoed write wire ms rest (d.context).0 (d.context).1 res left x)
                  (dispatch_bytes
                    (as_dispatcher (on_inbound_message write cpu_now_nanos release index_99))
                    release fuel bytes (length buf - (length body + 10)) 0 (done d.context)))
              (sym behind)
              (dispatch_stream ms fuel rest (length buf - (length body + 10)) 0 (d.context).0
                (d.context).1 (omega (arith, size)) h part (Expects-zero ms rest)
                (Counts-HasEchoes (length ms) counts left) (Counts-IsConfigured counts set) room'))

  -- In a release build, a reader whose window holds whole messages with bodies of less than 2^16
  -- bytes, and behind them no more than the beginning of one, hands them to
  -- `on_inbound_message`, with as many echoes left before `max_echo` as there are messages. The
  -- clock and the socket behave as documented, and a write of some bytes takes a byte or reports
  -- an error; there is a key for one more completion, and reports are made of two durations or
  -- more. Then `try_dispatch_all` ends without a panic. Without an error, every body has gone
  -- out again, in order, in a message with another time, behind all that was to go; each is
  -- counted, and what stays unread is the beginning of a message. The only error is
  -- `send_failed`; then some write of the socket fails, and a beginning of those bytes has gone
  -- out.
  pub try_dispatch_all_echoes :
      (ms : Messages) (rest : List ℕ) (reader : MsgReader) (new_bytes : ℕ) (r : PingpongReactor)
      (ctx : Context S C R H String K)
      → IsWindow reader
      → unread reader ≡ stream ms rest
      → AreMessages ms
      → IsPartial rest
      → Expects reader.decoded_msgsize ms rest
      → HasEchoes (length ms) r
      → IsConfigured r
      → HasRoom ctx.sender
      → Returns
          (λ (res, reader', x). AreEchoed write wire ms rest r ctx res (unread reader') x)
          (try_dispatch_all
            (as_dispatcher (on_inbound_message write cpu_now_nanos release index_99))
            release
            reader
            new_bytes
            (done (r, ctx)))
  try_dispatch_all_echoes ms rest reader new_bytes r ctx w bytes h part expects left set room =
      let dispatcher =
        as_dispatcher (
          on_inbound_message {C = C} {R = R} {H = H} {K = K} write cpu_now_nanos release
            index_99) in
      let (b, e, p) =
        dispatch_stream ms (suc (length (unread reader))) rest new_bytes reader.decoded_msgsize r
          ctx (rw bytes (omega arith)) h part expects left set room in
      let keeps =
        (on_inbound_message-KeepsContract {C = C} {R = R} {H = H} {K = K} write cpu_now_nanos
          release index_99).0 in
      let (a, e', same) =
        AgreesOn-done (length reader.recv_buffer)
          (try_dispatch_all dispatcher release reader new_bytes (done (r, ctx))) b
          (subst
            (λ o.
              AgreesOn (length reader.recv_buffer)
                (try_dispatch_all dispatcher release reader new_bytes (done (r, ctx))) o)
            (ap
                (λ bs.
                  dispatch_bytes dispatcher release (suc (length (unread reader))) bs new_bytes
                    reader.decoded_msgsize (done (r, ctx)))
                bytes
              ∙ e)
            (try_dispatch_all-agrees dispatcher release keeps reader new_bytes (done (r, ctx))
              w)) in
      (a, e', rw (same.result, same.bytes, same.context) p)
