-- ===== src/Pingpong/Inbound.antt =====
-- examples/example/pingpong.rs, `on_inbound_message` of `PingpongReactor`.
use Prim.Native.String.{String}
use reactio_rs.Base.{
  ℕ, ◌+◌, List, Build, debug, release, Outcome, done, panic, ◌>>=◌, ◌>>◌, debug_assert, ok, err,
  ltb, leb, ◌==◌, if◌then◌else◌, length,
}
use reactio_rs.Base.Int.{ℤ, pos, negsuc, ltb_ℤ, as_i64}
use reactio_rs.Socket.{Write}
use reactio_rs.MsgReader.{expect_msg_size, drop_msg_size, Dispatched}
use reactio_rs.Manager.{Context}
use reactio_rs.Reactor.Sending.{context_send_or_que}
use reactio_rs.Utils.Timer.{add_ℤ, as_u64}
use reactio_rs.Utils.Bytes.{bytes_to_ref, bytes_to_ref_mut}
use reactio_rs.Pingpong.{
  msg_header_size, i32_max, PingpongReactor, slice, with_slice, max_echo_reached, send_failed,
  read_clock,
}
use reactio_rs.Pingpong.Latency.{measure, report_if_due}

-- `a + 1` on `i32`.
abbrev pub next_i32 : Build → ℤ → Outcome ℤ
next_i32 build a =
    if ltb_ℤ a i32_max
    then done (add_ℤ a (pos 1))
    else elim build [ debug ↦ panic | release ↦ done (negsuc 0x7fff_ffff) ]

-- How the decoding of the header ends: more bytes are needed, or a message of a size is there.
pub data Sizing : Type 0 where
  partial full : ℕ → Sizing

-- The payload is what stands behind the header.
unfoldable pub keep_payload : PingpongReactor → List ℕ → Outcome PingpongReactor
keep_payload r buf = slice msg_header_size (length buf) buf >>= λ payload.
    done (record r { last_recv_msg = record (r.last_recv_msg) { payload = payload } })

module _ (build : Build) where
  unfoldable pub decode_size : List ℕ → ℕ → Outcome Sizing
  decode_size buf decoded_msg_size =
      let decode : Outcome Sizing = do
        header ← slice 0 msg_header_size buf
        body_len ← bytes_to_ref build 2 header
        let msg_size = body_len + msg_header_size
        done (if ltb (length buf) msg_size then partial msg_size else full msg_size)
      in if decoded_msg_size == 0
        then (if ltb (length buf) msg_header_size then done (partial 0) else decode)
        else done (full decoded_msg_size)

  -- The block behind `recvtime`.
  unfoldable pub receive : PingpongReactor → List ℕ → ℤ → Outcome PingpongReactor
  receive r buf recvtime = do
    header ← slice 0 msg_header_size buf
    body_len ← bytes_to_ref build 2 header
    time ← slice 2 msg_header_size buf
    bits ← bytes_to_ref build 8 time
    debug_assert build (body_len + msg_header_size == length buf)
    measure build
        (record r {
          last_recv_msg = record (r.last_recv_msg) {
            header = record { body_len = body_len; send_time = as_i64 bits };
          };
        })
        recvtime

module _ {S C R H K : Type 0} (write : Write S) (cpu_now_nanos : S → ℤ × S) (build : Build) where
  -- The end of `on_inbound_message`: the message goes back, or the limit is reached.
  unfoldable pub echo :
      PingpongReactor
      → Context S C R H String K
      → List ℕ
      → ℕ
      → Outcome (Dispatched (PingpongReactor × Context S C R H String K))
  echo r ctx buf msg_size =
      let (now, ctx1) = read_clock cpu_now_nanos ctx in
      let r1 = record r { last_sent_time = now } in
      let back : Outcome (Dispatched (PingpongReactor × Context S C R H String K)) =
        slice 0 msg_size buf >>= λ msg. context_send_or_que write build ctx1 msg >>= λ (res, ctx2).
        elim res [
          | err e ↦ done (record { answer = err send_failed; slice = buf; context = (r1, ctx2) })
          | ok _ ↦ keep_payload r1 buf >>= λ r2. next_i32 build r2.count_echo >>= λ count.
              done (record {
                answer = ok (drop_msg_size msg_size);
                slice = buf;
                context = (record r2 { count_echo = count }, ctx2);
              })
        ] in
      let over : Outcome (Dispatched (PingpongReactor × Context S C R H String K)) =
        keep_payload r buf >>= λ r2.
        done (record { answer = err max_echo_reached; slice = buf; context = (r2, ctx) }) in
      if ltb_ℤ r.count_echo r.max_echo then back else over

  -- What follows the decoding of the header. The time of the message in the buffer is replaced.
  unfoldable pub full_message :
      (ℕ → ℕ)
      → PingpongReactor
      → Context S C R H String K
      → List ℕ
      → ℕ
      → Outcome (Dispatched (PingpongReactor × Context S C R H String K))
  full_message index_99 r ctx buf msg_size =
      let (recvtime, ctx1) = read_clock cpu_now_nanos ctx in
      let (now, ctx2) = read_clock cpu_now_nanos ctx1 in
      debug_assert build (leb msg_size (length buf))
      >> (receive build r buf recvtime >>= λ r1. report_if_due build index_99 r1 >>= λ r2.
          with_slice 2 msg_header_size (λ time. bytes_to_ref_mut build 8 time (as_u64 now)) buf
          >>= λ buf'. echo r2 ctx2 buf' msg_size)

  unfoldable pub on_inbound_message :
      (ℕ → ℕ)
      → PingpongReactor × Context S C R H String K
      → List ℕ
      → ℕ
      → ℕ
      → Outcome (Dispatched (PingpongReactor × Context S C R H String K))
  on_inbound_message index_99 (r, ctx) buf new_bytes decoded_msg_size =
      decode_size build buf decoded_msg_size >>= λ sizing. elim sizing [
        | partial n ↦
            done (record { answer = ok (expect_msg_size n); slice = buf; context = (r, ctx) })
        | full msg_size ↦ full_message index_99 r ctx buf msg_size
      ]
