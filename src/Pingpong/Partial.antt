-- ===== src/Pingpong/Partial.antt =====
-- examples/example/pingpong.rs, `on_inbound_message` on the beginning of a message.
use reactio_rs.Base.{
  ℕ, ◌+◌, ◌<◌, ◌≡◌, refl, List, ◌⊎◌, inl, inr, arith, Build, done, ok, ltb, Bool-cases, length,
  take,
}
use reactio_rs.Base.Int.{ℤ}
use reactio_rs.Socket.{Write}
use reactio_rs.MsgReader.{expect_msg_size}
use reactio_rs.Manager.{Context}
use reactio_rs.Utils.Bytes.{le_value}
use reactio_rs.Pingpong.{PingpongReactor, String}
use reactio_rs.Pingpong.Inbound.{on_inbound_message}
use reactio_rs.Pingpong.Frames.{IsPartial, begun_size, decode_size-partial}

module _ {S C R H K : Type 0} (write : Write S) (cpu_now_nanos : S → ℤ × S) (build : Build) where
  -- In either build, on the beginning of a message, of which no size was told before,
  -- `on_inbound_message` returns and changes nothing: not the bytes, nor the reactor, nor the context.
  -- It answers the size of the whole message, which it reads from the header and which is more than
  -- there is, or that the size is unknown, if the header is not complete.
  pub on_inbound_message_partial :
      (index_99 : ℕ → ℕ) (r : PingpongReactor) (ctx : Context S C R H String K) (buf : List ℕ)
      (new_bytes : ℕ)
      → IsPartial buf
      → (on_inbound_message write cpu_now_nanos build index_99 (r, ctx) buf new_bytes 0
          ≡ done (record {
            answer = ok (expect_msg_size (begun_size buf));
            slice = buf;
            context = (r, ctx);
          }))
        × (((length buf < 10) × (begun_size buf ≡ 0))
            ⊎ ((begun_size buf ≡ le_value (take 2 buf) + 10) × (length buf < begun_size buf)))
  unfolding on_inbound_message
  on_inbound_message_partial index_99 r ctx buf new_bytes part = (
    rw (decode_size-partial build buf part) refl,
    elim (Bool-cases (ltb (length buf) 10)) [
      | inl short ↦ rw short (inl (ground arith, refl))
      | inr long ↦ rw long (inr (refl, ground (arith, part)))
    ],
  )
