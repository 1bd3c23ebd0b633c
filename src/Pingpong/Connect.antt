-- ===== src/Pingpong/Connect.antt =====
-- examples/example/pingpong.rs: the callbacks of `PingpongReactor` on a connection, and `send_msg`.
use Prim.Native.String.{String}
use reactio_rs.Base.{
  ℕ, ◌+◌, ◌%◌, List, [], ◌∷◌, ◌++◌, Build, Outcome, done, ◌>>=◌, Result, ok, err, if◌then◌else◌,
  length, take, replicate,
}
use reactio_rs.Base.Int.{ℤ}
use reactio_rs.ReactorId.{ReactorId}
use reactio_rs.Socket.{Write}
use reactio_rs.Command.{immediate, send_close}
use reactio_rs.Manager.{Context}
use reactio_rs.Reactor.Sending.{context_send_or_que}
use reactio_rs.Utils.Timer.{as_u64}
use reactio_rs.Utils.Bytes.{bytes_to_ref_mut}
use reactio_rs.Pingpong.{
  msg_header_size, PingpongReactor, slice, with_slice, PingpongError, sending, commanding,
  read_clock,
}

-- "test msg000"
abbrev pub test_bytes : List ℕ
test_bytes = b't' ∷ b'e' ∷ b's' ∷ b't' ∷ b' ' ∷ b'm' ∷ b's' ∷ b'g' ∷ b'0' ∷ b'0' ∷ b'0' ∷ []

module _ {S C R H K : Type 0} where
  unfoldable pub on_command :
      PingpongReactor
      → String
      → Context S C R H String K
      → Result PingpongError (Unit {0}) × PingpongReactor × Context S C R H String K
  on_command r cmd ctx = (ok tt, r, ctx)

module _ {S C R H K : Type 0} (write : Write S) (cpu_now_nanos : S → ℤ × S) (build : Build) where
  -- The initial message.
  unfoldable pub send_msg :
      PingpongReactor
      → Context S C R H String K
      → List ℕ
      → Outcome (Result PingpongError (Unit {0}) × PingpongReactor × Context S C R H String K)
  send_msg r ctx msg =
      let (now, ctx1) = read_clock cpu_now_nanos ctx in
      let size = length msg + msg_header_size in
      let empty = replicate size 0 in
      let filled = take msg_header_size empty ++ msg in
      do
        sized ←
            with_slice 0 msg_header_size
              (λ header. bytes_to_ref_mut build 2 header (length msg % 0x1_0000)) filled
        buf ←
            with_slice 2 msg_header_size (λ time. bytes_to_ref_mut build 8 time (as_u64 now)) sized
        whole ← slice 0 size buf
        (res, ctx2) ← context_send_or_que write build ctx1 whole
        done (elim res [ ok _ ↦ ok tt | err e ↦ err (sending e) ], r, ctx2)

  -- `ignored` is the completion `|_| {}`.
  unfoldable pub on_connected :
      K
      → PingpongReactor
      → Context S C R H String K
      → ReactorId
      → Outcome (Result PingpongError (Unit {0}) × PingpongReactor × Context S C R H String K)
  on_connected ignored r ctx listener =
      let r1 = record r { parent_listener = listener } in
      let close : Result PingpongError (Unit {0}) × PingpongReactor × Context S C R H String K =
        let (res, channel) = send_close ctx.cmd_sender listener immediate ignored in
        (
          elim res [ ok _ ↦ ok tt | err e ↦ err (commanding e) ],
          r1,
          record ctx { cmd_sender = channel },
        ) in
      if r.is_client then send_msg r1 ctx test_bytes else done close
