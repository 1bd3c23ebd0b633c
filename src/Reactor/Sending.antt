-- ===== src/Reactor/Sending.antt =====
-- src/reactor.rs, `DispatchContext`: sending from a callback, on the socket of the context.
use reactio_rs.Base.{ℕ, List, none, Build, Outcome, done, ◌>>=◌, Result}
use reactio_rs.Socket.{IoResult, Write}
use reactio_rs.MsgSender.{SendOrQueResult, SendError, try_send_all, send_or_que}
use reactio_rs.Manager.{Context}

module _ {S C R H U K : Type 0} (write : Write S) where
  unfoldable pub send_no_que :
      Context S C R H U K → List ℕ → Outcome (IoResult ℕ × Context S C R H U K)
  send_no_que ctx msg =
      try_send_all write ctx.sock msg >>= λ (res, sock). done (res, record ctx { sock = sock })

  -- `DispatchContext::send_or_que`, without a completion.
  unfoldable pub context_send_or_que :
      Build
      → Context S C R H U K
      → List ℕ
      → Outcome (Result SendError SendOrQueResult × Context S C R H U K)
  context_send_or_que build ctx msg = send_or_que write build ctx.sender ctx.sock msg none >>= λ r.
      done (r.result, record ctx { sock = r.sock; sender = r.sender })
