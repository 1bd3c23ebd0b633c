-- ===== src/MsgSender/Plain.antt =====
-- `send_or_que` of src/reactor.rs without a completion.
use mathlib.Core.List.{append-nil}
use reactio_rs.Base.{
  ◌⊎◌, take, ◌<◌, usize_max, ℕ, ◌≡◌, refl, sym, ap, subst, List, ◌++◌, none, release, Outcome, done,
  panic, no_fuel, Result, ok, err, Returns, Holds, ◌>>=◌, ◌==◌, Bool-cases, inl, inr, length,
  is_nil,
}
use reactio_rs.FlatStorage
use reactio_rs.FlatStorage.Laws.{IsValid}
use reactio_rs.Socket.{IoResult, io_ok, io_err, ErrorKind, Write, MakesProgress, IsSocket, Fails}
use reactio_rs.MsgSender.{
  MsgSender, SendOrQueResult, complete, in_queue, SendError, write_failed, Sending, quiet,
  queue_msg_completion, assert_idle, try_send_all, queue_rest, send_or_que,
}
use reactio_rs.MsgSender.Kept.{HasRoom}
use reactio_rs.MsgSender.Conservation.{SendSpec, send_or_que_conserves}

module _ {S C : Type 0} (write : Write S) where
  -- The end with the list of completions of before.
  abbrev SamePending :
      MsgSender C → Outcome (Sending S C (Result SendError SendOrQueResult)) → Type 0
  SamePending m = Holds (λ r. r.sender.pending ≡ m.pending)

  queue_rest-SamePending :
      (m : MsgSender C) (sock : S) (msg : List ℕ) (n : ℕ)
      → SamePending m (queue_rest write release m sock msg none n)
  unfolding queue_rest queue_msg_completion
  queue_rest-SamePending m sock msg n = elim (Bool-cases (n == length msg)) [
    | inl e ↦ rw e refl
    | inr e ↦ rw e refl
  ]

  sent-SamePending :
      (m : MsgSender C) (msg : List ℕ) (o : Outcome (IoResult ℕ × S))
      → SamePending m (
          o >>= λ (res, sock'). elim res [
            | io_ok sentbytes ↦ queue_rest write release m sock' msg none sentbytes
            | io_err kind ↦ done (quiet (err (write_failed kind)) m sock')
          ])
  sent-SamePending m msg (done (io_ok n, sock)) = queue_rest-SamePending m sock msg n
  sent-SamePending m msg (done (io_err k, sock)) = refl
  sent-SamePending m msg panic = tt
  sent-SamePending m msg no_fuel = tt

  send_or_que-SamePending :
      (m : MsgSender C) (sock : S) (msg : List ℕ)
      → SamePending m (send_or_que write release m sock msg none)
  unfolding send_or_que queue_msg_completion assert_idle
  send_or_que-SamePending m sock msg = elim (Bool-cases (is_nil msg)) [
    | inl e ↦ rw e refl
    | inr e ↦ rw e (elim (Bool-cases (is_nil m.buf)) [
      | inl e' ↦ rw e' (sent-SamePending m msg (try_send_all write sock msg))
      | inr e' ↦ rw e' refl
    ])
  ]

module _ {S C : Type 0} {write : Write S} {wire : S → List ℕ} (socket : IsSocket write wire)
    (progress : (s : S) (buf : List ℕ) → MakesProgress buf (write s buf).0) where
  -- All of the message follows the bytes of before, or the error of a write that fails comes with a
  -- beginning of it.
  abbrev pub IsSent :
      MsgSender C → S → List ℕ → Sending S C (Result SendError SendOrQueResult) → Type 0
  IsSent m sock msg r =
      ((q : SendOrQueResult) × (r.result ≡ ok q)
        × (wire r.sock ++ r.sender.buf ≡ (wire sock ++ m.buf) ++ msg))
      ⊎ ((e : SendError) × (r.result ≡ err e)
          × ((k : ErrorKind) × (e ≡ write_failed k) × Fails write k)
          × ((n : ℕ) × (wire r.sock ++ r.sender.buf ≡ (wire sock ++ m.buf) ++ take n msg)))

  SendSpec-IsSent :
      (m : MsgSender C) (sock : S) (msg : List ℕ) (res : Result SendError SendOrQueResult)
      (r : Sending S C (Result SendError SendOrQueResult))
      → r.result ≡ res
      → SendSpec write wire m sock msg none res r
      → IsSent m sock msg r
  SendSpec-IsSent m sock msg (ok complete) r e spec = inl (complete, e, spec.0)
  SendSpec-IsSent m sock msg (ok in_queue) r e spec = inl (in_queue, e, spec.0)
  SendSpec-IsSent m sock msg (err f) r e (empty, same, silent, (n, begun), fails) = inr (
    f,
    e,
    fails,
    (
      n,
      cc (
        begun,
        empty,
        ap (λ (t : MsgSender C). t.buf) same,
        append-nil (wire r.sock),
        append-nil (wire sock),
      ),
    ),
  )

  -- The room for completions stays.
  pub send_or_que_plain :
      (m : MsgSender C) (sock : S) (msg : List ℕ)
      → HasRoom m
      → Returns
          (λ r. IsSent m sock msg r × HasRoom r.sender)
          (send_or_que write release m sock msg none)
  send_or_que_plain m sock msg room =
      let (r, e, spec) = send_or_que_conserves socket progress m sock msg none room in
      let same : r.sender.pending ≡ m.pending =
        subst (λ o. SamePending write m o) e (send_or_que-SamePending write m sock msg) in
      (
        r,
        e,
        (
          SendSpec-IsSent m sock msg r.result r refl spec,
          subst (λ p. IsValid p × (FlatStorage.capacity p < usize_max)) (sym same) room,
        ),
      )
