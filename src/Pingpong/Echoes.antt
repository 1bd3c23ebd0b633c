-- ===== src/Pingpong/Echoes.antt =====
-- examples/example/pingpong.rs: `on_inbound_message` on one whole message, in a release build.
use reactio_rs.Base.{
  ℕ, suc, ◌+◌, ◌≤◌, ◌<◌, ◌≡◌, refl, ◌∙◌, ap, List, ◌++◌, true, ◌⊎◌, inl, inr, arith, Build, release,
  done, Result, ok, err, Returns, length, take,
}
use reactio_rs.Base.Int.{ℤ, pos, pos_part, neg_part, ◌≤ℤ◌, ltb_ℤ}
use reactio_rs.Socket.{ErrorKind, Write, MakesProgress, IsSocket, Fails}
use reactio_rs.MsgSender.Kept.{HasRoom}
use reactio_rs.MsgSender.Plain.{send_or_que_plain}
use reactio_rs.MsgReader.{MessageResult, expect_msg_size, drop_msg_size, ReadError, Dispatched}
use reactio_rs.Manager.{Context}
use reactio_rs.Reactor.Sending.{context_send_or_que}
use reactio_rs.Utils.Timer.{add_ℤ}
use reactio_rs.Utils.Bytes.{IsI64}
use reactio_rs.Pingpong.{PingpongReactor, Msg, i32_max, send_failed, String}
use reactio_rs.Pingpong.Inbound.{
  full, decode_size, next_i32, keep_payload, echo, full_message, on_inbound_message,
}
use reactio_rs.Pingpong.Reporting.{SameEchoes, SameEchoes-trans, report_if_due-SameEchoes}
use reactio_rs.Pingpong.Frames.{
  frame, IsBody, slice-whole, slice-payload, decode_size-frame, decode_size-known, receive-frame,
  stamp-frame,
}

-- There are `k` echoes left before the limit.
abbrev pub HasEchoes : ℕ → PingpongReactor → Type 0
HasEchoes k r =
    pos_part r.count_echo + k + neg_part r.max_echo ≤ pos_part r.max_echo + neg_part r.count_echo

-- A limit that is an `i32`, and reports of two durations or more.
pub record IsConfigured (r : PingpongReactor) : Type 0 where
  pub limit : r.max_echo ≤ℤ i32_max
  pub batch_size : ℕ
  pub batch : r.latency_batch ≡ pos batch_size
  pub two : 2 ≤ batch_size

-- One more echo is counted.
pub record Counts (r r' : PingpongReactor) : Type 0 where
  pub count : r'.count_echo ≡ add_ℤ r.count_echo (pos 1)
  pub same_limit : r'.max_echo ≡ r.max_echo
  pub same_batch : r'.latency_batch ≡ r.latency_batch

pub Counts-HasEchoes :
    (k : ℕ) {r r' : PingpongReactor} → Counts r r' → HasEchoes (suc k) r → HasEchoes k r'
Counts-HasEchoes k {r} c h = rw (c.count, c.same_limit) (counted r.count_echo r.max_echo h)
  where
    counted :
        (c m : ℤ)
        → pos_part c + suc k + neg_part m ≤ pos_part m + neg_part c
        → pos_part (add_ℤ c (pos 1)) + k + neg_part m ≤ pos_part m + neg_part (add_ℤ c (pos 1))
    counted c m h = ground arith

pub Counts-IsConfigured : {r r' : PingpongReactor} → Counts r r' → IsConfigured r → IsConfigured r'
Counts-IsConfigured c s = record {
  limit = rw c.same_limit s.limit;
  batch_size = s.batch_size;
  batch = c.same_batch ∙ s.batch;
  two = s.two;
}

below_limit : (r : PingpongReactor) → HasEchoes 1 r → ltb_ℤ r.count_echo r.max_echo ≡ true
below_limit r h = ground arith

next_i32-done :
    (build : Build) (r : PingpongReactor)
    → HasEchoes 1 r
    → r.max_echo ≤ℤ i32_max
    → next_i32 build r.count_echo ≡ done (add_ℤ r.count_echo (pos 1))
next_i32-done build r h l =
    let below : ltb_ℤ r.count_echo i32_max ≡ true = ground (arith, l) in rw below refl

module _ {S C R H K : Type 0} (wire : S → List ℕ) where
  -- The bytes that were sent, with those that wait to be.
  abbrev pub outgoing : Context S C R H String K → List ℕ
  outgoing ctx = wire ctx.sock ++ ctx.sender.buf

module _ {S C R H K : Type 0} (write : Write S) (wire : S → List ℕ) where
  -- What an answer to one message says. The message has gone out again behind all that was to go,
  -- with another time; or some write fails, and a beginning of the message has gone out.
  abbrev pub IsEcho :
      List ℕ
      → List ℕ
      → ℤ
      → PingpongReactor
      → Context S C R H String K
      → Result ReadError MessageResult
      → Dispatched (PingpongReactor × Context S C R H String K)
      → Type 0
  IsEcho body tail time r ctx (ok (drop_msg_size n)) d =
      (n ≡ length body + 10)
      × ((stamp : ℤ) × IsI64 stamp
          × (d.slice ≡ frame stamp body ++ tail)
          × (outgoing wire (d.context).1 ≡ outgoing wire ctx ++ frame stamp body))
      × HasRoom (d.context).1.sender
      × Counts r (d.context).0
      × ((d.context).0.last_recv_msg ≡ record {
        header = record { body_len = length body; send_time = time };
        payload = body ++ tail;
      })
  IsEcho body tail time r ctx (ok (expect_msg_size n)) d = ⊥
  IsEcho body tail time r ctx (err e) d =
      (e ≡ send_failed)
      × ((k : ErrorKind) × Fails write k)
      × ((stamp : ℤ) × IsI64 stamp
          × ((n : ℕ) × (outgoing wire (d.context).1
                ≡ outgoing wire ctx ++ take n (frame stamp body))))

module _ {S C R H K : Type 0} {write : Write S} {wire : S → List ℕ} (socket : IsSocket write wire)
    (progress : (s : S) (buf : List ℕ) → MakesProgress buf (write s buf).0)
    (cpu_now_nanos : S → ℤ × S) (clock_time : (s : S) → IsI64 (cpu_now_nanos s).0)
    (clock_wire : (s : S) → wire (cpu_now_nanos s).1 ≡ wire s) where
  -- The last step, for a message whose time is replaced already.
  echo-IsEcho :
      (body tail : List ℕ) (time stamp : ℤ) (r0 r : PingpongReactor)
      (ctx0 ctx : Context S C R H String K)
      → IsI64 stamp
      → HasEchoes 1 r0
      → IsConfigured r0
      → HasRoom ctx.sender
      → SameEchoes
          (record r0 {
            last_recv_msg = record (r0.last_recv_msg) {
              header = record { body_len = length body; send_time = time };
            };
          })
          r
      → outgoing wire ctx ≡ outgoing wire ctx0
      → Returns
          (λ d. IsEcho write wire body tail time r0 ctx0 d.answer d)
          (echo write cpu_now_nanos release r ctx (frame stamp body ++ tail) (length body + 10))
  unfolding echo context_send_or_que keep_payload
  echo-IsEcho body tail time stamp r0 r ctx0 ctx hs left set room same before =
      let buf = frame stamp body ++ tail in
      let below : ltb_ℤ r.count_echo r.max_echo ≡ true =
        rw (same.count, same.limit) (below_limit r0 left) in
      let count : next_i32 release r.count_echo ≡ done (add_ℤ r.count_echo (pos 1)) =
        rw same.count (next_i32-done release r0 left set.limit) in
      let (x, e, (sent, room')) =
        send_or_que_plain socket progress ctx.sender (cpu_now_nanos ctx.sock).1 (frame stamp body)
          room in
      let out_same : wire (cpu_now_nanos ctx.sock).1 ++ ctx.sender.buf ≡ outgoing wire ctx0 =
        ap (λ (w : List ℕ). w ++ ctx.sender.buf) (clock_wire ctx.sock) ∙ before in
      elim sent [
        | inl (q, e', out) ↦
            rw (below, slice-whole stamp body tail, e, e', slice-payload stamp body tail, count)
              (
                _,
                refl,
                (
                  refl,
                  (stamp, hs, refl, out ∙ ap (λ (b : List ℕ). b ++ frame stamp body) out_same),
                  room',
                  record {
                    count = ap (λ c. add_ℤ c (pos 1)) same.count;
                    same_limit = same.limit;
                    same_batch = same.batch;
                  },
                  ap (λ (m : Msg). record { header = m.header; payload = body ++ tail })
                      same.message,
                ),
              )
        | inr (f, e', (k, _, fails), (n, out)) ↦
            rw (below, slice-whole stamp body tail, e, e')
              (
                _,
                refl,
                (
                  refl,
                  (k, fails),
                  (
                    stamp,
                    hs,
                    (n, out ∙ ap (λ (b : List ℕ). b ++ take n (frame stamp body)) out_same),
                  ),
                ),
              )
      ]

  full_message-IsEcho :
      (index_99 : ℕ → ℕ) (r : PingpongReactor) (ctx : Context S C R H String K) (time : ℤ)
      (body tail : List ℕ)
      → ((n : ℕ) → 0 < n → index_99 n < n)
      → IsBody body
      → IsI64 time
      → HasEchoes 1 r
      → IsConfigured r
      → HasRoom ctx.sender
      → Returns
          (λ d. IsEcho write wire body tail time r ctx d.answer d)
          (full_message write cpu_now_nanos release index_99 r ctx
            (frame time body ++ tail)
            (length body + 10))
  unfolding full_message
  full_message-IsEcho index_99 r ctx time body tail within hb ht left set room =
      let recvtime = (cpu_now_nanos ctx.sock).0 in
      let sock1 = (cpu_now_nanos ctx.sock).1 in
      let stamp = (cpu_now_nanos sock1).0 in
      let (r1, e1, same1) = receive-frame time body tail r recvtime hb ht in
      let (r2, e2, same2) =
        report_if_due-SameEchoes release index_99 r1 set.batch_size within (same1.batch ∙ set.batch)
          set.two in
      rw (e1, e2, stamp-frame time body tail release stamp)
        (echo-IsEcho body tail time stamp r r2 ctx (record ctx { sock = (cpu_now_nanos sock1).1 })
          (clock_time sock1) left set room (SameEchoes-trans same1 same2)
          (ap (λ (w : List ℕ). w ++ ctx.sender.buf) (clock_wire sock1 ∙ clock_wire ctx.sock)))

  pub on_inbound_message-IsEcho :
      (index_99 : ℕ → ℕ) (r : PingpongReactor) (ctx : Context S C R H String K) (time : ℤ)
      (body tail : List ℕ) (new_bytes decoded : ℕ)
      → ((n : ℕ) → 0 < n → index_99 n < n)
      → IsBody body
      → IsI64 time
      → (decoded ≡ 0) ⊎ (decoded ≡ length body + 10)
      → HasEchoes 1 r
      → IsConfigured r
      → HasRoom ctx.sender
      → Returns
          (λ d. IsEcho write wire body tail time r ctx d.answer d)
          (on_inbound_message write cpu_now_nanos release index_99
            (r, ctx)
            (frame time body ++ tail)
            new_bytes
            decoded)
  unfolding on_inbound_message
  on_inbound_message-IsEcho index_99 r ctx time body tail new_bytes decoded within hb ht known left
        set room =
      let sized : decode_size release (frame time body ++ tail) decoded
          ≡ done (full (length body + 10)) =
        elim known [
          | inl e ↦ rw e (decode_size-frame time body tail release hb)
          | inr e ↦
              rw e (
                decode_size-known release (frame time body ++ tail) (length body + 10)
                  (omega arith))
        ] in
      rw sized (full_message-IsEcho index_99 r ctx time body tail within hb ht left set room)
