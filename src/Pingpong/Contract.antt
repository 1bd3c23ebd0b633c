-- ===== src/Pingpong/Contract.antt =====
-- examples/example/pingpong.rs: `on_inbound_message` as the dispatcher of src/reactor.rs's
-- `MsgReader`, and what the reader asks of a dispatcher.
use reactio_rs.Base.{
  ℕ, ◌+◌, ◌-◌, ◌≤◌, ◌<◌, ◌≡◌, refl, List, ◌++◌, true, ◌⊎◌, inl, inr, arith, Build, Outcome, done,
  panic, no_fuel, ok, err, ◌>>=◌, Holds, Holds-bind, Holds-then, subst, debug_assert,
  debug_assert-true, leb, ltb, ◌==◌, ◌&&◌, Bool-cases, leb→le, length, take, drop, length-append,
  length-take, length-drop,
}
use reactio_rs.Base.Int.{ℤ, ltb_ℤ}
use reactio_rs.Socket.{Write}
use reactio_rs.MsgReader.{expect_msg_size, drop_msg_size, rejected, Dispatched, Dispatcher}
use reactio_rs.MsgReader.Window.{KeepsLength}
use reactio_rs.MsgReader.Progress.{IsAnswer, KeepsContract}
use reactio_rs.Manager.{Context}
use reactio_rs.Reactor.Sending.{context_send_or_que}
use reactio_rs.Utils.Timer.{as_u64}
use reactio_rs.Utils.Bytes.{bytes_to_ref, bytes_to_ref_mut, le_bytes}
use reactio_rs.Pingpong.{PingpongReactor, String, slice, with_slice, read_clock, send_failed}
use reactio_rs.Pingpong.Inbound.{
  Sizing, partial, full, decode_size, next_i32, keep_payload, receive, echo, full_message,
  on_inbound_message,
}
use reactio_rs.Pingpong.Latency.{report_if_due}

-- A handler that may panic, as a dispatcher. In the source a panic unwinds through the reader; here it
-- is an error, and the context is `panic` from there on, so that a theorem that ends with a context
-- that is `done` excludes it.
module _ {X : Type 0} where
  unfoldable pub as_dispatcher :
      (X → List ℕ → ℕ → ℕ → Outcome (Dispatched X)) → Dispatcher (Outcome X)
  as_dispatcher handler x buf new_bytes decoded =
      let unwound : Dispatched (Outcome X) = record {
        answer = err (rejected 2);
        slice = buf;
        context = panic;
      } in
      elim (x >>= λ y. handler y buf new_bytes decoded) [
        | done d ↦ record { answer = d.answer; slice = d.slice; context = done d.context }
        | panic ↦ unwound
        | no_fuel ↦ unwound
      ]

  pub as_dispatcher-done :
      (handler : X → List ℕ → ℕ → ℕ → Outcome (Dispatched X)) (y : X) (buf : List ℕ)
      (new_bytes decoded : ℕ) (d : Dispatched X)
      → handler y buf new_bytes decoded ≡ done d
      → as_dispatcher handler (done y) buf new_bytes decoded
        ≡ record { answer = d.answer; slice = d.slice; context = done d.context }
  unfolding as_dispatcher
  as_dispatcher-done handler y buf new_bytes decoded d e = rw (as_dispatcher, e) refl

  -- What a handler may answer for `have` bytes.
  pub record IsAnswered (have : ℕ) (d : Dispatched X) : Type 0 where
    pub size : length d.slice ≡ have
    pub answer : IsAnswer have d.answer

  as_dispatcher-answered :
      (handler : X → List ℕ → ℕ → ℕ → Outcome (Dispatched X)) (x : Outcome X) (buf : List ℕ)
      (n d : ℕ)
      → ((y : X) → Holds (IsAnswered (length buf)) (handler y buf n d))
      → (length (as_dispatcher handler x buf n d).slice ≡ length buf)
        × IsAnswer (length buf) (as_dispatcher handler x buf n d).answer
  unfolding as_dispatcher
  as_dispatcher-answered handler panic buf n d k = (refl, tt)
  as_dispatcher-answered handler no_fuel buf n d k = (refl, tt)
  as_dispatcher-answered handler (done y) buf n d k = answered (handler y buf n d) (k y)
    where
      answered :
          (o : Outcome (Dispatched X))
          → Holds (IsAnswered (length buf)) o
          → (length (as_dispatcher (λ _ _ _ _. o) (done y) buf n d).slice ≡ length buf)
            × IsAnswer (length buf) (as_dispatcher (λ _ _ _ _. o) (done y) buf n d).answer
      answered (done e) h = (h.size, h.answer)
      answered panic h = (refl, tt)
      answered no_fuel h = (refl, tt)

-- What the decoding says of a size.
abbrev Sizes : List ℕ → Sizing → Type 0
Sizes buf (partial n) = (n ≡ 0) ⊎ (length buf < n)
Sizes buf (full n) = 0 < n

decode_size-Sizes :
    (build : Build) (buf : List ℕ) (decoded : ℕ) → Holds (Sizes buf) (decode_size build buf decoded)
unfolding decode_size
decode_size-Sizes build buf decoded = elim (Bool-cases (decoded == 0)) [
  | inr known ↦ rw known (ground (arith, known))
  | inl open_size ↦ rw open_size (elim (Bool-cases (ltb (length buf) 10)) [
    | inl short ↦ rw short (inl refl)
    | inr long ↦ rw long (
        Holds-bind (Sizes buf) (slice 0 10 buf) _ λ header.
          Holds-bind (Sizes buf) (bytes_to_ref build 2 header) _ λ body_len.
            elim (Bool-cases (ltb (length buf) (body_len + 10))) [
              | inl less ↦ rw less (inr (ground (arith, less)))
              | inr all ↦ rw all (omega arith)
            ])
  ])
]

stamp-length :
    (build : Build) (now : ℤ) (buf : List ℕ)
    → Holds
        (λ (buf' : List ℕ). length buf' ≡ length buf)
        (with_slice 2 10 (λ time. bytes_to_ref_mut build 8 time (as_u64 now)) buf)
unfolding bytes_to_ref_mut
stamp-length build now buf = elim (Bool-cases (leb 10 (length buf))) [
  | inr short ↦ rw short tt
  | inl enough ↦
      let part = take 8 (drop 2 buf) in
      let many : 10 ≤ length buf = leb→le 10 (length buf) enough in
      let size : length part ≡ 8 = omega (arith, length-take 8 (drop 2 buf), length-drop 2 buf) in
      let sized : leb 8 (length part) ≡ true = rw size refl in
      rw (enough, sized, debug_assert-true build)
        (omega (
          arith,
          size,
          length-append (take 2 buf) (le_bytes 8 (as_u64 now) ++ drop 8 part ++ drop 10 buf),
          length-append (drop 8 part) (drop 10 buf),
          length-take 2 buf,
          length-drop 8 part,
          length-drop 10 buf,
        ))
]

module _ {S C R H K : Type 0} (write : Write S) (cpu_now_nanos : S → ℤ × S) (build : Build) where
  echo-IsAnswered :
      (r : PingpongReactor) (ctx : Context S C R H String K) (buf : List ℕ) (msg_size : ℕ)
      → 0 < msg_size
      → Holds (IsAnswered (length buf)) (echo write cpu_now_nanos build r ctx buf msg_size)
  unfolding echo
  echo-IsAnswered r ctx buf msg_size some =
      let P = IsAnswered {X = PingpongReactor × Context S C R H String K} (length buf) in
      let (now, ctx1) = read_clock cpu_now_nanos ctx in
      let r1 = record r { last_sent_time = now } in
      elim (Bool-cases (ltb_ℤ r.count_echo r.max_echo)) [
        | inr over ↦
            rw over (Holds-bind P (keep_payload r buf) _ λ _. record { size = refl; answer = tt })
        | inl below ↦ elim (Bool-cases (leb 0 msg_size && leb msg_size (length buf))) [
          | inr short ↦ rw (below, short) tt
          | inl fits ↦
              rw (below, fits)
                (Holds-bind P (context_send_or_que write build ctx1 (take (msg_size - 0) buf)) _
                  λ (res, ctx2).
                    elim res
                      as (λ res. Holds P (elim res [
                        | err e ↦
                            done (record {
                              answer = err send_failed;
                              slice = buf;
                              context = (r1, ctx2);
                            })
                        | ok _ ↦ keep_payload r1 buf >>= λ r2.
                            next_i32 build r2.count_echo >>= λ count. done (record {
                              answer = ok (drop_msg_size msg_size);
                              slice = buf;
                              context = (record r2 { count_echo = count }, ctx2);
                            })
                      ])) [
                        | err e ↦ record { size = refl; answer = tt }
                        | ok _ ↦ Holds-bind P (keep_payload r1 buf) _ λ r2.
                            Holds-bind P (next_i32 build r2.count_echo) _
                              λ count. record { size = refl; answer = ground (arith, fits) }
                      ])
        ]
      ]

  full_message-IsAnswered :
      (index_99 : ℕ → ℕ) (r : PingpongReactor) (ctx : Context S C R H String K) (buf : List ℕ)
      (msg_size : ℕ)
      → 0 < msg_size
      → Holds
          (IsAnswered (length buf))
          (full_message write cpu_now_nanos build index_99 r ctx buf msg_size)
  unfolding full_message
  full_message-IsAnswered index_99 r ctx buf msg_size some =
      let P = IsAnswered {X = PingpongReactor × Context S C R H String K} (length buf) in
      let (recvtime, ctx1) = read_clock cpu_now_nanos ctx in
      let (now, ctx2) = read_clock cpu_now_nanos ctx1 in
      Holds-bind P (debug_assert build (leb msg_size (length buf))) _ λ _.
        Holds-bind P (receive build r buf recvtime) _ λ r1.
          Holds-bind P (report_if_due build index_99 r1) _ λ r2.
            Holds-then (λ (buf' : List ℕ). length buf' ≡ length buf) P
              (with_slice 2 10 (λ time. bytes_to_ref_mut build 8 time (as_u64 now)) buf)
              (λ buf'. echo write cpu_now_nanos build r2 ctx2 buf' msg_size)
              (stamp-length build now buf)
              λ buf' e.
                subst
                  (λ n. Holds (IsAnswered n) (echo write cpu_now_nanos build r2 ctx2 buf' msg_size))
                  e (echo-IsAnswered r2 ctx2 buf' msg_size some)

  on_inbound_message-IsAnswered :
      (index_99 : ℕ → ℕ) (x : PingpongReactor × Context S C R H String K) (buf : List ℕ)
      (new_bytes decoded : ℕ)
      → Holds
          (IsAnswered (length buf))
          (on_inbound_message write cpu_now_nanos build index_99 x buf new_bytes decoded)
  unfolding on_inbound_message
  on_inbound_message-IsAnswered index_99 (r, ctx) buf new_bytes decoded =
      Holds-then (Sizes buf)
        (IsAnswered {X = PingpongReactor × Context S C R H String K} (length buf))
        (decode_size build buf decoded) _ (decode_size-Sizes build buf decoded) sized
    where
      sized :
          (z : Sizing)
          → Sizes buf z
          → Holds
              (IsAnswered {X = PingpongReactor × Context S C R H String K} (length buf))
              (elim z [
                | partial n ↦
                    done
                      (record { answer = ok (expect_msg_size n); slice = buf; context = (r, ctx) })
                | full msg_size ↦ full_message write cpu_now_nanos build index_99 r ctx buf msg_size
              ])
      sized (partial n) h = record { size = refl; answer = h }
      sized (full n) h = full_message-IsAnswered index_99 r ctx buf n h

  -- `on_inbound_message`, with a panic taken for an error, keeps what the reader asks of a dispatcher:
  -- where it returns, it has not changed the number of bytes, and its answer is an error, a drop of some
  -- of the bytes that are there, or a size that is unknown or more than there is.
  pub on_inbound_message-KeepsContract :
      (index_99 : ℕ → ℕ)
      → KeepsLength (
          as_dispatcher {X = PingpongReactor × Context S C R H String K}
            (on_inbound_message write cpu_now_nanos build index_99))
        × KeepsContract (
            as_dispatcher {X = PingpongReactor × Context S C R H String K}
              (on_inbound_message write cpu_now_nanos build index_99))
  on_inbound_message-KeepsContract index_99 =
      let answered =
        λ (x : Outcome (PingpongReactor × Context S C R H String K)) (bytes : List ℕ) (n d : ℕ).
          as_dispatcher-answered (on_inbound_message write cpu_now_nanos build index_99) x bytes n d
            λ y. on_inbound_message-IsAnswered index_99 y bytes n d in
      (λ x bytes n d. (answered x bytes n d).0, λ x bytes n d. (answered x bytes n d).1)
