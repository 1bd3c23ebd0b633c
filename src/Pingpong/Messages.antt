-- ===== src/Pingpong/Messages.antt =====
-- The messages of examples/example/pingpong.rs in a window of src/reactor.rs's `MsgReader`, and what a
-- round of its loop makes of the first one.
use mathlib.Core.List.{append_assoc}
use reactio_rs.Base.{
  ℕ, zero, suc, ◌+◌, ◌≤◌, ◌<◌, ◌≡◌, refl, ◌∙◌, ap, List, [], ◌∷◌, ◌++◌, true, ◌⊎◌, inl, arith,
  release, Outcome, done, Result, ok, err, Returns, ltb, leb, ◌&&◌, length, take,
}
use reactio_rs.Base.Int.{ℤ, pos, negsuc}
use reactio_rs.MsgSender.Kept.{HasRoom}
use reactio_rs.MsgReader.{MessageResult, expect_msg_size, drop_msg_size, ReadError, Dispatched}
use reactio_rs.MsgReader.Window.{Left, answered_bytes}
use reactio_rs.Socket.{ErrorKind, Write, Fails}
use reactio_rs.Manager.{Context}
use reactio_rs.Utils.Timer.{add_ℤ}
use reactio_rs.Utils.Bytes.{IsI64}
use reactio_rs.Pingpong.{PingpongReactor, String, send_failed}
use reactio_rs.Pingpong.Frames.{frame, IsBody}
use reactio_rs.Pingpong.Echoes.{Counts, outgoing, IsEcho}

-- The times and the bodies of messages.
abbrev pub Messages : Type 0
Messages = List (ℤ × List ℕ)

-- The bytes of messages, and what follows.
abbrev pub stream : Messages → List ℕ → List ℕ
stream [] rest = rest
stream ((time, body) ∷ ms) rest = frame time body ++ stream ms rest

abbrev pub AreMessages : Messages → Type 0
AreMessages [] = Unit
AreMessages ((time, body) ∷ ms) = IsBody body × IsI64 time × AreMessages ms

-- The same bodies in the same order, with other times.
abbrev pub Restamped : Messages → Messages → Type 0
Restamped [] [] = Unit
Restamped ((time, body) ∷ ms) ((time', body') ∷ ns) = (body' ≡ body) × IsI64 time' × Restamped ms ns
Restamped _ _ = ⊥

-- The size that the reader expects is unknown, or that of the first message.
abbrev pub Expects : ℕ → Messages → List ℕ → Type 0
Expects decoded [] rest = (decoded ≡ 0) ⊎ (length rest < decoded)
Expects decoded ((time, body) ∷ ms) rest = (decoded ≡ 0) ⊎ (decoded ≡ length body + 10)

Restamped-refl : (ms : Messages) → AreMessages ms → Restamped ms ms
Restamped-refl [] h = tt
Restamped-refl ((time, body) ∷ ms) (hb, ht, h) = (refl, ht, Restamped-refl ms h)

-- A beginning of a list is one of a longer list.
take-longer : (n : ℕ) (xs ys : List ℕ) → (k : ℕ) × (take n xs ≡ take k (xs ++ ys))
take-longer zero xs ys = (0, refl)
take-longer (suc n) [] ys = (0, refl)
take-longer (suc n) (x ∷ xs) ys = let (k, e) = take-longer n xs ys in (suc k, ap (◌∷◌ x) e)

take-behind : (n : ℕ) (xs ys : List ℕ) → (k : ℕ) × (xs ++ take n ys ≡ take k (xs ++ ys))
take-behind n [] ys = (n, refl)
take-behind n (x ∷ xs) ys = let (k, e) = take-behind n xs ys in (suc k, ap (◌∷◌ x) e)

add-add : (c : ℤ) (k : ℕ) → add_ℤ (add_ℤ c (pos 1)) (pos k) ≡ add_ℤ c (pos (suc k))
add-add (pos n) k = ground arith
add-add (negsuc n) k = ground arith

pub add-zero : (c : ℤ) → c ≡ add_ℤ c (pos 0)
add-zero (pos n) = ground arith
add-zero (negsuc n) = ground arith

module _ {S C R H K : Type 0} (write : Write S) (wire : S → List ℕ) where
  -- What a dispatch of messages leaves. Without an error, all of them have gone out again, behind
  -- all that was to go, and the bytes behind them are left; else some write fails within them.
  abbrev pub AreEchoed :
      Messages
      → List ℕ
      → PingpongReactor
      → Context S C R H String K
      → Result ReadError (Unit {0})
      → List ℕ
      → Outcome (PingpongReactor × Context S C R H String K)
      → Type 0
  AreEchoed ms rest r ctx (ok _) left x =
      (left ≡ rest)
      × ((y : PingpongReactor × Context S C R H String K) × (x ≡ done y)
          × ((y.0).count_echo ≡ add_ℤ r.count_echo (pos (length ms)))
          × ((ns : Messages) × Restamped ms ns
              × (outgoing wire y.1 ≡ outgoing wire ctx ++ stream ns [])))
  AreEchoed ms rest r ctx (err e) left x =
      (e ≡ send_failed)
      × ((k : ErrorKind) × Fails write k)
      × ((y : PingpongReactor × Context S C R H String K) × (x ≡ done y)
          × ((ns : Messages) × Restamped ms ns
              × ((n : ℕ) × (outgoing wire y.1 ≡ outgoing wire ctx ++ take n (stream ns [])))))

  -- One message more in front.
  AreEchoed-cons :
      (ms : Messages) (rest : List ℕ) (r r1 : PingpongReactor) (ctx ctx1 : Context S C R H String K)
      (time stamp : ℤ) (body : List ℕ) (res : Result ReadError (Unit {0})) (left : List ℕ)
      (x : Outcome (PingpongReactor × Context S C R H String K))
      → IsI64 stamp
      → Counts r r1
      → outgoing wire ctx1 ≡ outgoing wire ctx ++ frame stamp body
      → AreEchoed ms rest r1 ctx1 res left x
      → AreEchoed ((time, body) ∷ ms) rest r ctx res left x
  AreEchoed-cons ms rest r r1 ctx ctx1 time stamp body (ok _) left x hs counts out
        (same, (y, ex, count, (ns, restamped, out'))) =
      (
        same,
        (
          y,
          ex,
          count
              ∙ ap (λ c. add_ℤ c (pos (length ms))) counts.count
              ∙ add-add r.count_echo (length ms),
          (
            (stamp, body) ∷ ns,
            (refl, hs, restamped),
            out'
                ∙ ap (λ (b : List ℕ). b ++ stream ns []) out
                ∙ append_assoc (outgoing wire ctx) (frame stamp body) (stream ns []),
          ),
        ),
      )
  AreEchoed-cons ms rest r r1 ctx ctx1 time stamp body (err e) left x hs counts out
        (failed, broke, (y, ex, (ns, restamped, (n, out')))) =
      let (k, ek) = take-behind n (frame stamp body) (stream ns []) in
      (
        failed,
        broke,
        (
          y,
          ex,
          (
            (stamp, body) ∷ ns,
            (refl, hs, restamped),
            (
              k,
              out'
                  ∙ ap (λ (b : List ℕ). b ++ take n (stream ns [])) out
                  ∙ append_assoc (outgoing wire ctx) (frame stamp body) (take n (stream ns []))
                  ∙ ap (λ (b : List ℕ). outgoing wire ctx ++ b) ek,
            ),
          ),
        ),
      )

pub Expects-zero : (ms : Messages) (rest : List ℕ) → Expects 0 ms rest
Expects-zero [] rest = inl refl
Expects-zero (m ∷ ms) rest = inl refl

-- One round of the loop, before rounds that go well.
module _ {S C R H K : Type 0} (write : Write S) (wire : S → List ℕ) where
  pub echoed_round :
      (ms : Messages) (rest : List ℕ) (r : PingpongReactor) (ctx : Context S C R H String K)
      (time : ℤ) (body : List ℕ) (have : ℕ) (a : Result ReadError MessageResult)
      (d : Dispatched (PingpongReactor × Context S C R H String K))
      (next : ℕ → Left (Outcome (PingpongReactor × Context S C R H String K)))
      → AreMessages ms
      → length body + 10 ≤ have
      → IsEcho write wire body (stream ms rest) time r ctx a d
      → ((stamp : ℤ)
          → d.slice ≡ frame stamp body ++ stream ms rest
          → HasRoom (d.context).1.sender
          → Counts r (d.context).0
          → Returns
              (λ (res, left, size, x).
                AreEchoed write wire ms rest (d.context).0 (d.context).1 res left x)
              (next (length body + 10)))
      → Returns
          (λ (res, left, size, x). AreEchoed write wire ((time, body) ∷ ms) rest r ctx res left x)
          (answered_bytes release a d.slice have (done d.context) next)
  unfolding answered_bytes
  echoed_round ms rest r ctx time body have (ok (drop_msg_size n)) d next h enough
        (en, (stamp, hs, slice, out), room, counts, message) go =
      let fits : (ltb 0 n && leb n have) ≡ true = ground arith in
      let (b, e, p) = go stamp slice room counts in
      rw fits (
        b,
        ap next en ∙ e,
        AreEchoed-cons write wire ms rest r (d.context).0 ctx (d.context).1 time stamp body b.0 b.1
            b.3 hs counts out p,
      )
  echoed_round ms rest r ctx time body have (ok (expect_msg_size n)) d next h enough spec go =
      absurd spec
  echoed_round ms rest r ctx time body have (err e) d next h enough
        (failed, broke, (stamp, hs, (n, out))) go =
      let (k, ek) = take-longer n (frame stamp body) (stream ms []) in
      (
        (err e, [], 0, done d.context),
        refl,
        (
          failed,
          broke,
          (
            d.context,
            refl,
            (
              (stamp, body) ∷ ms,
              (refl, hs, Restamped-refl ms h),
              (k, out ∙ ap (λ (b : List ℕ). outgoing wire ctx ++ b) ek),
            ),
          ),
        ),
      )
