-- ===== src/MsgSender/Moved.antt =====
-- The steps of `send_queued` of src/reactor.rs behind its loop over completions: the last key, and the
-- move of the rest of the buffer to its front.
use reactio_rs.Base.{
  ℕ, ◌+◌, ◌≤◌, ◌≡◌, refl, ap, List, [], ◌∷◌, ◌++◌, true, false, arith, Returns, ◌==◌, if◌then◌else◌,
  inl, inr, usize_max, length, drop, ltb, leb, Bool-cases, release, is_nil, is_nil-true,
  is_nil-false, ok,
}
use reactio_rs.FlatStorage
use reactio_rs.FlatStorage.Laws.{IsValid}
use reactio_rs.FlatStorage.Keys.{get-some_ne}
use reactio_rs.Socket.{}
use reactio_rs.MsgSender.{MsgSender, reset_last, assert_idle, move_buf_front_after_send}
use reactio_rs.MsgSender.Pending.{Entries, Chain, Waits}
use reactio_rs.MsgSender.Notify.{called_at, waiting_at, EndsAt}
use reactio_rs.MsgSender.Queued.{Tells}

module _ {C : Type 0} where
  abbrev pub completions : List (ℕ × C) → List C
  completions [] = []
  completions ((_, c) ∷ es) = c ∷ completions es

  pub called-waiting :
      (sent : ℕ) (es : List (ℕ × C))
      → called_at sent es ++ completions (waiting_at sent es) ≡ completions es
  called-waiting sent [] = refl
  called-waiting sent ((end, c) ∷ es) = elim (Bool-cases (leb end sent)) [
    | inl over ↦ rw over (ap (◌∷◌ c) (called-waiting sent es))
    | inr ahead ↦ rw ahead refl
  ]

  Waits-moved :
      (m : MsgSender C) (es : Entries C) (b : List ℕ) (n : ℕ)
      → Waits m es
      → Waits (record m { buf = b; bytes_sent = n }) es
  Waits-moved m es b n w = record { valid = w.valid; chain = w.chain; last = w.last; size = w.size }

  pub reset_last-Waits :
      (m : MsgSender C) (es : Entries C)
      → IsValid m.pending
      → Chain m.pending m.first_pending_id es
      → FlatStorage.len m.pending ≡ length es
      → EndsAt m.last_pending_id es
      → Waits (reset_last m) es
        × ((reset_last m).buf ≡ m.buf)
        × ((reset_last m).bytes_sent ≡ m.bytes_sent)
  reset_last-Waits m [] valid chain size l =
      let none_left : (m.first_pending_id == usize_max) ≡ true = ground (arith, chain) in
      rw none_left (record { valid = valid; chain = chain; last = refl; size = size }, refl, refl)
  reset_last-Waits m ((k, e) ∷ es) valid chain size (inl h) = absurd (omega arith)
  reset_last-Waits m ((k, e) ∷ es) valid chain size (inr l) =
      let ne = get-some_ne m.pending k e valid chain.1 in
      let some_left : (m.first_pending_id == usize_max) ≡ false = ground (arith, chain.0, ne) in
      rw some_left (record { valid = valid; chain = chain; last = l; size = size }, refl, refl)

  -- The buffer after a write of `n` bytes, in a release build.
  pub move_buf-release :
      (m : MsgSender C) (n : ℕ) (es : Entries C)
      → n ≤ length m.buf
      → Waits m es
      → Returns
          (λ (res, m').
            (m'.buf ≡ drop n m.buf)
            × Tells (ok res) m'
            × Waits m' es
            × (m'.pending ≡ m.pending)
            × (m'.bytes_sent ≡ (if is_nil (drop n m.buf) then 0 else m.bytes_sent + n)))
          (move_buf_front_after_send release m n)
  unfolding move_buf_front_after_send assert_idle
  move_buf-release m n es h w =
      let inside : ltb (length m.buf) n ≡ false = ground arith in
      rw inside (elim (Bool-cases (is_nil (drop n m.buf))) [
        | inl empty ↦ rw empty (
          _,
          refl,
          (refl, is_nil-true (drop n m.buf) empty, Waits-moved m es (drop n m.buf) 0 w, refl, refl),
        )
        | inr rest ↦ rw rest (
          _,
          refl,
          (
            refl,
            (λ nil. ground (arith, is_nil-false (drop n m.buf) rest, ap length nil)),
            Waits-moved m es (drop n m.buf) (m.bytes_sent + n) w,
            refl,
            refl,
          ),
        )
      ])
