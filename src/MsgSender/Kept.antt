-- ===== src/MsgSender/Kept.antt =====
-- `queue_msg_completion` of src/reactor.rs on any valid list of completions: it keeps them all, and the
-- bytes.
use reactio_rs.Base.{
  ℕ, ◌+◌, ◌-◌, ◌≤◌, ◌<◌, ◌≡◌, refl, sym, ◌∙◌, ap, Option, none, some, arith, Returns, ◌==◌,
  Bool-cases, Option-cases, inl, inr, usize_max, length,
}
use reactio_rs.FlatStorage
use reactio_rs.FlatStorage.{FlatStorage}
use reactio_rs.FlatStorage.Laws.{IsValid, add_correct, get-put, put-IsValid}
use reactio_rs.MsgSender.{MsgSender, PendingSend, link, queue_msg_completion}

module _ {C : Type 0} where
  -- There is a key left for one more completion.
  abbrev pub HasRoom : MsgSender C → Type 0
  HasRoom m = IsValid m.pending × (FlatStorage.capacity m.pending < usize_max)

  -- Two senders that differ in the list of completions only.
  pub record SameBytes (m m' : MsgSender C) : Type 0 where
    pub buf : m'.buf ≡ m.buf
    pub bytes_sent : m'.bytes_sent ≡ m.bytes_sent
    pub close_or_error : m'.close_or_error ≡ m.close_or_error
    pub valid : IsValid m'.pending

  -- The completion waits in the last entry, for the end of what is in the buffer, and every entry of
  -- before waits as it did, with the link behind it perhaps changed; without one, all is as it was.
  abbrev pub Kept : MsgSender C → MsgSender C → Option C → Type 0
  Kept m m' none =
      (m'.pending ≡ m.pending)
      × (m'.first_pending_id ≡ m.first_pending_id)
      × (m'.last_pending_id ≡ m.last_pending_id)
  Kept m m' (some c) =
      ((e : PendingSend C) × (FlatStorage.get m'.pending m'.last_pending_id ≡ some e)
        × (e.completion ≡ c)
        × (e.startpos + e.msgsize ≡ m'.bytes_sent + length m'.buf))
      × (FlatStorage.get m.pending m'.last_pending_id ≡ none)
      × ((k : ℕ) (e : PendingSend C)
          → FlatStorage.get m.pending k ≡ some e
          → (next : ℕ) × (FlatStorage.get m'.pending k ≡ some (record e { next_id = next })))

  link-reads :
      (p : FlatStorage (PendingSend C)) (last id k : ℕ) (e : PendingSend C)
      → FlatStorage.get p k ≡ some e
      → (next : ℕ) × (FlatStorage.get (link p last id) k ≡ some (record e { next_id = next }))
  unfolding link
  link-reads p last id k e h = elim (Option-cases (FlatStorage.get p last)) [
    | inl none_last ↦ rw (none_last, link) (e.next_id, h)
    | inr (q, found) ↦
        rw (found, link)
          (elim (Bool-cases (last == k)) [
            | inl same ↦
                let k_same : last ≡ k = ground (arith, same) in
                let both : some e ≡ some q = sym h ∙ ap (FlatStorage.get p) (sym k_same) ∙ found in
                let one : e ≡ q = cc both in
                (
                  id,
                  ground (
                    arith,
                    get-put p last k (record q { next_id = id }),
                    same,
                    found,
                    ap (λ (x : PendingSend C). some (record x { next_id = id })) one,
                  ),
                )
            | inr apart ↦
                (e.next_id, ground (arith, get-put p last k (record q { next_id = id }), apart, h))
          ])
  ]

  link-IsValid : (p : FlatStorage (PendingSend C)) (k id : ℕ) → IsValid p → IsValid (link p k id)
  unfolding link
  link-IsValid p k id i = elim (Option-cases (FlatStorage.get p k)) [
    | inl e ↦ rw (e, link) i
    | inr (q, e) ↦ rw (e, link) (put-IsValid p k (record q { next_id = id }) i).0
  ]

  pub queue_msg_completion_bytes :
      (m : MsgSender C) (n : ℕ) (c : Option C)
      → HasRoom m
      → n ≤ length m.buf
      → Returns (λ m'. SameBytes m m' × Kept m m' c) (queue_msg_completion m n c)
  unfolding queue_msg_completion
  queue_msg_completion_bytes m n none (i, room) inside = (
    m,
    refl,
    (
      record { buf = refl; bytes_sent = refl; close_or_error = refl; valid = i },
      (refl, refl, refl),
    ),
  )
  queue_msg_completion_bytes m n (some c) (i, room) inside =
      let entry : PendingSend C = record {
        next_id = usize_max;
        startpos = m.bytes_sent + length m.buf - n;
        msgsize = n;
        completion = c;
      } in
      let ((id, p), e, a) = add_correct m.pending entry i (inl room) in
      let added : FlatStorage.get p id ≡ some entry = ground (arith, a.reads id) in
      let (next, found) = link-reads p m.last_pending_id id id entry added in
      rw e (
        _,
        refl,
        (
          record {
            buf = refl;
            bytes_sent = refl;
            close_or_error = refl;
            valid = link-IsValid p m.last_pending_id id a.valid;
          },
          (
            (_, found, refl, omega (arith, inside)),
            a.fresh,
            λ k f h. link-reads p m.last_pending_id id k f (ground (arith, a.reads k, a.fresh, h)),
          ),
        ),
      )
