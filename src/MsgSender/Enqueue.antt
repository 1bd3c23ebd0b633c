-- ===== src/MsgSender/Enqueue.antt =====
-- `queue_msg_completion` of src/reactor.rs on the list of the completions that wait.
use reactio_rs.Base.{
  ℕ, ◌+◌, ◌-◌, ◌≤◌, ◌<◌, ◌≡◌, ◌≢◌, refl, ◌∙◌, ap, [], ◌∷◌, ◌++◌, true, false, some, arith, Returns,
  ◌==◌, if◌then◌else◌, inl, inr, usize_max, length, length-append, Option-cases,
}
use reactio_rs.FlatStorage
use reactio_rs.FlatStorage.{FlatStorage}
use reactio_rs.FlatStorage.Laws.{IsValid, add_correct, get-put, put-IsValid}
use reactio_rs.FlatStorage.Keys.{get-some_ne}
use reactio_rs.MsgSender.{MsgSender, PendingSend, link, queue_msg_completion}
use reactio_rs.MsgSender.Pending.{
  Entries, NotIn, Chain, ends, Waits, NotIn-unused, relinked, ends-relinked, length-relinked,
  Chain-append, LastIs-append, LastIs-NotIn,
}

module _ {C : Type 0} (p : FlatStorage (PendingSend C)) (last id : ℕ) where
  pub link-IsValid :
      IsValid p → IsValid (link p last id) × (FlatStorage.len (link p last id) ≡ FlatStorage.len p)
  unfolding link
  link-IsValid i = elim (Option-cases (FlatStorage.get p last)) [
    | inl e ↦ rw (e, link) (i, refl)
    | inr (q, e) ↦
        let (valid, size, _) = put-IsValid p last (record q { next_id = id }) i in
        rw (e, link) (valid, size)
  ]

  link-other : (k : ℕ) → last ≢ k → FlatStorage.get (link p last id) k ≡ FlatStorage.get p k
  unfolding link
  link-other k ne = elim (Option-cases (FlatStorage.get p last)) [
    | inl e ↦ rw (e, link) refl
    | inr (q, e) ↦ rw (e, link) (ground (arith, get-put p last k (record q { next_id = id })))
  ]

  link-last :
      (e : PendingSend C)
      → FlatStorage.get p last ≡ some e
      → FlatStorage.get (link p last id) last ≡ some (record e { next_id = id })
  unfolding link
  link-last e h = rw (h, link) (ground (arith, get-put p last last (record e { next_id = id }), h))

module _ {C : Type 0} where
  -- The first key after an entry was added.
  first-append :
      (m : MsgSender C) (es : Entries C) (id : ℕ) (q : FlatStorage (PendingSend C))
      (new : PendingSend C)
      → Waits m es
      → new.next_id ≡ usize_max
      → FlatStorage.get q id ≡ some new
      → NotIn id es
      → ((k : ℕ)
          → id ≢ k
          → m.last_pending_id ≢ k
          → FlatStorage.get q k ≡ FlatStorage.get m.pending k)
      → ((e : PendingSend C)
          → FlatStorage.get m.pending m.last_pending_id ≡ some e
          → FlatStorage.get q m.last_pending_id ≡ some (record e { next_id = id }))
      → Chain q
          (if m.first_pending_id == usize_max then id else m.first_pending_id)
          (relinked es id ++ (id, new) ∷ [])
  first-append m [] id q new w ends_here here away same moved =
      let none_first : (m.first_pending_id == usize_max) ≡ true = ground (arith, w.chain) in
      rw none_first (refl, here, tt, ends_here)
  first-append m ((k, e) ∷ es) id q new w ends_here here away same moved =
      let ne = get-some_ne m.pending k e w.valid (w.chain.1) in
      let some_first : (m.first_pending_id == usize_max) ≡ false = ground (arith, w.chain.0, ne) in
      rw some_first (
        Chain-append m.pending q m.last_pending_id id m.first_pending_id new ((k, e) ∷ es) ends_here
          here away same moved w.last w.chain (omega arith))

  -- With a key left, queueing a completion for the last `n` bytes of the buffer puts it behind those
  -- that wait, to be called when all that is in the buffer has gone out. Nothing else changes.
  pub queue_msg_completion_appends :
      (m : MsgSender C) (es : Entries C) (n : ℕ) (c : C)
      → Waits m es
      → n ≤ length m.buf
      → FlatStorage.capacity m.pending < usize_max
      → Returns
          (λ m'.
            ((es' : Entries C) × Waits m' es'
              × (ends es' ≡ ends es ++ (m.bytes_sent + length m.buf, c) ∷ []))
            × (m'.buf ≡ m.buf)
            × (m'.bytes_sent ≡ m.bytes_sent)
            × (m'.close_or_error ≡ m.close_or_error))
          (queue_msg_completion m n (some c))
  unfolding queue_msg_completion
  queue_msg_completion_appends m es n c w h room =
      let new : PendingSend C = record {
        next_id = usize_max;
        startpos = m.bytes_sent + length m.buf - n;
        msgsize = n;
        completion = c;
      } in
      let ((id, p), e, a) = add_correct m.pending new w.valid (inl room) in
      let q = link p m.last_pending_id id in
      let away = NotIn-unused m.pending id m.first_pending_id es a.fresh w.chain in
      let added : FlatStorage.get p id ≡ some new = ground (arith, a.reads id) in
      let last_ne : m.last_pending_id ≢ id =
        LastIs-NotIn m.last_pending_id id es w.last away (get-some_ne p id new a.valid added) in
      let linked = link-IsValid p m.last_pending_id id a.valid in
      rw e (
        _,
        refl,
        (
          (
            relinked es id ++ (id, new) ∷ [],
            record {
              valid = linked.0;
              chain =
                  first-append m es id q new w refl
                    (link-other p m.last_pending_id id id last_ne ∙ added) away
                    (λ k ne ne'.
                      link-other p m.last_pending_id id k ne' ∙ ground (arith, a.reads k, ne))
                    λ f found.
                      link-last p m.last_pending_id id f
                        (ground (arith, a.reads m.last_pending_id, last_ne, found));
              last = LastIs-append id new es;
              size = omega (
                arith,
                linked.1,
                a.size,
                w.size,
                length-append (relinked es id) ((id, new) ∷ []),
                length-relinked es id,
              );
            },
            ends-relinked es id new ∙ ap (λ (end : ℕ). ends es ++ (end, c) ∷ []) (omega arith),
          ),
          refl,
          refl,
          refl,
        ),
      )
