-- ===== src/MsgSender/Notify.antt =====
-- The loop of src/reactor.rs's `send_queued` over the completions that wait, in a release build.
use mathlib.Core.List.{append_assoc, append-nil}
use reactio_rs.Base.{
  ℕ, zero, suc, ◌+◌, ◌-◌, ◌≤◌, ◌<◌, ◌≡◌, refl, sym, ◌∙◌, ap, List, [], ◌∷◌, ◌++◌, true, false, some,
  arith, done, Returns, ◌==◌, if◌then◌else◌, inl, inr, ◌⊎◌, usize_max, length, leb, Bool-cases,
  release, sub_usize,
}
use reactio_rs.FlatStorage
use reactio_rs.FlatStorage.{FlatStorage}
use reactio_rs.FlatStorage.Laws.{
  IsValid, get-put, put-IsValid, get-remove, remove-IsValid, len-remove,
}
use reactio_rs.FlatStorage.Keys.{get-some_ne}
use reactio_rs.MsgSender.{MsgSender, PendingSend, notify}
use reactio_rs.MsgSender.Pending.{Entries, NotIn, Chain, LastIs, ends, Chain-elsewhere}

-- What is left of a message that ends behind `sent`, also where it starts behind `sent`.
shorten :
    (sent start size : ℕ)
    → start + size ≤ usize_max
    → sent < start + size
    → (over : ℕ) × (sub_usize release sent start ≡ done over)
      × (left : ℕ) × (sub_usize release size over ≡ done left)
      × (sent + left ≡ start + size)
unfolding sub_usize
shorten sent start size h more = elim (Bool-cases (leb start sent)) [
  | inl e ↦ (sent - start, rw e refl, size - (sent - start), ground (arith, e), ground (arith, e))
  | inr e ↦ (
    sent + 0x1_0000_0000_0000_0000 - start,
    rw e refl,
    start + size - sent,
    ground (arith, e),
    omega arith,
  )
]

module _ {C : Type 0} where
  -- The completions that are called once `sent` bytes have gone out: those of the messages that end
  -- there or before, up to the first that does not. The others wait.
  abbrev pub called_at : ℕ → List (ℕ × C) → List C
  called_at sent [] = []
  called_at sent ((end, c) ∷ es) = if leb end sent then c ∷ called_at sent es else []

  abbrev pub waiting_at : ℕ → List (ℕ × C) → List (ℕ × C)
  waiting_at sent [] = []
  waiting_at sent ((end, c) ∷ es) = if leb end sent then waiting_at sent es else (end, c) ∷ es

  -- Positions fit in a `usize`.
  abbrev pub Fit : Entries C → Type 0
  Fit [] = Unit
  Fit ((_, e) ∷ es) = (e.startpos + e.msgsize ≤ usize_max) × Fit es

  -- The last key, of a list that has one.
  abbrev pub EndsAt : ℕ → Entries C → Type 0
  EndsAt l es = (length es ≡ 0) ⊎ LastIs l es

  -- How the loop leaves the sender, with the entries that still wait.
  pub record Notified (m : MsgSender C) (es : Entries C) (called : List C)
      (r : MsgSender C × List C) : Type 0 where
    pub entries : Entries C
    pub valid : IsValid (r.0).pending
    pub chain : Chain (r.0).pending (r.0).first_pending_id entries
    pub size : FlatStorage.len (r.0).pending ≡ length entries
    pub waiting : ends entries ≡ waiting_at m.bytes_sent (ends es)
    pub calls : r.1 ≡ called ++ called_at m.bytes_sent (ends es)
    pub last : (l : ℕ) → EndsAt l es → EndsAt l entries
    pub buf : (r.0).buf ≡ m.buf
    pub bytes_sent : (r.0).bytes_sent ≡ m.bytes_sent
    pub last_id : (r.0).last_pending_id ≡ m.last_pending_id
    pub close_or_error : (r.0).close_or_error ≡ m.close_or_error

  EndsAt-tail : (l : ℕ) (x : ℕ × PendingSend C) (es : Entries C) → EndsAt l (x ∷ es) → EndsAt l es
  EndsAt-tail l x es (inl h) = absurd (omega arith)
  EndsAt-tail l x [] (inr h) = inl refl
  EndsAt-tail l x (y ∷ es) (inr h) = inr h

  EndsAt-head :
      (l k : ℕ) (e f : PendingSend C) (es : Entries C)
      → EndsAt l ((k, e) ∷ es)
      → EndsAt l ((k, f) ∷ es)
  EndsAt-head l k e f es (inl h) = absurd (omega arith)
  EndsAt-head l k e f [] (inr h) = inr h
  EndsAt-head l k e f (y ∷ es) (inr h) = inr h

  -- The round that calls the first completion, and then the others.
  Notified-cons :
      (m : MsgSender C) (k : ℕ) (e : PendingSend C) (es : Entries C) (called : List C)
      (rest : FlatStorage (PendingSend C)) (r : MsgSender C × List C)
      → leb (e.startpos + e.msgsize) m.bytes_sent ≡ true
      → Notified
          (record m { first_pending_id = e.next_id; pending = rest })
          es
          (called ++ e.completion ∷ [])
          r
      → Notified m ((k, e) ∷ es) called r
  Notified-cons m k e es called rest r over n = record {
    entries = n.entries;
    valid = n.valid;
    chain = n.chain;
    size = n.size;
    waiting = rw over n.waiting;
    calls =
        rw over
          (n.calls ∙ append_assoc called (e.completion ∷ []) (called_at m.bytes_sent (ends es)));
    last = λ l h. n.last l (EndsAt-tail l (k, e) es h);
    buf = n.buf;
    bytes_sent = n.bytes_sent;
    last_id = n.last_id;
    close_or_error = n.close_or_error;
  }

  pub notify_lem :
      (fuel : ℕ) (m : MsgSender C) (es : Entries C) (called : List C)
      → length es < fuel
      → IsValid m.pending
      → Chain m.pending m.first_pending_id es
      → FlatStorage.len m.pending ≡ length es
      → Fit es
      → Returns (Notified m es called) (notify release fuel m called)
  unfolding notify
  notify_lem zero m es called f valid chain size fit = absurd (omega arith)
  notify_lem (suc fuel) m [] called f valid chain size fit =
      let end : (m.first_pending_id == usize_max) ≡ true = ground (arith, chain) in
      rw end (
        (m, called),
        refl,
        record {
          entries = [];
          valid = valid;
          chain = chain;
          size = size;
          waiting = refl;
          calls = sym (append-nil called);
          last = λ l h. inl refl;
          buf = refl;
          bytes_sent = refl;
          last_id = refl;
          close_or_error = refl;
        },
      )
  notify_lem (suc fuel) m ((k, e) ∷ es) called f valid (at, found, out, rest) size fit =
      let ne = get-some_ne m.pending k e valid found in
      let more : (m.first_pending_id == usize_max) ≡ false = ground (arith, at, ne) in
      let here : FlatStorage.get m.pending m.first_pending_id ≡ some e = rw at found in
      let away : NotIn m.first_pending_id es = rw at out in
      rw (more, here)
        (elim (Bool-cases (leb (e.startpos + e.msgsize) m.bytes_sent)) [
          | inl over ↦
              let gone : (FlatStorage.remove m.pending m.first_pending_id).0 ≡ some e =
                (get-remove m.pending m.first_pending_id).0 ∙ here in
              let p = (FlatStorage.remove m.pending m.first_pending_id).1 in
              let (r, computed, n) =
                notify_lem fuel (record m { first_pending_id = e.next_id; pending = p }) es
                  (called ++ e.completion ∷ []) (omega arith)
                  (remove-IsValid m.pending m.first_pending_id valid)
                  (Chain-elsewhere m.pending p m.first_pending_id e.next_id es
                    (λ j ne. ground (arith, (get-remove m.pending m.first_pending_id).1 j, ne)) away
                    rest)
                  (ground (arith, (len-remove m.pending m.first_pending_id valid).0, here, size))
                  fit.1 in
              rw (over, gone) (r, computed, Notified-cons m k e es called p r over n)
          | inr ahead ↦
              let (over, e1, left, e2, same) =
                shorten m.bytes_sent e.startpos e.msgsize fit.0 (ground (arith, ahead)) in
              let q = record e { msgsize = left; startpos = m.bytes_sent } in
              let (valid', size', _) = put-IsValid m.pending m.first_pending_id q valid in
              rw (ahead, e1, e2)
                (
                  _,
                  refl,
                  record {
                    entries = (k, q) ∷ es;
                    valid = valid';
                    chain = (
                      at,
                      ground (arith, get-put m.pending m.first_pending_id k q, here, at),
                      out,
                      Chain-elsewhere m.pending (FlatStorage.put m.pending m.first_pending_id q)
                          m.first_pending_id e.next_id es
                          (λ j ne. ground (arith, get-put m.pending m.first_pending_id j q, ne))
                          away rest,
                    );
                    size = size' ∙ size;
                    waiting = rw ahead (ap (λ (end : ℕ). (end, e.completion) ∷ ends es) same);
                    calls = rw ahead (sym (append-nil called));
                    last = λ l h. EndsAt-head l k e q es h;
                    buf = refl;
                    bytes_sent = refl;
                    last_id = refl;
                    close_or_error = refl;
                  },
                )
        ])
