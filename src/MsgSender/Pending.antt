-- ===== src/MsgSender/Pending.antt =====
-- The completions that wait in src/reactor.rs's `MsgSender`: a linked list through the slots of a
-- `FlatStorage`, and the list of entries that it stands for.
use reactio_rs.Base.{
  ℕ, suc, ◌+◌, ◌<◌, ◌≡◌, ◌≢◌, refl, sym, ◌∙◌, ap, subst, List, [], ◌∷◌, ◌++◌, none, some, arith,
  usize_max, length,
}
use reactio_rs.FlatStorage
use reactio_rs.FlatStorage.{FlatStorage}
use reactio_rs.FlatStorage.Laws.{IsValid}
use reactio_rs.MsgSender.{MsgSender, PendingSend}

abbrev pub Entries : Type 0 → Type 0
Entries C = List (ℕ × PendingSend C)

module _ {C : Type 0} where
  abbrev pub NotIn : ℕ → Entries C → Type 0
  NotIn k [] = Unit
  NotIn k ((j, _) ∷ es) = (k ≢ j) × NotIn k es

  -- From the key `id`, the links lead through the entries, and end.
  abbrev pub Chain : FlatStorage (PendingSend C) → ℕ → Entries C → Type 0
  Chain p id [] = id ≡ usize_max
  Chain p id ((k, e) ∷ es) =
      (id ≡ k) × (FlatStorage.get p k ≡ some e) × NotIn k es × Chain p e.next_id es

  abbrev pub LastIs : ℕ → Entries C → Type 0
  LastIs last [] = last ≡ usize_max
  LastIs last ((k, _) ∷ []) = last ≡ k
  LastIs last (_ ∷ x ∷ es) = LastIs last (x ∷ es)

  -- Where an entry's message ends, counted as `bytes_sent` counts, and what is called then.
  abbrev pub ends : Entries C → List (ℕ × C)
  ends [] = []
  ends ((_, e) ∷ es) = (e.startpos + e.msgsize, e.completion) ∷ ends es

  -- The entries wait in the sender, in this order, and nothing else does.
  pub record Waits (m : MsgSender C) (es : Entries C) : Type 0 where
    pub valid : IsValid m.pending
    pub chain : Chain m.pending m.first_pending_id es
    pub last : LastIs m.last_pending_id es
    pub size : FlatStorage.len m.pending ≡ length es

  -- A chain survives a change of the storage at a key that is not in it.
  pub Chain-elsewhere :
      (p q : FlatStorage (PendingSend C)) (key id : ℕ) (es : Entries C)
      → ((k : ℕ) → key ≢ k → FlatStorage.get q k ≡ FlatStorage.get p k)
      → NotIn key es
      → Chain p id es
      → Chain q id es
  Chain-elsewhere p q key id [] same away c = c
  Chain-elsewhere p q key id ((k, e) ∷ es) same (ne, away) (at, here, out, rest) =
      (at, same k ne ∙ here, out, Chain-elsewhere p q key e.next_id es same away rest)

  -- A key that is not in use is not in the chain.
  pub NotIn-unused :
      (p : FlatStorage (PendingSend C)) (key id : ℕ) (es : Entries C)
      → FlatStorage.get p key ≡ none
      → Chain p id es
      → NotIn key es
  NotIn-unused p key id [] unused c = tt
  NotIn-unused p key id ((k, e) ∷ es) unused (at, here, out, rest) =
      (λ same. cc (same, unused, here), NotIn-unused p key e.next_id es unused rest)

  -- The entries when a new one is linked behind the last.
  abbrev pub relinked : Entries C → ℕ → Entries C
  relinked [] id = []
  relinked ((k, e) ∷ []) id = (k, record e { next_id = id }) ∷ []
  relinked (x ∷ y ∷ es) id = x ∷ relinked (y ∷ es) id

  pub ends-relinked :
      (es : Entries C) (id : ℕ) (new : PendingSend C)
      → ends (relinked es id ++ (id, new) ∷ [])
        ≡ ends es ++ (new.startpos + new.msgsize, new.completion) ∷ []
  ends-relinked [] id new = refl
  ends-relinked ((k, e) ∷ []) id new = refl
  ends-relinked ((k, e) ∷ y ∷ es) id new =
      ap (◌∷◌ (e.startpos + e.msgsize, e.completion)) (ends-relinked (y ∷ es) id new)

  pub length-relinked : (es : Entries C) (id : ℕ) → length (relinked es id) ≡ length es
  length-relinked [] id = refl
  length-relinked (x ∷ []) id = refl
  length-relinked (x ∷ y ∷ es) id = ap suc (length-relinked (y ∷ es) id)

  NotIn-append :
      (k id : ℕ) (e : PendingSend C) (es : Entries C)
      → NotIn k es
      → k ≢ id
      → NotIn k (relinked es id ++ (id, e) ∷ [])
  NotIn-append k id e [] away ne = (ne, tt)
  NotIn-append k id e (x ∷ []) away ne = (away.0, (ne, tt))
  NotIn-append k id e (x ∷ y ∷ es) away ne = (away.0, NotIn-append k id e (y ∷ es) away.1 ne)

  -- The chain after a new last entry, for a storage that reads so.
  pub Chain-append :
      (p q : FlatStorage (PendingSend C)) (last id first : ℕ) (new : PendingSend C) (es : Entries C)
      → new.next_id ≡ usize_max
      → FlatStorage.get q id ≡ some new
      → NotIn id es
      → ((k : ℕ) → id ≢ k → last ≢ k → FlatStorage.get q k ≡ FlatStorage.get p k)
      → ((e : PendingSend C)
          → FlatStorage.get p last ≡ some e
          → FlatStorage.get q last ≡ some (record e { next_id = id }))
      → LastIs last es
      → Chain p first es
      → 0 < length es
      → Chain q first (relinked es id ++ (id, new) ∷ [])
  Chain-append p q last id first new [] ends_here here away same moved l c nonempty =
      absurd (omega arith)
  Chain-append p q last id first new ((k, e) ∷ []) ends_here here away same moved l
        (at, found, out, rest) nonempty =
      (
        at,
        subst (λ j. FlatStorage.get q j ≡ some (record e { next_id = id })) l
            (moved e (subst (λ j. FlatStorage.get p j ≡ some e) (sym l) found)),
        ((λ eq. away.0 (sym eq)), tt),
        (refl, here, tt, ends_here),
      )
  Chain-append p q last id first new ((k, e) ∷ y ∷ es) ends_here here away same moved l
        (at, found, out, rest) nonempty =
      (
        at,
        same k away.0 (last_NotIn last k (y ∷ es) l out (omega arith)) ∙ found,
        NotIn-append k id new (y ∷ es) out (λ eq. away.0 (sym eq)),
        Chain-append p q last id e.next_id new (y ∷ es) ends_here here away.1 same moved l rest
            (omega arith),
      )
    where
      last_NotIn :
          (last k : ℕ) (es : Entries C) → LastIs last es → NotIn k es → 0 < length es → last ≢ k
      last_NotIn last k [] l out h eq = absurd (omega arith)
      last_NotIn last k ((j, _) ∷ []) l out h eq = out.0 (sym eq ∙ l)
      last_NotIn last k (_ ∷ x ∷ es) l out h eq =
          last_NotIn last k (x ∷ es) l out.1 (omega arith) eq

  pub LastIs-append :
      (id : ℕ) (new : PendingSend C) (es : Entries C) → LastIs id (relinked es id ++ (id, new) ∷ [])
  LastIs-append id new [] = refl
  LastIs-append id new (x ∷ []) = refl
  LastIs-append id new (x ∷ y ∷ []) = refl
  LastIs-append id new (x ∷ y ∷ z ∷ es) = LastIs-append id new (y ∷ z ∷ es)

  -- The last key is not one that is not in the list.
  pub LastIs-NotIn :
      (last id : ℕ) (es : Entries C) → LastIs last es → NotIn id es → id ≢ usize_max → last ≢ id
  LastIs-NotIn last id [] l away ne same = ne (sym same ∙ l)
  LastIs-NotIn last id ((j, _) ∷ []) l away ne same = away.0 (sym same ∙ l)
  LastIs-NotIn last id (_ ∷ x ∷ es) l away ne same = LastIs-NotIn last id (x ∷ es) l away.1 ne same
