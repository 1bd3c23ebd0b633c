-- ===== src/Manager/Managed.antt =====
-- The invariant that src/reactor.rs's `ReactorMgr` keeps between its calls, and the changes of the
-- sockets that keep it.
use mathlib.Core.Option.{some-injective}
use reactio_rs.Base.{
  ℕ, ◌+◌, ◌-◌, ◌≤◌, ◌≡◌, refl, arith, sym, Option, some, ◌==◌, if◌then◌else◌, Bool-cases, inl, inr,
  ◌∙◌,
}
use reactio_rs.FlatStorage
use reactio_rs.FlatStorage.{FlatStorage}
use reactio_rs.FlatStorage.Laws.{
  IsValid, Added, get-put, get-remove, put-IsValid, remove-IsValid, new-IsValid,
}
use reactio_rs.FlatStorage.Keys.{Added-put}
use reactio_rs.FlatStorage.Weights.{weigh, total, total-add, total-put, total-remove, total-le}
use reactio_rs.ReactorId.{ReactorId}
use reactio_rs.Manager.{TcpSocketHandler, listener_type, stream_type}

module _ {S L C R H : Type 0} where
  -- The id that is stored with a socket, and its share in the number of streams.
  abbrev pub stored_id : TcpSocketHandler S L C R H → ReactorId
  stored_id (listener_type id _ _) = id
  stored_id (stream_type d _) = d.reactorid

  abbrev pub stream_weight : TcpSocketHandler S L C R H → ℕ
  stream_weight (listener_type _ _ _) = 0
  stream_weight (stream_type _ _) = 1

  -- The storage is valid, each socket is stored with an id of its slot, and `count` streams are there.
  pub record IsManaged (s : FlatStorage (TcpSocketHandler S L C R H)) (count : ℕ) : Type 0 where
    pub valid : IsValid s
    pub named :
        (k : ℕ) (h : TcpSocketHandler S L C R H)
        → FlatStorage.get s k ≡ some h
        → (stored_id h).sockslot ≡ k
    pub counted : count ≡ total stream_weight s

  -- After a write of a socket with an id of the slot.
  named-update :
      (f g : ℕ → Option (TcpSocketHandler S L C R H)) (k : ℕ) (w : TcpSocketHandler S L C R H)
      → ((j : ℕ) → g j ≡ (if k == j then some w else f j))
      → ((j : ℕ) (h : TcpSocketHandler S L C R H) → f j ≡ some h → (stored_id h).sockslot ≡ j)
      → (stored_id w).sockslot ≡ k
      → (j : ℕ) (h : TcpSocketHandler S L C R H) → g j ≡ some h
      → (stored_id h).sockslot ≡ j
  named-update f g k w reads named slot j h e = elim (Bool-cases (k == j)) [
    | inl here ↦
        let written : some w ≡ some h = sym (rw here at (reads j)) ∙ e in
        rw (← some-injective w h written) (ground (arith, slot, here))
    | inr other ↦ named j h (sym (rw other at (reads j)) ∙ e)
  ]

  pub new-IsManaged : IsManaged FlatStorage.new 0
  unfolding FlatStorage.new FlatStorage.get FlatStorage.capacity
  new-IsManaged = record { valid = new-IsValid; named = λ k h e. absurd (cc e); counted = refl }

  pub put-IsManaged :
      {s : FlatStorage (TcpSocketHandler S L C R H)} {count : ℕ} (k : ℕ)
      (u w : TcpSocketHandler S L C R H)
      → IsManaged s count
      → FlatStorage.get s k ≡ some u
      → stream_weight w ≡ stream_weight u
      → (stored_id w).sockslot ≡ k
      → IsManaged (FlatStorage.put s k w) count
  put-IsManaged {s} {count} k u w m found same slot = record {
    valid = (put-IsValid s k w m.valid).0;
    named =
        named-update (FlatStorage.get s) (FlatStorage.get (FlatStorage.put s k w)) k w
          (λ j. ground (arith, get-put s k j w, found)) m.named slot;
    counted = omega (arith, total-put stream_weight s k u w m.valid found, m.counted);
  }

  pub add-IsManaged :
      {s t : FlatStorage (TcpSocketHandler S L C R H)} {count key : ℕ}
      (v w : TcpSocketHandler S L C R H)
      → IsManaged s count
      → Added s v (key, t)
      → stream_weight w ≡ stream_weight v
      → (stored_id w).sockslot ≡ key
      → IsManaged (FlatStorage.put t key w) (count + stream_weight w)
  add-IsManaged {s} {t} {count} {key} v w m a same slot =
      let here : FlatStorage.get t key ≡ some v = ground (arith, a.reads key) in
      let (_, reads, valid, _) = Added-put s t key v w a in
      record {
        valid = valid;
        named =
            named-update (FlatStorage.get s) (FlatStorage.get (FlatStorage.put t key w)) key w reads
              m.named slot;
        counted = omega (
          arith,
          total-add stream_weight s v (key, t) a,
          total-put stream_weight t key v w a.valid here,
          m.counted,
        );
      }

  pub remove-IsManaged :
      {s : FlatStorage (TcpSocketHandler S L C R H)} {count : ℕ} (k : ℕ)
      → IsManaged s count
      → IsManaged (FlatStorage.remove s k).1 (count - weigh stream_weight (FlatStorage.get s k))
        × (weigh stream_weight (FlatStorage.get s k) ≤ count)
  remove-IsManaged {s} {count} k m =
      let left = total-remove stream_weight s k m.valid in
      (
        record {
          valid = remove-IsValid s k m.valid;
          named = λ j h e. m.named j h (ground (arith, (get-remove s k).1 j, e));
          counted = omega (arith, left, m.counted);
        },
        omega (arith, left, m.counted),
      )

  pub count_le :
      {s : FlatStorage (TcpSocketHandler S L C R H)} {count : ℕ}
      → IsManaged s count
      → count ≤ FlatStorage.capacity s
  count_le {s} m = omega (arith, m.counted, total-le stream_weight s small)
    where
      small : (h : TcpSocketHandler S L C R H) → stream_weight h ≤ 1
      small (listener_type _ _ _) = omega arith
      small (stream_type _ _) = omega arith
