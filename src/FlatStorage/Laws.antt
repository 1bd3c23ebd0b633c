-- ===== src/FlatStorage/Laws.antt =====
-- The representation invariant of src/flat_storage.rs, and each operation as a change of the
-- partial map `get s` from keys to values.
use reactio_rs.Base.{
  ℕ, ◌+◌, ◌-◌, ◌<◌, ◌≤◌, ◌≡◌, refl, List, [], ◌∷◌, ◌++◌, Option, none, some, arith, ◌==◌,
  if◌then◌else◌, usize_max, done, length, get_elem?, set, get_elem?-set, get_elem?-append,
  get_elem?-none, lt-length, length-set, length-append, List-cases, subst, ap, inl, inr, ◌⊎◌,
}
use reactio_rs.FlatStorage.{
  AllocNode, vacant, occupied, FlatStorage, new, len, add, remove, get, put, put_node, capacity,
}
use reactio_rs.FlatStorage.Chain.{
  Distinct, Linked, vacancies, Linked-set, occupied-Absent, vacancies-append, vacancies-fill,
  vacancies-clear, vacancies-lt, vacancies-rewrite,
}

module _ {ℓ} {T : Type ℓ} where
  pub record IsValid (s : FlatStorage T) : Type ℓ where
    pub chain : List ℕ
    pub linked : Linked s.nodes s.free chain
    pub distinct : Distinct chain
    pub covered : length chain ≡ vacancies s.nodes
    pub counted : s.count + vacancies s.nodes ≡ length s.nodes
    pub bounded : length s.nodes ≤ usize_max

  pub new-IsValid : IsValid new
  unfolding new vacancies
  new-IsValid = record {
    chain = [];
    linked = (refl, tt);
    distinct = tt;
    covered = refl;
    counted = omega arith;
    bounded = omega arith;
  }

  -- What `add` promises: a fresh key, the map changed there only, and a valid storage.
  pub record Added (s : FlatStorage T) (v : T) (r : ℕ × FlatStorage T) : Type ℓ where
    pub fresh : get s r.0 ≡ none
    pub reads : (j : ℕ) → get r.1 j ≡ (if r.0 == j then some v else get s j)
    pub size : len r.1 ≡ len s + 1
    pub growth : capacity r.1 ≡ (if len s == capacity s then capacity s + 1 else capacity s)
    pub valid : IsValid r.1

  add_push :
      (s : FlatStorage T) (v : T) (i : IsValid s)
      → i.chain ≡ []
      → length s.nodes < usize_max
      → (r : ℕ × FlatStorage T) × (add s v ≡ done r) × Added s v r
  unfolding add get len capacity
  add_push s v i e room =
      let l = subst (Linked s.nodes s.free) e i.linked in
      (
        (
          length s.nodes,
          record { nodes = s.nodes ++ occupied v ∷ []; count = s.count + 1; free = s.free },
        ),
        ground (arith, l.0),
        record {
          fresh = rw (get_elem?-none s.nodes (length s.nodes) (omega arith));
          reads = λ j. ground (arith, get_elem?-append s.nodes (occupied v) j);
          size = refl;
          growth = ground (arith, i.covered, ap length e, length-append s.nodes (occupied v ∷ []));
          valid = record {
            chain = [];
            linked = l;
            distinct = tt;
            covered = omega (arith, i.covered, ap length e, vacancies-append s.nodes v);
            counted =
                omega (arith, vacancies-append s.nodes v, length-append s.nodes (occupied v ∷ []));
            bounded = omega (arith, length-append s.nodes (occupied v ∷ []));
          };
        },
      )

  add_reuse :
      (s : FlatStorage T) (v : T) (i : IsValid s) {k : ℕ} {ks : List ℕ}
      → i.chain ≡ k ∷ ks
      → (r : ℕ × FlatStorage T) × (add s v ≡ done r) × Added s v r
  unfolding add get len capacity
  add_reuse s v i {k} {ks} e =
      let (at_k, ne, (next, at, rest)) = subst (Linked s.nodes s.free) e i.linked in
      let apart = subst Distinct e i.distinct in
      let inside = lt-length s.nodes k at in
      let size = length-set s.nodes k (occupied v) in
      (
        (k, record { nodes = set s.nodes k (occupied v); count = s.count + 1; free = next }),
        ground (arith, at_k, ne, at, vacancies-fill s.nodes k v at),
        record {
          fresh = rw at;
          reads = λ j. ground (arith, get_elem?-set s.nodes k j (occupied v) inside);
          size = refl;
          growth = ground (arith, i.covered, ap length e, i.counted, size);
          valid = record {
            chain = ks;
            linked = Linked-set s.nodes k (occupied v) next ks inside apart.0 rest;
            distinct = apart.1;
            covered = omega (arith, i.covered, ap length e, vacancies-fill s.nodes k v at);
            counted = omega (arith, vacancies-fill s.nodes k v at, size);
            bounded = omega (arith, size);
          };
        },
      )

  -- With a valid storage and room for one more slot, `add` does not panic: it returns a key that
  -- was not in use, changes the map at that key only, counts one more, and keeps the storage valid.
  pub add_correct :
      (s : FlatStorage T) (v : T)
      → IsValid s
      → (capacity s < usize_max) ⊎ (len s < capacity s)
      → (r : ℕ × FlatStorage T) × (add s v ≡ done r) × Added s v r
  unfolding len capacity
  add_correct s v i room = elim (List-cases i.chain) [
    | inl e ↦ add_push s v i e (ground (arith, room, i.covered, ap length e))
    | inr (k, ks, e) ↦ add_reuse s v i e
  ]

  -- A key has no value and `remove` does nothing, or its slot is occupied.
  pub slot_cases :
      (s : FlatStorage T) (k : ℕ)
      → ((get s k ≡ none) × (remove s k ≡ (none, s)) × ((w : T) → put s k w ≡ s))
        ⊎ ((v : T) × (get_elem? s.nodes k ≡ some (occupied v)))
  unfolding get remove put
  slot_cases s k = cases (get_elem? s.nodes k) refl
    where
      cases :
          (n : Option (AllocNode T))
          → get_elem? s.nodes k ≡ n
          → ((get s k ≡ none) × (remove s k ≡ (none, s)) × ((w : T) → put s k w ≡ s))
            ⊎ ((v : T) × (get_elem? s.nodes k ≡ some (occupied v)))
      cases none e = inl (rw e, rw e, λ w. rw e)
      cases (some (vacant _)) e = inl (rw e, rw e, λ w. rw e)
      cases (some (occupied v)) e = inr (v, e)

  -- `remove` takes the key out of the map, returns what was there, and changes no other key.
  pub get-remove :
      (s : FlatStorage T) (k : ℕ)
      → ((remove s k).0 ≡ get s k)
        × ((j : ℕ) → get (remove s k).1 j ≡ (if k == j then none else get s j))
  unfolding get remove
  get-remove s k = elim (slot_cases s k) [
    | inl (absent, unchanged, _) ↦ (ground arith, λ j. ground arith)
    | inr (v, e) ↦ (
      rw e,
      λ j. ground (arith, e, get_elem?-set s.nodes k j (vacant s.free) (lt-length s.nodes k e)),
    )
  ]

  -- `remove` of any key keeps a valid storage valid: the free list links each vacant slot once,
  -- and the count is the number of the others.
  pub remove-IsValid : (s : FlatStorage T) (k : ℕ) → IsValid s → IsValid (remove s k).1
  unfolding remove
  remove-IsValid s k i = elim (slot_cases s k) [
    | inl (absent, unchanged, _) ↦ rw unchanged i
    | inr (v, e) ↦
        let inside = lt-length s.nodes k e in
        let size = length-set s.nodes k (vacant s.free) in
        let off = occupied-Absent s.nodes k v s.free i.chain e i.linked in
        rw (e, remove)
          (record {
            chain = k ∷ i.chain;
            linked = (
              refl,
              (omega (arith, i.bounded)),
              (
                s.free,
                ground (arith, get_elem?-set s.nodes k k (vacant s.free) inside),
                Linked-set s.nodes k (vacant s.free) s.free i.chain inside off i.linked,
              ),
            );
            distinct = (off, i.distinct);
            covered = omega (arith, i.covered, vacancies-clear s.nodes k s.free e);
            counted = omega (
              arith,
              size,
              i.counted,
              i.bounded,
              vacancies-clear s.nodes k s.free e,
              vacancies-lt s.nodes k e,
            );
            bounded = omega (arith, size);
          })
  ]

  -- One removal counts one less, if there was a value, and takes no slot away.
  pub len-remove :
      (s : FlatStorage T) (k : ℕ)
      → IsValid s
      → (len (remove s k).1 ≡ elim (get s k) [ none ↦ len s | some _ ↦ len s - 1 ])
        × (capacity (remove s k).1 ≡ capacity s)
  unfolding len remove get capacity
  len-remove s k i = elim (slot_cases s k) [
    | inl (absent, unchanged, _) ↦ (rw (absent, unchanged), rw unchanged)
    | inr (v, e) ↦ (
      rw e (omega (arith, i.counted, i.bounded, vacancies-lt s.nodes k e)),
      rw e (length-set s.nodes k (vacant s.free)),
    )
  ]

  -- The slot that was freed last is the next to be filled, also in a storage that is full otherwise,
  -- and the number of values is then what it was.
  pub add-remove :
      (s : FlatStorage T) (k : ℕ) (v w : T)
      → IsValid s
      → get s k ≡ some v
      → (t : FlatStorage T) × (add (remove s k).1 w ≡ done (k, t))
        × ((j : ℕ) → get t j ≡ (if k == j then some w else get s j))
        × (len t ≡ len s)
  unfolding add remove get len
  add-remove s k v w i h = elim (slot_cases s k) [
    | inl (absent, unchanged, _) ↦ absurd (cc (absent, h))
    | inr (u, e) ↦
        let inside = lt-length s.nodes k e in
        let once = get_elem?-set s.nodes k k (vacant s.free) inside in
        let inside' : k < length (set s.nodes k (vacant s.free)) =
          omega (arith, length-set s.nodes k (vacant s.free)) in
        (
          record {
            nodes = set (set s.nodes k (vacant s.free)) k (occupied w);
            count = s.count;
            free = s.free;
          },
          ground (arith, e, once, i.bounded, i.counted, vacancies-lt s.nodes k e),
          λ j. ground (
            arith,
            get_elem?-set (set s.nodes k (vacant s.free)) k j (occupied w) inside',
            get_elem?-set s.nodes k j (vacant s.free) inside,
          ),
          refl,
        )
  ]

  -- A write through `get_mut` replaces the value of a key in use, and changes nothing otherwise.
  pub get-put :
      (s : FlatStorage T) (k j : ℕ) (v : T)
      → get (put s k v) j
        ≡ (if k == j then elim (get s k) [ none ↦ none | some _ ↦ some v ] else get s j)
  unfolding get put
  get-put s k j v = elim (slot_cases s k) [
    | inl (absent, _, same) ↦ rw (same v) (ground (arith, absent))
    | inr (u, e) ↦ ground (arith, e, get_elem?-set s.nodes k j (occupied v) (lt-length s.nodes k e))
  ]

  -- A write through `get_mut` keeps the storage valid, and the number of values and of slots.
  pub put-IsValid :
      (s : FlatStorage T) (k : ℕ) (w : T)
      → IsValid s
      → IsValid (put s k w) × (len (put s k w) ≡ len s) × (capacity (put s k w) ≡ capacity s)
  unfolding put len capacity
  put-IsValid s k w i = elim (slot_cases s k) [
    | inl (absent, unchanged, same) ↦ rw (same w) (i, refl, refl)
    | inr (v, e) ↦
        let inside = lt-length s.nodes k e in
        let size = length-set s.nodes k (occupied w) in
        let off = occupied-Absent s.nodes k v s.free i.chain e i.linked in
        let filled = vacancies-rewrite s.nodes k w e in
        rw (e, put_node)
          (
            record {
              chain = i.chain;
              linked = Linked-set s.nodes k (occupied w) s.free i.chain inside off i.linked;
              distinct = i.distinct;
              covered = omega (arith, filled, i.covered);
              counted = omega (arith, filled, size, i.counted);
              bounded = omega (arith, size, i.bounded);
            },
            refl,
            size,
          )
  ]
