-- ===== src/FlatStorage/History.antt =====
-- What a client of src/flat_storage.rs can observe over any sequence of calls: the storage reads as
-- the map that its answers describe.
use reactio_rs.Base.{
  ℕ, ◌+◌, ◌≤◌, ◌≡◌, refl, List, [], ◌∷◌, Option, none, some, arith, ◌==◌, inl, if◌then◌else◌,
  usize_max, Outcome, done, ◌>>=◌, length, ◌∙◌,
}
use reactio_rs.FlatStorage.{FlatStorage, new, capacity, add, remove, get}
use reactio_rs.FlatStorage.Laws.{
  IsValid, new-IsValid, add_correct, remove-IsValid, get-remove, len-remove,
}

-- A call, and what it answered.
pub data Call {ℓ} (T : Type ℓ) : Type ℓ where
  add_call : T → Call T
  remove_call : ℕ → Call T

pub data Event {ℓ} (T : Type ℓ) : Type ℓ where
  added : ℕ → T → Event T
  removed : ℕ → Option T → Event T

module _ {ℓ} {T : Type ℓ} where
  unfoldable pub step : FlatStorage T → Call T → Outcome (Event T × FlatStorage T)
  step s (add_call v) = add s v >>= λ (k, s'). done (added k v, s')
  step s (remove_call k) = let (o, s') = remove s k in done (removed k o, s')

  unfoldable pub run : FlatStorage T → List (Call T) → Outcome (List (Event T) × FlatStorage T)
  unfolding step
  run s [] = done ([], s)
  run s (c ∷ cs) = step s c >>= λ (e, s'). run s' cs >>= λ (es, t). done (e ∷ es, t)

  -- The map after an event, where the event is one that a map can give.
  abbrev pub after : (ℕ → Option T) → Event T → ℕ → Option T
  after f (added k v) j = if k == j then some v else f j
  after f (removed k o) j = if k == j then none else f j

  -- A new key is one that is not in use, and a removal answers with the value at the key.
  abbrev pub Fits : (ℕ → Option T) → Event T → Type ℓ
  Fits f (added k v) = f k ≡ none
  Fits f (removed k o) = o ≡ f k

  -- Each event fits the map that the ones before it leave; the last map is `g`.
  abbrev pub Explains : (ℕ → Option T) → List (Event T) → (ℕ → Option T) → Type ℓ
  Explains f [] g = (j : ℕ) → g j ≡ f j
  Explains f (e ∷ es) g = Fits f e × Explains (after f e) es g

  -- An explanation depends on the map's values only.
  Explains-cong :
      (f f' : ℕ → Option T) (es : List (Event T)) (g : ℕ → Option T)
      → ((j : ℕ) → f' j ≡ f j)
      → Explains f' es g
      → Explains f es g
  Explains-cong f f' [] g same h = λ j. h j ∙ same j
  Explains-cong f f' (added k v ∷ es) g same (fit, rest) = (
    ground (arith, same k),
    Explains-cong (after f (added k v)) (after f' (added k v)) es g (λ j. ground (arith, same j))
        rest,
  )
  Explains-cong f f' (removed k o ∷ es) g same (fit, rest) = (
    ground (arith, same k),
    Explains-cong (after f (removed k o)) (after f' (removed k o)) es g
        (λ j. ground (arith, same j)) rest,
  )

  -- What a run of `n` more calls leaves.
  pub record Ran (s : FlatStorage T) (r : List (Event T) × FlatStorage T) : Type ℓ where
    pub valid : IsValid r.1
    pub explained : Explains (get s) r.0 (get r.1)

  pub run_refines :
      (s : FlatStorage T) (cs : List (Call T))
      → IsValid s
      → capacity s + length cs ≤ usize_max
      → (r : List (Event T) × FlatStorage T) × (run s cs ≡ done r) × Ran s r
  unfolding run step
  run_refines s [] i room = (([], s), refl, record { valid = i; explained = λ j. refl })
  run_refines s (add_call v ∷ cs) i room =
      let ((k, s'), e, a) = add_correct s v i (inl (omega arith)) in
      let ((es, t), e', r) = run_refines s' cs a.valid (ground (arith, a.growth)) in
      (
        (added k v ∷ es, t),
        rw (e, e'),
        record {
          valid = r.valid;
          explained = (a.fresh, Explains-cong _ _ es (get t) a.reads r.explained);
        },
      )
  run_refines s (remove_call k ∷ cs) i room =
      let (taken, reads) = get-remove s k in
      let ((es, t), e', r) =
        run_refines (remove s k).1 cs (remove-IsValid s k i)
          (omega (arith, (len-remove s k i).1)) in
      (
        (removed k (remove s k).0 ∷ es, t),
        rw e',
        record {
          valid = r.valid;
          explained = (taken, Explains-cong _ _ es (get t) reads r.explained);
        },
      )

  -- From a new storage no sequence of calls that is shorter than the address space panics. Its
  -- answers are those of a map that was empty at first: a fresh key for each value that is added, and
  -- for each removal the value at the key. The storage reads as that map in the end.
  pub run-new_refines :
      (cs : List (Call T))
      → length cs ≤ usize_max
      → (r : List (Event T) × FlatStorage T) × (run new cs ≡ done r)
        × Explains (λ _. none) r.0 (get r.1)
        × IsValid r.1
  unfolding new capacity get
  run-new_refines cs h =
      let (r, e, ran) = run_refines new cs new-IsValid (omega arith) in
      (r, e, Explains-cong (λ _. none) (get new) r.0 (get r.1) (λ j. refl) ran.explained, ran.valid)
