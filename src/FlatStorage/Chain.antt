-- ===== src/FlatStorage/Chain.antt =====
-- The free list of src/flat_storage.rs: the chain of vacant slots that starts at `free`.
use reactio_rs.Base.{
  ℕ, zero, suc, ◌≤◌, ◌<◌, ◌≡◌, refl, ◌≢◌, List, [], ◌∷◌, ◌++◌, some, arith, length, get_elem?, set,
  get_elem?-set, get_elem?-append, lt-length,
}
use reactio_rs.FlatStorage.{AllocNode, vacant, occupied, invalid_id}

abbrev pub Absent : ℕ → List ℕ → Type 0
Absent k [] = Unit
Absent k (x ∷ xs) = (k ≢ x) × Absent k xs

abbrev pub Distinct : List ℕ → Type 0
Distinct [] = Unit
Distinct (x ∷ xs) = Absent x xs × Distinct xs

module _ {ℓ} {T : Type ℓ} where
  -- From `f` the vacant slots lead through the keys of the list, in order, to `invalid_id`.
  abbrev pub Linked : List (AllocNode T) → ℕ → List ℕ → Type ℓ
  Linked ns f [] = ◌≡◌ {A = ℕ} f invalid_id × Unit {ℓ}
  Linked ns f (k ∷ ks) =
      (f ≡ k)
      × (f ≢ invalid_id)
      × ((next : ℕ) × (get_elem? ns k ≡ some (vacant next)) × Linked ns next ks)

  unfoldable pub vacancies : List (AllocNode T) → ℕ
  vacancies [] = 0
  vacancies (vacant _ ∷ ns) = suc (vacancies ns)
  vacancies (occupied _ ∷ ns) = vacancies ns

  pub Linked-set :
      (ns : List (AllocNode T)) (k : ℕ) (n : AllocNode T) (f : ℕ) (ks : List ℕ)
      → k < length ns
      → Absent k ks
      → Linked ns f ks
      → Linked (set ns k n) f ks
  Linked-set ns k n f [] h a l = l
  Linked-set ns k n f (x ∷ ks) h a (e, ne, (next, at, rest)) = (
    e,
    ne,
    (next, ground (arith, get_elem?-set ns k x n h), Linked-set ns k n next ks h a.1 rest),
  )

  pub Linked-append :
      (ns : List (AllocNode T)) (n : AllocNode T) (f : ℕ) (ks : List ℕ)
      → Linked ns f ks
      → Linked (ns ++ n ∷ []) f ks
  Linked-append ns n f [] l = l
  Linked-append ns n f (x ∷ ks) (e, ne, (next, at, rest)) = (
    e,
    ne,
    (
      next,
      ground (arith, get_elem?-append ns n x, lt-length ns x at),
      Linked-append ns n next ks rest,
    ),
  )

  -- An occupied slot is not on the chain.
  pub occupied-Absent :
      (ns : List (AllocNode T)) (k : ℕ) (v : T) (f : ℕ) (ks : List ℕ)
      → get_elem? ns k ≡ some (occupied v)
      → Linked ns f ks
      → Absent k ks
  occupied-Absent ns k v f [] h l = tt
  occupied-Absent ns k v f (x ∷ ks) h (e, ne, (next, at, rest)) =
      ((λ same. ground arith), occupied-Absent ns k v next ks h rest)

  pub vacancies-append :
      (ns : List (AllocNode T)) (v : T) → vacancies (ns ++ occupied v ∷ []) ≡ vacancies ns
  unfolding vacancies
  vacancies-append [] v = refl
  vacancies-append (vacant _ ∷ ns) v = omega (arith, vacancies-append ns v)
  vacancies-append (occupied _ ∷ ns) v = vacancies-append ns v

  pub vacancies-fill :
      (ns : List (AllocNode T)) (k : ℕ) (v : T) {next : ℕ}
      → get_elem? ns k ≡ some (vacant next)
      → suc (vacancies (set ns k (occupied v))) ≡ vacancies ns
  unfolding vacancies
  vacancies-fill [] k v e = cc
  vacancies-fill (vacant _ ∷ ns) zero v e = refl
  vacancies-fill (occupied _ ∷ ns) zero v e = cc
  vacancies-fill (vacant _ ∷ ns) (suc k) v e = omega (arith, vacancies-fill ns k v e)
  vacancies-fill (occupied _ ∷ ns) (suc k) v e = vacancies-fill ns k v e

  pub vacancies-clear :
      (ns : List (AllocNode T)) (k f : ℕ) {v : T}
      → get_elem? ns k ≡ some (occupied v)
      → vacancies (set ns k (vacant f)) ≡ suc (vacancies ns)
  unfolding vacancies
  vacancies-clear [] k f e = cc
  vacancies-clear (vacant _ ∷ ns) zero f e = cc
  vacancies-clear (occupied _ ∷ ns) zero f e = refl
  vacancies-clear (vacant _ ∷ ns) (suc k) f e = omega (arith, vacancies-clear ns k f e)
  vacancies-clear (occupied _ ∷ ns) (suc k) f e = vacancies-clear ns k f e

  pub vacancies-rewrite :
      (ns : List (AllocNode T)) (k : ℕ) (w : T) {v : T}
      → get_elem? ns k ≡ some (occupied v)
      → vacancies (set ns k (occupied w)) ≡ vacancies ns
  unfolding vacancies
  vacancies-rewrite [] k w e = cc
  vacancies-rewrite (vacant _ ∷ ns) zero w e = cc
  vacancies-rewrite (occupied _ ∷ ns) zero w e = refl
  vacancies-rewrite (vacant _ ∷ ns) (suc k) w e = omega (arith, vacancies-rewrite ns k w e)
  vacancies-rewrite (occupied _ ∷ ns) (suc k) w e = vacancies-rewrite ns k w e

  pub vacancies-le : (ns : List (AllocNode T)) → vacancies ns ≤ length ns
  unfolding vacancies
  vacancies-le [] = omega arith
  vacancies-le (vacant _ ∷ ns) = omega (arith, vacancies-le ns)
  vacancies-le (occupied _ ∷ ns) = omega (arith, vacancies-le ns)

  -- An occupied slot leaves fewer vacancies than slots.
  pub vacancies-lt :
      (ns : List (AllocNode T)) (k : ℕ) {v : T}
      → get_elem? ns k ≡ some (occupied v)
      → vacancies ns < length ns
  unfolding vacancies
  vacancies-lt [] k e = cc
  vacancies-lt (vacant _ ∷ ns) zero e = cc
  vacancies-lt (occupied _ ∷ ns) zero e = omega (arith, vacancies-le ns)
  vacancies-lt (vacant _ ∷ ns) (suc k) e = omega (arith, vacancies-lt ns k e)
  vacancies-lt (occupied _ ∷ ns) (suc k) e = omega (arith, vacancies-lt ns k e)
