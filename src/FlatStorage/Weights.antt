-- ===== src/FlatStorage/Weights.antt =====
-- Sums over the values of src/flat_storage.rs's `FlatStorage`, and how each operation changes them.
use reactio_rs.Base.{
  ℕ, zero, suc, ◌+◌, ◌≤◌, ◌<◌, ◌≡◌, ◌≢◌, ◌∙◌, refl, ap, Option, none, some, arith, ◌==◌,
  if◌then◌else◌, inl, inr, Bool-cases, Option-cases,
}
use reactio_rs.FlatStorage
use reactio_rs.FlatStorage.{FlatStorage}
use reactio_rs.FlatStorage.Laws.{
  IsValid, Added, get-remove, get-put, len-remove, put-IsValid, slot_cases,
}
use reactio_rs.FlatStorage.Keys.{get-some_lt}

pub get-beyond :
    {T : Type 0} (s : FlatStorage T) (k : ℕ)
    → FlatStorage.capacity s ≤ k
    → FlatStorage.get s k ≡ none
get-beyond s k h = elim (Option-cases (FlatStorage.get s k)) [
  | inl absent ↦ absent
  | inr (v, e) ↦ absurd (omega (arith, get-some_lt s k v e))
]

module _ {T : Type 0} (weight : T → ℕ) where
  abbrev pub weigh : Option T → ℕ
  weigh none = 0
  weigh (some v) = weight v

  -- The sum of the weights of the first values of a map.
  abbrev pub sum : (ℕ → Option T) → ℕ → ℕ
  sum f zero = 0
  sum f (suc n) = sum f n + weigh (f n)

  abbrev pub total : FlatStorage T → ℕ
  total s = sum (FlatStorage.get s) (FlatStorage.capacity s)

  sum-same : (f g : ℕ → Option T) (n : ℕ) → ((j : ℕ) → j < n → g j ≡ f j) → sum g n ≡ sum f n
  sum-same f g zero same = refl
  sum-same f g (suc n) same =
      rw (same n (omega arith), sum-same f g n λ j h. same j (omega arith)) refl

  -- A change at one key.
  sum-change :
      (f g : ℕ → Option T) (k n : ℕ)
      → k < n
      → ((j : ℕ) → j ≢ k → g j ≡ f j)
      → sum g n + weigh (f k) ≡ sum f n + weigh (g k)
  sum-change f g k zero h same = absurd (omega arith)
  sum-change f g k (suc n) h same = elim (Bool-cases (k == n)) [
    | inl last ↦
        let e : k ≡ n = ground arith in
        rw (e, sum-same f g n λ j lt. same j λ (eq : j ≡ k). omega (arith, lt, e)) (omega arith)
    | inr before ↦
        let rest = sum-change f g k n (ground arith) same in
        let kept : g n ≡ f n = same n λ (eq : n ≡ k). ground arith in rw kept (omega (arith, rest))
  ]

  -- Slots without a value have no weight.
  sum-beyond :
      (s : FlatStorage T) (n : ℕ)
      → FlatStorage.capacity s ≤ n
      → n ≤ FlatStorage.capacity s + 1
      → sum (FlatStorage.get s) n ≡ total s
  sum-beyond s n h h' = elim (Bool-cases (n == FlatStorage.capacity s)) [
    | inl same ↦ ap (sum (FlatStorage.get s)) (ground arith)
    | inr more ↦
        let e : n ≡ suc (FlatStorage.capacity s) = ground arith in
        rw (e, get-beyond s (FlatStorage.capacity s) (omega arith)) (omega arith)
  ]

  other_key : (k j : ℕ) (o p : Option T) → j ≢ k → (if k == j then o else p) ≡ p
  other_key k j o p ne = ground (arith, ne)

  pub total-add :
      (s : FlatStorage T) (v : T) (r : ℕ × FlatStorage T)
      → Added s v r
      → total r.1 ≡ total s + weight v
  total-add s v r a =
      let here : FlatStorage.get r.1 r.0 ≡ some v = ground (arith, a.reads r.0) in
      let change =
        sum-change (FlatStorage.get s) (FlatStorage.get r.1) r.0 (FlatStorage.capacity r.1)
          (get-some_lt r.1 r.0 v here) λ j ne. a.reads j ∙ other_key r.0 j _ _ ne in
      let grown =
        sum-beyond s (FlatStorage.capacity r.1) (ground (arith, a.growth))
          (ground (arith, a.growth)) in
      omega (arith, (rw (a.fresh, here, grown) at change))

  pub total-put :
      (s : FlatStorage T) (k : ℕ) (u v : T)
      → IsValid s
      → FlatStorage.get s k ≡ some u
      → total (FlatStorage.put s k v) + weight u ≡ total s + weight v
  total-put s k u v i found =
      let here : FlatStorage.get (FlatStorage.put s k v) k ≡ some v =
        ground (arith, get-put s k k v, found) in
      let change =
        sum-change (FlatStorage.get s) (FlatStorage.get (FlatStorage.put s k v)) k
          (FlatStorage.capacity s) (get-some_lt s k u found)
          λ j ne. get-put s k j v ∙ other_key k j _ _ ne in
      omega (
        arith,
        (rw (found, here) at change),
        ap (sum (FlatStorage.get (FlatStorage.put s k v))) (put-IsValid s k v i).2,
      )

  pub total-remove :
      (s : FlatStorage T) (k : ℕ)
      → IsValid s
      → total (FlatStorage.remove s k).1 + weigh (FlatStorage.get s k) ≡ total s
  unfolding FlatStorage.get
  total-remove s k i = elim (slot_cases s k) [
    | inl (absent, unchanged, _) ↦ rw (unchanged, absent) (omega arith)
    | inr (v, e) ↦
        let found : FlatStorage.get s k ≡ some v = rw (e, FlatStorage.get) refl in
        let gone : FlatStorage.get (FlatStorage.remove s k).1 k ≡ none =
          ground (arith, (get-remove s k).1 k) in
        let change =
          sum-change (FlatStorage.get s) (FlatStorage.get (FlatStorage.remove s k).1) k
            (FlatStorage.capacity s) (get-some_lt s k v found)
            λ j ne. (get-remove s k).1 j ∙ other_key k j _ _ ne in
        omega (
          arith,
          (rw gone at change),
          ap (sum (FlatStorage.get (FlatStorage.remove s k).1)) (len-remove s k i).1,
        )
  ]

  pub total-le : (s : FlatStorage T) → ((v : T) → weight v ≤ 1) → total s ≤ FlatStorage.capacity s
  total-le s small = sum_le (FlatStorage.get s) (FlatStorage.capacity s)
    where
      weigh_le : (o : Option T) → weigh o ≤ 1
      weigh_le none = omega arith
      weigh_le (some v) = small v

      sum_le : (f : ℕ → Option T) (n : ℕ) → sum f n ≤ n
      sum_le f zero = omega arith
      sum_le f (suc n) = omega (arith, weigh_le (f n), sum_le f n)

  pub total-new : total FlatStorage.new ≡ 0
  unfolding FlatStorage.new FlatStorage.capacity
  total-new = refl
