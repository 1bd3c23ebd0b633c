-- ===== src/FlatStorage/Keys.antt =====
-- Keys of src/flat_storage.rs's `FlatStorage`: which are in use, and a slot that was just added.
use reactio_rs.Base.{
  ℕ, ◌+◌, ◌<◌, ◌≢◌, ◌≡◌, arith, some, if◌then◌else◌, ◌==◌, inl, inr, lt-length, usize_max,
}
use reactio_rs.FlatStorage
use reactio_rs.FlatStorage.{FlatStorage}
use reactio_rs.FlatStorage.Laws.{IsValid, Added, get-put, put-IsValid, slot_cases}

-- A key in use is below the capacity, and so it is not `usize::MAX`, which stands for no key.
pub get-some_lt :
    {T : Type 0} (s : FlatStorage T) (k : ℕ) (v : T)
    → FlatStorage.get s k ≡ some v
    → k < FlatStorage.capacity s
unfolding FlatStorage.capacity
get-some_lt s k v h = elim (slot_cases s k) [
  | inl (absent, _, _) ↦ absurd (cc (absent, h))
  | inr (u, e) ↦ lt-length s.nodes k e
]

-- A slot that was just added, and written once more.
pub Added-put :
    {T : Type 0} (s t : FlatStorage T) (key : ℕ) (v w : T)
    → Added s v (key, t)
    → (key < FlatStorage.capacity s + 1)
      × ((j : ℕ)
          → FlatStorage.get (FlatStorage.put t key w) j
            ≡ (if key == j then some w else FlatStorage.get s j))
      × IsValid (FlatStorage.put t key w)
      × (FlatStorage.len (FlatStorage.put t key w) ≡ FlatStorage.len t)
Added-put s t key v w a =
    let here : FlatStorage.get t key ≡ some v = ground (arith, a.reads key) in
    let inside = get-some_lt t key v here in
    (
      ground (arith, inside, a.growth),
      λ j. ground (arith, get-put t key j w, here, a.reads j),
      (put-IsValid t key w a.valid).0,
      (put-IsValid t key w a.valid).1,
    )

pub get-some_ne :
    {T : Type 0} (s : FlatStorage T) (k : ℕ) (v : T)
    → IsValid s
    → FlatStorage.get s k ≡ some v
    → k ≢ usize_max
unfolding FlatStorage.capacity
get-some_ne s k v i h same = omega (arith, get-some_lt s k v h, i.bounded)
