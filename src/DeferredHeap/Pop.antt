-- ===== src/DeferredHeap/Pop.antt =====
-- `min_heap_pop` of src/reactor.rs, and the `Vec::pop` that its caller makes next. The entry that
-- leaves the heap is the last one, and not the first.
use mathlib.Core.List.{Perm}
use mathlib.Core.List.Perm
use reactio_rs.Base.{
  ℕ, zero, suc, ◌+◌, ◌-◌, ◌*◌, ◌≤◌, ◌<◌, ◌≡◌, refl, List, [], ◌∷◌, Option, none, some, arith,
  Outcome, done, panic, ◌>>=◌, length, ltb, Bool-cases, inl, inr, take, set, length-take,
  length-set, ◌∙◌, Returns, ltb→lt,
}
use reactio_rs.Base.Int.{ltb_ℤ}
use reactio_rs.DeferredHeap.{DeferredKey, min_child, pop_loop, min_heap_pop, load, swap}
use reactio_rs.DeferredHeap.Swap.{
  entry, swapped, load-done, swap-done, length-swapped, swapped-perm, take-swapped, entry-swapped,
  take-set_end,
}

-- The loop goes to a child that is in range and is not the last entry, or stops.
abbrev Below : ℕ → ℕ → Option ℕ → Type 0
Below n k none = Unit
Below n k (some m) = (k < m) × (m < n)

min_child_bounds :
    (v : List DeferredKey) (n k : ℕ) → length v ≡ suc n → Returns (Below n k) (min_child v k)
unfolding min_child
min_child_bounds v n k size = elim (Bool-cases (ltb ((k + 1) * 2) (length v - 1))) [
  | inl both ↦
      let inside : (k + 1) * 2 < length v - 1 = ltb→lt _ _ both in
      rw
        (both, load-done v ((k + 1) * 2 - 1) (omega arith), load-done v ((k + 1) * 2) (omega arith))
        (elim (Bool-cases
          (ltb_ℤ (entry v ((k + 1) * 2 - 1)).millis (entry v ((k + 1) * 2)).millis)) [
            | inl left ↦ rw left (some ((k + 1) * 2 - 1), refl, (omega arith, omega arith))
            | inr right ↦ rw right (some ((k + 1) * 2), refl, (omega arith, omega arith))
          ])
  | inr one ↦ rw one (elim (Bool-cases (ltb ((k + 1) * 2 - 1) (length v - 1))) [
    | inl only ↦
        let inside : (k + 1) * 2 - 1 < length v - 1 = ltb→lt _ _ only in
        rw only (some ((k + 1) * 2 - 1), refl, (omega arith, omega arith))
    | inr leaf ↦ rw leaf (none, refl, tt)
  ])
]

-- The entries before `n` are permuted, and the entry at `n` stays.
pub record Kept (n : ℕ) (v w : List DeferredKey) : Type 0 where
  pub size : length w ≡ length v
  pub same : Perm (take n w) (take n v)
  pub last : entry w n ≡ entry v n

swapped-Kept :
    (n : ℕ) (v : List DeferredKey) (i j : ℕ)
    → n < length v
    → i < n
    → j < n
    → Kept n v (swapped v i j)
swapped-Kept n v i j h hi hj = record {
  size = length-swapped v i j;
  same = rw (take-swapped n v i j hi hj) (
      swapped-perm (take n v) i j (omega (arith, length-take n v))
        (omega (arith, length-take n v)));
  last = entry-swapped v i j n (omega arith) (omega arith) (omega arith) (omega arith);
}

Kept-trans : {n : ℕ} {u v w : List DeferredKey} → Kept n u v → Kept n v w → Kept n u w
Kept-trans a b = record {
  size = b.size ∙ a.size;
  same = Perm.trans b.same a.same;
  last = b.last ∙ a.last;
}

Kept-refl : (n : ℕ) (v : List DeferredKey) → Kept n v v
Kept-refl n v = record { size = refl; same = Perm.rfl; last = refl }

follow_child :
    (fuel n : ℕ) (v : List DeferredKey) (k : ℕ)
    → length v ≡ suc n
    → k < n
    → (c : Option ℕ) → Below n k c
    → ((m : ℕ)
        → (k < m) × (m < n)
        → Returns (Kept n (swapped v m k)) (pop_loop fuel (swapped v m k) m))
    → Returns (Kept n v) (elim c [ none ↦ done v | some m ↦ swap v m k >>= λ w. pop_loop fuel w m ])
follow_child fuel n v k size h none b go = (v, refl, Kept-refl n v)
follow_child fuel n v k size h (some m) b go =
    let (w, e, kept) = go m b in
    rw (swap-done v m k (omega arith) (omega arith))
      (w, e, Kept-trans (swapped-Kept n v m k (omega arith) (omega arith) h) kept)

pop_loop_keeps :
    (fuel n : ℕ) (v : List DeferredKey) (k : ℕ)
    → n < k + fuel
    → k ≤ n
    → length v ≡ suc n
    → Returns (Kept n v) (pop_loop fuel v k)
unfolding pop_loop
pop_loop_keeps zero n v k f h size = absurd (omega arith)
pop_loop_keeps (suc fuel) n v k f h size = elim (Bool-cases (ltb k (length v - 1))) [
  | inr leaf ↦ rw leaf (v, refl, Kept-refl n v)
  | inl inner ↦
      let (c, e, b) = min_child_bounds v n k size in
      rw (inner, e)
        (follow_child fuel n v k size (omega (arith, ltb→lt _ _ inner)) c b λ m l.
          pop_loop_keeps fuel n (swapped v m k) m (omega arith) (omega arith)
            (omega (arith, length-swapped v m k)))
]

-- What `pop` of the heap does: `min_heap_pop(&mut heap); heap.pop()`.
unfoldable pub pop : List DeferredKey → Outcome (List DeferredKey)
pop v = do w ← min_heap_pop v; done (take (length w - 1) w)

-- Of a slice of `n + 1` keys, the pop leaves the first `n`, in some order: what it drops is the last
-- entry of the slice, and from two keys on the first entry stays.
pub pop-drops_last :
    (v : List DeferredKey) (n : ℕ) → length v ≡ suc n → Returns (λ w. Perm w (take n v)) (pop v)
unfolding pop min_heap_pop
pop-drops_last v n size =
    let (w, e, kept) = pop_loop_keeps (length v) n v 0 (omega arith) (omega arith) size in
    let end : length w - 1 ≡ n = omega (arith, kept.size) in
    let end' : length (set w n (entry v 0)) - 1 ≡ n =
      omega (arith, length-set w n (entry v 0), end, kept.size) in
    rw (load-done v 0 (omega arith), e)
      (take n (set w n (entry v 0)), rw (end, end'), rw (take-set_end n w (entry v 0)) kept.same)

-- A heap with one key is empty after the pop, and an empty one panics.
pub pop-small : (x : DeferredKey) → (pop (x ∷ []) ≡ done []) × (pop [] ≡ panic)
unfolding pop min_heap_pop load pop_loop
pop-small x = (refl, refl)
