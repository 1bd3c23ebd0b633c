-- ===== src/DeferredHeap/Checked.antt =====
-- `min_heap_push` of src/reactor.rs in a debug build: where it panics, and where it does not.
use reactio_rs.Base.{
  ℕ, zero, suc, ◌-◌, ◌/◌, ◌<◌, ◌≡◌, ◌≢◌, refl, List, [], ◌∷◌, ◌++◌, arith, sub_usize, debug,
  release, panic, length, Bool-cases, true, inl, inr, length-append, ◌∙◌, sym,
}
use reactio_rs.Base.Int.{ltb_ℤ, ◌≤ℤ◌}
use reactio_rs.DeferredHeap.{DeferredKey, push_loop}
use reactio_rs.DeferredHeap.Swap.{key, swapped, key-swapped, length-swapped}
use reactio_rs.DeferredHeap.Push.{
  parent, IsHeap, IsParent, push_loop-rise, push_loop-root, push_loop-stop, push-loop, key-append,
  push,
}

-- The entry at `k` is due before every other one.
abbrev IsFirst : List DeferredKey → ℕ → Type 0
IsFirst v k = (c : ℕ) → c < length v → c ≢ k → ltb_ℤ (key v k) (key v c) ≡ true

push_loop_panics :
    (fuel : ℕ) (v : List DeferredKey) (k : ℕ)
    → 0 < k
    → k < fuel
    → k < length v
    → IsFirst v k
    → push_loop debug fuel v k (parent k) ≡ panic
unfolding sub_usize
push_loop_panics zero v k pos f h first = absurd (omega arith)
push_loop_panics (suc fuel) v k pos f h first =
    let at = key-swapped v k (parent k) h (omega arith) in
    let less = first (parent k) (omega arith) (omega arith) in
    let next : 0 < parent k
        → push_loop debug fuel (swapped v k (parent k)) (parent k) (parent (parent k)) ≡ panic =
      λ pos'.
        push_loop_panics fuel (swapped v k (parent k)) (parent k) pos' (omega arith)
          (omega (arith, length-swapped v k (parent k)))
          (λ c l ne. ground (
            arith,
            length-swapped v k (parent k),
            at c,
            at (parent k),
            first c,
            first k,
            first (parent k),
          )) in
    push_loop-rise debug fuel v k h pos less ∙ ground (arith, next)

key-append_last : (h : List DeferredKey) (x : DeferredKey) → key (h ++ x ∷ []) (length h) ≡ x.millis
unfolding key
key-append_last [] x = refl
key-append_last (y ∷ h) x = key-append_last h x

-- The first entry of a heap is due no later than any other.
pub root_least :
    (v : List DeferredKey)
    → IsHeap v
    → (bound c : ℕ) → c < bound
    → c < length v
    → key v 0 ≤ℤ key v c
root_least v ordered zero c b l = absurd (omega arith)
root_least v ordered (suc bound) zero b l = omega arith
root_least v ordered (suc bound) (suc c) b l =
    ground (arith, ordered (suc c), root_least v ordered bound (parent (suc c)))

-- In a debug build, pushing a key that is due before all the keys of a heap that is not empty
-- panics: having moved it to the root, the loop computes `0 - 1`.
pub push-debug_panics :
    (h : List DeferredKey) (x : DeferredKey)
    → IsHeap h
    → 0 < length h
    → ltb_ℤ x.millis (key h 0) ≡ true
    → push debug h x ≡ panic
push-debug_panics h x ordered pos first =
    let size = length-append h (x ∷ []) in
    push-loop debug h x
    ∙ push_loop_panics (suc (length h)) (h ++ x ∷ []) (length h) pos (omega arith)
        (omega (arith, size))
        (λ c l ne.
          ground
            (arith, size, key-append h x c, key-append_last h x, root_least h ordered (suc c) c))

push_loop-debug :
    (fuel : ℕ) (v : List DeferredKey) (k p : ℕ)
    → IsParent k p
    → k < length v
    → key v 0 ≤ℤ key v k
    → push_loop debug fuel v k p ≡ push_loop release fuel v k p
unfolding sub_usize push_loop
push_loop-debug zero v k p e h least = refl
push_loop-debug (suc fuel) v zero p e h least =
    push_loop-root debug fuel v p ∙ sym (push_loop-root release fuel v p)
push_loop-debug (suc fuel) v (suc k) p e h least =
    rw (e (omega arith)) (elim (Bool-cases (ltb_ℤ (key v (suc k)) (key v (parent (suc k))))) [
      | inl less ↦
          let at = key-swapped v (suc k) (parent (suc k)) h (omega arith) in
          let same =
            push_loop-debug fuel (swapped v (suc k) (parent (suc k))) (parent (suc k))
              ((parent (suc k) - 1) / 2) (λ _. refl)
              (omega (arith, length-swapped v (suc k) (parent (suc k))))
              (ground (arith, at 0, at (parent (suc k)))) in
          push_loop-rise debug fuel v (suc k) h (omega arith) less
          ∙ ground (arith, same)
          ∙ sym (push_loop-rise release fuel v (suc k) h (omega arith) less)
      | inr stop ↦
          push_loop-stop debug fuel v (suc k) h (omega arith) stop
          ∙ sym (push_loop-stop release fuel v (suc k) h (omega arith) stop)
    ])

-- A push onto an empty slice, or of a key that is not due before the first one, does in a debug
-- build what it does in a release build.
pub push-debug :
    (h : List DeferredKey) (x : DeferredKey)
    → (0 < length h → key h 0 ≤ℤ x.millis)
    → push debug h x ≡ push release h x
push-debug h x least =
    push-loop debug h x
    ∙ push_loop-debug (suc (length h)) (h ++ x ∷ []) (length h) (parent (length h)) (λ _. refl)
        (omega (arith, length-append h (x ∷ []))) (first h least)
    ∙ sym (push-loop release h x)
  where
    first :
        (g : List DeferredKey)
        → (0 < length g → key g 0 ≤ℤ x.millis)
        → key (g ++ x ∷ []) 0 ≤ℤ key (g ++ x ∷ []) (length g)
    first [] l = omega arith
    first (y ∷ g) l =
        rw (key-append_last (y ∷ g) x, key-append (y ∷ g) x 0 (omega arith)) (l (omega arith))
