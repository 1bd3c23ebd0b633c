-- ===== src/DeferredHeap/Push.antt =====
-- `min_heap_push` of src/reactor.rs in a release build.
use mathlib.Core.List.{Perm}
use mathlib.Core.List.Perm
use reactio_rs.Base.{
  ℕ, zero, suc, ◌-◌, ◌/◌, ◌<◌, ◌≡◌, ◌≢◌, refl, List, [], ◌∷◌, ◌++◌, arith, Build, sub_usize,
  release, done, ◌>>=◌, length, Bool-cases, true, false, inl, inr, length-append, ◌∙◌, lt→ltb,
  Outcome, Returns, lt→ltb,
}
use mathlib.Core.List.{append-nil, perm_middle}
use reactio_rs.Base.Int.{ltb_ℤ, ◌≤ℤ◌}
use reactio_rs.DeferredHeap.{DeferredKey, push_loop, min_heap_push}
use reactio_rs.DeferredHeap.Swap.{
  key, swapped, load-done, swap-done, key-swapped, length-swapped, swapped-perm,
}

abbrev pub parent : ℕ → ℕ
parent c = (c - 1) / 2

-- No entry is due before its parent.
abbrev pub IsHeap : List DeferredKey → Type 0
IsHeap v = (c : ℕ) → 0 < c → c < length v → key v (parent c) ≤ℤ key v c

abbrev pub Sifted : List DeferredKey → List DeferredKey → Type 0
Sifted v w = IsHeap w × Perm w v

-- Only the edge above `k` may be out of order.
pub record UpInv (v : List DeferredKey) (k : ℕ) : Type 0 where
  pub inside : k < length v
  pub edges : (c : ℕ) → 0 < c → c < length v → c ≢ k → key v (parent c) ≤ℤ key v c
  pub bridged : (c : ℕ) → 0 < c → c < length v → parent c ≡ k → 0 < k → key v (parent k) ≤ℤ key v c

-- One round of the loop, where the entry is due before its parent.
pub push_loop-rise :
    (build : Build) (fuel : ℕ) (v : List DeferredKey) (k : ℕ)
    → k < length v
    → 0 < k
    → ltb_ℤ (key v k) (key v (parent k)) ≡ true
    → push_loop build (suc fuel) v k (parent k) ≡ (
        sub_usize build (parent k) 1 >>= λ up.
        push_loop build fuel (swapped v k (parent k)) (parent k) (up / 2))
unfolding push_loop key
push_loop-rise build fuel v k h pos less =
    let above : parent k < length v = omega arith in
    rw (
      lt→ltb 0 k pos,
      load-done v k h,
      load-done v (parent k) above,
      swap-done v k (parent k) h above,
      less,
    )

-- The last round, at the root or below an entry that is not due later.
pub push_loop-root :
    (build : Build) (fuel : ℕ) (v : List DeferredKey) (p : ℕ)
    → push_loop build (suc fuel) v 0 p ≡ done v
unfolding push_loop
push_loop-root build fuel v p = refl

pub push_loop-stop :
    (build : Build) (fuel : ℕ) (v : List DeferredKey) (k : ℕ)
    → k < length v
    → 0 < k
    → ltb_ℤ (key v k) (key v (parent k)) ≡ false
    → push_loop build (suc fuel) v k (parent k) ≡ done v
unfolding push_loop key
push_loop-stop build fuel v k h pos stop =
    let above : parent k < length v = omega arith in
    rw (lt→ltb 0 k pos, load-done v k h, load-done v (parent k) above, stop)

swapped-UpInv :
    (v : List DeferredKey) (k : ℕ)
    → UpInv v k
    → 0 < k
    → ltb_ℤ (key v k) (key v (parent k)) ≡ true
    → UpInv (swapped v k (parent k)) (parent k)
swapped-UpInv v k i pos below =
    let at = key-swapped v k (parent k) i.inside (omega (arith, i.inside)) in
    let size = length-swapped v k (parent k) in
    record {
      inside = omega (arith, size, i.inside);
      edges = λ c p q r. ground (arith, at c, at (parent c), i.edges c, i.bridged c);
      bridged =
          λ c p q r s. ground (arith, at c, at (parent (parent k)), i.edges (parent k), i.edges c);
    }

-- The index that the source computes for the parent, where there is one.
abbrev pub IsParent : ℕ → ℕ → Type 0
IsParent k p = 0 < k → p ≡ parent k

-- At the root a release build goes on with an index that wrapped around, and does not use it.
sub-release : (a : ℕ) → (u : ℕ) × (sub_usize release a 1 ≡ done u) × IsParent a (u / 2)
unfolding sub_usize
sub-release zero = (_, refl, omega arith)
sub-release (suc a) = (a, ground arith, omega arith)

Sifted-swapped :
    (v : List DeferredKey) (k : ℕ) {r : Outcome (List DeferredKey)}
    → k < length v
    → Returns (Sifted (swapped v k (parent k))) r
    → Returns (Sifted v) r
Sifted-swapped v k h (w, e, (heap, perm)) =
    (w, e, (heap, Perm.trans perm (swapped-perm v k (parent k) h (omega arith))))

push_loop_restores :
    (fuel : ℕ) (v : List DeferredKey) (k p : ℕ)
    → k < fuel
    → IsParent k p
    → UpInv v k
    → Returns (Sifted v) (push_loop release fuel v k p)
push_loop_restores zero v k p f e i = absurd (omega arith)
push_loop_restores (suc fuel) v zero p f e i =
    (v, push_loop-root release fuel v p, (λ c q r. i.edges c q r (omega arith), Perm.rfl))
push_loop_restores (suc fuel) v (suc k) p f e i =
    rw (e (omega arith)) (elim (Bool-cases (ltb_ℤ (key v (suc k)) (key v (parent (suc k))))) [
      | inl less ↦
          let (u, computed, next) = sub-release (parent (suc k)) in
          rw (push_loop-rise release fuel v (suc k) i.inside (omega arith) less, computed)
            (Sifted-swapped v (suc k) i.inside (
              push_loop_restores fuel (swapped v (suc k) (parent (suc k))) (parent (suc k)) (u / 2)
                (omega arith) next (swapped-UpInv v (suc k) i (omega arith) less)))
      | inr stop ↦ (
        v,
        push_loop-stop release fuel v (suc k) i.inside (omega arith) stop,
        (λ c q r. ground (arith, i.edges c), Perm.rfl),
      )
    ])

append-perm : (h : List DeferredKey) (x : DeferredKey) → Perm (h ++ x ∷ []) (x ∷ h)
append-perm h x = rw (append-nil h) at (perm_middle {a = x} h [])

-- `deferred_heap.push(x); min_heap_push(&mut deferred_heap)`.
unfoldable pub push : Build → List DeferredKey → DeferredKey → Outcome (List DeferredKey)
push build h x = min_heap_push build (h ++ x ∷ [])

pub key-append :
    (h : List DeferredKey) (x : DeferredKey) (c : ℕ) → c < length h → key (h ++ x ∷ []) c ≡ key h c
unfolding key
key-append [] x c l = absurd (omega arith)
key-append (y ∷ h) x zero l = refl
key-append (y ∷ h) x (suc c) l = key-append h x c (omega arith)

append-UpInv : (h : List DeferredKey) (x : DeferredKey) → IsHeap h → UpInv (h ++ x ∷ []) (length h)
append-UpInv h x ordered =
    let size = length-append h (x ∷ []) in
    record {
      inside = omega (arith, size);
      edges =
          λ c p q r. ground (arith, size, ordered c, key-append h x c, key-append h x (parent c));
      bridged = λ c p q r s. omega (arith, size);
    }

pub push-loop :
    (build : Build) (h : List DeferredKey) (x : DeferredKey)
    → push build h x ≡ push_loop build (suc (length h)) (h ++ x ∷ []) (length h) (parent (length h))
unfolding push min_heap_push sub_usize push_loop
push-loop build h x =
    let size : length (h ++ x ∷ []) ≡ suc (length h) = omega (arith, length-append h (x ∷ [])) in
    rw size (ground arith)

-- In a release build, pushing a key onto a heap returns a heap of the same keys and the new one.
pub push_correct :
    (h : List DeferredKey) (x : DeferredKey)
    → IsHeap h
    → Returns (λ w. IsHeap w × Perm w (x ∷ h)) (push release h x)
push_correct h x ordered =
    let (w, e, (heap, perm)) =
      push_loop_restores (suc (length h)) (h ++ x ∷ []) (length h) (parent (length h)) (omega arith)
        (λ _. refl) (append-UpInv h x ordered) in
    (w, push-loop release h x ∙ e, (heap, Perm.trans perm (append-perm h x)))
