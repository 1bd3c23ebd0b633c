-- ===== src/DeferredHeap/Swap.antt =====
-- The slice of src/reactor.rs's heap as an array of keys: reads in range do not panic, and a swap
-- permutes the entries.
use mathlib.Core.List.{Perm}
use mathlib.Core.List.Perm
use reactio_rs.Base.{
  ℕ, zero, suc, ◌<◌, ◌≡◌, ◌≢◌, refl, ap, List, [], ◌∷◌, some, arith, done, ◌==◌, if◌then◌else◌,
  length, get_elem?, get_or, set, take, length-set,
}
use reactio_rs.Base.Int.{ℤ, pos}
use reactio_rs.DeferredHeap.{DeferredKey, load, swap}

abbrev pub nothing : DeferredKey
nothing = record { millis = pos 0; slot = 0 }

-- The entry at `i`, and its time, where `i` is in range.
abbrev pub entry : List DeferredKey → ℕ → DeferredKey
entry v i = get_or v i nothing

unfoldable pub key : List DeferredKey → ℕ → ℤ
key v i = (entry v i).millis

pub swapped : List DeferredKey → ℕ → ℕ → List DeferredKey
swapped v i j = set (set v i (entry v j)) j (entry v i)

pub get_elem?-entry :
    (v : List DeferredKey) (i : ℕ) → i < length v → get_elem? v i ≡ some (entry v i)
get_elem?-entry [] i h = absurd (omega arith)
get_elem?-entry (x ∷ v) zero h = refl
get_elem?-entry (x ∷ v) (suc i) h = get_elem?-entry v i (omega arith)

pub entry-set :
    (v : List DeferredKey) (i j : ℕ) (x : DeferredKey)
    → i < length v
    → entry (set v i x) j ≡ (if i == j then x else entry v j)
entry-set [] i j x h = absurd (omega arith)
entry-set (y ∷ v) zero zero x h = refl
entry-set (y ∷ v) zero (suc j) x h = ground arith
entry-set (y ∷ v) (suc i) zero x h = ground arith
entry-set (y ∷ v) (suc i) (suc j) x h = ground (arith, entry-set v i j x)

pub load-done : (v : List DeferredKey) (i : ℕ) → i < length v → load v i ≡ done (entry v i)
unfolding load
load-done v i h = rw (get_elem?-entry v i h)

pub take-set :
    (n : ℕ) (v : List DeferredKey) (i : ℕ) (x : DeferredKey)
    → take n (set v i x) ≡ set (take n v) i x
take-set zero v i x = refl
take-set (suc n) [] i x = refl
take-set (suc n) (y ∷ v) zero x = refl
take-set (suc n) (y ∷ v) (suc i) x = ap (◌∷◌ y) (take-set n v i x)

pub take-set_end : (n : ℕ) (v : List DeferredKey) (x : DeferredKey) → take n (set v n x) ≡ take n v
take-set_end zero v x = refl
take-set_end (suc n) [] x = refl
take-set_end (suc n) (y ∷ v) x = ap (◌∷◌ y) (take-set_end n v x)

pub entry-take : (n : ℕ) (v : List DeferredKey) (i : ℕ) → i < n → entry (take n v) i ≡ entry v i
entry-take zero v i h = absurd (omega arith)
entry-take (suc n) [] i h = refl
entry-take (suc n) (y ∷ v) zero h = refl
entry-take (suc n) (y ∷ v) (suc i) h = entry-take n v i (omega arith)

-- Writing `x` over the entry at `i` puts `x` in its place.
exchange-perm :
    (v : List DeferredKey) (i : ℕ) (x : DeferredKey)
    → i < length v
    → Perm (entry v i ∷ set v i x) (x ∷ v)
exchange-perm [] i x h = absurd (omega arith)
exchange-perm (y ∷ v) zero x h = Perm.swap x y v
exchange-perm (y ∷ v) (suc i) x h =
    Perm.trans (Perm.swap y (entry v i) (set v i x))
      (Perm.trans (Perm.cons y (exchange-perm v i x (omega arith))) (Perm.swap x y v))

pub take-swapped :
    (n : ℕ) (v : List DeferredKey) (i j : ℕ)
    → i < n
    → j < n
    → take n (swapped v i j) ≡ swapped (take n v) i j
unfolding swapped
take-swapped n v i j hi hj = rw (
  take-set n (set v i (entry v j)) j (entry v i),
  take-set n v i (entry v j),
  entry-take n v i hi,
  entry-take n v j hj,
)

pub entry-swapped :
    (v : List DeferredKey) (i j c : ℕ)
    → i < length v
    → j < length v
    → c ≢ i
    → c ≢ j
    → entry (swapped v i j) c ≡ entry v c
unfolding swapped
entry-swapped v i j c hi hj ni nj = ground (
  arith,
  entry-set (set v i (entry v j)) j c (entry v i) (rw length-set hj),
  entry-set v i c (entry v j) hi,
)

pub length-swapped : (v : List DeferredKey) (i j : ℕ) → length (swapped v i j) ≡ length v
unfolding swapped
length-swapped v i j = simp length-set

module _ (v : List DeferredKey) (i j : ℕ) (hi : i < length v) (hj : j < length v) where
  pub swap-done : swap v i j ≡ done (swapped v i j)
  unfolding swap swapped load
  swap-done = rw (get_elem?-entry v i hi, get_elem?-entry v j hj)

  pub key-swapped :
      (c : ℕ)
      → key (swapped v i j) c ≡ (if j == c then key v i else if i == c then key v j else key v c)
  unfolding key swapped
  key-swapped c = ground (
    arith,
    entry-set (set v i (entry v j)) j c (entry v i) (rw length-set hj),
    entry-set v i c (entry v j) hi,
  )

  pub swapped-perm : Perm (swapped v i j) v
  unfolding swapped
  swapped-perm =
      let w = set v i (entry v j) in
      let same : entry w j ≡ entry v j = ground (arith, entry-set v i j (entry v j) hi) in
      Perm.cons_inv (
        Perm.trans (rw same at (exchange-perm w j (entry v i) (rw length-set hj)))
          (exchange-perm v i (entry v j) hi))
