-- ===== src/Base/Lists.antt =====
-- Lists measured and indexed by native numbers, under the library's names, with the laws of a
-- vector's reads and writes.
use Prim.Native.Nat.{ℕ, zero, suc, ◌+◌, ◌-◌, ◌≤◌, ◌<◌, min}
use mathlib.Core.Path.{◌≡◌, refl, ap}
use mathlib.Core.Logic.{◌⊎◌, inl, inr}
use mathlib.Core.Bool.{Bool, true, false}
use mathlib.Core.List.{List, [], ◌∷◌, ◌++◌}
use mathlib.Core.Option.{Option, none, some}
use native.Mathlib.Nat.{zero-add}
use native.Mathlib.Omega.{arith}
use reactio_rs.Base.Tests.{◌==◌, if◌then◌else◌}

pub suc-add : (m n : ℕ) → suc m + n ≡ suc (m + n)
suc-add m n = omega arith

module _ {ℓ} {A : Type ℓ} where
  abbrev pub length : List A → ℕ
  length [] = 0
  length (x ∷ xs) = suc (length xs)

  abbrev pub get_elem? : List A → ℕ → Option A
  get_elem? [] i = none
  get_elem? (x ∷ xs) zero = some x
  get_elem? (x ∷ xs) (suc i) = get_elem? xs i

  -- A write out of bounds changes nothing.
  abbrev pub set : List A → ℕ → A → List A
  set [] i v = []
  set (x ∷ xs) zero v = v ∷ xs
  set (x ∷ xs) (suc i) v = x ∷ set xs i v

  abbrev pub get_or : List A → ℕ → A → A
  get_or [] i d = d
  get_or (x ∷ xs) zero d = x
  get_or (x ∷ xs) (suc i) d = get_or xs i d

  abbrev pub take : ℕ → List A → List A
  take zero xs = []
  take (suc n) [] = []
  take (suc n) (x ∷ xs) = x ∷ take n xs

  abbrev pub drop : ℕ → List A → List A
  drop zero xs = xs
  drop (suc n) [] = []
  drop (suc n) (x ∷ xs) = drop n xs

  abbrev pub replicate : ℕ → A → List A
  replicate zero a = []
  replicate (suc n) a = a ∷ replicate n a

  -- `is_empty`
  abbrev pub is_nil : List A → Bool
  is_nil [] = true
  is_nil (x ∷ xs) = false

  pub is_nil-true : (xs : List A) → is_nil xs ≡ true → xs ≡ []
  is_nil-true [] e = refl
  is_nil-true (x ∷ xs) e = cc

  pub is_nil-false : (xs : List A) → is_nil xs ≡ false → 0 < length xs
  is_nil-false [] e = cc
  is_nil-false (x ∷ xs) e = omega arith

  pub List-cases : (xs : List A) → (xs ≡ []) ⊎ ((x : A) × (ys : List A) × (xs ≡ x ∷ ys))
  List-cases [] = inl refl
  List-cases (x ∷ xs) = inr (x, xs, refl)

  pub length-append : (xs ys : List A) → length (xs ++ ys) ≡ length xs + length ys
  length-append [] ys = omega arith
  length-append (x ∷ xs) ys = omega (arith, length-append xs ys)

  pub length-set : (xs : List A) (i : ℕ) (v : A) → length (set xs i v) ≡ length xs
  length-set [] i v = refl
  length-set (x ∷ xs) zero v = refl
  length-set (x ∷ xs) (suc i) v = ap suc (length-set xs i v)

  pub length-take : (n : ℕ) (xs : List A) → length (take n xs) ≡ min n (length xs)
  length-take zero xs = omega arith
  length-take (suc n) [] = omega arith
  length-take (suc n) (x ∷ xs) = omega (arith, length-take n xs)

  pub length-drop : (n : ℕ) (xs : List A) → length (drop n xs) ≡ length xs - n
  length-drop zero xs = omega arith
  length-drop (suc n) [] = omega arith
  length-drop (suc n) (x ∷ xs) = omega (arith, length-drop n xs)

  pub length-replicate : (n : ℕ) (a : A) → length (replicate n a) ≡ n
  length-replicate zero a = refl
  length-replicate (suc n) a = ap suc (length-replicate n a)

  pub take-append-drop : (n : ℕ) (xs : List A) → take n xs ++ drop n xs ≡ xs
  take-append-drop zero xs = refl
  take-append-drop (suc n) [] = refl
  take-append-drop (suc n) (x ∷ xs) = ap (◌∷◌ x) (take-append-drop n xs)

  pub take-all : (n : ℕ) (xs : List A) → length xs ≤ n → take n xs ≡ xs
  take-all zero [] h = refl
  take-all zero (x ∷ xs) h = absurd (omega arith)
  take-all (suc n) [] h = refl
  take-all (suc n) (x ∷ xs) h = ap (◌∷◌ x) (take-all n xs (omega arith))

  pub drop-all : (n : ℕ) (xs : List A) → length xs ≤ n → drop n xs ≡ []
  drop-all zero [] h = refl
  drop-all zero (x ∷ xs) h = absurd (omega arith)
  drop-all (suc n) [] h = refl
  drop-all (suc n) (x ∷ xs) h = drop-all n xs (omega arith)

  -- A read after a write, with no side condition beyond the write being in range.
  pub get_elem?-set :
      (xs : List A) (i j : ℕ) (v : A)
      → i < length xs
      → get_elem? (set xs i v) j ≡ (if i == j then some v else get_elem? xs j)
  get_elem?-set [] i j v h = absurd (omega arith)
  get_elem?-set (x ∷ xs) zero zero v h = refl
  get_elem?-set (x ∷ xs) (suc i) (suc j) v h = ground (arith, get_elem?-set xs i j v)
  get_elem?-set (x ∷ xs) i j v h = ground arith

  pub get_elem?-append :
      (xs : List A) (v : A) (j : ℕ)
      → get_elem? (xs ++ v ∷ []) j ≡ (if length xs == j then some v else get_elem? xs j)
  get_elem?-append [] v zero = refl
  get_elem?-append [] v (suc j) = ground arith
  get_elem?-append (x ∷ xs) v zero = ground arith
  get_elem?-append (x ∷ xs) v (suc j) = ground (arith, get_elem?-append xs v j)

  pub get_elem?-none : (xs : List A) (i : ℕ) → length xs ≤ i → get_elem? xs i ≡ none
  get_elem?-none [] i h = refl
  get_elem?-none (x ∷ xs) zero h = absurd (omega arith)
  get_elem?-none (x ∷ xs) (suc i) h = get_elem?-none xs i (omega arith)

  pub lt-length : (xs : List A) (i : ℕ) {v : A} → get_elem? xs i ≡ some v → i < length xs
  lt-length [] i e = cc
  lt-length (x ∷ xs) zero e = omega arith
  lt-length (x ∷ xs) (suc i) e = omega (arith, lt-length xs i e)

  pub take-take-drop : (m n : ℕ) (xs : List A) → take m xs ++ take n (drop m xs) ≡ take (m + n) xs
  take-take-drop zero n xs = rw zero-add
  take-take-drop (suc m) n [] = rw suc-add (take_nil n)
    where
      take_nil : (k : ℕ) → take k [] ≡ []
      take_nil zero = refl
      take_nil (suc k) = refl
  take-take-drop (suc m) n (x ∷ xs) = rw suc-add (ap (◌∷◌ x) (take-take-drop m n xs))

  pub drop-drop : (m n : ℕ) (xs : List A) → drop n (drop m xs) ≡ drop (m + n) xs
  drop-drop zero n xs = rw zero-add
  drop-drop (suc m) n [] = rw suc-add (drop_nil n)
    where
      drop_nil : (k : ℕ) → drop k [] ≡ []
      drop_nil zero = refl
      drop_nil (suc k) = refl
  drop-drop (suc m) n (x ∷ xs) = rw suc-add (drop-drop m n xs)

  pub drop-append : (n : ℕ) (xs ys : List A) → n ≤ length xs → drop n (xs ++ ys) ≡ drop n xs ++ ys
  drop-append zero xs ys h = refl
  drop-append (suc n) [] ys h = absurd (omega arith)
  drop-append (suc n) (x ∷ xs) ys h = drop-append n xs ys (omega arith)

  pub take-append : (n : ℕ) (xs ys : List A) → n ≡ length xs → take n (xs ++ ys) ≡ xs
  take-append zero [] ys h = refl
  take-append zero (x ∷ xs) ys h = absurd (omega arith)
  take-append (suc n) [] ys h = absurd (omega arith)
  take-append (suc n) (x ∷ xs) ys h = ap (◌∷◌ x) (take-append n xs ys (omega arith))
