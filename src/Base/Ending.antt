-- ===== src/Base/Ending.antt =====
-- How a call of the program ends. A `panic` is a Rust panic; `no_fuel` is the model's, where a loop
-- of the program has not ended within its fuel.
use Prim.Native.Nat.{ℕ, ◌+◌, ◌-◌, ◌≤◌, ◌<◌}
use mathlib.Core.Path.{◌≡◌, refl}
use mathlib.Core.Logic.{◌⊎◌, inl, inr}
use mathlib.Core.Bool.{Bool, true, false}
use mathlib.Core.Option.{Option, none, some}
use native.Mathlib.Omega.{arith}
use reactio_rs.Base.Tests.{ltb, leb, if◌then◌else◌}

-- The profile that the crate is compiled with: `debug` has overflow checks and `debug_assert!`.
pub data Build : Type 0 where
  debug release : Build

pub data Outcome {ℓ} (A : Type ℓ) : Type ℓ where
  done : A → Outcome A
  panic no_fuel : Outcome A

-- Rust's `Result`.
pub data Result {ℓ κ} (E : Type ℓ) (A : Type κ) : Type (ℓ ⊔ κ) where
  ok : A → Result E A
  err : E → Result E A

pub Result-cases {ℓ κ} :
    {E : Type ℓ} {A : Type κ} (r : Result E A) → ((a : A) × (r ≡ ok a)) ⊎ ((e : E) × (r ≡ err e))
Result-cases (ok a) = inl (a, refl)
Result-cases (err e) = inr (e, refl)

infixl 5 ◌>>=◌ ◌>>◌
abbrev pub ◌>>=◌ {ℓ κ} : {A : Type ℓ} {B : Type κ} → Outcome A → (A → Outcome B) → Outcome B
done a >>= f = f a
panic >>= f = panic
no_fuel >>= f = no_fuel

abbrev pub ◌>>◌ {ℓ} : {B : Type ℓ} → Outcome (Unit {0}) → Outcome B → Outcome B
m >> k = m >>= λ _. k

-- `.unwrap()` of an option, or an index into a vector.
abbrev pub unwrap {ℓ} : {A : Type ℓ} → Option A → Outcome A
unwrap none = panic
unwrap (some a) = done a

-- `assert!`.
abbrev pub assert : Bool → Outcome (Unit {0})
assert b = if b then done tt else panic

-- `debug_assert!`.
abbrev pub debug_assert : Build → Bool → Outcome (Unit {0})
debug_assert debug b = assert b
debug_assert release b = done tt

pub debug_assert-cases :
    (build : Build) (b : Bool) → (debug_assert build b ≡ done tt) ⊎ (debug_assert build b ≡ panic)
debug_assert-cases debug true = inl refl
debug_assert-cases debug false = inr refl
debug_assert-cases release b = inl refl

pub debug_assert-true : (build : Build) → debug_assert build true ≡ done tt
debug_assert-true debug = refl
debug_assert-true release = refl

-- `a - b` on `usize`: an overflow panics in a debug build, and wraps in a release build.
unfoldable pub sub_usize : Build → ℕ → ℕ → Outcome ℕ
sub_usize build a b =
    if leb b a
    then done (a - b)
    else elim build [ debug ↦ panic | release ↦ done (a + 0x1_0000_0000_0000_0000 - b) ]

-- `a + b` on `usize`, likewise.
unfoldable pub add_usize : Build → ℕ → ℕ → Outcome ℕ
add_usize build a b =
    if ltb (a + b) 0x1_0000_0000_0000_0000
    then done (a + b)
    else elim build [ debug ↦ panic | release ↦ done (a + b - 0x1_0000_0000_0000_0000) ]

pub sub_usize-done : (build : Build) (a b : ℕ) → b ≤ a → sub_usize build a b ≡ done (a - b)
unfolding sub_usize
sub_usize-done build a b h = ground arith

pub add_usize-done :
    (build : Build) (a b : ℕ) → a + b < 0x1_0000_0000_0000_0000 → add_usize build a b ≡ done (a + b)
unfolding add_usize
add_usize-done build a b h = ground arith

-- The call ends normally, with a value that satisfies `P`.
abbrev pub Returns {ℓ κ} : {A : Type ℓ} → (A → Type κ) → Outcome A → Type (ℓ ⊔ κ)
Returns {A} P r = (a : A) × (r ≡ done a) × P a

module _ {ℓ κ} {A : Type ℓ} {P : A → Type κ} where
  pub Returns-bind {ℓ' κ'} :
      {B : Type ℓ'} {Q : B → Type κ'} (r : Outcome A) (f : A → Outcome B)
      → Returns P r
      → ((a : A) → P a → Returns Q (f a))
      → Returns Q (r >>= f)
  Returns-bind r f (a, e, p) k = rw e (k a p)

-- If the call ends normally, then with a value that satisfies `P`.
abbrev pub Holds {ℓ κ} : {A : Type ℓ} → (A → Type κ) → Outcome A → Type κ
Holds P (done a) = P a
Holds P panic = Unit
Holds P no_fuel = Unit

module _ {ℓ ℓ' κ} {A : Type ℓ} {B : Type ℓ'} (Q : B → Type κ) where
  pub Holds-bind :
      (o : Outcome A) (f : A → Outcome B) → ((a : A) → Holds Q (f a)) → Holds Q (o >>= f)
  Holds-bind (done a) f k = k a
  Holds-bind panic f k = tt
  Holds-bind no_fuel f k = tt

pub Holds-then {ℓ ℓ' κ κ'} :
    {A : Type ℓ} {B : Type ℓ'} (P : A → Type κ) (Q : B → Type κ') (o : Outcome A)
    (f : A → Outcome B)
    → Holds P o
    → ((a : A) → P a → Holds Q (f a))
    → Holds Q (o >>= f)
Holds-then P Q (done a) f h k = k a h
Holds-then P Q panic f h k = tt
Holds-then P Q no_fuel f h k = tt
