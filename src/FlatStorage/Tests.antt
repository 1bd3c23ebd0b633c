-- ===== src/FlatStorage/Tests.antt =====
-- Calls of src/flat_storage.rs at concrete values.
use reactio_rs.Base.{ℕ, ◌≡◌, refl, List, [], ◌∷◌, none, some, arith, done, usize_max}
use reactio_rs.FlatStorage.{
  FlatStorage, vacant, occupied, new, len, add, remove, get, put, capacity, count_free, is_empty,
}
use reactio_rs.FlatStorage.Laws.{IsValid}
use reactio_rs.FlatStorage.History.{
  Call, add_call, remove_call, Event, added, removed, run, Explains, run-new_refines,
}

-- Two values under the keys 0 and 2; slot 1 is free.
abbrev pub sample : FlatStorage ℕ
sample = record { nodes = occupied 10 ∷ vacant usize_max ∷ occupied 30 ∷ []; count = 2; free = 1 }

abbrev calls : List (Call ℕ)
calls = add_call 10 ∷ add_call 20 ∷ add_call 30 ∷ remove_call 1 ∷ remove_call 7 ∷ []

run-calls :
    run new calls
    ≡ done
        (added 0 10 ∷ added 1 20 ∷ added 2 30 ∷ removed 1 (some 20) ∷ removed 7 none ∷ [], sample)
unfolding run new add remove
run-calls = refl

counts : (len sample ≡ 2) × (capacity sample ≡ 3) × (count_free sample ≡ 1)
unfolding len capacity count_free
counts = (refl, refl, refl)

pub sample-IsValid : IsValid sample
unfolding reactio_rs.FlatStorage.Chain.vacancies
sample-IsValid = record {
  chain = 1 ∷ [];
  linked = (refl, omega arith, (usize_max, refl, (refl, tt)));
  distinct = (tt, tt);
  covered = refl;
  counted = refl;
  bounded = omega arith;
}

run-new_refines_example :
    (r : List (Event ℕ) × FlatStorage ℕ) × (run new calls ≡ done r)
    × Explains (λ _. none) r.0 (get r.1)
    × IsValid r.1
run-new_refines_example = run-new_refines calls (omega arith)
