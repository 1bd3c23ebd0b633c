-- ===== src/Threaded/Names.antt =====
-- The map of names of src/threaded_reactors.rs.
use Prim.Native.String.{String}
use text.Mathlib.Text.{◌==◌ as ◌===◌}
use text.Mathlib.TextEquality.{eq_iff}
use reactio_rs.Base.{
  ap, Bool-cases, Option-cases, inl, inr, ◌⊎◌, ◌+◌, ◌≡◌, refl, [], ◌∷◌, none, some, arith, Result,
  ok, err, if◌then◌else◌, length,
}
use reactio_rs.Threaded.{
  ReactorUid, UidMap, NameError, duplicate_name, ThreadedReactorMgr, lookup, insert, delete,
  find_reactor_uid, add_reactor_uid, remove_reactor_name, count_reactors,
}

lookup-insert :
    (key other : String) (value : ReactorUid) (map : UidMap)
    → lookup other (insert key value map) ≡ (if key === other then some value else lookup other map)
unfolding lookup insert
lookup-insert key other value [] = refl
lookup-insert key other value ((name, uid) ∷ map) =
    ground (
      arith,
      eq_iff key other,
      eq_iff name key,
      eq_iff name other,
      lookup-insert key other value map,
    )

length-insert :
    (key : String) (value : ReactorUid) (map : UidMap)
    → length (insert key value map)
      ≡ elim (lookup key map) [ none ↦ length map + 1 | some _ ↦ length map ]
unfolding lookup insert
length-insert key value [] = refl
length-insert key value ((name, uid) ∷ map) = ground (arith, length-insert key value map)

-- No name stands in the map twice.
abbrev pub IsMap : UidMap → Type 0
IsMap [] = Unit
IsMap ((name, _) ∷ map) = (lookup name map ≡ none) × IsMap map

insert-IsMap :
    (key : String) (value : ReactorUid) (map : UidMap) → IsMap map → IsMap (insert key value map)
unfolding insert lookup
insert-IsMap key value [] h = (refl, tt)
insert-IsMap key value ((name, uid) ∷ map) (absent, h) = elim (Bool-cases (name === key)) [
  | inl same ↦ rw same (absent, h)
  | inr other ↦ rw other (
    ground
        (arith, eq_iff name key, eq_iff key name, lookup-insert key name value map, absent, other),
    insert-IsMap key value map h,
  )
]

lookup-delete :
    (key other : String) (map : UidMap)
    → IsMap map
    → lookup other (delete key map) ≡ (if key === other then none else lookup other map)
unfolding lookup delete
lookup-delete key other [] h = ground arith
lookup-delete key other ((name, uid) ∷ map) (absent, h) = ground (
  arith,
  eq_iff key other,
  eq_iff name key,
  eq_iff name other,
  ap (λ (k : String). lookup k map),
  lookup-delete key other map h,
)

module _ {D : Type 0} (t : ThreadedReactorMgr D) (key : String) where
  -- `Ok` is for a name that was not there, which is counted now; `Err` for one that was.
  abbrev pub Answered : ReactorUid → Result NameError (Unit {0}) × ThreadedReactorMgr D → Type 0
  Answered value r =
      ((r.0 ≡ ok tt)
        × (find_reactor_uid t key ≡ none)
        × (count_reactors r.1 ≡ count_reactors t + 1))
      ⊎ ((old : ReactorUid) × (r.0 ≡ err duplicate_name)
          × (find_reactor_uid t key ≡ some old)
          × (count_reactors r.1 ≡ count_reactors t))

  -- `add_reactor_uid` answers whether the name was free. In both cases the name stands for the new id
  -- afterwards, also where the answer is an error, every other name for what it stood for, and no
  -- name stands in the map twice.
  pub add_reactor_uid_lem :
      (value : ReactorUid)
      → IsMap t.reactor_uid_map
      → Answered value (add_reactor_uid t key value)
        × ((other : String)
            → find_reactor_uid (add_reactor_uid t key value).1 other
              ≡ (if key === other then some value else find_reactor_uid t other))
        × IsMap (add_reactor_uid t key value).1.reactor_uid_map
  unfolding add_reactor_uid find_reactor_uid count_reactors
  add_reactor_uid_lem value h = (
    elim (Option-cases (lookup key t.reactor_uid_map)) [
      | inl free ↦
          rw (free, add_reactor_uid)
            (inl (refl, refl, ground (arith, length-insert key value t.reactor_uid_map, free)))
      | inr (old, taken) ↦
          rw (taken, add_reactor_uid)
            (inr
              (old, refl, refl, ground (arith, length-insert key value t.reactor_uid_map, taken)))
    ],
    (λ other. lookup-insert key other value t.reactor_uid_map),
    insert-IsMap key value t.reactor_uid_map h,
  )

  -- `remove_reactor_name` returns what the name stood for. Afterwards it stands for nothing, and every
  -- other name for what it stood for.
  pub remove_reactor_name_lem :
      IsMap t.reactor_uid_map
      → ((remove_reactor_name t key).0 ≡ find_reactor_uid t key)
        × ((other : String)
            → find_reactor_uid (remove_reactor_name t key).1 other
              ≡ (if key === other then none else find_reactor_uid t other))
  unfolding remove_reactor_name find_reactor_uid
  remove_reactor_name_lem h = (refl, λ other. lookup-delete key other t.reactor_uid_map h)
