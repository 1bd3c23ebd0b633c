-- ===== src/Threaded.antt =====
-- src/threaded_reactors.rs, `ThreadedReactorMgr`: the senders of the runtimes that run in threads, and
-- the map from the names of reactors to their ids. The threads themselves are not modelled: each runs
-- `process_events` of its own runtime until it is told to stop. A call holds the lock of the map from
-- its beginning to its end, so that calls follow one another.
pub mod Names
pub mod Arrange
mod Tests
use Prim.Native.String.{String}
use text.Mathlib.Text.{◌==◌ as ◌===◌}
use reactio_rs.Base.{
  ℕ, suc, List, [], ◌∷◌, Bool, true, false, Option, none, some, Build, Outcome, done, ◌>>=◌, ◌>>◌,
  debug_assert, Result, ok, err, if◌then◌else◌, leb, ◌==◌, length, get_elem?,
}
use reactio_rs.ReactorId.{ReactorId}

-- `ReactorUID`
pub record ReactorUid : Type 0 where
  pub runtimeid : ℕ
  pub reactorid : ReactorId

-- `GlobalReactorUIDMap`, a `BTreeMap`, as the list of its entries; a key stands in it once.
abbrev pub UidMap : Type 0
UidMap = List (String × ReactorUid)

-- The message of the `String` error of `add_reactor_uid`.
pub data NameError : Type 0 where
  duplicate_name : NameError

-- `D` is a sender of commands.
pub record ThreadedReactorMgr (D : Type 0) : Type 0 where
  pub senders : List (ℕ × D)
  pub stopcmd : Bool
  pub reactor_uid_map : UidMap

unfoldable pub lookup : String → UidMap → Option ReactorUid
lookup key [] = none
lookup key ((name, uid) ∷ map) = if name === key then some uid else lookup key map

-- `BTreeMap::insert` puts the value in any case.
unfoldable pub insert : String → ReactorUid → UidMap → UidMap
insert key value [] = (key, value) ∷ []
insert key value ((name, uid) ∷ map) =
    let rest = insert key value map in
    if name === key then (name, value) ∷ map else (name, uid) ∷ rest

unfoldable pub delete : String → UidMap → UidMap
delete key [] = []
delete key ((name, uid) ∷ map) =
    let rest = delete key map in if name === key then map else (name, uid) ∷ rest

module _ {D : Type 0} where
  unfoldable pub stop : ThreadedReactorMgr D → ThreadedReactorMgr D
  stop t = record t { stopcmd = true }

  unfoldable pub get_cmd_sender : ThreadedReactorMgr D → ℕ → Option D
  get_cmd_sender t runtimeid = elim (get_elem? t.senders runtimeid) [
    | none ↦ none
    | some (_, sender) ↦ some sender
  ]

  unfoldable pub find_reactor_uid : ThreadedReactorMgr D → String → Option ReactorUid
  find_reactor_uid t key = lookup key t.reactor_uid_map

  unfoldable pub add_reactor_uid :
      ThreadedReactorMgr D
      → String
      → ReactorUid
      → Result NameError (Unit {0}) × ThreadedReactorMgr D
  add_reactor_uid t key value = (
    elim (lookup key t.reactor_uid_map) [ some _ ↦ err duplicate_name | none ↦ ok tt ],
    record t { reactor_uid_map = insert key value t.reactor_uid_map },
  )

  unfoldable pub remove_reactor_name :
      ThreadedReactorMgr D → String → Option ReactorUid × ThreadedReactorMgr D
  remove_reactor_name t key =
      (lookup key t.reactor_uid_map, record t { reactor_uid_map = delete key t.reactor_uid_map })

  unfoldable pub count_reactors : ThreadedReactorMgr D → ℕ
  count_reactors t = length t.reactor_uid_map

  -- `sort_by`, which is stable: an entry goes before those that came later and are not smaller.
  unfoldable pub insert_sorted : ℕ × D → List (ℕ × D) → List (ℕ × D)
  insert_sorted x [] = x ∷ []
  insert_sorted x (y ∷ ys) =
      let rest = insert_sorted x ys in if leb x.0 y.0 then x ∷ y ∷ ys else y ∷ rest

  unfoldable pub sort : List (ℕ × D) → List (ℕ × D)
  sort [] = []
  sort (x ∷ xs) = insert_sorted x (sort xs)

  -- The loop of `new` over the sorted senders, from the position `i` on.
  unfoldable pub check_ids : Build → ℕ → List (ℕ × D) → Outcome (List (ℕ × D))
  check_ids build i [] = done []
  check_ids build i (e ∷ es) =
      debug_assert build (i == e.0) >> (check_ids build (suc i) es >>= λ rest. done (e ∷ rest))

  -- The end of `new`: the senders of the threads, in the order in which they have arrived.
  unfoldable pub assemble : Build → List (ℕ × D) → Outcome (ThreadedReactorMgr D)
  assemble build unsorted_senders = check_ids build 0 (sort unsorted_senders) >>= λ senders.
      done (record { senders = senders; stopcmd = false; reactor_uid_map = [] })
