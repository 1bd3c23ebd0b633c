-- ===== src/Threaded/Tests.antt =====
-- Names and senders of src/threaded_reactors.rs at concrete values.
use Prim.Native.String.{String}
use text.Mathlib.Text.{◌==◌ as ◌===◌}
use reactio_rs.Base.{ℕ, ◌≡◌, refl, [], ◌∷◌, false, some, debug, done, if◌then◌else◌, err}
use reactio_rs.Threaded.{
  ReactorUid, ThreadedReactorMgr, find_reactor_uid, add_reactor_uid, assemble, lookup, insert,
  duplicate_name,
}
use reactio_rs.Threaded.Names.{IsMap, Answered, add_reactor_uid_lem}
use reactio_rs.Threaded.Arrange.{same, swap, assemble_arranges}

abbrev uid : ℕ → ReactorUid
uid n = record { runtimeid = n; reactorid = record { sockslot = n; ver = 1 } }

-- One reactor is registered.
abbrev mgr : ThreadedReactorMgr ℕ
mgr = record { senders = []; stopcmd = false; reactor_uid_map = ("client", uid 1) ∷ [] }

mgr-IsMap : IsMap mgr.reactor_uid_map
unfolding lookup
mgr-IsMap = (refl, tt)

-- The second registration of a name is an error, and replaces the first.
replaced :
    ((add_reactor_uid mgr "client" (uid 2)).0 ≡ err duplicate_name)
    × (find_reactor_uid (add_reactor_uid mgr "client" (uid 2)).1 "client" ≡ some (uid 2))
unfolding add_reactor_uid find_reactor_uid lookup insert
replaced = (refl, refl)

add_reactor_uid_lem_example :
    Answered mgr "client" (uid 2) (add_reactor_uid mgr "client" (uid 2))
    × ((other : String)
        → find_reactor_uid (add_reactor_uid mgr "client" (uid 2)).1 other
          ≡ (if "client" === other then some (uid 2) else find_reactor_uid mgr other))
    × IsMap (add_reactor_uid mgr "client" (uid 2)).1.reactor_uid_map
add_reactor_uid_lem_example = add_reactor_uid_lem mgr "client" (uid 2) mgr-IsMap

assemble_arranges_example :
    assemble {D = ℕ} debug ((1, 20) ∷ (0, 10) ∷ (2, 30) ∷ [])
    ≡ done (record {
      senders = (0, 10) ∷ (1, 20) ∷ (2, 30) ∷ [];
      stopcmd = false;
      reactor_uid_map = [];
    })
assemble_arranges_example =
    assemble_arranges debug (10 ∷ 20 ∷ 30 ∷ []) ((1, 20) ∷ (0, 10) ∷ (2, 30) ∷ [])
      (swap (0, 10) (1, 20) same)
