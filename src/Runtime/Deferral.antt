-- ===== src/Runtime/Deferral.antt =====
-- `process_deferred_queue` of src/reactor.rs on heaps of one and of two commands that are due.
use reactio_rs.Base.{
  ℕ, suc, ◌+◌, ◌≡◌, refl, ap, ◌∙◌, List, [], ◌∷◌, true, none, some, arith, Build, Outcome, done,
  panic, no_fuel, ◌>>=◌, length,
}
use reactio_rs.Base.Int.{leb_ℤ}
use reactio_rs.FlatStorage
use reactio_rs.FlatStorage.Laws.{get-remove}
use reactio_rs.DeferredHeap.{DeferredKey, load, swap, min_child, pop_loop, min_heap_pop}
use reactio_rs.DeferredHeap.Pop.{pop, pop-small}
use reactio_rs.Command.{CmdData}
use reactio_rs.Manager.{World, ReactorMgr}
use reactio_rs.Runtime.{
  ReactRuntime, due_nanos, is_deferred_current, execute_immediate_cmd, execute, deferred_loop,
  process_deferred_queue,
}

module _ {S L E C R H U K : Type 0} (world : World S L E C R H U K)
    (rt : ReactRuntime S L E C R H U K) (a : DeferredKey) where
  -- The runtime with the command of the key out of its store, after a look at the clock.
  abbrev pub taken_out : List DeferredKey → ReactRuntime S L E C R H U K
  taken_out heap = record rt {
    mgr = record (rt.mgr) { os = (world.now_nanos rt.mgr.os).1 };
    deferred_data = (FlatStorage.remove rt.deferred_data a.slot).1;
    deferred_heap = heap;
  }

module _ {S L E C R H U K : Type 0} (world : World S L E C R H U K) (build : Build) where
  execute-bind :
      {B : Type 0} (rt : ReactRuntime S L E C R H U K) (c : CmdData R H U K)
      (f g : ReactRuntime S L E C R H U K → Outcome B)
      → ((mgr : ReactorMgr S L E C R H U K)
          → f (record rt { mgr = mgr }) ≡ g (record rt { mgr = mgr }))
      → (execute world build rt c >>= f) ≡ (execute world build rt c >>= g)
  unfolding execute
  execute-bind rt c f g h =
      elim (execute_immediate_cmd world build rt.mgr c)
        as (λ o.
          ((o >>= λ mgr. done (record rt { mgr = mgr })) >>= f)
          ≡ ((o >>= λ mgr. done (record rt { mgr = mgr })) >>= g)) [
            | done mgr ↦ h mgr
            | panic ↦ refl
            | no_fuel ↦ refl
          ]

  module _ (rt : ReactRuntime S L E C R H U K) (a : DeferredKey) (c : CmdData R H U K)
      (stored : FlatStorage.get rt.deferred_data a.slot ≡ some c)
      (due : (os : E) → leb_ℤ (due_nanos a.millis) (world.now_nanos os).0 ≡ true) where
    first_round :
        (fuel cmds : ℕ) (others heap : List DeferredKey)
        → rt.deferred_heap ≡ a ∷ others
        → pop (a ∷ others) ≡ done heap
        → deferred_loop world build (suc fuel) rt cmds ≡ (
            execute world build (taken_out world rt a heap) c >>= λ rt'.
            deferred_loop world build fuel rt' (cmds + 1))
    unfolding deferred_loop is_deferred_current
    first_round fuel cmds others heap e popped =
        rw (e, due rt.mgr.os, popped, (get-remove rt.deferred_data a.slot).0, stored) refl

    -- A deferred command that is stored, alone in the heap and due is executed once, with its key
    -- and its data taken out before.
    pub process_deferred_queue_one :
        rt.deferred_heap ≡ a ∷ []
        → process_deferred_queue world build rt
          ≡ (execute world build (taken_out world rt a []) c >>= λ rt'. done (1, rt'))
    unfolding process_deferred_queue deferred_loop
    process_deferred_queue_one alone =
        ap (λ (h : List DeferredKey). deferred_loop world build (suc (length h)) rt 0) alone
        ∙ first_round 1 0 [] [] alone (pop-small a).0
        ∙ execute-bind (taken_out world rt a []) c _ _ (λ mgr. refl)

    pop_two : (b : DeferredKey) → pop (a ∷ b ∷ []) ≡ done (a ∷ [])
    unfolding pop min_heap_pop pop_loop min_child load swap
    pop_two b = refl

    -- The key that the pop left finds no command in the store.
    second_round :
        (mgr : ReactorMgr S L E C R H U K)
        → deferred_loop world build 2 (record (taken_out world rt a (a ∷ [])) { mgr = mgr }) 1
          ≡ panic
    unfolding deferred_loop is_deferred_current
    second_round mgr =
        let s = (FlatStorage.remove rt.deferred_data a.slot).1 in
        let gone : (FlatStorage.remove s a.slot).0 ≡ none =
          (get-remove s a.slot).0 ∙ ground (arith, (get-remove rt.deferred_data a.slot).1 a.slot) in
        rw (due mgr.os, (pop-small a).0, gone) refl

    -- There are two deferred commands, the first has its command stored, and it is due at any time
    -- that the clock shows. Then the first is executed, and the runtime panics instead of looking
    -- at the second.
    pub process_deferred_queue_two :
        (b : DeferredKey)
        → rt.deferred_heap ≡ a ∷ b ∷ []
        → process_deferred_queue world build rt
          ≡ (execute world build (taken_out world rt a (a ∷ [])) c >>= λ _. panic)
    unfolding process_deferred_queue
    process_deferred_queue_two b both =
        ap (λ (h : List DeferredKey). deferred_loop world build (suc (length h)) rt 0) both
        ∙ first_round 2 0 (b ∷ []) (a ∷ []) both (pop_two b)
        ∙ execute-bind (taken_out world rt a (a ∷ [])) c _ _ second_round
