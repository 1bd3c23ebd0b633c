-- ===== src/DeferredHeap/Tests.antt =====
-- Pushes and pops of src/reactor.rs's heap at concrete times.
use mathlib.Core.List.{Perm}
use reactio_rs.Base.{
  ℕ, zero, suc, ◌≡◌, refl, List, [], ◌∷◌, arith, debug, release, done, panic, Returns, take,
}
use reactio_rs.Base.Int.{pos}
use reactio_rs.DeferredHeap.{DeferredKey, load, swap, min_child, pop_loop, min_heap_pop}
use reactio_rs.DeferredHeap.Swap.{key}
use reactio_rs.DeferredHeap.Push.{IsHeap, push, push_correct}
use reactio_rs.DeferredHeap.Checked.{push-debug_panics, push-debug}
use reactio_rs.DeferredHeap.Pop.{pop, pop-drops_last}

abbrev at : ℕ → ℕ → DeferredKey
at millis slot = record { millis = pos millis; slot = slot }

-- Two commands, due at 20 and at 70.
abbrev two : List DeferredKey
two = at 20 0 ∷ at 70 1 ∷ []

two-IsHeap : IsHeap two
unfolding key
two-IsHeap zero p l = absurd (omega arith)
two-IsHeap (suc zero) p l = omega arith
two-IsHeap (suc (suc c)) p l = absurd (omega arith)

-- The pop after the command at 20 was executed drops the one at 70.
pop-two : pop two ≡ done (at 20 0 ∷ [])
unfolding pop min_heap_pop pop_loop min_child load swap
pop-two = refl

push_correct_example : Returns (λ w. IsHeap w × Perm w (at 30 2 ∷ two)) (push release two (at 30 2))
push_correct_example = push_correct two (at 30 2) two-IsHeap

push-debug_panics_example : push debug two (at 10 2) ≡ panic
unfolding key
push-debug_panics_example = push-debug_panics two (at 10 2) two-IsHeap (omega arith) refl

push-debug_example : push debug two (at 30 2) ≡ push release two (at 30 2)
unfolding key
push-debug_example = push-debug two (at 30 2) (λ _. omega arith)

pop-drops_last_example :
    Returns
      (λ w. Perm w (take 2 (at 10 0 ∷ at 20 1 ∷ at 70 2 ∷ [])))
      (pop (at 10 0 ∷ at 20 1 ∷ at 70 2 ∷ []))
pop-drops_last_example = pop-drops_last (at 10 0 ∷ at 20 1 ∷ at 70 2 ∷ []) 2 refl
