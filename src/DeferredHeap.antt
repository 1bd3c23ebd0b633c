-- ===== src/DeferredHeap.antt =====
-- src/reactor.rs, `DeferredKey`, `min_heap_push` and `min_heap_pop`: the binary heap of the times at
-- which deferred commands are due. The functions work on the slice of a `Vec`, in place; here they
-- return it. A slice has at most `isize::MAX` entries, so `(k + 1) * 2` does not overflow.
pub mod Swap
pub mod Push
pub mod Checked
pub mod Pop
mod Tests
use reactio_rs.Base.{
  ℕ, zero, suc, ◌+◌, ◌-◌, ◌*◌, ◌/◌, List, Option, none, some, Build, sub_usize, Outcome, done,
  no_fuel, ◌>>=◌, unwrap, ltb, if◌then◌else◌, length, get_elem?, set,
}
use reactio_rs.Base.Int.{ℤ, ltb_ℤ}

-- The field `data` of the source, a key of `deferred_data`, is `slot` here.
pub record DeferredKey : Type 0 where
  pub millis : ℤ
  pub slot : ℕ

abbrev pub get_key : DeferredKey → ℤ
get_key x = x.millis

-- `v[i]`
unfoldable pub load : List DeferredKey → ℕ → Outcome DeferredKey
load v i = unwrap (get_elem? v i)

-- `v.swap(i, j)`
unfoldable pub swap : List DeferredKey → ℕ → ℕ → Outcome (List DeferredKey)
swap v i j = do x ← load v i; y ← load v j; done (set (set v i y) j x)

unfoldable pub push_loop : Build → ℕ → List DeferredKey → ℕ → ℕ → Outcome (List DeferredKey)
push_loop build zero v k parent = no_fuel
push_loop build (suc fuel) v k parent =
    let rise : Outcome (List DeferredKey) = do
      w ← swap v k parent
      up ← sub_usize build parent 1
      push_loop build fuel w parent (up / 2)
    in let step : Outcome (List DeferredKey) = do
      x ← load v k
      y ← load v parent
      if ltb_ℤ (get_key x) (get_key y) then rise else done v
      in if ltb 0 k then step else done v

-- Sifts the last entry up. The fuel is a round for each index up to the last.
unfoldable pub min_heap_push : Build → List DeferredKey → Outcome (List DeferredKey)
min_heap_push build v = do
  k ← sub_usize build (length v) 1
  if ltb 0 k then push_loop build (length v) v k ((k - 1) / 2) else done v

-- The child that the loop of `min_heap_pop` goes to, or `none` where it breaks.
unfoldable pub min_child : List DeferredKey → ℕ → Outcome (Option ℕ)
min_child v k =
    let l = (k + 1) * 2 - 1 in
    let r = (k + 1) * 2 in
    if ltb r (length v - 1)
    then (do
      x ← load v l
      y ← load v r
      done (some (if ltb_ℤ (get_key x) (get_key y) then l else r)))
    else if ltb l (length v - 1)
    then done (some l)
    else done none

unfoldable pub pop_loop : ℕ → List DeferredKey → ℕ → Outcome (List DeferredKey)
pop_loop zero v k = no_fuel
pop_loop (suc fuel) v k =
    let step : Outcome (List DeferredKey) = do
      child ← min_child v k
      elim child [ none ↦ done v | some m ↦ swap v m k >>= λ w. pop_loop fuel w m ]
    in if ltb k (length v - 1) then step else done v

-- Moves the first entry to the end, as the source does it.
unfoldable pub min_heap_pop : List DeferredKey → Outcome (List DeferredKey)
min_heap_pop v = do value ← load v 0; w ← pop_loop (length v) v 0; done (set w (length w - 1) value)
