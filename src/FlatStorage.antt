-- ===== src/FlatStorage.antt =====
-- src/flat_storage.rs: a slab of values under `usize` keys, whose vacant slots form a free list.
-- `len` and `count_free` are as in the source; the field `data` is `nodes` here.
pub mod Chain
pub mod Laws
pub mod Keys
pub mod Weights
pub mod History
mod Tests
use reactio_rs.Base.{
  ℕ, ◌+◌, ◌-◌, List, [], ◌∷◌, ◌++◌, Bool, Option, none, some, Outcome, done, panic, ◌>>=◌, unwrap,
  ltb, ◌==◌, if◌then◌else◌, usize_max, wrapping_add, wrapping_sub, length, get_elem?, set,
}

pub data AllocNode {ℓ} (T : Type ℓ) : Type ℓ where
  vacant : ℕ → AllocNode T
  occupied : T → AllocNode T

pub record FlatStorage {ℓ} (T : Type ℓ) : Type ℓ where
  pub nodes : List (AllocNode T)
  pub count : ℕ
  pub free : ℕ

abbrev pub invalid_id : ℕ
invalid_id = usize_max

module _ {ℓ} {T : Type ℓ} where
  unfoldable pub new : FlatStorage T
  new = record { nodes = []; count = 0; free = invalid_id }

  unfoldable pub len : FlatStorage T → ℕ
  len s = s.count

  unfoldable pub is_empty : FlatStorage T → Bool
  is_empty s = s.count == 0

  unfoldable pub capacity : FlatStorage T → ℕ
  capacity s = length s.nodes

  unfoldable pub count_free : FlatStorage T → ℕ
  count_free s = wrapping_sub (length s.nodes) s.count

  -- Taking the head of the free list: the slot that it names must be vacant.
  take_free : FlatStorage T → T → AllocNode T → Outcome (ℕ × FlatStorage T)
  take_free s v (vacant next) =
      done (s.free, record s { nodes = set s.nodes s.free (occupied v); free = next })
  take_free s v (occupied _) = panic

  unfoldable pub add : FlatStorage T → T → Outcome (ℕ × FlatStorage T)
  unfolding take_free
  add s v =
      let s' = record s { count = wrapping_add s.count 1 } in
      if s.free == invalid_id
      then done (length s.nodes, record s' { nodes = s.nodes ++ occupied v ∷ [] })
      else (unwrap (get_elem? s.nodes s.free) >>= take_free s' v)

  -- The two arms of the `if let` on the slot; a key out of range has no slot.
  remove_node : FlatStorage T → ℕ → Option (AllocNode T) → Option T × FlatStorage T
  remove_node s key none = (none, s)
  remove_node s key (some (vacant _)) = (none, s)
  remove_node s key (some (occupied v)) = (
    some v,
    record { nodes = set s.nodes key (vacant s.free); count = wrapping_sub s.count 1; free = key },
  )

  unfoldable pub remove : FlatStorage T → ℕ → Option T × FlatStorage T
  unfolding remove_node
  remove s key = remove_node s key (get_elem? s.nodes key)

  value : Option (AllocNode T) → Option T
  value none = none
  value (some (vacant _)) = none
  value (some (occupied v)) = some v

  unfoldable pub get : FlatStorage T → ℕ → Option T
  unfolding value
  get s key = value (get_elem? s.nodes key)

  -- A write through `get_mut`: the slot's value becomes `v`, if there is one.
  put_node : FlatStorage T → ℕ → T → Option (AllocNode T) → FlatStorage T
  put_node s key v none = s
  put_node s key v (some (vacant _)) = s
  put_node s key v (some (occupied _)) = record s { nodes = set s.nodes key (occupied v) }

  unfoldable pub put : FlatStorage T → ℕ → T → FlatStorage T
  unfolding put_node
  put s key v = put_node s key v (get_elem? s.nodes key)
