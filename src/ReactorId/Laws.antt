-- ===== src/ReactorId/Laws.antt =====
-- The two conversions of src/reactor.rs's `ReactorID` are inverse to each other.
use reactio_rs.Base.{ℕ, ◌*◌, ◌<◌, ◌≡◌, ◌↔◌, true, arith}
use reactio_rs.ReactorId.{ReactorId, half_usize, same_id, to_usize, from_usize}

-- Both halves fit in 32 bits.
abbrev pub IsHalves : ReactorId → Type 0
IsHalves id = (id.sockslot < half_usize) × (id.ver < half_usize)

-- An id of two 32-bit halves comes back from its key, which is a 64-bit number.
pub from_usize-to_usize :
    (id : ReactorId)
    → IsHalves id
    → (from_usize (to_usize id) ≡ id) × (to_usize id < half_usize * half_usize)
unfolding from_usize to_usize
from_usize-to_usize id h = ground arith

-- A 64-bit key comes back from the id that is read from it, and the id has two 32-bit halves.
pub to_usize-from_usize :
    (val : ℕ)
    → val < half_usize * half_usize
    → (to_usize (from_usize val) ≡ val) × IsHalves (from_usize val)
unfolding from_usize to_usize
to_usize-from_usize val h = omega arith

-- `==` on ids.
pub same_id_iff : (a b : ReactorId) → (same_id a b ≡ true) ↔ (a ≡ b)
same_id_iff a b = ground arith
