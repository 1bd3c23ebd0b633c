-- ===== src/ReactorId.antt =====
-- src/reactor.rs, `ReactorID`: a slot and a version, each a half of a 64-bit `usize`, and the key
-- under which the poller reports events for it.
pub mod Laws
mod Tests
use reactio_rs.Base.{ℕ, ◌+◌, ◌*◌, ◌/◌, ◌%◌, ◌<◌, Bool, ◌==◌, ◌&&◌}

-- `HalfUsize` is `u32`.
abbrev pub half_usize : ℕ
half_usize = 0x1_0000_0000

pub record ReactorId : Type 0 where
  pub sockslot : ℕ
  pub ver : ℕ

abbrev pub invalid_reactor_id : ReactorId
invalid_reactor_id = record { sockslot = 0xffff_ffff; ver = 0xffff_ffff }

-- The derived `PartialEq`.
abbrev pub same_id : ReactorId → ReactorId → Bool
same_id a b = a.sockslot == b.sockslot && a.ver == b.ver

-- The shifted version has no bit in the lower half, where `|` puts the slot: a sum.
unfoldable pub to_usize : ReactorId → ℕ
to_usize id = id.ver * half_usize + id.sockslot

unfoldable pub from_usize : ℕ → ReactorId
from_usize val = record { sockslot = val % half_usize; ver = val / half_usize % half_usize }
