-- ===== src/ReactorId/Tests.antt =====
-- Conversions of src/reactor.rs's `ReactorID` at concrete values.
use reactio_rs.Base.{◌*◌, ◌<◌, ◌≡◌, refl, arith}
use reactio_rs.ReactorId.{half_usize, to_usize, from_usize, invalid_reactor_id}
use reactio_rs.ReactorId.Laws.{from_usize-to_usize}

invalid_key : to_usize invalid_reactor_id ≡ 0xffff_ffff_ffff_ffff
unfolding to_usize
invalid_key = refl

from_usize-to_usize_example :
    (from_usize (to_usize (record { sockslot = 3; ver = 7 })) ≡ record { sockslot = 3; ver = 7 })
    × (to_usize (record { sockslot = 3; ver = 7 }) < half_usize * half_usize)
from_usize-to_usize_example = from_usize-to_usize (record { sockslot = 3; ver = 7 }) (omega arith)
