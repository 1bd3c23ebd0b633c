-- ===== src/Utils/Bytes.antt =====
-- src/utils.rs, `bytes_to_ref` and `bytes_to_ref_mut`: the first bytes of a slice as a number, on a
-- machine that stores the lowest byte first and reads numbers at any address.
use reactio_rs.Base.{
  ℕ, zero, suc, ◌+◌, ◌*◌, ◌/◌, ◌%◌, ◌≤◌, ◌<◌, ◌≡◌, refl, ap, List, [], ◌∷◌, ◌++◌, arith, Build,
  Outcome, done, ◌>>◌, debug_assert, leb, length, take, drop,
}
use reactio_rs.Base.Int.{ℤ, pos, negsuc, pos_part, neg_part, as_i64}
use reactio_rs.Utils.Timer.{as_u64}

-- The bytes of a number that has `size` of them, and back.
abbrev pub le_bytes : ℕ → ℕ → List ℕ
le_bytes zero w = []
le_bytes (suc size) w = (w % 256) ∷ le_bytes size (w / 256)

abbrev pub le_value : List ℕ → ℕ
le_value [] = 0
le_value (b ∷ bs) = b + 256 * le_value bs

-- `*bytes_to_ref(buf)` of a type with `size` bytes.
unfoldable pub bytes_to_ref : Build → ℕ → List ℕ → Outcome ℕ
bytes_to_ref build size buf =
    debug_assert build (leb size (length buf)) >> done (le_value (take size buf))

-- `*bytes_to_ref_mut(buf) = value`: the slice afterwards.
unfoldable pub bytes_to_ref_mut : Build → ℕ → List ℕ → ℕ → Outcome (List ℕ)
bytes_to_ref_mut build size buf value =
    debug_assert build (leb size (length buf)) >> done (le_bytes size value ++ drop size buf)

-- The number has no more than `size` bytes.
abbrev pub Fits : ℕ → ℕ → Type 0
Fits zero w = w ≡ 0
Fits (suc size) w = Fits size (w / 256)

pub le_value-le_bytes : (size w : ℕ) → Fits size w → le_value (le_bytes size w) ≡ w
le_value-le_bytes zero w fits = omega arith
le_value-le_bytes (suc size) w fits = omega (arith, le_value-le_bytes size (w / 256) fits)

pub length-le_bytes : (size w : ℕ) → length (le_bytes size w) ≡ size
length-le_bytes zero w = refl
length-le_bytes (suc size) w = ap suc (length-le_bytes size (w / 256))

-- An `i64`, and its bits.
abbrev pub IsI64 : ℤ → Type 0
IsI64 z = (pos_part z < 0x8000_0000_0000_0000) × (neg_part z ≤ 0x8000_0000_0000_0000)

pub as_u64-Fits : (z : ℤ) → IsI64 z → Fits 8 (as_u64 z)
as_u64-Fits (pos n) h = omega arith
as_u64-Fits (negsuc n) h = omega arith

pub as_i64-as_u64 : (z : ℤ) → IsI64 z → as_i64 (as_u64 z) ≡ z
as_i64-as_u64 (pos n) h = ground arith
as_i64-as_u64 (negsuc n) h = ground arith
