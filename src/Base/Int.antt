-- ===== src/Base/Int.antt =====
-- Signed machine integers (`i64`), as the integers that they stand for.
use Prim.Native.Nat.{ℕ, suc, ◌+◌, ◌-◌, ◌%◌, ◌≤◌}
use mathlib.Core.Bool.{Bool}
use reactio_rs.Base.Tests.{ltb, leb, if◌then◌else◌}

-- `negsuc n` is -(n + 1).
pub data ℤ : Type 0 where
  pos : ℕ → ℤ
  negsuc : ℕ → ℤ

abbrev pub pos_part : ℤ → ℕ
pos_part (pos n) = n
pos_part (negsuc n) = 0

abbrev pub neg_part : ℤ → ℕ
neg_part (pos n) = 0
neg_part (negsuc n) = suc n

infix 50 ◌≤ℤ◌
abbrev pub ◌≤ℤ◌ : ℤ → ℤ → Type 0
a ≤ℤ b = pos_part a + neg_part b ≤ pos_part b + neg_part a

-- `<` and `<=` as the program tests them.
abbrev pub ltb_ℤ : ℤ → ℤ → Bool
ltb_ℤ a b = ltb (pos_part a + neg_part b) (pos_part b + neg_part a)

abbrev pub leb_ℤ : ℤ → ℤ → Bool
leb_ℤ a b = leb (pos_part a + neg_part b) (pos_part b + neg_part a)

-- `x as i64` of an unsigned number: the low 64 bits, read as two's complement.
abbrev pub as_i64 : ℕ → ℤ
as_i64 x =
    let w : ℕ = x % 0x1_0000_0000_0000_0000 in
    if ltb w 0x8000_0000_0000_0000 then pos w else negsuc (0x1_0000_0000_0000_0000 - w - 1)
