-- ===== src/Uint256/Signed.antt =====
-- The signed order reads a word in two's complement.
use div.Common.{◌-◌, ◌^◌, ◌≤◌, ◌≡◌, ◌↔◌, arith, true, ltb, if◌then◌else◌}
use div.Common.Int.{ℤ, pos, negsuc, ◌<ℤ◌}
use div.Uint256.Order.{lt_iff}
use div.Uint256.{Uint256, IsUint256, to_nat, slt, is_negative}

-- The integer that a word stands for.
abbrev pub to_int : Uint256 → ℤ
to_int a = if ltb (to_nat a) (2 ^ 255) then pos (to_nat a) else negsuc (2 ^ 256 - to_nat a - 1)

pub is_negative_iff : (a : Uint256) → IsUint256 a → (is_negative a ≡ true) ↔ (2 ^ 255 ≤ to_nat a)
unfolding is_negative
is_negative_iff a p = ground arith

-- `slt` of two words compares the integers that they stand for in two's complement.
pub slt_iff :
    (a b : Uint256) → IsUint256 a → IsUint256 b → (slt a b ≡ true) ↔ (to_int a <ℤ to_int b)
unfolding slt
slt_iff a b p q = ground (arith, is_negative_iff a p, is_negative_iff b q, lt_iff a b p q)
