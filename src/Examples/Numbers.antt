-- ===== src/Examples/Numbers.antt =====
-- Words of 256 bits at concrete inputs.
use div.Common.{ℕ, ◌+◌, ◌-◌, ◌*◌, ◌%◌, ◌^◌, ◌≡◌, ◌↔◌, arith, true, List, [], ◌∷◌, All, IsU8, some}
use div.Common.Int.{◌<ℤ◌}
use div.Uint256.{
  Uint256, IsUint256, Represents, to_nat, u256_mod, mul, slt, exp, exp_loop, from_u64,
}
use div.Uint256.Mul.{mul-mod}
use div.Uint256.Signed.{to_int, slt_iff}
use div.Uint256.Exp.{exp-mod}

abbrev small : Uint256
small = record { limb0 = 5; limb1 = 0; limb2 = 0; limb3 = 0 }

-- The negative number with every limb in use.
abbrev wide : Uint256
wide = record { limb0 = 7; limb1 = 2 ^ 64 - 1; limb2 = 3; limb3 = 2 ^ 63 + 1 }

small-IsUint256 : IsUint256 small
small-IsUint256 = (omega arith, omega arith, omega arith, omega arith)

wide-IsUint256 : IsUint256 wide
wide-IsUint256 = (omega arith, omega arith, omega arith, omega arith)

abbrev three_bytes : List ℕ
three_bytes = 1 ∷ 255 ∷ 16 ∷ []

three_bytes-IsU8 : All IsU8 three_bytes
three_bytes-IsU8 = (omega arith, (omega arith, (omega arith, tt)))

mul-mod_example :
    (to_nat (mul wide small) ≡ to_nat wide * to_nat small % u256_mod) × IsUint256 (mul wide small)
mul-mod_example = mul-mod wide small wide-IsUint256 small-IsUint256

slt_iff_example : (slt wide small ≡ true) ↔ (to_int wide <ℤ to_int small)
slt_iff_example = slt_iff wide small wide-IsUint256 small-IsUint256

exp-mod_example :
    Represents (exp wide small) (to_nat wide ^ to_nat small % u256_mod)
    × ((result : Uint256) × (exp_loop 257 (from_u64 1) wide small ≡ some result))
exp-mod_example = exp-mod wide small wide-IsUint256 small-IsUint256
