-- ===== src/Uint256/Mul.antt =====
-- Multiplication wraps modulo 2^256.
use div.Common.{ℕ, ◌-◌, ◌*◌, ◌%◌, ◌^◌, ◌≤◌, ◌≡◌, arith, IsU64}
use div.Uint256.{Uint256, IsUint256, to_nat, u256_mod, mul}
use native.Mathlib.Nat.{mul-le-mul}

-- The product of two 64-bit words leaves room for two more words in 128 bits.
product_bound : (x y : ℕ) → IsU64 x → IsU64 y → x * y ≤ (2 ^ 64 - 1) * (2 ^ 64 - 1)
product_bound x y p q = mul-le-mul {n₂ = 2 ^ 64 - 1} {m₂ = 2 ^ 64 - 1} (omega arith) (omega arith)

-- Multiplication of two words is multiplication modulo 2^256, and gives a word.
pub mul-mod :
    (a b : Uint256)
    → IsUint256 a
    → IsUint256 b
    → (to_nat (mul a b) ≡ to_nat a * to_nat b % u256_mod) × IsUint256 (mul a b)
unfolding mul
mul-mod a b p q = (
  omega (
    arith,
    product_bound a.limb0 b.limb0 p.0 q.0,
    product_bound a.limb0 b.limb1 p.0 q.1,
    product_bound a.limb1 b.limb0 p.1 q.0,
    product_bound a.limb0 b.limb2 p.0 q.2,
    product_bound a.limb1 b.limb1 p.1 q.1,
    product_bound a.limb2 b.limb0 p.2 q.0,
  ),
  (omega arith, omega arith, omega arith, omega arith),
)
