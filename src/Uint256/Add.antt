-- ===== src/Uint256/Add.antt =====
-- Addition, subtraction and negation wrap modulo 2^256.
use div.Common.{ℕ, ◌+◌, ◌-◌, ◌*◌, ◌%◌, ◌^◌, ◌<◌, ◌≡◌, arith, IsU64}
use div.Uint256.{
  Uint256, IsUint256, to_nat, u256_mod, add_carry, add, subcll, sub, negate, bitwise_not, from_u64,
}

-- The carry chain of the four limbs loses nothing: the limbs of the sum and the carry out of the
-- last limb, which counts 2^256, are the sum of the two numbers.
pub add_carry_exact :
    (a b : Uint256)
    → IsUint256 a
    → IsUint256 b
    → (to_nat (add_carry a b).0 + (add_carry a b).1 * u256_mod ≡ to_nat a + to_nat b)
      × IsUint256 (add_carry a b).0
      × ((add_carry a b).1 < 2)
unfolding add_carry
add_carry_exact a b p q =
    (omega arith, (omega arith, omega arith, omega arith, omega arith), omega arith)

-- Addition of two words is addition modulo 2^256, and gives a word.
pub add-mod :
    (a b : Uint256)
    → IsUint256 a
    → IsUint256 b
    → (to_nat (add a b) ≡ (to_nat a + to_nat b) % u256_mod) × IsUint256 (add a b)
unfolding add add_carry
add-mod a b p q = let h = add_carry_exact a b p q in (omega arith, h.1)

-- One limb of the borrow chain: the borrow out stands for 2^64.
subcll_exact :
    (a b w : ℕ)
    → IsU64 a
    → IsU64 b
    → w < 2
    → ((subcll a b w).0 + b + w ≡ a + (subcll a b w).1 * 2 ^ 64)
      × ((subcll a b w).0 < 2 ^ 64)
      × ((subcll a b w).1 < 2)
subcll_exact a b w p q r = ground arith

-- Subtraction of two words is subtraction modulo 2^256, and gives a word.
pub sub-mod :
    (a b : Uint256)
    → IsUint256 a
    → IsUint256 b
    → (to_nat (sub a b) ≡ (to_nat a + u256_mod - to_nat b) % u256_mod) × IsUint256 (sub a b)
unfolding sub
sub-mod a b p q =
    let (r0, w0) = subcll a.limb0 b.limb0 0 in
    let (r1, w1) = subcll a.limb1 b.limb1 w0 in
    let (r2, w2) = subcll a.limb2 b.limb2 w1 in
    let h0 = subcll_exact a.limb0 b.limb0 0 p.0 q.0 (omega arith) in
    let h1 = subcll_exact a.limb1 b.limb1 w0 p.1 q.1 h0.2 in
    let h2 = subcll_exact a.limb2 b.limb2 w1 p.2 q.2 h1.2 in
    let h3 = subcll_exact a.limb3 b.limb3 w2 p.3 q.3 h2.2 in
    (omega arith, (omega arith, omega arith, omega arith, omega arith))

not-IsUint256 : (a : Uint256) → IsUint256 (bitwise_not a)
unfolding bitwise_not
not-IsUint256 a = omega arith

-- Negation of a word is subtraction from 2^256, where 0 stays 0, and gives a word.
pub negate-mod :
    (a : Uint256)
    → IsUint256 a
    → (to_nat (negate a) ≡ (u256_mod - to_nat a) % u256_mod) × IsUint256 (negate a)
unfolding negate bitwise_not add
negate-mod a p =
    let h = add-mod (bitwise_not a) (from_u64 1) (not-IsUint256 a) (omega arith) in
    (omega arith, h.1)
