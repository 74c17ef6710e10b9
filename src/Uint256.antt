-- ===== src/Uint256.antt =====
-- include/div0/types/uint256.h and the multiplication of src/types/uint256.c: a 256-bit word as
-- four 64-bit limbs, the least significant first. `to_nat` is the number that the limbs stand for.
pub mod Add
pub mod Mul
pub mod Order
pub mod Signed
pub mod Exp
pub mod ByteLength
pub mod Bytes
use div.Common.{
  ℕ, zero, suc, ◌+◌, ◌-◌, ◌*◌, ◌/◌, ◌%◌, ◌^◌, ◌<◌, bit_and, bit_or, bit_xor, Bool, true, false,
  ◌&&◌, ◌||◌, not, ltb, leb, ◌==◌, ◌!=◌, if◌then◌else◌, u64, u64_max, IsU64, ◌<<<◌, ◌>>>◌, ◌≡◌,
  Option, none, some,
}

pub record Uint256 : Type 0 where
  pub limb0 : ℕ
  pub limb1 : ℕ
  pub limb2 : ℕ
  pub limb3 : ℕ

-- Every limb is a uint64_t.
abbrev pub IsUint256 : Uint256 → Type 0
IsUint256 a = (a.limb0 < 2 ^ 64) × (a.limb1 < 2 ^ 64) × (a.limb2 < 2 ^ 64) × (a.limb3 < 2 ^ 64)

abbrev pub to_nat : Uint256 → ℕ
to_nat a = a.limb0 + a.limb1 * 2 ^ 64 + a.limb2 * 2 ^ 128 + a.limb3 * 2 ^ 192

-- The word `a` is well formed and stands for `n`.
abbrev pub Represents : Uint256 → ℕ → Type 0
Represents a n = (to_nat a ≡ n) × IsUint256 a

abbrev pub u256_mod : ℕ
u256_mod = 2 ^ 256

abbrev pub from_limbs : ℕ → ℕ → ℕ → ℕ → Uint256
from_limbs a b c d = record { limb0 = a; limb1 = b; limb2 = c; limb3 = d }

abbrev pub u256_zero : Uint256
u256_zero = from_limbs 0 0 0 0

abbrev pub from_u64 : ℕ → Uint256
from_u64 v = from_limbs v 0 0 0

unfoldable pub is_zero : Uint256 → Bool
is_zero a = bit_or (bit_or (bit_or a.limb0 a.limb1) a.limb2) a.limb3 == 0

unfoldable pub fits_u64 : Uint256 → Bool
fits_u64 a = bit_or (bit_or a.limb1 a.limb2) a.limb3 == 0

abbrev pub to_u64_unsafe : Uint256 → ℕ
to_u64_unsafe a = a.limb0

unfoldable pub eq : Uint256 → Uint256 → Bool
eq a b =
    let diff =
      bit_or
        (bit_or (bit_or (bit_xor a.limb0 b.limb0) (bit_xor a.limb1 b.limb1))
          (bit_xor a.limb2 b.limb2))
        (bit_xor a.limb3 b.limb3) in
    diff == 0

-- `__builtin_addcll`: the sum of two words and a carry, with the carry out.
abbrev pub addcll : ℕ → ℕ → ℕ → ℕ × ℕ
addcll a b carry = ((a + b + carry) % 2 ^ 64, (a + b + carry) / 2 ^ 64)

-- `__builtin_subcll`: the difference of two words and a borrow, with the borrow out.
abbrev pub subcll : ℕ → ℕ → ℕ → ℕ × ℕ
subcll a b borrow = ((a + 2 ^ 64 - (b + borrow)) % 2 ^ 64, if ltb a (b + borrow) then 1 else 0)

-- The sum with the carry out of the highest limb, which `add` drops and `addmod` reads.
unfoldable pub add_carry : Uint256 → Uint256 → Uint256 × ℕ
add_carry a b =
    let (r0, c0) = addcll a.limb0 b.limb0 0 in
    let (r1, c1) = addcll a.limb1 b.limb1 c0 in
    let (r2, c2) = addcll a.limb2 b.limb2 c1 in
    let (r3, c3) = addcll a.limb3 b.limb3 c2 in (from_limbs r0 r1 r2 r3, c3)

unfoldable pub add : Uint256 → Uint256 → Uint256
unfolding add_carry
add a b = (add_carry a b).0

unfoldable pub sub : Uint256 → Uint256 → Uint256
sub a b =
    let (r0, b0) = subcll a.limb0 b.limb0 0 in
    let (r1, b1) = subcll a.limb1 b.limb1 b0 in
    let (r2, b2) = subcll a.limb2 b.limb2 b1 in
    let (r3, b3) = subcll a.limb3 b.limb3 b2 in from_limbs r0 r1 r2 r3

unfoldable pub lt : Uint256 → Uint256 → Bool
lt a b =
    if a.limb3 != b.limb3
    then ltb a.limb3 b.limb3
    else if a.limb2 != b.limb2
    then ltb a.limb2 b.limb2
    else if a.limb1 != b.limb1
    then ltb a.limb1 b.limb1
    else ltb a.limb0 b.limb0

unfoldable pub gt : Uint256 → Uint256 → Bool
unfolding lt
gt a b = lt b a

unfoldable pub is_negative : Uint256 → Bool
is_negative a = a.limb3 >>> 63 != 0

unfoldable pub slt : Uint256 → Uint256 → Bool
slt a b =
    let a_neg = is_negative a in
    let b_neg = is_negative b in
    if a_neg then (if b_neg then lt a b else true) else if b_neg then false else lt a b

unfoldable pub sgt : Uint256 → Uint256 → Bool
unfolding slt
sgt a b = slt b a

abbrev pub u128 : ℕ → ℕ
u128 n = n % 2 ^ 128

-- Schoolbook multiplication modulo 2^256, column by column.
unfoldable pub mul : Uint256 → Uint256 → Uint256
mul a b =
    let p00 = a.limb0 * b.limb0 in
    let p01 = a.limb0 * b.limb1 in
    let p10 = a.limb1 * b.limb0 in
    let p02 = a.limb0 * b.limb2 in
    let p11 = a.limb1 * b.limb1 in
    let p20 = a.limb2 * b.limb0 in
    let col1 = u128 (p00 >>> 64 + u64 p01 + u64 p10) in
    let col2 = u128 (col1 >>> 64 + p01 >>> 64 + p10 >>> 64 + u64 p02 + u64 p11 + u64 p20) in
    let r3 = u64 (
      u64 (col2 >>> 64)
      + u64 (p02 >>> 64)
      + u64 (p11 >>> 64)
      + u64 (p20 >>> 64)
      + u64 (a.limb0 * b.limb3)
      + u64 (a.limb1 * b.limb2)
      + u64 (a.limb2 * b.limb1)
      + u64 (a.limb3 * b.limb0)) in
    from_limbs (u64 p00) (u64 col1) (u64 col2) r3

-- `~` on a uint64_t.
abbrev pub not_u64 : ℕ → ℕ
not_u64 n = u64_max - n

unfoldable pub bitwise_not : Uint256 → Uint256
bitwise_not a = from_limbs (not_u64 a.limb0) (not_u64 a.limb1) (not_u64 a.limb2) (not_u64 a.limb3)

unfoldable pub negate : Uint256 → Uint256
unfolding add bitwise_not
negate a =
    let not_a =
      from_limbs (not_u64 a.limb0) (not_u64 a.limb1) (not_u64 a.limb2) (not_u64 a.limb3) in
    add not_a (from_u64 1)

-- `exp.limbs` shifted right by one bit, limb by limb.
unfoldable pub shift_right_one : Uint256 → Uint256
shift_right_one e =
    from_limbs (bit_or (e.limb0 >>> 1) (u64 (e.limb1 <<< 63)))
      (bit_or (e.limb1 >>> 1) (u64 (e.limb2 <<< 63)))
      (bit_or (e.limb2 >>> 1) (u64 (e.limb3 <<< 63))) (e.limb3 >>> 1)

-- The square-and-multiply loop; `none` is a loop that has not ended within the fuel.
unfoldable pub exp_loop : ℕ → Uint256 → Uint256 → Uint256 → Option Uint256
exp_loop zero result multiplier e = none
exp_loop (suc fuel) result multiplier e =
    let rest =
      exp_loop fuel (if bit_and e.limb0 1 != 0 then mul result multiplier else result)
        (mul multiplier multiplier) (shift_right_one e) in
    if is_zero e then some result else rest

-- The result of a loop that has ended. Without an end there is no result to return, and 0 stands
-- for it; `Exp` shows that this does not happen in `exp`.
abbrev pub finished : Option Uint256 → Uint256
finished none = u256_zero
finished (some result) = result

-- The test of the shortcut for an even base with a large exponent.
unfoldable pub vanishes : Uint256 → Uint256 → Bool
vanishes base exponent =
    bit_and base.limb0 1 == 0
    && (ltb 255 exponent.limb0 || exponent.limb1 != 0 || exponent.limb2 != 0 || exponent.limb3 != 0)

unfoldable pub exp : Uint256 → Uint256 → Uint256
exp base exponent =
    if is_zero exponent
    then from_u64 1
    else if is_zero base
    then u256_zero
    else if eq base (from_u64 1)
    then from_u64 1
    else if vanishes base exponent
    then u256_zero
    else finished (exp_loop 257 (from_u64 1) base exponent)

-- The `while` loop of `byte_length` from `byte_pos`, one more than the source's index; 0 is -1.
unfoldable pub top_byte : ℕ → ℕ → ℕ
top_byte limb zero = 0
top_byte limb (suc byte_pos) =
    let rest = top_byte limb byte_pos in
    if bit_and (limb >>> (byte_pos * 8)) 0xff == 0 then rest else suc byte_pos

unfoldable pub byte_length : Uint256 → ℕ
byte_length value =
    if value.limb3 != 0
    then 24 + top_byte value.limb3 8
    else if value.limb2 != 0
    then 16 + top_byte value.limb2 8
    else if value.limb1 != 0
    then 8 + top_byte value.limb1 8
    else if value.limb0 != 0
    then 0 + top_byte value.limb0 8
    else 0
