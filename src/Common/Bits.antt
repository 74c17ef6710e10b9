-- ===== src/Common/Bits.antt =====
-- `&`, `|` and `^` as arithmetic, at every width: masks, fields, and the test for zero.
mod Digit
pub mod Single
use Digit.{and_digit, or_digit, xor_digit, differ_digits}
pub use Digit.{zero-bit_and, zero-bit_or, zero-bit_xor}
use Prim.Native.Nat.{ℕ, zero, suc, ◌+◌, ◌-◌, ◌*◌, ◌/◌, ◌%◌, ◌^◌, ◌≤◌, ◌<◌}
use Prim.Native.Nat.{bit_and, bit_or, bit_xor}
use mathlib.Core.Path.{◌≡◌, refl, ap, sym, ◌∙◌}
use native.Mathlib.Nat.{pow-suc, one-le-pow}
use native.Mathlib.Omega.{arith}

-- Halving ends within `n` rounds, for every number up to `n`.
or_zero_upto : (n a : ℕ) → a ≤ n → bit_or a 0 ≡ a
or_zero_upto n zero h = refl
or_zero_upto zero (suc a) h = absurd (omega arith)
or_zero_upto (suc n) (suc a) h =
    omega (arith, or_digit (suc a) 0, or_zero_upto n (suc a / 2) (omega arith))

pub bit_or-zero : (a : ℕ) → bit_or a 0 ≡ a
bit_or-zero a = or_zero_upto a a (omega arith)

and_zero_upto : (n a : ℕ) → a ≤ n → bit_and a 0 ≡ 0
and_zero_upto n zero h = refl
and_zero_upto zero (suc a) h = absurd (omega arith)
and_zero_upto (suc n) (suc a) h =
    omega (arith, and_digit (suc a) 0, and_zero_upto n (suc a / 2) (omega arith))

pub bit_and-zero : (a : ℕ) → bit_and a 0 ≡ 0
bit_and-zero a = and_zero_upto a a (omega arith)

or_comm_upto : (n a b : ℕ) → a ≤ n → bit_or a b ≡ bit_or b a
or_comm_upto n zero b h = zero-bit_or b ∙ sym (bit_or-zero b)
or_comm_upto zero (suc a) b h = absurd (omega arith)
or_comm_upto (suc n) (suc a) b h = omega (
  arith,
  or_digit (suc a) b,
  or_digit b (suc a),
  or_comm_upto n (suc a / 2) (b / 2) (omega arith),
)

pub bit_or_comm : (a b : ℕ) → bit_or a b ≡ bit_or b a
bit_or_comm a b = or_comm_upto a a b (omega arith)

double_shift : (q k : ℕ) → q * 2 ^ suc k ≡ 2 * (q * 2 ^ k)
double_shift q k = omega (arith, ap (λ (t : ℕ). q * t) (pow-suc 2 k))

-- `(q << k) | r` is a sum when `r` fits into `k` bits.
pub bit_or_fields : (k q r : ℕ) → r < 2 ^ k → bit_or (q * 2 ^ k) r ≡ q * 2 ^ k + r
bit_or_fields zero q r h = ground (arith, bit_or-zero q)
bit_or_fields (suc k) q r h =
    ground
      (arith, or_digit (q * 2 ^ suc k) r, double_shift q k, bit_or_fields k q (r / 2) (omega arith))

-- A mask that is a multiple of `2 ^ k` reads the bits from `k` on.
pub bit_and_high :
    (k q r m : ℕ) → r < 2 ^ k → bit_and (q * 2 ^ k + r) (m * 2 ^ k) ≡ bit_and q m * 2 ^ k
bit_and_high zero q r m h = ground arith
bit_and_high (suc k) q r m h = ground (
  arith,
  and_digit (q * 2 ^ suc k + r) (m * 2 ^ suc k),
  double_shift q k,
  double_shift m k,
  double_shift (bit_and q m) k,
  bit_and_high k q (r / 2) m (omega arith),
)

low_mask_fields : (k q r : ℕ) → r < 2 ^ k → bit_and (q * 2 ^ k + r) (2 ^ k - 1) ≡ r
low_mask_fields zero q r h = ground (arith, bit_and-zero (q + r))
low_mask_fields (suc k) q r h = ground (
  arith,
  and_digit (q * 2 ^ suc k + r) (2 ^ suc k - 1),
  double_shift q k,
  pow-suc 2 k,
  low_mask_fields k q (r / 2) (omega arith),
)

-- A mask of the low `k` bits is the remainder by `2 ^ k`.
pub bit_and_mask : (k a : ℕ) → bit_and a (2 ^ k - 1) ≡ a % 2 ^ k
bit_and_mask k a = ground (arith, one-le-pow k 2, low_mask_fields k (a / 2 ^ k) (a % 2 ^ k))

or_eq_zero_upto : (n a b : ℕ) → a ≤ n → bit_or a b ≡ 0 → (a ≡ 0) × (b ≡ 0)
or_eq_zero_upto n zero b h e = (refl, sym (zero-bit_or b) ∙ e)
or_eq_zero_upto zero (suc a) b h e = absurd (omega arith)
or_eq_zero_upto (suc n) (suc a) b h e =
    ground (arith, or_digit (suc a) b, or_eq_zero_upto n (suc a / 2) (b / 2) (omega arith))

pub bit_or-eq_zero : (a b : ℕ) → bit_or a b ≡ 0 → (a ≡ 0) × (b ≡ 0)
bit_or-eq_zero a b e = or_eq_zero_upto a a b (omega arith) e

xor_eq_zero_upto : (n a b : ℕ) → a ≤ n → bit_xor a b ≡ 0 → a ≡ b
xor_eq_zero_upto n zero b h e = sym e ∙ zero-bit_xor b
xor_eq_zero_upto zero (suc a) b h e = absurd (omega arith)
xor_eq_zero_upto (suc n) (suc a) b h e = ground (
  arith,
  xor_digit (suc a) b,
  differ_digits (suc a % 2) (b % 2),
  xor_eq_zero_upto n (suc a / 2) (b / 2) (omega arith),
)

pub bit_xor-eq_zero : (a b : ℕ) → bit_xor a b ≡ 0 → a ≡ b
bit_xor-eq_zero a b e = xor_eq_zero_upto a a b (omega arith) e

xor_self_upto : (n a : ℕ) → a ≤ n → bit_xor a a ≡ 0
xor_self_upto n zero h = refl
xor_self_upto zero (suc a) h = absurd (omega arith)
xor_self_upto (suc n) (suc a) h = ground (
  arith,
  xor_digit (suc a) (suc a),
  differ_digits (suc a % 2) (suc a % 2),
  xor_self_upto n (suc a / 2) (omega arith),
)

pub bit_xor_self : (a : ℕ) → bit_xor a a ≡ 0
bit_xor_self a = xor_self_upto a a (omega arith)
