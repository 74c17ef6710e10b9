-- ===== src/Common/Bits/Single.antt =====
-- Setting and testing one bit.
use div.Common.Bits.Digit.{and_digit, or_digit}
use div.Common.Bits.{bit_and-zero, bit_or-zero}
use Prim.Native.Nat.{ℕ, zero, suc, ◌*◌, ◌/◌, ◌%◌, ◌^◌, ◌<◌, bit_and, bit_or}
use mathlib.Core.Path.{◌≡◌, refl, ap, ◌∙◌}
use mathlib.Core.Logic.{◌≢◌}
use native.Mathlib.Nat.{pow-suc}
use native.Mathlib.Omega.{arith}

-- The binary digit at a position.
abbrev pub digit : ℕ → ℕ → ℕ
digit n zero = n % 2
digit n (suc j) = digit (n / 2) j

pub digit-bound : (n j : ℕ) → digit n j < 2
digit-bound n zero = omega arith
digit-bound n (suc j) = digit-bound (n / 2) j

-- A mask with one bit reads that bit.
pub bit_and_pow : (n j : ℕ) → bit_and n (2 ^ j) ≡ digit n j * 2 ^ j
bit_and_pow n zero = ground (arith, and_digit n 1, bit_and-zero (n / 2))
bit_and_pow n (suc j) =
    let half : 2 ^ suc j / 2 ≡ 2 ^ j = omega (arith, pow-suc 2 j) in
    omega (
      arith,
      and_digit n (2 ^ suc j),
      ap (bit_and (n / 2)) half,
      bit_and_pow (n / 2) j,
      pow-suc 2 j,
      ap (λ (t : ℕ). digit (n / 2) j * t) (pow-suc 2 j),
    )

or_half : (n k : ℕ) → bit_or n (2 ^ suc k) / 2 ≡ bit_or (n / 2) (2 ^ k)
or_half n k =
    let half : 2 ^ suc k / 2 ≡ 2 ^ k = omega (arith, pow-suc 2 k) in
    omega (arith, or_digit n (2 ^ suc k), ap (bit_or (n / 2)) half, pow-suc 2 k)

pub digit-bit_or_self : (n k : ℕ) → digit (bit_or n (2 ^ k)) k ≡ 1
digit-bit_or_self n zero = omega (arith, or_digit n 1)
digit-bit_or_self n (suc k) = ap (λ t. digit t k) (or_half n k) ∙ digit-bit_or_self (n / 2) k

pub digit-bit_or_ne : (n k j : ℕ) → k ≢ j → digit (bit_or n (2 ^ k)) j ≡ digit n j
digit-bit_or_ne n zero zero h = absurd (h refl)
digit-bit_or_ne n zero (suc j) h =
    let rest : bit_or n 1 / 2 ≡ n / 2 = omega (arith, or_digit n 1, bit_or-zero (n / 2)) in
    ap (λ t. digit t j) rest
digit-bit_or_ne n (suc k) zero h = omega (arith, or_digit n (2 ^ suc k), pow-suc 2 k)
digit-bit_or_ne n (suc k) (suc j) h =
    ap (λ t. digit t j) (or_half n k) ∙ digit-bit_or_ne (n / 2) k j (λ e. h (ap suc e))

-- `|` stays within the width of its operands.
pub bit_or-bound : (w a b : ℕ) → a < 2 ^ w → b < 2 ^ w → bit_or a b < 2 ^ w
bit_or-bound zero a b h k =
    let left : a ≡ 0 = omega arith in
    let right : b ≡ 0 = omega arith in rw (left, right) (omega arith)
bit_or-bound (suc w) a b h k = omega (
  arith,
  or_digit a b,
  pow-suc 2 w,
  bit_or-bound w (a / 2) (b / 2) (omega (arith, pow-suc 2 w)) (omega (arith, pow-suc 2 w)),
)
