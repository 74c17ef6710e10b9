-- ===== src/Uint256/Exp.antt =====
-- Exponentiation by squaring is the power modulo 2^256, and its loop ends.
use div.Common.{
  ℕ, zero, suc, ◌+◌, ◌-◌, ◌*◌, ◌/◌, ◌%◌, ◌^◌, ◌≤◌, ◌<◌, ◌≡◌, refl, sym, ap, ap₂, ◌∙◌, ◌≢◌, arith,
  true, false, inl, inr, Bool-cases, bit_and, bit_or, ◌!=◌, u64, ◌>>>◌, ◌<<<◌, if◌then◌else◌, some,
}
use div.Common.Bits.{bit_and_mask, bit_or_fields, bit_or_comm}
use div.Common.Modular.{mod-mul-mod, mul-mod-mod, pow-mod, pow_square, pow_even_mod}
use div.Uint256.{
  Uint256, IsUint256, Represents, to_nat, u256_mod, from_u64, is_zero, eq, mul, shift_right_one,
  exp_loop, exp, vanishes,
}
use div.Uint256.Mul.{mul-mod}
use div.Uint256.Order.{is_zero_iff, is_zero_ne, eq_iff}
use native.Mathlib.Nat.{pow-zero, pow-suc, one-mul}

-- A word shifted down by one bit takes the lowest bit of the limb above.
shifted_limb :
    (lo hi : ℕ) → lo < 2 ^ 64 → bit_or (lo >>> 1) (u64 (hi <<< 63)) ≡ hi % 2 * 2 ^ 63 + lo / 2
shifted_limb lo hi h =
    bit_or_comm (lo >>> 1) (u64 (hi <<< 63))
    ∙ ap (λ t. bit_or t (lo / 2)) top
    ∙ bit_or_fields 63 (hi % 2) (lo / 2) (omega arith)
  where
    top : u64 (hi <<< 63) ≡ hi % 2 * 2 ^ 63
    top = omega arith

shift_right_one_half :
    (e : Uint256)
    → IsUint256 e
    → (to_nat (shift_right_one e) ≡ to_nat e / 2) × IsUint256 (shift_right_one e)
unfolding shift_right_one
shift_right_one_half e p =
    let h0 = shifted_limb e.limb0 e.limb1 p.0 in
    let h1 = shifted_limb e.limb1 e.limb2 p.1 in
    let h2 = shifted_limb e.limb2 e.limb3 p.2 in
    (omega arith, (omega arith, omega arith, omega arith, omega arith))

-- One round of the loop keeps the product of the result and the power still to come.
round_even : (r m n : ℕ) → n % 2 ≡ 0 → r * (m * m) ^ (n / 2) ≡ r * m ^ n
round_even r m n h =
    let twice : 2 * (n / 2) ≡ n = omega arith in
    ap (λ t. r * t) (pow_square m (n / 2) ∙ ap (λ t. m ^ t) twice)

round_odd : (r m n : ℕ) → n % 2 ≡ 1 → r * m * (m * m) ^ (n / 2) ≡ r * m ^ n
round_odd r m n h =
    let twice : n ≡ suc (2 * (n / 2)) = omega arith in
    let power : m ^ n ≡ m ^ (2 * (n / 2)) * m = ap (λ t. m ^ t) twice ∙ pow-suc m (2 * (n / 2)) in
    rw (power, pow_square m (n / 2)) (omega arith)

-- The words of one round are reduced modulo `M`, which the product does not notice.
reduced_square : (r m n M : ℕ) → r * (m * m % M) ^ n % M ≡ r * (m * m) ^ n % M
reduced_square r m n M =
    sym (mul-mod-mod r ((m * m % M) ^ n) M)
    ∙ ap (λ t. r * t % M) (pow-mod (m * m) n M)
    ∙ mul-mod-mod r ((m * m) ^ n) M

low_bit : (x : ℕ) → bit_and x 1 ≡ x % 2
low_bit x = bit_and_mask 1 x

-- With nothing left of the exponent the result is final.
final_value : (r m n : ℕ) → r < u256_mod → n ≡ 0 → r ≡ r * m ^ n % u256_mod
final_value r m n h e = rw (e, pow-zero m) (omega arith)

word_below : (a : Uint256) → IsUint256 a → to_nat a < u256_mod
word_below a p = omega arith

-- The round's new result: it takes the multiplier in if the exponent is odd.
round_value :
    (r m e : Uint256)
    → IsUint256 r
    → IsUint256 m
    → let r' = if bit_and e.limb0 1 != 0 then mul r m else r in
      IsUint256 r'
      × (to_nat r' * (to_nat m * to_nat m) ^ (to_nat e / 2) % u256_mod
          ≡ to_nat r * to_nat m ^ to_nat e % u256_mod)
round_value r m e pr pm = elim (Bool-cases (bit_and e.limb0 1 != 0)) [
  | inl odd ↦ rw odd (
    (mul-mod r m pr pm).1,
    ap (λ t. t * (to_nat m * to_nat m) ^ (to_nat e / 2) % u256_mod) (mul-mod r m pr pm).0
        ∙ mod-mul-mod (to_nat r * to_nat m) ((to_nat m * to_nat m) ^ (to_nat e / 2)) u256_mod
        ∙ ap (λ t. t % u256_mod) (round_odd (to_nat r) (to_nat m) (to_nat e) (is_odd odd)),
  )
  | inr even ↦
      rw even
        (pr, ap (λ t. t % u256_mod) (round_even (to_nat r) (to_nat m) (to_nat e) (is_even even)))
]
  where
    is_odd : (bit_and e.limb0 1 != 0) ≡ true → to_nat e % 2 ≡ 1
    is_odd t = ground (arith, low_bit e.limb0)

    is_even : (bit_and e.limb0 1 != 0) ≡ false → to_nat e % 2 ≡ 0
    is_even t = ground (arith, low_bit e.limb0)

exp_loop_stop : (k : ℕ) (r m e : Uint256) → is_zero e ≡ true → exp_loop (suc k) r m e ≡ some r
unfolding exp_loop
exp_loop_stop k r m e done = rw done refl

exp_loop_step :
    (k : ℕ) (r m e : Uint256)
    → is_zero e ≡ false
    → exp_loop (suc k) r m e
      ≡ exp_loop k (if bit_and e.limb0 1 != 0 then mul r m else r) (mul m m) (shift_right_one e)
unfolding exp_loop
exp_loop_step k r m e more = rw more refl

-- The loop ends within one round more than the `k` bits that hold the exponent, and its result is
-- the product of the start value and the whole power.
pub exp_loop-mod :
    (k : ℕ) (r m e : Uint256)
    → IsUint256 r
    → IsUint256 m
    → IsUint256 e
    → to_nat e < 2 ^ k
    → (result : Uint256) × (exp_loop (suc k) r m e ≡ some result)
      × Represents result (to_nat r * to_nat m ^ to_nat e % u256_mod)
exp_loop-mod zero r m e pr pm pe h =
    let none_left : to_nat e ≡ 0 = omega arith in
    (
      r,
      exp_loop_stop zero r m e ((is_zero_iff e).1 none_left),
      (final_value (to_nat r) (to_nat m) (to_nat e) (word_below r pr) none_left, pr),
    )
exp_loop-mod (suc k) r m e pr pm pe h = elim (Bool-cases (is_zero e)) [
  | inl done ↦ (
    r,
    exp_loop_stop (suc k) r m e done,
    (final_value (to_nat r) (to_nat m) (to_nat e) (word_below r pr) ((is_zero_iff e).0 done), pr),
  )
  | inr more ↦
      let r' = if bit_and e.limb0 1 != 0 then mul r m else r in
      let square = mul-mod m m pm pm in
      let half = shift_right_one_half e pe in
      let value = round_value r m e pr pm in
      let fits : to_nat (shift_right_one e) < 2 ^ k = omega (arith, pow-suc 2 k) in
      let ih = exp_loop-mod k r' (mul m m) (shift_right_one e) value.0 square.1 half.1 fits in
      (
        ih.0,
        exp_loop_step (suc k) r m e more ∙ ih.1,
        (
          ih.2.0
              ∙ ap₂ (λ s t. to_nat r' * s ^ t % u256_mod) square.0 half.0
              ∙ reduced_square (to_nat r') (to_nat m) (to_nat e / 2) u256_mod
              ∙ value.1,
          ih.2.1,
        ),
      )
]

-- A positive power of 0 and any power of 1.
zero_power : (n : ℕ) → n ≢ 0 → 0 ^ n ≡ 0
zero_power zero h = absurd (h refl)
zero_power (suc n) h = rw (pow-suc 0 n) (omega arith)

one_power : (n : ℕ) → 1 ^ n ≡ 1
one_power zero = refl
one_power (suc n) = rw (pow-suc 1 n, one_power n) refl

-- The shortcut for an even base: from the exponent 256 on nothing is left modulo 2^256.
even_power : (b n : ℕ) → b % 2 ≡ 0 → 256 ≤ n → b ^ n % u256_mod ≡ 0
even_power b n even large =
    let halves : b ≡ 2 * (b / 2) = omega arith in
    let split : n ≡ 256 + (n - 256) = omega arith in
    ap₂ (λ s t. s ^ t % u256_mod) halves split ∙ pow_even_mod (b / 2) 256 (n - 256)

vanishes_value :
    (b e : Uint256)
    → IsUint256 b
    → IsUint256 e
    → vanishes b e ≡ true
    → to_nat b ^ to_nat e % u256_mod ≡ 0
unfolding vanishes
vanishes_value b e pb pe t = even_power (to_nat b) (to_nat e) even large
  where
    even : to_nat b % 2 ≡ 0
    even = ground (arith, low_bit b.limb0)

    large : 256 ≤ to_nat e
    large = ground arith

loop_value :
    (b e : Uint256)
    → IsUint256 b
    → IsUint256 e
    → (result : Uint256) × (exp_loop 257 (from_u64 1) b e ≡ some result)
      × Represents result (to_nat b ^ to_nat e % u256_mod)
loop_value b e pb pe =
    let start : IsUint256 (from_u64 1) = omega arith in
    let h = exp_loop-mod 256 (from_u64 1) b e start pb pe (word_below e pe) in
    (h.0, h.1, (h.2.0 ∙ ap (λ t. t % u256_mod) (one-mul (to_nat b ^ to_nat e)), h.2.1))

exp_value :
    (b e : Uint256)
    → IsUint256 b
    → IsUint256 e
    → Represents (exp b e) (to_nat b ^ to_nat e % u256_mod)
unfolding exp
exp_value b e pb pe = elim (Bool-cases (is_zero e)) [
  | inl zero_exponent ↦ rw zero_exponent (
    sym (
        ap (λ t. to_nat b ^ t % u256_mod) ((is_zero_iff e).0 zero_exponent)
        ∙ ap (λ t. t % u256_mod) (pow-zero (to_nat b))),
    omega arith,
  )
  | inr positive ↦ rw positive (elim (Bool-cases (is_zero b)) [
    | inl zero_base ↦ rw zero_base (
      sym (
          ap (λ t. t ^ to_nat e % u256_mod) ((is_zero_iff b).0 zero_base)
          ∙ ap (λ t. t % u256_mod) (zero_power (to_nat e) (is_zero_ne e positive))),
      omega arith,
    )
    | inr other ↦ rw other (elim (Bool-cases (eq b (from_u64 1))) [
      | inl one_base ↦ rw one_base (
        sym (
            ap (λ t. t ^ to_nat e % u256_mod) ((eq_iff b (from_u64 1) pb (omega arith)).0 one_base)
            ∙ ap (λ t. t % u256_mod) (one_power (to_nat e))),
        omega arith,
      )
      | inr large_base ↦ rw large_base (elim (Bool-cases (vanishes b e)) [
        | inl gone ↦ rw gone (sym (vanishes_value b e pb pe gone), omega arith)
        | inr stays ↦ (let ended = loop_value b e pb pe in rw (stays, ended.1) ended.2)
      ])
    ])
  ])
]

-- `exp` of two words is the power of their numbers modulo 2^256, on each of its shortcuts and by
-- its loop, which from any two words ends within the 257 rounds of its fuel.
pub exp-mod :
    (b e : Uint256)
    → IsUint256 b
    → IsUint256 e
    → Represents (exp b e) (to_nat b ^ to_nat e % u256_mod)
      × ((result : Uint256) × (exp_loop 257 (from_u64 1) b e ≡ some result))
exp-mod b e pb pe = let ended = loop_value b e pb pe in (exp_value b e pb pe, (ended.0, ended.1))
