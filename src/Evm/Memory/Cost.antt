-- ===== src/Evm/Memory/Cost.antt =====
-- The rounding to words and the price of an expansion.
use div.Common.{
  ℕ, ◌+◌, ◌-◌, ◌*◌, ◌/◌, ◌%◌, ◌^◌, ◌≤◌, ◌<◌, ◌≡◌, ap, ◌∙◌, arith, leb, leb→le, leb→gt, Bool-cases,
  inl, inr, u64, u64_max, sub_u64, bit_and,
}
use div.Common.Bits.{bit_and_high, bit_and_mask}
use div.Evm.Memory.{round_up_32, memory_cost, expansion_cost}
use native.Mathlib.Nat.{mul-le-mul}

-- On 64 bits the mask drops the low five bits of the sum, which itself may wrap around.
pub round_up_32_words : (n : ℕ) → round_up_32 n ≡ u64 (n + 31) / 32 * 32
unfolding round_up_32
round_up_32_words n =
    let word : ℕ = u64 (n + 31) in
    let split : word ≡ word / 32 * 2 ^ 5 + word % 32 = omega arith in
    ap (λ t. bit_and t (u64_max - 31)) split
    ∙ bit_and_high 5 (word / 32) (word % 32) (2 ^ 59 - 1) (omega arith)
    ∙ omega (arith, bit_and_mask 59 (word / 32))

-- The least multiple of 32 that is not below `n`, as long as it fits into 64 bits.
pub round_up_32_least :
    (n : ℕ)
    → n + 31 < 2 ^ 64
    → (n ≤ round_up_32 n) × (round_up_32 n < n + 32) × (round_up_32 n % 32 ≡ 0)
round_up_32_least n h = omega (arith, round_up_32_words n)

-- The Yellow Paper's cost of a memory of `n` words.
abbrev pub quadratic : ℕ → ℕ
quadratic n = 3 * n + n * n / 512

memory_cost_exact : (n : ℕ) → n < 2 ^ 32 → memory_cost n ≡ quadratic n
memory_cost_exact n h =
    let square : n * n ≤ (2 ^ 32 - 1) * (2 ^ 32 - 1) =
      mul-le-mul {n₂ = 2 ^ 32 - 1} {m₂ = 2 ^ 32 - 1} (omega arith) (omega arith) in
    omega arith

quadratic_mono : (a b : ℕ) → a ≤ b → quadratic a ≤ quadratic b
quadratic_mono a b h = omega (arith, mul-le-mul {n₂ = b} {m₂ = b} h h)

-- Below 2 ^ 32 words the arithmetic on 64 bits is exact: an expansion costs the difference of the
-- costs of the two sizes, and nothing when the memory is large enough.
pub expansion_cost_exact :
    (current_words new_words : ℕ)
    → current_words < 2 ^ 32
    → new_words < 2 ^ 32
    → expansion_cost current_words new_words ≡ quadratic new_words - quadratic current_words
unfolding expansion_cost
expansion_cost_exact a b h k = elim (Bool-cases (leb b a)) [
  | inl enough ↦
      rw enough (omega (arith, leb→le b a enough, quadratic_mono b a (leb→le b a enough)))
  | inr more ↦
      let wider : a ≤ b = omega (arith, leb→gt b a more) in
      let dear : quadratic b < 2 ^ 64 = omega (
        arith,
        mul-le-mul {n₁ = b} {m₁ = b} {n₂ = 2 ^ 32 - 1} {m₂ = 2 ^ 32 - 1} (omega arith)
            (omega arith),
      ) in
      rw more (
        ap (λ t. sub_u64 t (memory_cost a)) (memory_cost_exact b k)
        ∙ ap (λ t. sub_u64 (quadratic b) t) (memory_cost_exact a h)
        ∙ omega (arith, quadratic_mono a b wider))
]

-- Expanding in two steps costs as much as expanding at once.
pub expansion_cost_steps :
    (a b c : ℕ)
    → a ≤ b
    → b ≤ c
    → c < 2 ^ 32
    → expansion_cost a b + expansion_cost b c ≡ expansion_cost a c
expansion_cost_steps a b c h k r = omega (
  arith,
  expansion_cost_exact a b (omega arith) (omega arith),
  expansion_cost_exact b c (omega arith) r,
  expansion_cost_exact a c (omega arith) r,
  quadratic_mono a b h,
  quadratic_mono b c k,
)
