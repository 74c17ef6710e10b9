-- ===== src/Evm/Memory/Limits.antt =====
-- Ranges of bytes that end above 2 ^ 63, where the 64-bit arithmetic of `expand` wraps around.
use div.Common.{
  ℕ, zero, suc, ◌+◌, ◌-◌, ◌*◌, ◌/◌, ◌^◌, ◌≤◌, ◌<◌, ◌≡◌, refl, ap, ◌∙◌, arith, Bool, true, false,
  none, some, ◌⊎◌, inl, inr, ltb, leb, ◌==◌, if◌then◌else◌, le→ltb, lt→ltb, lt→leb, u64, u64_max,
}
use div.Evm.Memory.{EvmMemory, IsValid, round_up_32, expansion_cost, double_until, reserve, expand}
use div.Evm.Memory.Cost.{round_up_32_words, round_up_32_least}
use div.Evm.Memory.Contents.{expand_enough}
use native.Mathlib.Nat.{pow-suc, pow-le-pow_right, one-le-pow}

-- From 0 the doubling never moves.
double_until-zero : (fuel new_size : ℕ) → 0 < new_size → double_until fuel new_size 0 ≡ none
unfolding double_until
double_until-zero zero new_size h = refl
double_until-zero (suc fuel) new_size h =
    rw (lt→ltb 0 new_size h) (double_until-zero fuel new_size h)

double_step :
    (fuel new_size c : ℕ)
    → c < new_size
    → double_until (suc fuel) new_size c ≡ double_until fuel new_size (u64 (c * 2))
unfolding double_until
double_step fuel new_size c h = rw (lt→ltb c new_size h) refl

-- A power of two doubles to 2 ^ 63, and then to 0.
double_until-power :
    (fuel new_size k d : ℕ)
    → k + d ≡ 63
    → 2 ^ 63 < new_size
    → double_until fuel new_size (2 ^ k) ≡ none
unfolding double_until
double_until-power zero new_size k d e b = refl
double_until-power (suc fuel) new_size k zero e b =
    let last : k ≡ 63 = omega arith in
    ap (λ t. double_until (suc fuel) new_size (2 ^ t)) last
    ∙ double_step fuel new_size (2 ^ 63) b
    ∙ double_until-zero fuel new_size (omega arith)
double_until-power (suc fuel) new_size k (suc d) e b =
    let bound : 2 ^ k ≤ 2 ^ 62 =
      pow-le-pow_right {n = 2} (omega arith) {i = k} {j = 62} (omega arith) in
    let below : 2 ^ k < new_size = omega (arith, bound) in
    let next : u64 (2 ^ k * 2) ≡ 2 ^ suc k = omega (arith, bound, pow-suc 2 k) in
    double_step fuel new_size (2 ^ k) below
    ∙ ap (double_until fuel new_size) next
    ∙ double_until-power fuel new_size (suc k) d (omega arith) b

-- The capacities that `expand` itself makes: none, or 1024 doubled.
abbrev pub IsDoubled : ℕ → Type 0
IsDoubled capacity = (capacity ≡ 0) ⊎ ((k : ℕ) × (k ≤ 63) × (capacity ≡ 2 ^ k))

start_power :
    (fuel new_size : ℕ) (m : EvmMemory)
    → IsDoubled m.capacity
    → 2 ^ 63 < new_size
    → double_until fuel new_size (if m.capacity == 0 then 1024 else m.capacity) ≡ none
start_power fuel new_size m (inl e) b = rw e (double_until-power fuel new_size 10 53 refl b)
start_power fuel new_size m (inr (k, h, e)) b =
    let bits : 1 ≤ 2 ^ k = one-le-pow k 2 (omega arith) in
    let used : (m.capacity == 0) ≡ false = ground (arith, bits, e) in
    let split : k + (63 - k) ≡ 63 = omega arith in
    rw (used, e) (double_until-power fuel new_size k (63 - k) split b)

doubled_bound : (capacity : ℕ) → IsDoubled capacity → capacity ≤ 2 ^ 63
doubled_bound capacity (inl e) = omega arith
doubled_bound capacity (inr (k, h, e)) =
    omega (arith, pow-le-pow_right {n = 2} (omega arith) {i = k} {j = 63} h)

expansion_cost_zero : (current_words : ℕ) → expansion_cost current_words 0 ≡ 0
unfolding expansion_cost
expansion_cost_zero current_words = ground arith

module _ (alloc : ℕ → Bool) (fresh : ℕ) where
  reserve_hangs :
      (fuel new_size : ℕ) (m : EvmMemory)
      → IsDoubled m.capacity
      → 2 ^ 63 < new_size
      → reserve alloc fresh fuel new_size m ≡ none
  unfolding reserve
  reserve_hangs fuel new_size m d b =
      let more : leb new_size m.capacity ≡ false =
        lt→leb m.capacity new_size (omega (arith, doubled_bound m.capacity d)) in
      rw (more, start_power fuel new_size m d b) refl

  -- A range of bytes that ends above 2 ^ 63, and at most at 2 ^ 64 - 32, on a valid memory whose
  -- capacity is 0 or a power of 2: the loop that doubles
  -- the capacity wraps around to 0 and goes on for ever, with whatever fuel.
  pub expand_hangs :
      (fuel offset size gas : ℕ) (m : EvmMemory)
      → IsValid m
      → IsDoubled m.capacity
      → 0 < size
      → 2 ^ 63 < offset + size
      → offset + size ≤ 2 ^ 64 - 32
      → expand alloc fresh fuel offset size gas m ≡ none
  unfolding expand
  expand_hangs fuel offset size gas m v d pos low high =
      let some_bytes : (size == 0) ≡ false = ground arith in
      let fits : ltb (u64_max - size) offset ≡ false =
        le→ltb (u64_max - size) offset (omega arith) in
      let least = round_up_32_least (offset + size) (omega arith) in
      let more : leb (round_up_32 (offset + size)) m.size ≡ false =
        lt→leb m.size _ (omega (arith, least, doubled_bound m.capacity d, v.in_use)) in
      rw
        (
          some_bytes,
          fits,
          more,
          reserve_hangs fuel (round_up_32 (offset + size)) m d (omega (arith, least)),
        )
        refl

  -- A range that ends in the last 31 bytes of the address space: the rounding wraps around to 0,
  -- so `expand` answers true at no charge and leaves the memory as it is.
  pub expand_wraps :
      (fuel offset size gas : ℕ) (m : EvmMemory)
      → 0 < size
      → 2 ^ 64 - 32 < offset + size
      → offset + size < 2 ^ 64
      → expand alloc fresh fuel offset size gas m ≡ some (true, 0, m)
  expand_wraps fuel offset size gas m pos low high =
      let some_bytes : (size == 0) ≡ false = ground arith in
      let fits : ltb (u64_max - size) offset ≡ false =
        le→ltb (u64_max - size) offset (omega arith) in
      let none_left : round_up_32 (offset + size) ≡ 0 =
        omega (arith, round_up_32_words (offset + size)) in
      let enough : leb (round_up_32 (offset + size)) m.size ≡ true = ground (arith, none_left) in
      expand_enough alloc fresh fuel offset size gas m some_bytes fits enough
      ∙ ap (λ t. some (true, expansion_cost (m.size / 32) (t / 32), m)) none_left
      ∙ ap (λ t. some (true, t, m)) (expansion_cost_zero (m.size / 32))
