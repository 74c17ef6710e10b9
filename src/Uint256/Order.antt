-- ===== src/Uint256/Order.antt =====
-- The tests for zero, equality and order agree with the numbers.
use div.Common.{
  ℕ, ◌^◌, ◌<◌, ◌≤◌, ◌≡◌, ◌↔◌, sym, ◌∙◌, Bool-cases, inl, inr, Bool, ltb, lt→ltb, le→ltb, arith,
  true, false, bit_or, bit_xor, refl, ◌≢◌, ◌==◌, ==_iff,
}
use div.Common.Bits.{bit_or-eq_zero, bit_xor-eq_zero, bit_xor_self}
use div.Uint256.{Uint256, IsUint256, to_nat, is_zero, fits_u64, eq, lt}

-- The source tests several words for zero at once, by `|`.
or4_eq_zero_iff :
    (a b c d : ℕ)
    → ((bit_or (bit_or (bit_or a b) c) d == 0) ≡ true) ↔ ((a ≡ 0) × (b ≡ 0) × (c ≡ 0) × (d ≡ 0))
or4_eq_zero_iff a b c d = (all_zero, λ e. rw (e.0, e.1, e.2, e.3) refl)
  where
    all_zero :
        (bit_or (bit_or (bit_or a b) c) d == 0) ≡ true → (a ≡ 0) × (b ≡ 0) × (c ≡ 0) × (d ≡ 0)
    all_zero t =
        let h = bit_or-eq_zero (bit_or (bit_or a b) c) d ((==_iff _ 0).0 t) in
        let k = bit_or-eq_zero (bit_or a b) c h.0 in
        let l = bit_or-eq_zero a b k.0 in (l.0, l.1, k.1, h.1)

or3_eq_zero_iff :
    (a b c : ℕ) → ((bit_or (bit_or a b) c == 0) ≡ true) ↔ ((a ≡ 0) × (b ≡ 0) × (c ≡ 0))
or3_eq_zero_iff a b c = (all_zero, λ e. rw (e.0, e.1, e.2) refl)
  where
    all_zero : (bit_or (bit_or a b) c == 0) ≡ true → (a ≡ 0) × (b ≡ 0) × (c ≡ 0)
    all_zero t =
        let h = bit_or-eq_zero (bit_or a b) c ((==_iff _ 0).0 t) in
        let k = bit_or-eq_zero a b h.0 in (k.0, k.1, h.1)

-- Words that stand for one number are one word.
pub to_nat-injective : (a b : Uint256) → IsUint256 a → IsUint256 b → to_nat a ≡ to_nat b → a ≡ b
to_nat-injective a b p q e = ground arith

-- `is_zero` holds of the number 0 alone.
pub is_zero_iff : (a : Uint256) → (is_zero a ≡ true) ↔ (to_nat a ≡ 0)
unfolding is_zero
is_zero_iff a =
    let test = or4_eq_zero_iff a.limb0 a.limb1 a.limb2 a.limb3 in
    (λ h. omega (arith, test.0 h), λ h. test.1 (omega arith))

pub is_zero_ne : (a : Uint256) → is_zero a ≡ false → to_nat a ≢ 0
is_zero_ne a h e = cc ((is_zero_iff a).1 e)

-- Of words, `fits_u64` holds exactly of the numbers below 2^64.
pub fits_u64_iff : (a : Uint256) → IsUint256 a → (fits_u64 a ≡ true) ↔ (to_nat a < 2 ^ 64)
unfolding fits_u64
fits_u64_iff a p =
    let test = or3_eq_zero_iff a.limb1 a.limb2 a.limb3 in
    (λ h. omega (arith, test.0 h), λ h. test.1 (omega arith))

xor_eq_zero : (a b : ℕ) → a ≡ b → bit_xor a b ≡ 0
xor_eq_zero a b e = rw e (bit_xor_self b)

-- `eq` holds exactly of words that stand for one number.
pub eq_iff : (a b : Uint256) → IsUint256 a → IsUint256 b → (eq a b ≡ true) ↔ (to_nat a ≡ to_nat b)
unfolding eq
eq_iff a b p q =
    let test =
      or4_eq_zero_iff (bit_xor a.limb0 b.limb0) (bit_xor a.limb1 b.limb1) (bit_xor a.limb2 b.limb2)
        (bit_xor a.limb3 b.limb3) in
    (
      same,
      λ h. test.1 (
        xor_eq_zero a.limb0 b.limb0 (omega arith),
        xor_eq_zero a.limb1 b.limb1 (omega arith),
        xor_eq_zero a.limb2 b.limb2 (omega arith),
        xor_eq_zero a.limb3 b.limb3 (omega arith),
      ),
    )
  where
    same : eq a b ≡ true → to_nat a ≡ to_nat b
    same h =
        let d =
          (or4_eq_zero_iff (bit_xor a.limb0 b.limb0) (bit_xor a.limb1 b.limb1)
              (bit_xor a.limb2 b.limb2) (bit_xor a.limb3 b.limb3)).0
            h in
        omega (
          arith,
          bit_xor-eq_zero _ _ d.0,
          bit_xor-eq_zero _ _ d.1,
          bit_xor-eq_zero _ _ d.2,
          bit_xor-eq_zero _ _ d.3,
        )

-- `eq` compares the limbs.
pub eq-same : (a b : Uint256) → eq a b ≡ true → a ≡ b
unfolding eq
eq-same a b h =
    let d =
      (or4_eq_zero_iff (bit_xor a.limb0 b.limb0) (bit_xor a.limb1 b.limb1) (bit_xor a.limb2 b.limb2)
          (bit_xor a.limb3 b.limb3)).0
        h in
    let e0 = bit_xor-eq_zero a.limb0 b.limb0 d.0 in
    let e1 = bit_xor-eq_zero a.limb1 b.limb1 d.1 in
    let e2 = bit_xor-eq_zero a.limb2 b.limb2 d.2 in
    let e3 = bit_xor-eq_zero a.limb3 b.limb3 d.3 in
    λ i. record { limb0 = e0 i; limb1 = e1 i; limb2 = e2 i; limb3 = e3 i }

pub eq_self : (a : Uint256) → eq a a ≡ true
unfolding eq
eq_self a =
    rw (bit_xor_self a.limb0, bit_xor_self a.limb1, bit_xor_self a.limb2, bit_xor_self a.limb3) refl

-- `lt` of two words compares their numbers.
pub lt_iff : (a b : Uint256) → IsUint256 a → IsUint256 b → (lt a b ≡ true) ↔ (to_nat a < to_nat b)
unfolding lt
lt_iff a b p q = ground arith

-- Two words compare as their numbers.
pub lt-ltb : (a b : Uint256) → IsUint256 a → IsUint256 b → lt a b ≡ ltb (to_nat a) (to_nat b)
lt-ltb a b p q = elim (Bool-cases (lt a b)) [
  | inl less ↦ less ∙ sym (lt→ltb _ _ ((lt_iff a b p q).0 less))
  | inr more ↦
      more ∙ sym (le→ltb _ _ (not_less (lt a b) (to_nat a) (to_nat b) more (lt_iff a b p q).1))
]
  where
    not_less : (t : Bool) (m n : ℕ) → t ≡ false → (m < n → t ≡ true) → n ≤ m
    not_less t m n e h = grind (arith, h)
