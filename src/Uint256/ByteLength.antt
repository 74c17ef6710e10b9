-- ===== src/Uint256/ByteLength.antt =====
-- `byte_length` is the number of base-256 digits.
use div.Common.{
  ℕ, zero, suc, ◌+◌, ◌-◌, ◌*◌, ◌/◌, ◌^◌, ◌≤◌, ◌<◌, ◌≡◌, refl, sym, ◌∙◌, ==_iff, Bool-cases, inl,
  inr, true, false, arith, bit_and, ◌==◌, ◌!=◌, ◌>>>◌,
}
use div.Common.Bits.{bit_and_mask}
use div.Common.Modular.{pow_add}
use div.Uint256.{Uint256, IsUint256, to_nat, top_byte, byte_length}
use native.Mathlib.Nat.{
  pow-suc, div-add-mod', div-lt_iff_lt-mul, one-le-pow, mod-eq_of_lt, mul-le-mul_right,
}

-- `n` is the number of bytes of `x`: they hold it, and one byte less does not.
pub record IsByteCount (x n : ℕ) : Type 0 where
  pub holds : x < 256 ^ n
  pub least : 0 < n → 256 ^ (n - 1) ≤ x

pub pow_bytes : (k : ℕ) → 2 ^ (k * 8) ≡ 256 ^ k
pow_bytes zero = refl
pow_bytes (suc k) =
    let eight_more : suc k * 8 ≡ 8 + k * 8 = omega arith in
    rw (eight_more, pow_add 2 8 (k * 8), pow_bytes k, pow-suc 256 k) (omega arith)

-- Below 256 ^ (k + 1) the byte at position `k` is the quotient by 256 ^ k.
byte_at_top : (limb k : ℕ) → limb < 256 ^ suc k → bit_and (limb >>> (k * 8)) 0xff ≡ limb / 256 ^ k
byte_at_top limb k h =
    let one_byte : limb / 256 ^ k < 256 =
      (div-lt_iff_lt-mul {k = 256 ^ k} {x = limb} {y = 256} (one-le-pow k 256 (omega arith))).1
        (omega (arith, pow-suc 256 k)) in
    bit_and_mask 8 (limb >>> (k * 8)) ∙ rw (pow_bytes k) (mod-eq_of_lt one_byte)

pub top_byte-IsByteCount : (limb k : ℕ) → limb < 256 ^ k → IsByteCount limb (top_byte limb k)
unfolding top_byte
top_byte-IsByteCount limb zero h = record { holds = h; least = λ p. absurd (omega arith) }
top_byte-IsByteCount limb (suc k) h = elim (Bool-cases (bit_and (limb >>> (k * 8)) 0xff == 0)) [
  | inl empty ↦ rw empty (top_byte-IsByteCount limb k (below empty))
  | inr used ↦ rw used (record { holds = h; least = λ p. above used })
]
  where
    below : (bit_and (limb >>> (k * 8)) 0xff == 0) ≡ true → limb < 256 ^ k
    below t =
        let zero_quotient : limb / 256 ^ k ≡ 0 = sym (byte_at_top limb k h) ∙ (==_iff _ 0).0 t in
        ground (arith, div-add-mod' limb (256 ^ k), one-le-pow k 256)

    above : (bit_and (limb >>> (k * 8)) 0xff == 0) ≡ false → 256 ^ (suc k - 1) ≤ limb
    above t =
        let same : suc k - 1 ≡ k = omega arith in
        let some_quotient : 1 ≤ limb / 256 ^ k = ground (arith, byte_at_top limb k h) in
        let scaled : 1 * 256 ^ k ≤ limb / 256 ^ k * 256 ^ k =
          mul-le-mul_right {m = 1} {n = limb / 256 ^ k} (256 ^ k) some_quotient in
        rw same (omega (arith, div-add-mod' limb (256 ^ k)))

-- A counted limb above `d` bytes.
count_above :
    (limb rest d n : ℕ)
    → IsByteCount limb n
    → 0 < limb
    → rest < 256 ^ d
    → IsByteCount (rest + limb * 256 ^ d) (d + n)
count_above limb rest d zero c pos r = absurd (omega arith)
count_above limb rest d (suc n) c pos r =
    let top : suc limb * 256 ^ d ≤ 256 ^ suc n * 256 ^ d =
      mul-le-mul_right {m = suc limb} {n = 256 ^ suc n} (256 ^ d) c.holds in
    let low : 256 ^ (suc n - 1) * 256 ^ d ≤ limb * 256 ^ d =
      mul-le-mul_right {m = 256 ^ (suc n - 1)} {n = limb} (256 ^ d) (c.least (omega arith)) in
    let one_less : suc n - 1 ≡ n = omega arith in
    let total : d + suc n - 1 ≡ d + n = omega arith in
    record {
      holds = omega (arith, pow_add 256 d (suc n), top);
      least = λ p. rw total (omega (arith, pow_add 256 d n, rw one_less at low));
    }

-- The highest limb in use, above `d` bytes of lower limbs, decides the count of the whole number.
used_limb :
    (total limb rest d : ℕ)
    → (limb != 0) ≡ true
    → limb < 2 ^ 64
    → rest < 256 ^ d
    → total ≡ rest + limb * 256 ^ d
    → IsByteCount total (d + top_byte limb 8)
used_limb total limb rest d used h r e =
    rw e
      (count_above limb rest d (top_byte limb 8) (top_byte-IsByteCount limb 8 h) (ground arith) r)

-- `byte_length` of a word counts exactly the bytes that its number needs.
pub byte_length-IsByteCount : (a : Uint256) → IsUint256 a → IsByteCount (to_nat a) (byte_length a)
unfolding byte_length
byte_length-IsByteCount a p = elim (Bool-cases (a.limb3 != 0)) [
  | inl used ↦ rw used (
      used_limb (to_nat a) a.limb3 (a.limb0 + a.limb1 * 2 ^ 64 + a.limb2 * 2 ^ 128) 24 used p.3
        (omega arith) (omega arith))
  | inr none3 ↦ rw none3 (elim (Bool-cases (a.limb2 != 0)) [
    | inl used ↦ rw used (
        used_limb (to_nat a) a.limb2 (a.limb0 + a.limb1 * 2 ^ 64) 16 used p.2 (omega arith)
          (ground arith))
    | inr none2 ↦ rw none2 (elim (Bool-cases (a.limb1 != 0)) [
      | inl used ↦
          rw used (used_limb (to_nat a) a.limb1 a.limb0 8 used p.1 (omega arith) (ground arith))
      | inr none1 ↦ rw none1 (elim (Bool-cases (a.limb0 != 0)) [
        | inl used ↦
            rw used (used_limb (to_nat a) a.limb0 0 0 used p.0 (omega arith) (ground arith))
        | inr none0 ↦ rw none0 (record { holds = ground arith; least = λ h. absurd (omega arith) })
      ])
    ])
  ])
]
