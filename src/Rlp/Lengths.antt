-- ===== src/Rlp/Lengths.antt =====
-- The sizes of lengths are byte counts, and writing as many bytes keeps the number.
use div.Common.{
  ℕ, zero, suc, ◌+◌, ◌-◌, ◌*◌, ◌/◌, ◌%◌, ◌^◌, ◌≤◌, ◌<◌, ◌≡◌, ◌≢◌, refl, sym, ap, ◌∙◌, arith, true,
  false, [], ◌∷◌, ltb, ◌==◌, ==_iff, Bool-cases, inl, inr, IsU64, u8, ◌>>>◌, get_or,
}
use div.Common.BigEndian.{be}
use div.Uint256.ByteLength.{IsByteCount, pow_bytes}
use div.Uint256.Bytes.RoundTrip.{Holds}
use div.Rlp.{bit_length, length_of_length, byte_length_u64}
use div.Rlp.Encode.{be_bytes, write_length_bytes}
use native.Mathlib.Nat.{
  pow-suc, pow-zero, pow-le-pow_right, one-le-pow, mul-add-mod_self_right, mod-eq_of_lt,
  div-add-mod', div-lt_iff_lt-mul, mul-le-mul_right,
}

-- `b` is the number of binary digits of a number.
record IsBitCount (x b : ℕ) : Type 0 where
  holds : x < 2 ^ b
  least : (c : ℕ) → b ≡ suc c → 2 ^ c ≤ x

top_bit : (x b : ℕ) → IsBitCount (x / 2) b → 0 < x → 2 ^ b ≤ x
top_bit x zero count pos = omega (arith, pow-zero 2)
top_bit x (suc c) count pos = omega (arith, pow-suc 2 c, count.least c refl)

bit_length-IsBitCount :
    (fuel x : ℕ) → x < 2 ^ fuel → IsBitCount x (bit_length fuel x) × (bit_length fuel x ≤ fuel)
unfolding bit_length
bit_length-IsBitCount zero x h =
    (record { holds = h; least = λ c e. absurd (omega (arith, e)) }, omega arith)
bit_length-IsBitCount (suc fuel) x h = elim (Bool-cases (x == 0)) [
  | inl none_left ↦ rw none_left (
    record { holds = ground (arith, none_left); least = λ c e. absurd (omega (arith, e)) },
    omega arith,
  )
  | inr more ↦
      let b : ℕ = bit_length fuel (x / 2) in
      let half = bit_length-IsBitCount fuel (x / 2) (omega (arith, pow-suc 2 fuel)) in
      let pos : 0 < x = ground (arith, more) in
      rw more (
        record {
          holds = omega (arith, half.0.holds, pow-suc 2 b);
          least = λ c e.
              let same : b ≡ c = omega (arith, e) in
              omega (arith, top_bit x b half.0 pos, ap (λ t. 2 ^ t) same);
        },
        omega (arith, half.1),
      )
]

-- Bits in groups of eight.
bytes_of_bits : (x b n : ℕ) → IsBitCount x b → 0 < b → b ≤ 8 * n → 8 * n < b + 8 → IsByteCount x n
bytes_of_bits x b n count pos low high = record {
  holds = omega (
    arith,
    count.holds,
    pow-le-pow_right {n = 2} (omega arith) {i = b} {j = n * 8} (omega arith),
    pow_bytes n,
  );
  least = λ p.
      let pred : b ≡ suc (b - 1) = omega arith in
      omega (
        arith,
        count.least (b - 1) pred,
        pow-le-pow_right {n = 2} (omega arith) {i = (n - 1) * 8} {j = b - 1} (omega arith),
        pow_bytes (n - 1),
      );
}

some_bits : (x b : ℕ) → IsBitCount x b → 0 < x → 0 < b
some_bits x zero count pos = absurd (omega (arith, count.holds, pow-zero 2))
some_bits x (suc b) count pos = omega arith

-- A length of 64 bits from 56 on takes as many bytes as it has digits to the base 256, between 1 and 8.
pub length_of_length-IsByteCount :
    (value : ℕ)
    → IsU64 value
    → 56 ≤ value
    → IsByteCount value (length_of_length value)
      × (1 ≤ length_of_length value)
      × (length_of_length value ≤ 8)
unfolding length_of_length
length_of_length-IsByteCount value h k =
    let long : ltb value 56 ≡ false = ground arith in
    let counted = bit_length-IsBitCount 64 value h in
    let b : ℕ = bit_length 64 value in
    let pos : 0 < b = some_bits value b counted.0 (omega arith) in
    rw long (
      bytes_of_bits value b ((64 - (64 - b) + 7) / 8) counted.0 pos (omega (arith, counted.1))
          (omega (arith, counted.1)),
      omega (arith, counted.1),
      omega (arith, counted.1),
    )

-- The same for every number but 0.
pub byte_length_u64-IsByteCount :
    (value : ℕ)
    → IsU64 value
    → 0 < value
    → IsByteCount value (byte_length_u64 value)
      × (1 ≤ byte_length_u64 value)
      × (byte_length_u64 value ≤ 8)
unfolding byte_length_u64
byte_length_u64-IsByteCount value h k =
    let some_value : (value == 0) ≡ false = ground arith in
    let counted = bit_length-IsBitCount 64 value h in
    let b : ℕ = bit_length 64 value in
    let pos : 0 < b = some_bits value b counted.0 k in
    rw some_value (
      bytes_of_bits value b (8 - (64 - b) / 8) counted.0 pos (omega (arith, counted.1))
          (omega (arith, counted.1)),
      omega (arith, counted.1),
      omega (arith, counted.1),
    )

-- The byte at position `n` is what the bytes below it leave.
top_digit : (x n : ℕ) → x % 256 ^ suc n ≡ x / 256 ^ n % 256 * 256 ^ n + x % 256 ^ n
top_digit x n =
    let m : ℕ = 256 ^ n in
    let q : ℕ = x / m in
    let positive : 1 ≤ m = one-le-pow n 256 (omega arith) in
    let scaled : suc (q % 256) * m ≤ 256 * m =
      mul-le-mul_right {m = suc (q % 256)} {n = 256} m (omega arith) in
    let rest_small : x % m < m = ground (arith, positive) in
    let below : q % 256 * m + x % m < 256 ^ suc n =
      omega (arith, scaled, rest_small, pow-suc 256 n) in
    let split : x ≡ q / 256 * 256 ^ suc n + (q % 256 * m + x % m) = omega (
      arith,
      div-add-mod' x m,
      ap (λ (t : ℕ). t * m) (div-add-mod' q 256),
      ap (λ (t : ℕ). q / 256 * t) (pow-suc 256 n),
    ) in
    ap (λ t. t % 256 ^ suc n) split
    ∙ mul-add-mod_self_right (q / 256) (256 ^ suc n) (q % 256 * m + x % m)
    ∙ mod-eq_of_lt below

-- The loop writes the low `n` bytes of the number.
pub be_bytes-Holds : (n x : ℕ) → Holds (be_bytes n x) n (x % 256 ^ n)
unfolding be_bytes
be_bytes-Holds zero x = (omega (arith, pow-zero 256), refl, tt)
be_bytes-Holds (suc n) x =
    let rest = be_bytes-Holds n x in
    let shifted : u8 (x >>> (n * 8)) ≡ x / 256 ^ n % 256 = ap (λ t. u8 (x / t)) (pow_bytes n) in
    (
      ap (λ t. u8 (x >>> (n * 8)) * 256 ^ t + be (be_bytes n x)) rest.1
          ∙ ap (λ t. t * 256 ^ n + be (be_bytes n x)) shifted
          ∙ ap (λ t. x / 256 ^ n % 256 * 256 ^ n + t) rest.0
          ∙ sym (top_digit x n),
      omega (arith, rest.1),
      (omega arith, rest.2),
    )

-- The cases for small sizes are the loop written out.
pub write_length_bytes-be_bytes : (x : ℕ) → write_length_bytes x ≡ be_bytes (length_of_length x) x
unfolding write_length_bytes be_bytes
write_length_bytes-be_bytes x =
    let n : ℕ = length_of_length x in
    let unshifted : x >>> 0 ≡ x = omega arith in
    elim (Bool-cases (n == 1)) [
      | inl one ↦ rw one (sym (size n 1 one ∙ ap (λ t. u8 t ∷ []) unshifted))
      | inr not_one ↦ rw not_one (elim (Bool-cases (n == 2)) [
        | inl two ↦ rw two (sym (size n 2 two ∙ ap (λ t. u8 (x >>> 8) ∷ u8 t ∷ []) unshifted))
        | inr not_two ↦ rw not_two (elim (Bool-cases (n == 3)) [
          | inl three ↦
              rw three (
                sym (size n 3 three ∙ ap (λ t. u8 (x >>> 16) ∷ u8 (x >>> 8) ∷ u8 t ∷ []) unshifted))
          | inr not_three ↦ rw not_three (elim (Bool-cases (n == 4)) [
            | inl four ↦ rw four (
                sym (
                  size n 4 four
                  ∙ ap (λ t. u8 (x >>> 24) ∷ u8 (x >>> 16) ∷ u8 (x >>> 8) ∷ u8 t ∷ []) unshifted))
            | inr more ↦ rw more refl
          ])
        ])
      ])
    ]
  where
    size : (n m : ℕ) → (n == m) ≡ true → be_bytes n x ≡ be_bytes m x
    size n m same = ap (λ t. be_bytes t x) ((==_iff n m).0 same)

-- The first of the bytes of a number with that many bytes is not 0.
pub be_bytes_head : (n x : ℕ) → IsByteCount x n → 1 ≤ n → get_or (be_bytes n x) 0 0 ≢ 0
unfolding be_bytes
be_bytes_head zero x count h e = absurd (omega arith)
be_bytes_head (suc n) x count h e =
    let same : suc n - 1 ≡ n = omega arith in
    let low : 256 ^ n ≤ x = omega (arith, count.least h, ap (λ t. 256 ^ t) same) in
    let positive : 1 ≤ 256 ^ n = one-le-pow n 256 (omega arith) in
    let small : x / 256 ^ n < 256 =
      (div-lt_iff_lt-mul {k = 256 ^ n} {x = x} {y = 256} positive).1
        (omega (arith, count.holds, pow-suc 256 n)) in
    let shifted : u8 (x >>> (n * 8)) ≡ x / 256 ^ n % 256 = ap (λ t. u8 (x / t)) (pow_bytes n) in
    absurd (ground (arith, e, shifted, small, low, positive, div-add-mod' x (256 ^ n)))
