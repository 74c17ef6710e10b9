-- ===== src/Rlp/Canonical.antt =====
-- The decoder accepts canonical encodings only.
use div.Common.{
  ℕ, zero, suc, ◌+◌, ◌-◌, ◌*◌, ◌/◌, ◌^◌, ◌≤◌, ◌<◌, ◌≡◌, ◌≢◌, refl, sym, ap, ap₂, ◌∙◌, arith, List,
  [], ◌∷◌, ltb, ◌==◌, Bool-cases, ◌⊎◌, inl, inr, ltb→lt, ltb→le, length, get_or, take, drop,
  length-take, All, All-take, get_or-take, IsU8, u8,
}
use div.Common.BigEndian.{be, be-lt, shift_in, shift_in-be}
use div.Uint256.ByteLength.{IsByteCount, pow_bytes}
use div.Rlp.{length_of_length}
use div.Rlp.Encode.{be_bytes}
use div.Rlp.Lengths.{length_of_length-IsByteCount}
use div.Rlp.Decode.{RlpDecoder, RlpError, BytesResult, remaining, current, advance, decode_length}
use div.Rlp.Suffix.{Before, current-Before, remaining-Before}
use native.Mathlib.Nat.{
  pow-suc, pow-le-pow_right, one-le-pow, mul-le-mul_right, add-mul-div_right, div-eq_of_lt,
}

-- A number has one size.
count_unique : (x m n : ℕ) → IsByteCount x m → IsByteCount x n → 1 ≤ m → m < n → 256 ^ m ≤ x
count_unique x m n p q h k = omega (
  arith,
  q.least (omega arith),
  pow-le-pow_right {n = 256} (omega arith) {i = m} {j = n - 1} (omega arith),
)

pub IsByteCount-unique : (x m n : ℕ) → IsByteCount x m → IsByteCount x n → 1 ≤ m → 1 ≤ n → m ≡ n
IsByteCount-unique x m n p q h k = elim (Bool-cases (ltb m n)) [
  | inl less ↦ absurd (omega (arith, count_unique x m n p q h (ltb→lt _ _ less), p.holds))
  | inr not_less ↦ elim (Bool-cases (ltb n m)) [
    | inl more ↦ absurd (omega (arith, count_unique x n m q p k (ltb→lt _ _ more), q.holds))
    | inr not_more ↦ omega (arith, ltb→le _ _ not_less, ltb→le _ _ not_more)
  ]
]

-- Bytes that do not begin with 0 are as many as their number needs.
pub be-IsByteCount :
    (xs : List ℕ)
    → All IsU8 xs
    → 1 ≤ length xs
    → get_or xs 0 0 ≢ 0
    → IsByteCount (be xs) (length xs)
be-IsByteCount [] h k first = absurd (omega arith)
be-IsByteCount (x ∷ xs) h k first =
    let positive : 1 ≤ x = ground (arith, first) in
    let top : 1 * 256 ^ length xs ≤ x * 256 ^ length xs =
      mul-le-mul_right {m = 1} {n = x} (256 ^ length xs) positive in
    let same : suc (length xs) - 1 ≡ length xs = omega arith in
    record { holds = be-lt (x ∷ xs) h; least = λ p. omega (arith, top, ap (λ t. 256 ^ t) same) }

-- What lies above the bytes written makes no difference.
be_bytes-above : (n a b : ℕ) → be_bytes n (a * 256 ^ n + b) ≡ be_bytes n b
unfolding be_bytes
be_bytes-above zero a b = refl
be_bytes-above (suc n) a b =
    let m : ℕ = 256 ^ n in
    let split : a * 256 ^ suc n + b ≡ b + a * 256 * m =
      omega (arith, ap (λ (t : ℕ). a * t) (pow-suc 256 n)) in
    let again : a * 256 ^ suc n + b ≡ a * 256 * m + b =
      omega (arith, ap (λ (t : ℕ). a * t) (pow-suc 256 n)) in
    let quotient : (a * 256 ^ suc n + b) / m ≡ b / m + a * 256 =
      ap (λ t. t / m) split
      ∙ add-mul-div_right b (a * 256) {z = m} (one-le-pow n 256 (omega arith)) in
    ap₂ ◌∷◌
      (ap (λ t. u8 ((a * 256 ^ suc n + b) / t)) (pow_bytes n)
        ∙ ap u8 quotient
        ∙ omega arith
        ∙ sym (ap (λ t. u8 (b / t)) (pow_bytes n)))
      (ap (be_bytes n) again ∙ be_bytes-above n (a * 256) b)

-- Bytes are what is written for their number.
pub be_bytes-be : (xs : List ℕ) → All IsU8 xs → be_bytes (length xs) (be xs) ≡ xs
unfolding be_bytes
be_bytes-be [] h = refl
be_bytes-be (x ∷ xs) h =
    let k : ℕ = length xs in
    let m : ℕ = 256 ^ k in
    let small : be xs / m ≡ 0 = div-eq_of_lt (be-lt xs h.1) in
    let swapped : x * m + be xs ≡ be xs + x * m = omega arith in
    let quotient : (x * m + be xs) / m ≡ x =
      ap (λ t. t / m) swapped
      ∙ add-mul-div_right (be xs) x {z = m} (one-le-pow k 256 (omega arith))
      ∙ omega (arith, small) in
    ap₂ ◌∷◌ (ap (λ t. u8 ((x * m + be xs) / t)) (pow_bytes k) ∙ ap u8 quotient ∙ omega (arith, h.0))
      (be_bytes-above k x (be xs) ∙ be_bytes-be xs h.1)

-- The size and the bytes that the encoder writes for the number of bytes that do not begin with 0.
pub length_of_length-be :
    (xs : List ℕ)
    → All IsU8 xs
    → 1 ≤ length xs
    → length xs ≤ 8
    → get_or xs 0 0 ≢ 0
    → 56 ≤ be xs
    → length_of_length (be xs) ≡ length xs
length_of_length-be xs bytes low high first many =
    let small : be xs < 2 ^ 64 = omega (
      arith,
      be-lt xs bytes,
      pow-le-pow_right {n = 256} (omega arith) {i = length xs} {j = 8} high,
    ) in
    let counted = length_of_length-IsByteCount (be xs) small many in
    IsByteCount-unique (be xs) (length_of_length (be xs)) (length xs) counted.0
      (be-IsByteCount xs bytes low first) counted.1 low

-- What the decoder of a length does: it fails, or it has read all the bytes, without a leading 0.
abbrev pub Refused : BytesResult → Type 0
Refused r = r.error ≢ RlpError.rlp_success

pub decode_length-cases :
    (d : RlpDecoder) (t : List ℕ) (n : ℕ)
    → Before d t
    → All IsU8 t
    → 1 ≤ n
    → n ≤ 8
    → Refused (decode_length n d).0
      ⊎ ((n ≤ length t)
          × (get_or (take n t) 0 0 ≢ 0)
          × (decode_length n d ≡ (
            record {
              view = [];
              len = be (take n t);
              bytes_consumed = n;
              error = RlpError.rlp_success;
            },
            advance n d,
          )))
unfolding decode_length
decode_length-cases d t n v bytes low high = elim (Bool-cases (ltb (remaining d) n)) [
  | inl few ↦ rw few (inl (λ e. cc))
  | inr enough ↦ elim (Bool-cases (current d == 0)) [
    | inl leading ↦ rw (enough, leading) (inl (λ e. cc))
    | inr canonical ↦
        let room : n ≤ length t = omega (arith, remaining-Before d t v, ltb→le _ _ enough) in
        let xs : List ℕ = take n t in
        let size : length xs ≡ n = omega (arith, length-take n t) in
        let all : All IsU8 xs = All-take IsU8 n t bytes in
        let value : shift_in 0 xs ≡ be xs =
          omega (arith, shift_in-be 0 0 xs (omega arith) (omega (arith, size)) all) in
        let next : take n (drop d.pos d.input) ≡ xs = ap (take n) v.suffix in
        let first : get_or xs 0 0 ≡ current d =
          get_or-take n t 0 0 (omega arith) ∙ sym (current-Before d t v) in
        let head : get_or xs 0 0 ≢ 0 = ground (arith, canonical, first) in
        inr (room, head, rw (enough, canonical, next, value) refl)
  ]
]
