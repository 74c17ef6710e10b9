-- ===== src/Uint256/Bytes/RoundTrip.antt =====
-- The conversions agree with the big-endian number, and undo one another.
use div.Common.{
  ℕ, zero, suc, ◌+◌, ◌-◌, ◌*◌, ◌/◌, ◌%◌, ◌^◌, ◌≤◌, ◌<◌, ◌≡◌, ap, ◌∙◌, arith, List, [], ◌∷◌, ◌++◌,
  length, take, drop, replicate, All, IsU8, length-append, length-replicate, length-drop,
  length-take, drop-drop, take-all, All-append, All-take, All-drop, All-replicate, ltb→lt, ltb→le,
  Bool-cases, inl, inr, ap₂, bit_and, ◌>>>◌, ltb,
}
use div.Common.Bits.{bit_and_mask}
use div.Common.BigEndian.{be, be-append, be-zeros, be-lt, be_split, shift_in, shift_in-be}
use div.Uint256.{Uint256, IsUint256, Represents, to_nat}
use div.Uint256.Order.{to_nat-injective}
use div.Uint256.Bytes.{limb_at, pad, from_bytes_be, write_limb, to_bytes_be}
use native.Mathlib.Nat.{pow-suc, div-add-mod', pow-le-pow_right}

-- Writing `k` bytes appends the low `k` bytes of the limb, as a number, to what is there.
write_limb-be :
    (k limb : ℕ) (out : List ℕ)
    → limb < 256 ^ k
    → All IsU8 out
    → (be (write_limb k limb out) ≡ limb * 256 ^ length out + be out)
      × (length (write_limb k limb out) ≡ k + length out)
      × All IsU8 (write_limb k limb out)
unfolding write_limb
write_limb-be zero limb out b h =
    let nothing : limb ≡ 0 = omega arith in (rw nothing (omega arith), omega arith, h)
write_limb-be (suc k) limb out b h =
    let low : bit_and limb 0xff ≡ limb % 256 = bit_and_mask 8 limb in
    let (value, size, bytes) =
      write_limb-be k (limb >>> 8) (bit_and limb 0xff ∷ out) (omega (arith, pow-suc 256 k))
        (omega (arith, low), h) in
    (
      omega (
        arith,
        value,
        low,
        ap (λ (t : ℕ). limb / 256 * t) (pow-suc 256 (length out)),
        ap (λ (t : ℕ). t * 256 ^ length out) low,
        ap (λ (t : ℕ). t * 256 ^ length out) (div-add-mod' limb 256),
      ),
      omega (arith, size),
      bytes,
    )

-- The eight bytes of one limb.
limb_bytes :
    (limb : ℕ)
    → limb < 2 ^ 64
    → (be (write_limb 8 limb []) ≡ limb)
      × (length (write_limb 8 limb []) ≡ 8)
      × All IsU8 (write_limb 8 limb [])
limb_bytes limb h =
    let (value, size, bytes) = write_limb-be 8 limb [] h tt in (omega (arith, value), size, bytes)

-- A buffer of `n` bytes that stands for a number.
abbrev pub Holds : List ℕ → ℕ → ℕ → Type 0
Holds xs n value = (be xs ≡ value) × (length xs ≡ n) × All IsU8 xs

Holds-append :
    (xs ys : List ℕ) {m n v w : ℕ}
    → Holds xs m v
    → Holds ys n w
    → Holds (xs ++ ys) (m + n) (v * 256 ^ n + w)
Holds-append xs ys {n = n} {v = v} {w = w} h k = (
  be-append xs ys ∙ ap₂ (λ s t. s * 256 ^ t + be ys) h.0 k.1 ∙ ap (λ t. v * 256 ^ n + t) k.0,
  omega (arith, length-append xs ys, h.1, k.1),
  All-append IsU8 xs ys h.2 k.2,
)

-- `to_bytes_be` of a word writes exactly 32 bytes, which are its number in big-endian order.
pub to_bytes_be-Holds : (a : Uint256) → IsUint256 a → Holds (to_bytes_be a) 32 (to_nat a)
unfolding to_bytes_be
to_bytes_be-Holds a p =
    let h1 = Holds-append _ _ (limb_bytes a.limb1 p.1) (limb_bytes a.limb0 p.0) in
    let h2 = Holds-append _ _ (limb_bytes a.limb2 p.2) h1 in
    let h3 = Holds-append _ _ (limb_bytes a.limb3 p.3) h2 in (omega (arith, h3.0), h3.1, h3.2)

-- The limb read at an offset is the number of the eight bytes that stand there.
limb_at-be :
    (bytes : List ℕ) (offset : ℕ)
    → All IsU8 bytes
    → (limb_at bytes offset ≡ be (take 8 (drop offset bytes))) × (limb_at bytes offset < 2 ^ 64)
unfolding limb_at
limb_at-be bytes offset h =
    let limb : List ℕ = take 8 (drop offset bytes) in
    let limb_bytes : All IsU8 limb = All-take IsU8 8 _ (All-drop IsU8 offset bytes h) in
    let size : length limb ≤ 8 = omega (arith, length-take 8 (drop offset bytes)) in
    let value : shift_in 0 limb ≡ be limb =
      omega (arith, shift_in-be 0 0 limb (omega arith) (omega (arith, size)) limb_bytes) in
    let room : 256 ^ length limb ≤ 256 ^ 8 = pow-le-pow_right {n = 256} (omega arith) size in
    (value, omega (arith, value, be-lt limb limb_bytes, room))

-- A buffer of 32 bytes is its four limbs.
be_limbs :
    (bytes : List ℕ)
    → length bytes ≡ 32
    → be bytes
      ≡ be (take 8 (drop 24 bytes))
        + be (take 8 (drop 16 bytes)) * 2 ^ 64
        + be (take 8 (drop 8 bytes)) * 2 ^ 128
        + be (take 8 (drop 0 bytes)) * 2 ^ 192
be_limbs bytes h = omega (
  arith,
  be_split 8 24 bytes (omega arith),
  be_split 8 16 (drop 8 bytes) (omega (arith, length-drop 8 bytes)),
  ap be (drop-drop 8 8 bytes),
  be_split 8 8 (drop 16 bytes) (omega (arith, length-drop 16 bytes)),
  ap be (drop-drop 8 16 bytes),
  ap be (take-all 8 (drop 24 bytes) (omega (arith, length-drop 24 bytes))),
)

-- The last `n` bytes, which are all of a shorter buffer.
abbrev pub last_bytes : ℕ → List ℕ → List ℕ
last_bytes n bytes = drop (length bytes - n) bytes

zero_filled :
    (xs : List ℕ)
    → length xs ≤ 32
    → All IsU8 xs
    → Holds (replicate (32 - length xs) 0 ++ xs) 32 (be xs)
zero_filled xs r h = (
  be-zeros (32 - length xs) xs,
  omega (
    arith,
    length-append (replicate (32 - length xs) 0) xs,
    length-replicate {A = ℕ} (32 - length xs) 0,
  ),
  All-append IsU8 _ xs (All-replicate IsU8 (32 - length xs) 0 (omega arith)) h,
)

pad-Holds : (bytes : List ℕ) → All IsU8 bytes → Holds (pad bytes) 32 (be (last_bytes 32 bytes))
unfolding pad
pad-Holds bytes h = elim (Bool-cases (ltb 32 (length bytes))) [
  | inl long ↦ rw long (
      zero_filled (last_bytes 32 bytes)
        (omega (arith, length-drop (length bytes - 32) bytes, ltb→lt 32 (length bytes) long))
        (All-drop IsU8 (length bytes - 32) bytes h))
  | inr short ↦
      let fits : length bytes ≤ 32 = ltb→le 32 (length bytes) short in
      let none_dropped : length bytes - 32 ≡ 0 = omega arith in
      rw (short, none_dropped) (zero_filled bytes fits h)
]

-- `from_bytes_be` of bytes reads the number of the last 32 bytes, and of all bytes of a shorter input.
pub from_bytes_be-Represents :
    (bytes : List ℕ) → All IsU8 bytes → Represents (from_bytes_be bytes) (be (last_bytes 32 bytes))
unfolding from_bytes_be
from_bytes_be-Represents bytes h =
    let p = pad-Holds bytes h in
    let l0 = limb_at-be (pad bytes) 24 p.2 in
    let l1 = limb_at-be (pad bytes) 16 p.2 in
    let l2 = limb_at-be (pad bytes) 8 p.2 in
    let l3 = limb_at-be (pad bytes) 0 p.2 in
    (omega (arith, be_limbs (pad bytes) p.1, p.0, l0, l1, l2, l3), (l0.1, l1.1, l2.1, l3.1))

-- Reading back the 32 bytes of a word gives the word.
pub from_bytes_be-to_bytes_be : (a : Uint256) → IsUint256 a → from_bytes_be (to_bytes_be a) ≡ a
from_bytes_be-to_bytes_be a p =
    let written = to_bytes_be-Holds a p in
    let read = from_bytes_be-Represents (to_bytes_be a) written.2 in
    let none_dropped : length (to_bytes_be a) - 32 ≡ 0 = omega (arith, written.1) in
    to_nat-injective (from_bytes_be (to_bytes_be a)) a read.1 p
      (read.0 ∙ ap (λ t. be (drop t (to_bytes_be a))) none_dropped ∙ written.0)
