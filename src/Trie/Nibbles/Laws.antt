-- ===== src/Trie/Nibbles/Laws.antt =====
-- Bytes and their nibbles, and what two sequences share.
use div.Common.{
  ℕ, ◌+◌, ◌*◌, ◌/◌, ◌%◌, ◌≤◌, ◌<◌, ◌≡◌, ◌≢◌, refl, ap, ap₂, ◌∙◌, arith, Bool, true, false, List, [],
  ◌∷◌, ◌==◌, ==_iff, Bool-cases, inl, inr, length, take, get_or, All, IsU8, u8, u64, bit_and,
  bit_or, ◌<<<◌, ◌>>>◌,
}
use div.Common.Bits.{bit_and_mask, bit_or_fields}
use div.Trie.Nibbles.{split, join, to_bytes, from_bytes, common_prefix}

abbrev pub IsNibble : ℕ → Type 0
IsNibble n = n < 16

high_nibble : (byte : ℕ) → IsU8 byte → bit_and (byte >>> 4) 0x0f ≡ byte / 16
high_nibble byte h = omega (arith, bit_and_mask 4 (byte / 16))

low_nibble : (byte : ℕ) → bit_and byte 0x0f ≡ byte % 16
low_nibble byte = bit_and_mask 4 byte

-- The byte of two nibbles.
pub joined :
    (high low : ℕ) → IsNibble high → IsNibble low → u8 (bit_or (high <<< 4) low) ≡ high * 16 + low
joined high low h k = ap u8 (bit_or_fields 4 high low k) ∙ omega arith

pub split-IsNibble : (bytes : List ℕ) → All IsU8 bytes → All IsNibble (split bytes)
unfolding split
split-IsNibble [] h = tt
split-IsNibble (byte ∷ bytes) h = (
  omega (arith, high_nibble byte h.0, h.0),
  (omega (arith, low_nibble byte), split-IsNibble bytes h.1),
)

pub length-split : (bytes : List ℕ) → length (split bytes) ≡ 2 * length bytes
unfolding split
length-split [] = refl
length-split (byte ∷ bytes) = omega (arith, length-split bytes)

pub join-split : (bytes : List ℕ) → All IsU8 bytes → join (split bytes) ≡ bytes
unfolding join split
join-split [] h = refl
join-split (byte ∷ bytes) h =
    let high = high_nibble byte h.0 in
    let low = low_nibble byte in
    ap₂ ◌∷◌ (joined _ _ (omega (arith, high, h.0)) (omega (arith, low)) ∙ omega (arith, high, low))
      (join-split bytes h.1)

-- An even number of nibbles survives as bytes.
pub split-join :
    (nibbles : List ℕ)
    → All IsNibble nibbles
    → length nibbles % 2 ≡ 0
    → split (join nibbles) ≡ nibbles
unfolding split join
split-join [] h even = refl
split-join (high ∷ []) h even = absurd (omega (arith, even))
split-join (high ∷ low ∷ nibbles) h even =
    let byte = joined high low h.0 h.1.0 in
    ap₂ ◌∷◌
      (ap (λ t. bit_and (t >>> 4) 0x0f) byte
        ∙ high_nibble (high * 16 + low) (omega (arith, h.0, h.1.0))
        ∙ omega (arith, h.1.0))
      (ap₂ ◌∷◌ (ap (λ t. bit_and t 0x0f) byte ∙ low_nibble (high * 16 + low) ∙ omega (arith, h.1.0))
        (split-join nibbles h.1.1 (omega (arith, even))))

-- With room in the arena, the nibbles of bytes are twice as many, each below 16, and they give the
-- bytes back.
pub to_bytes-from_bytes :
    (alloc : ℕ → Bool) (bytes : List ℕ)
    → All IsU8 bytes
    → alloc (u64 (length bytes * 2)) ≡ true
    → (length (from_bytes alloc bytes) ≡ 2 * length bytes)
      × All IsNibble (from_bytes alloc bytes)
      × (to_bytes (from_bytes alloc bytes) ≡ bytes)
unfolding to_bytes from_bytes
to_bytes-from_bytes alloc [] h room = (refl, tt, refl)
to_bytes-from_bytes alloc (byte ∷ bytes) h room =
    let size = length-split (byte ∷ bytes) in
    let some_bytes : (length (byte ∷ bytes) == 0) ≡ false = ground arith in
    let some_nibbles : (length (split (byte ∷ bytes)) == 0) ≡ false = ground (arith, size) in
    rw (some_bytes, room, some_nibbles)
      (size, split-IsNibble (byte ∷ bytes) h, join-split (byte ∷ bytes) h)

-- The length of the common prefix: both sequences begin with the same so many nibbles, and where
-- both go on they differ in the next one.
pub common_prefix-longest :
    (a b : List ℕ)
    → (common_prefix a b ≤ length a)
      × (common_prefix a b ≤ length b)
      × (take (common_prefix a b) a ≡ take (common_prefix a b) b)
      × (common_prefix a b < length a
          → common_prefix a b < length b
          → get_or a (common_prefix a b) 0 ≢ get_or b (common_prefix a b) 0)
unfolding common_prefix
common_prefix-longest [] b = (omega arith, omega arith, refl, λ h k. absurd (omega arith))
common_prefix-longest (x ∷ a) [] = (omega arith, omega arith, refl, λ h k. absurd (omega arith))
common_prefix-longest (x ∷ a) (y ∷ b) = elim (Bool-cases (x == y)) [
  | inr differ ↦
      rw differ (omega arith, omega arith, refl, λ h k e. absurd (ground (arith, differ, e)))
  | inl same ↦
      let rest = common_prefix-longest a b in
      rw same (
        omega (arith, rest.0),
        omega (arith, rest.1),
        ap₂ ◌∷◌ ((==_iff x y).0 same) rest.2,
        λ h k. rest.3 (omega (arith, h)) (omega (arith, k)),
      )
]
