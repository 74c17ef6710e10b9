-- ===== src/Trie/HexPrefix/RoundTrip.antt =====
-- Decoding what was encoded.
use div.Common.{
  ℕ, ◌+◌, ◌-◌, ◌*◌, ◌/◌, ◌%◌, ◌^◌, ◌≤◌, ◌<◌, ◌≡◌, refl, sym, ap, ◌∙◌, arith, Bool, true, false,
  List, [], ◌∷◌, ◌++◌, append_assoc, append-nil, ◌==◌, ◌!=◌, leb, if◌then◌else◌, Bool-cases, inl,
  inr, length, length-append, All, u8, u64, bit_and, bit_or, ◌<<<◌, ◌>>>◌,
}
use div.Common.Bits.{bit_and_mask}
use div.Types.Bytes.{Bytes, init_arena, reserve, append_byte, append_within}
use div.Trie.Nibbles.{split, join}
use div.Trie.Nibbles.Laws.{IsNibble, joined, split-join}
use div.Trie.HexPrefix.{flags_of, append_pairs, encode, decode, HexPrefixResult}

length-join : (nibbles : List ℕ) → length (join nibbles) ≡ length nibbles / 2
unfolding join
length-join [] = refl
length-join (high ∷ []) = omega arith
length-join (high ∷ low ∷ nibbles) = omega (arith, length-join nibbles)

module _ (alloc : ℕ → Bool) where
  abbrev full : ℕ → List ℕ → Bytes
  full n xs = record { stored = xs; capacity = n; allocated = true }

  append_pairs-join :
      (n : ℕ) (nibbles xs : List ℕ)
      → length xs + length nibbles / 2 ≤ n
      → n < 2 ^ 64
      → append_pairs alloc nibbles (full n xs) ≡ full n (xs ++ join nibbles)
  unfolding append_pairs join append_byte
  append_pairs-join n [] xs h k = ap (full n) (sym (append-nil xs))
  append_pairs-join n (high ∷ []) xs h k = ap (full n) (sym (append-nil xs))
  append_pairs-join n (high ∷ low ∷ nibbles) xs h k =
      let byte : ℕ = u8 (bit_or (high <<< 4) low) in
      rw (append_within alloc (byte ∷ []) (full n xs) (omega arith) k) (
        append_pairs-join n nibbles (xs ++ (byte ∷ []))
          (omega (arith, length-append xs (byte ∷ []))) k
        ∙ ap (full n) (append_assoc xs (byte ∷ []) (join nibbles)))

  -- The first byte, and the pairs behind it.
  start_pairs :
      (n byte : ℕ) (nibbles : List ℕ)
      → 1 + length nibbles / 2 ≤ n
      → n < 2 ^ 64
      → append_pairs alloc nibbles (append_byte alloc byte (full n [])).1
        ≡ full n (byte ∷ join nibbles)
  unfolding append_byte
  start_pairs n byte nibbles h k =
      ap (append_pairs alloc nibbles) (append_within alloc (byte ∷ []) (full n []) (omega arith) k)
      ∙ append_pairs-join n nibbles (byte ∷ []) (omega arith) k

  reserve_granted :
      (n : ℕ) → 0 < n → alloc n ≡ true → reserve alloc n init_arena ≡ (true, full n [])
  unfolding reserve
  reserve_granted n h room = let more : leb n 0 ≡ false = ground arith in rw (more, room) refl

  encode_even :
      (nibbles : List ℕ) (is_leaf : Bool)
      → length nibbles % 2 ≡ 0
      → length nibbles < 2 ^ 62
      → alloc (1 + (length nibbles + 1) / 2) ≡ true
      → (encode alloc nibbles is_leaf).stored ≡ u8 (flags_of is_leaf false <<< 4) ∷ join nibbles
  unfolding encode
  encode_even nibbles is_leaf even b room =
      let n : ℕ = 1 + (length nibbles + 1) / 2 in
      let parity : (length nibbles % 2 == 1) ≡ false = ground arith in
      let size : u64 (1 + u64 (length nibbles + 1) / 2) ≡ n = omega arith in
      rw (size, reserve_granted n (omega arith) room, parity)
        (ap (λ t. t.stored)
          (start_pairs n (u8 (flags_of is_leaf false <<< 4)) nibbles (omega arith) (omega arith)))

  encode_odd :
      (first : ℕ) (nibbles : List ℕ) (is_leaf : Bool)
      → length nibbles % 2 ≡ 0
      → length nibbles < 2 ^ 61
      → alloc (1 + (length (first ∷ nibbles) + 1) / 2) ≡ true
      → (encode alloc (first ∷ nibbles) is_leaf).stored
        ≡ u8 (bit_or (flags_of is_leaf true <<< 4) first) ∷ join nibbles
  unfolding encode
  encode_odd first nibbles is_leaf even b room =
      let n : ℕ = 1 + (length (first ∷ nibbles) + 1) / 2 in
      let parity : (length (first ∷ nibbles) % 2 == 1) ≡ true = ground arith in
      let size : u64 (1 + u64 (length (first ∷ nibbles) + 1) / 2) ≡ n = omega arith in
      rw (size, reserve_granted n (omega arith) room, parity)
        (ap (λ t. t.stored)
          (start_pairs n (u8 (bit_or (flags_of is_leaf true <<< 4) first)) nibbles (omega arith)
            (omega arith)))

-- What the decoder does once it has read the flags.
abbrev decoded : (ℕ → Bool) → ℕ → List ℕ → Bool → Bool → HexPrefixResult
decoded alloc byte rest is_leaf is_odd =
    let pairs = u64 ((length (byte ∷ rest) - 1) * 2) in
    let nibble_count = if is_odd then u64 (1 + pairs) else pairs in
    if nibble_count == 0
    then record { nibbles = []; is_leaf = is_leaf; success = true }
    else if alloc nibble_count
    then record {
      nibbles = if is_odd then bit_and byte 0x0f ∷ split rest else split rest;
      is_leaf = is_leaf;
      success = true;
    }
    else record { nibbles = []; is_leaf = is_leaf; success = false }

decode_flags :
    (alloc : ℕ → Bool) (byte : ℕ) (rest : List ℕ) (is_leaf is_odd : Bool)
    → bit_and (byte >>> 4) 0x03 ≡ flags_of is_leaf is_odd
    → decode alloc (byte ∷ rest) ≡ decoded alloc byte rest is_leaf is_odd
unfolding decode
decode_flags alloc byte rest is_leaf is_odd e =
    let some_bytes : (length (byte ∷ rest) == 0) ≡ false = ground arith in
    rw (some_bytes, e) (read_flags is_leaf is_odd)
  where
    read_flags :
        (leaf odd : Bool)
        → decoded alloc byte rest
            (bit_and (flags_of leaf odd) 0x02 != 0)
            (bit_and (flags_of leaf odd) 0x01 != 0)
          ≡ decoded alloc byte rest leaf odd
    read_flags true true = refl
    read_flags true false = refl
    read_flags false true = refl
    read_flags false false = refl

flags_bound : (is_leaf is_odd : Bool) → flags_of is_leaf is_odd < 4
flags_bound true true = omega arith
flags_bound true false = omega arith
flags_bound false true = omega arith
flags_bound false false = omega arith

-- The flags stand in the high half of the first byte.
flags_read :
    (byte low : ℕ) (is_leaf is_odd : Bool)
    → byte ≡ flags_of is_leaf is_odd * 16 + low
    → low < 16
    → bit_and (byte >>> 4) 0x03 ≡ flags_of is_leaf is_odd
flags_read byte low is_leaf is_odd e h =
    bit_and_mask 2 (byte >>> 4) ∙ omega (arith, e, flags_bound is_leaf is_odd)

even_byte : (is_leaf : Bool) → u8 (flags_of is_leaf false <<< 4) ≡ flags_of is_leaf false * 16 + 0
even_byte true = refl
even_byte false = refl

decode_even :
    (alloc : ℕ → Bool) (nibbles : List ℕ) (is_leaf : Bool)
    → All IsNibble nibbles
    → length nibbles % 2 ≡ 0
    → length nibbles < 2 ^ 61
    → (0 < length nibbles → alloc (length nibbles) ≡ true)
    → decode alloc (u8 (flags_of is_leaf false <<< 4) ∷ join nibbles)
      ≡ record { nibbles = nibbles; is_leaf = is_leaf; success = true }
decode_even alloc nibbles is_leaf h even b room =
    let byte : ℕ = u8 (flags_of is_leaf false <<< 4) in
    let count : u64 ((length (byte ∷ join nibbles) - 1) * 2) ≡ length nibbles =
      omega (arith, length-join nibbles) in
    decode_flags alloc byte (join nibbles) is_leaf false
      (flags_read byte 0 is_leaf false (even_byte is_leaf) (omega arith))
    ∙ rw count (elim (Bool-cases (length nibbles == 0)) [
      | inl none_there ↦ rw none_there (
          ap (λ t. record { nibbles = t; is_leaf = is_leaf; success = true })
            (sym (nothing nibbles (ground (arith, none_there)))))
      | inr some_there ↦
          let granted : alloc (length nibbles) ≡ true = room (ground (arith, some_there)) in
          rw (some_there, granted)
            (ap (λ t. record { nibbles = t; is_leaf = is_leaf; success = true })
              (split-join nibbles h even))
    ])
  where
    nothing : (xs : List ℕ) → length xs ≤ 0 → xs ≡ []
    nothing [] k = refl
    nothing (x ∷ xs) k = absurd (omega arith)

decode_odd :
    (alloc : ℕ → Bool) (first : ℕ) (nibbles : List ℕ) (is_leaf : Bool)
    → IsNibble first
    → All IsNibble nibbles
    → length nibbles % 2 ≡ 0
    → length nibbles < 2 ^ 61
    → alloc (length (first ∷ nibbles)) ≡ true
    → decode alloc (u8 (bit_or (flags_of is_leaf true <<< 4) first) ∷ join nibbles)
      ≡ record { nibbles = first ∷ nibbles; is_leaf = is_leaf; success = true }
decode_odd alloc first nibbles is_leaf p h even b room =
    let byte : ℕ = u8 (bit_or (flags_of is_leaf true <<< 4) first) in
    let value : byte ≡ flags_of is_leaf true * 16 + first =
      joined (flags_of is_leaf true) first (omega (arith, flags_bound is_leaf true)) p in
    let low : bit_and byte 0x0f ≡ first = bit_and_mask 4 byte ∙ omega (arith, value, p) in
    let count : u64 (1 + u64 ((length (byte ∷ join nibbles) - 1) * 2)) ≡ length (first ∷ nibbles) =
      omega (arith, length-join nibbles) in
    let some_there : (length (first ∷ nibbles) == 0) ≡ false = ground arith in
    decode_flags alloc byte (join nibbles) is_leaf true (flags_read byte first is_leaf true value p)
    ∙ rw (count, some_there, room, low)
        (ap (λ t. record { nibbles = first ∷ t; is_leaf = is_leaf; success = true })
          (split-join nibbles h even))

-- With room in the arena for the bytes and for the nibbles, fewer than 2 ^ 61 nibbles that are
-- encoded with either flag are decoded to themselves and the flag.
pub decode-encode :
    (alloc : ℕ → Bool) (nibbles : List ℕ) (is_leaf : Bool)
    → All IsNibble nibbles
    → length nibbles < 2 ^ 61
    → alloc (1 + (length nibbles + 1) / 2) ≡ true
    → (0 < length nibbles → alloc (length nibbles) ≡ true)
    → decode alloc (encode alloc nibbles is_leaf).stored
      ≡ record { nibbles = nibbles; is_leaf = is_leaf; success = true }
decode-encode alloc nibbles is_leaf h b room more = elim (Bool-cases (length nibbles % 2 == 1)) [
  | inr even ↦
      let parity : length nibbles % 2 ≡ 0 = ground (arith, even) in
      ap (decode alloc) (encode_even alloc nibbles is_leaf parity (omega arith) room)
      ∙ decode_even alloc nibbles is_leaf h parity b more
  | inl odd ↦ odd_case nibbles h b room more odd
]
  where
    odd_case :
        (xs : List ℕ)
        → All IsNibble xs
        → length xs < 2 ^ 61
        → alloc (1 + (length xs + 1) / 2) ≡ true
        → (0 < length xs → alloc (length xs) ≡ true)
        → (length xs % 2 == 1) ≡ true
        → decode alloc (encode alloc xs is_leaf).stored
          ≡ record { nibbles = xs; is_leaf = is_leaf; success = true }
    odd_case [] p c r q odd = absurd (ground (arith, odd))
    odd_case (first ∷ xs) p c r q odd =
        let parity : length xs % 2 ≡ 0 = ground (arith, odd) in
        ap (decode alloc) (encode_odd alloc first xs is_leaf parity (omega arith) r)
        ∙ decode_odd alloc first xs is_leaf p.0 p.1 parity (omega arith) (q (omega arith))
