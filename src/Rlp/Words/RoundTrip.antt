-- ===== src/Rlp/Words/RoundTrip.antt =====
-- Words and addresses are read back.
use div.Common.{
  ℕ, suc, ◌+◌, ◌-◌, ◌*◌, ◌^◌, ◌≤◌, ◌<◌, ◌≡◌, ◌≢◌, refl, sym, ap, ◌∙◌, arith, Bool, true, false,
  ◌&&◌, List, [], ◌∷◌, ◌++◌, ltb, leb, ◌==◌, ==_iff, Bool-cases, inl, inr, length, get_or, drop,
  All, IsU8, u8,
}
use native.Mathlib.Nat.{pow-suc, one-le-pow, mul-le-mul_right, pow-zero}
use div.Common.BigEndian.{be}
use div.Types.Address.{Address, IsAddress}
use div.Types.Bytes.{append}
use div.Uint256.{Uint256, IsUint256, to_nat, u256_zero, is_zero}
use div.Uint256.Order.{is_zero_iff, is_zero_ne, to_nat-injective}
use div.Uint256.Bytes.{to_bytes_be, from_bytes_be}
use div.Uint256.Bytes.RoundTrip.{to_bytes_be-Holds, from_bytes_be-Represents}
use div.Rlp.Encoding.{
  encoding, is_single, encoding_single, encoding_short, append-filled, start_filled,
}
use div.Rlp.Decode.{RlpDecoder, RlpError}
use div.Rlp.Suffix.{Before}
use div.Rlp.RoundTrip.{read, moved, decode_bytes-encoding}
use div.Rlp.Words.{strip_zeros, encode_uint256, encode_address, uint256_of, decode_uint256}

-- Bytes without a leading 0 with their number.
record Stripped (xs ys : List ℕ) : Type 0 where
  number : be ys ≡ be xs
  bytes : All IsU8 ys
  short : length ys ≤ length xs
  head : 1 ≤ length ys → get_or ys 0 0 ≢ 0

strip_zeros-Stripped : (xs : List ℕ) → All IsU8 xs → Stripped xs (strip_zeros xs)
unfolding strip_zeros
strip_zeros-Stripped [] h = record {
  number = refl;
  bytes = tt;
  short = omega arith;
  head = λ k. absurd (omega arith);
}
strip_zeros-Stripped (x ∷ xs) h = elim (Bool-cases (x == 0)) [
  | inl leading ↦
      let rest = strip_zeros-Stripped xs h.1 in
      let none_there : x * 256 ^ length xs ≡ 0 =
        ap (λ (t : ℕ). t * 256 ^ length xs) ((==_iff x 0).0 leading) ∙ omega arith in
      rw leading (record {
        number = omega (arith, rest.number, none_there);
        bytes = rest.bytes;
        short = omega (arith, rest.short);
        head = rest.head;
      })
  | inr first ↦
      rw first (record {
        number = refl;
        bytes = h;
        short = omega arith;
        head = λ k. ground (arith, first);
      })
]

-- A number whose bytes do not begin with 0 is at least the power of its size.
be-ge : (x : ℕ) (xs : List ℕ) → x ≢ 0 → 256 ^ length xs ≤ be (x ∷ xs)
be-ge x xs h =
    let positive : 1 ≤ x = ground (arith, h) in
    omega (arith, mul-le-mul_right {m = 1} {n = x} (256 ^ length xs) positive)

-- The bytes of a word that are encoded.
abbrev pub word_bytes : Uint256 → List ℕ
word_bytes value = strip_zeros (to_bytes_be value)

module _ (value : Uint256) (p : IsUint256 value) where
  word_bytes-Stripped :
      (be (word_bytes value) ≡ to_nat value)
      × All IsU8 (word_bytes value)
      × (length (word_bytes value) ≤ 32)
      × (1 ≤ length (word_bytes value) → get_or (word_bytes value) 0 0 ≢ 0)
  word_bytes-Stripped =
      let written = to_bytes_be-Holds value p in
      let stripped = strip_zeros-Stripped (to_bytes_be value) written.2 in
      (
        stripped.number ∙ written.0,
        stripped.bytes,
        omega (arith, stripped.short, written.1),
        stripped.head,
      )

  pub word_bytes_few : length (word_bytes value) ≤ 32
  word_bytes_few = word_bytes-Stripped.2

  word_bytes_small : to_nat value < 128 → 0 < to_nat value → word_bytes value ≡ to_nat value ∷ []
  word_bytes_small small pos =
      one_byte (word_bytes value) word_bytes-Stripped.0 word_bytes-Stripped.3
    where
      one_byte :
          (xs : List ℕ)
          → be xs ≡ to_nat value
          → (1 ≤ length xs → get_or xs 0 0 ≢ 0)
          → xs ≡ to_nat value ∷ []
      one_byte [] e h = absurd (omega (arith, e))
      one_byte (x ∷ []) e h =
          let same : x ≡ to_nat value = omega (arith, e, pow-zero 256) in ap (λ t. t ∷ []) same
      one_byte (x ∷ y ∷ xs) e h = absurd (
          omega (
            arith,
            e,
            be-ge x (y ∷ xs) (h (omega arith)),
            pow-suc 256 (length xs),
            one-le-pow (length xs) 256 (omega arith),
          ))

  word_bytes_zero : to_nat value ≡ 0 → word_bytes value ≡ []
  word_bytes_zero nothing = no_byte (word_bytes value) word_bytes-Stripped.0 word_bytes-Stripped.3
    where
      no_byte : (xs : List ℕ) → be xs ≡ to_nat value → (1 ≤ length xs → get_or xs 0 0 ≢ 0) → xs ≡ []
      no_byte [] e h = refl
      no_byte (x ∷ xs) e h =
          absurd (
            omega
              (arith, e, be-ge x xs (h (omega arith)), one-le-pow (length xs) 256 (omega arith)))

  word_bytes_large : 128 ≤ to_nat value → is_single (word_bytes value) ≡ false
  word_bytes_large large = many (word_bytes value) word_bytes-Stripped.0
    where
      many : (xs : List ℕ) → be xs ≡ to_nat value → is_single xs ≡ false
      many [] e = refl
      many (x ∷ []) e =
          let big : leb x 0x7f ≡ false = ground (arith, e, pow-zero 256) in rw big refl
      many (x ∷ y ∷ xs) e =
          let two : (suc (suc (length xs)) == 1) ≡ false = ground arith in rw two refl

  word_encoding :
      128 ≤ to_nat value
      → encoding (word_bytes value) ≡ (0x80 + length (word_bytes value)) ∷ word_bytes value
  word_encoding large =
      let short : ltb (length (word_bytes value)) 56 ≡ true =
        ground (arith, word_bytes-Stripped.2) in
      encoding_short (word_bytes value) (word_bytes_large large) short

  -- With room in the arena, a word is encoded as the string of its bytes without leading zeros.
  pub encode_uint256-encoding :
      (alloc : ℕ → Bool)
      → alloc (length (encoding (word_bytes value))) ≡ true
      → (encode_uint256 alloc value).stored ≡ encoding (word_bytes value)
  unfolding encode_uint256
  encode_uint256-encoding alloc room = elim (Bool-cases (is_zero value)) [
    | inl nothing ↦
        let same : encoding (word_bytes value) ≡ 0x80 ∷ [] =
          ap encoding (word_bytes_zero ((is_zero_iff value).0 nothing)) in
        rw nothing (
          ap (λ b. b.stored)
            (start_filled alloc 1 0x80 (omega arith) (omega arith)
              (ap (λ t. alloc (length t)) (sym same) ∙ room))
          ∙ sym same)
    | inr something ↦
        let pos : 0 < to_nat value = positive (to_nat value) (is_zero_ne value something) in
        elim (Bool-cases
          ((value.limb3 == 0) && (value.limb2 == 0) && (value.limb1 == 0) && ltb value.limb0 128)) [
            | inl small ↦
                let bound : to_nat value < 128 = ground (arith, small) in
                let same : u8 value.limb0 ≡ to_nat value = ground (arith, small) in
                let single : is_single (to_nat value ∷ []) ≡ true = ground (arith, bound) in
                let encoded : encoding (word_bytes value) ≡ to_nat value ∷ [] =
                  ap encoding (word_bytes_small bound pos)
                  ∙ encoding_single (to_nat value ∷ []) single in
                rw (something, small, same)
                  (ap (λ b. b.stored)
                      (start_filled alloc 1 (to_nat value) (omega arith) (omega arith)
                        (ap (λ t. alloc (length t)) (sym encoded) ∙ room))
                    ∙ sym encoded)
            | inr large ↦
                let bytes : List ℕ = word_bytes value in
                let bound : 128 ≤ to_nat value = ground (arith, large) in
                let few : length bytes ≤ 32 = word_bytes-Stripped.2 in
                let prefix : u8 (0x80 + length bytes) ≡ 0x80 + length bytes = omega (arith, few) in
                let encoded = word_encoding bound in
                let size : 1 + length bytes ≡ length (encoding bytes) =
                  omega (arith, ap length encoded) in
                let start =
                  start_filled alloc (1 + length bytes) (0x80 + length bytes) (omega arith)
                    (omega (arith, few)) (ap alloc size ∙ room) in
                rw (something, large, prefix, start)
                  (ap (λ b. b.stored)
                      (append-filled alloc (1 + length bytes) ((0x80 + length bytes) ∷ []) bytes
                        (omega arith) (omega (arith, few)))
                    ∙ sym encoded)
          ]
  ]
    where
      positive : (n : ℕ) → n ≢ 0 → 0 < n
      positive n h = ground (arith, h)

  pub from_bytes_be-word_bytes : from_bytes_be (word_bytes value) ≡ value
  from_bytes_be-word_bytes =
      let bytes : List ℕ = word_bytes value in
      let (number, all, few, head) = word_bytes-Stripped in
      let none_dropped : length bytes - 32 ≡ 0 = omega (arith, few) in
      let represents = from_bytes_be-Represents bytes all in
      to_nat-injective (from_bytes_be bytes) value represents.1 p
        (represents.0 ∙ ap (λ t. be (drop t bytes)) none_dropped ∙ number)

  pub word_bytes_some : is_zero value ≡ false → 0 < length (word_bytes value)
  word_bytes_some something = some_bytes (word_bytes value) word_bytes-Stripped.0
    where
      some_bytes : (xs : List ℕ) → be xs ≡ to_nat value → 0 < length xs
      some_bytes [] e = absurd (is_zero_ne value something (sym e))
      some_bytes (x ∷ xs) e = omega arith

  uint256_of-word_bytes :
      (consumed : ℕ)
      → uint256_of (read (word_bytes value) consumed)
        ≡ record { value = value; bytes_consumed = consumed; error = RlpError.rlp_success }
  unfolding uint256_of
  uint256_of-word_bytes consumed =
      let bytes : List ℕ = word_bytes value in
      let (number, all, few, head) = word_bytes-Stripped in
      elim (Bool-cases (length bytes == 0)) [
        | inl empty ↦
            let none_there : bytes ≡ [] = no_bytes bytes ((==_iff (length bytes) 0).0 empty) in
            let nothing : to_nat value ≡ 0 = omega (arith, number, ap be none_there) in
            let same : u256_zero ≡ value =
              to_nat-injective u256_zero value (omega arith) p (omega (arith, nothing)) in
            rw empty (
              ap
                (λ t. record { value = t; bytes_consumed = consumed; error = RlpError.rlp_success })
                same)
        | inr some_bytes ↦
            let fits : ltb 32 (length bytes) ≡ false = ground (arith, few) in
            let first : (get_or bytes 0 0 == 0) ≡ false =
              ground (arith, head (ground (arith, some_bytes))) in
            rw (some_bytes, fits, first, and_false (ltb 1 (length bytes)))
              (ap
                (λ t. record { value = t; bytes_consumed = consumed; error = RlpError.rlp_success })
                from_bytes_be-word_bytes)
      ]
    where
      no_bytes : (xs : List ℕ) → length xs ≡ 0 → xs ≡ []
      no_bytes [] e = refl
      no_bytes (x ∷ xs) e = absurd (omega (arith, e))

      and_false : (b : Bool) → (b && false) ≡ false
      and_false true = refl
      and_false false = refl

  -- A decoder that stands before the encoding of a word reads that word.
  pub decode_uint256-encoding :
      (d : RlpDecoder) (rest : List ℕ)
      → Before d (encoding (word_bytes value) ++ rest)
      → let size = length (encoding (word_bytes value)) in
        decode_uint256 d ≡ (
          record { value = value; bytes_consumed = size; error = RlpError.rlp_success },
          moved size d,
        )
  unfolding decode_uint256
  decode_uint256-encoding d rest v =
      let size : ℕ = length (encoding (word_bytes value)) in
      ap (λ (bytes, d'). (uint256_of bytes, d'))
        (decode_bytes-encoding d (word_bytes value) rest v (omega (arith, word_bytes-Stripped.2)))
      ∙ ap (λ t. (t, moved size d)) (uint256_of-word_bytes size)

-- Addresses are encoded as strings of 20 bytes, and read back.
pub encode_address-encoding :
    (alloc : ℕ → Bool) (addr : Address)
    → IsAddress addr
    → alloc 21 ≡ true
    → (encode_address alloc addr).stored ≡ encoding addr
unfolding encode_address
encode_address-encoding alloc addr h room =
    let start = start_filled alloc 21 0x94 (omega arith) (omega arith) room in
    let not_single : is_single addr ≡ false = ground (arith, h) in
    let short : ltb (length addr) 56 ≡ true = ground (arith, h) in
    ap (λ b. (append alloc addr b).1.stored) start
    ∙ (ap (λ b. b.stored) (append-filled alloc 21 (0x94 ∷ []) addr (omega (arith, h)) (omega arith))
        ∙ ap (λ t. t ∷ addr) (omega (arith, h))
        ∙ sym (encoding_short addr not_single short))
