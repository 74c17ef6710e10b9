-- ===== src/Rlp/Integers.antt =====
-- The encoders of bytes and of integers with the decoders, on whole buffers.
use div.Common.{
  ℕ, zero, suc, ◌+◌, ◌-◌, ◌*◌, ◌^◌, ◌≤◌, ◌<◌, ◌≡◌, refl, sym, ap, ◌∙◌, arith, Bool, true, false,
  ◌&&◌, List, [], ◌∷◌, ◌++◌, append_assoc, append-nil, ltb, leb, ◌==◌, ==_iff, Bool-cases, inl, inr,
  ltb→lt, ltb→le, length, get_or, length-append, IsU64, u8, ◌>>>◌,
}
use div.Common.BigEndian.{shift_in, shift_in-be}
use div.Uint256.ByteLength.{IsByteCount}
use native.Mathlib.Nat.{pow-suc, one-le-pow, mod-eq_of_lt}
use div.Types.Bytes.{append_byte}
use div.Rlp.{byte_length_u64}
use div.Rlp.Encode.{be_bytes, encode_bytes, append_be, encode_u64}
use div.Rlp.Encoding.{
  encoding, is_single, encoding_single, encoding_short, encoding_bound, encode_bytes-encoding,
  filled, append-filled, start_filled,
}
use div.Rlp.Lengths.{byte_length_u64-IsByteCount, be_bytes-Holds, be_bytes_head}
use div.Rlp.Decode.{RlpDecoder, RlpError, decoder_init, decode_bytes, u64_of, decode_u64}
use div.Rlp.Suffix.{Before}
use div.Rlp.RoundTrip.{read, moved, decode_bytes-encoding}

-- With room in the arena, what the encoder writes for fewer than 2 ^ 61 bytes is read back by the
-- decoder at the start of the buffer, whatever follows within as many bytes; the rest is left.
pub decode_bytes-encode_bytes :
    (alloc : ℕ → Bool) (xs rest : List ℕ)
    → length xs < 2 ^ 61
    → length rest < 2 ^ 61
    → alloc (length (encoding xs)) ≡ true
    → let input = (encode_bytes alloc xs).stored ++ rest in
      let size = length (encode_bytes alloc xs).stored in
      decode_bytes (decoder_init input) ≡ (read xs size, record { input = input; pos = size })
decode_bytes-encode_bytes alloc xs rest b c room =
    let same = encode_bytes-encoding alloc xs (omega arith) room in
    let size : ℕ = length (encoding xs) in
    let input : List ℕ = encoding xs ++ rest in
    let total : length input < 2 ^ 63 =
      omega (arith, length-append (encoding xs) rest, encoding_bound xs (omega arith)) in
    let whole : Before (decoder_init input) input = record {
      suffix = refl;
      inside = omega arith;
      bound = total;
    } in
    let from_start : 0 + size ≡ size = omega arith in
    rw same (
      decode_bytes-encoding (decoder_init input) xs rest whole (omega arith)
      ∙ ap (λ t. (read xs size, record { input = input; pos = t })) from_start)

-- The bytes of a number without leading zeros; none for 0.
abbrev pub minimal_bytes : ℕ → List ℕ
minimal_bytes value = be_bytes (byte_length_u64 value) value

module _ (alloc : ℕ → Bool) where
  append_be-be_bytes :
      (n value capacity : ℕ) (xs : List ℕ)
      → length xs + n ≤ capacity
      → capacity < 2 ^ 64
      → append_be alloc n value (filled alloc capacity xs)
        ≡ filled alloc capacity (xs ++ be_bytes n value)
  unfolding append_be be_bytes append_byte
  append_be-be_bytes zero value capacity xs h k = ap (filled alloc capacity) (sym (append-nil xs))
  append_be-be_bytes (suc n) value capacity xs h k =
      let byte : ℕ = u8 (value >>> (n * 8)) in
      rw (append-filled alloc capacity xs (byte ∷ []) (omega arith) k) (
        append_be-be_bytes n value capacity (xs ++ (byte ∷ []))
          (omega (arith, length-append xs (byte ∷ []))) k
        ∙ ap (filled alloc capacity) (append_assoc xs (byte ∷ []) (be_bytes n value)))

  encode_zero : alloc 1 ≡ true → (encode_u64 alloc 0).stored ≡ 0x80 ∷ []
  unfolding encode_u64
  encode_zero room = ap (λ b. b.stored) (start_filled alloc 1 0x80 (omega arith) (omega arith) room)

  encode_small :
      (value : ℕ)
      → 0 < value
      → value < 128
      → alloc 1 ≡ true
      → (encode_u64 alloc value).stored ≡ value ∷ []
  unfolding encode_u64
  encode_small value pos small room =
      let some_value : (value == 0) ≡ false = ground arith in
      let one_byte : ltb value 128 ≡ true = ground arith in
      let same : u8 value ≡ value = omega arith in
      rw (some_value, one_byte, same)
        (ap (λ b. b.stored) (start_filled alloc 1 value (omega arith) (omega arith) room))

  encode_large :
      (value : ℕ)
      → IsU64 value
      → 128 ≤ value
      → alloc (1 + byte_length_u64 value) ≡ true
      → (encode_u64 alloc value).stored ≡ (0x80 + byte_length_u64 value) ∷ minimal_bytes value
  unfolding encode_u64
  encode_large value h large room =
      let n : ℕ = byte_length_u64 value in
      let count = byte_length_u64-IsByteCount value h (omega arith) in
      let some_value : (value == 0) ≡ false = ground arith in
      let more : ltb value 128 ≡ false = ground arith in
      let prefix : u8 (0x80 + n) ≡ 0x80 + n = omega (arith, count) in
      let start = start_filled alloc (1 + n) (0x80 + n) (omega arith) (omega (arith, count)) room in
      rw (some_value, more, prefix, start)
        (ap (λ b. b.stored)
          (append_be-be_bytes n value (1 + n) ((0x80 + n) ∷ []) (omega arith)
            (omega (arith, count))))

minimal_zero : minimal_bytes 0 ≡ []
unfolding byte_length_u64 be_bytes
minimal_zero = refl

-- One byte, for a number below 256.
one_byte_count : (value n : ℕ) → IsByteCount value n → 0 < value → value < 256 → 1 ≤ n → n ≡ 1
one_byte_count value zero count pos small low = absurd (omega arith)
one_byte_count value (suc zero) count pos small low = refl
one_byte_count value (suc (suc n)) count pos small low =
    let pred : suc (suc n) - 1 ≡ suc n = omega arith in
    absurd (
      omega (
        arith,
        count.least (omega arith),
        ap (λ t. 256 ^ t) pred,
        pow-suc 256 n,
        one-le-pow n 256 (omega arith),
      ))

single_byte : (x : ℕ) → x < 256 → be_bytes 1 x ≡ x ∷ []
unfolding be_bytes
single_byte x h = let same : u8 (x >>> 0) ≡ x = omega arith in ap (λ t. t ∷ []) same

minimal_small : (value : ℕ) → 0 < value → value < 128 → minimal_bytes value ≡ value ∷ []
minimal_small value pos small =
    let count = byte_length_u64-IsByteCount value (omega arith) pos in
    let one : byte_length_u64 value ≡ 1 =
      one_byte_count value (byte_length_u64 value) count.0 pos (omega arith) count.1 in
    ap (λ t. be_bytes t value) one ∙ single_byte value (omega arith)

minimal_large : (value : ℕ) → IsU64 value → 128 ≤ value → is_single (minimal_bytes value) ≡ false
minimal_large value h large =
    let n : ℕ = byte_length_u64 value in
    let count = byte_length_u64-IsByteCount value h (omega arith) in
    let written = be_bytes-Holds n value in
    elim (Bool-cases (n == 1)) [
      | inr more ↦ rw (written.1, more) refl
      | inl one ↦
          let single : n ≡ 1 = (==_iff n 1).0 one in
          let fits : value < 256 = omega (arith, count.0.holds, ap (λ t. 256 ^ t) single) in
          let too_large : leb value 0x7f ≡ false = ground arith in
          ap (λ t. is_single (be_bytes t value)) single
          ∙ ap is_single (single_byte value fits)
          ∙ rw too_large refl
    ]

minimal_size : (value : ℕ) → length (minimal_bytes value) ≡ byte_length_u64 value
minimal_size value = (be_bytes-Holds (byte_length_u64 value) value).1

-- The encoding of a number that takes a prefix.
large_encoding :
    (value : ℕ)
    → IsU64 value
    → 128 ≤ value
    → encoding (minimal_bytes value) ≡ (0x80 + byte_length_u64 value) ∷ minimal_bytes value
large_encoding value h large =
    let count = byte_length_u64-IsByteCount value h (omega arith) in
    let size = minimal_size value in
    let short : ltb (length (minimal_bytes value)) 56 ≡ true = ground (arith, size, count.2) in
    encoding_short (minimal_bytes value) (minimal_large value h large) short
    ∙ ap (λ t. (0x80 + t) ∷ minimal_bytes value) size

-- With room in the arena, a number is encoded as the string of its bytes without leading zeros.
pub encode_u64-encoding :
    (alloc : ℕ → Bool) (value : ℕ)
    → IsU64 value
    → alloc (length (encoding (minimal_bytes value))) ≡ true
    → (encode_u64 alloc value).stored ≡ encoding (minimal_bytes value)
encode_u64-encoding alloc value h room = elim (Bool-cases (value == 0)) [
  | inl nothing ↦
      let e : value ≡ 0 = (==_iff value 0).0 nothing in
      let same : encoding (minimal_bytes value) ≡ 0x80 ∷ [] =
        ap (λ t. encoding (minimal_bytes t)) e ∙ ap encoding minimal_zero in
      ap (λ t. (encode_u64 alloc t).stored) e
      ∙ encode_zero alloc (ap (λ t. alloc (length t)) (sym same) ∙ room)
      ∙ sym same
  | inr some_value ↦
      let pos : 0 < value = ground (arith, some_value) in
      elim (Bool-cases (ltb value 128)) [
        | inl small ↦
            let single : is_single (value ∷ []) ≡ true = ground (arith, small) in
            let same : encoding (minimal_bytes value) ≡ value ∷ [] =
              ap encoding (minimal_small value pos (ltb→lt _ _ small))
              ∙ encoding_single (value ∷ []) single in
            encode_small alloc value pos (ltb→lt _ _ small)
              (ap (λ t. alloc (length t)) (sym same) ∙ room)
            ∙ sym same
        | inr large ↦
            let same = large_encoding value h (ltb→le _ _ large) in
            let size : length (encoding (minimal_bytes value)) ≡ 1 + byte_length_u64 value =
              omega (arith, ap length same, minimal_size value) in
            encode_large alloc value h (ltb→le _ _ large) (ap alloc (sym size) ∙ room) ∙ sym same
      ]
]

and_false : (b : Bool) → (b && false) ≡ false
and_false true = refl
and_false false = refl

-- The number that the decoder makes of the bytes without leading zeros.
u64_of-minimal :
    (value consumed : ℕ)
    → IsU64 value
    → u64_of (read (minimal_bytes value) consumed)
      ≡ record { value = value; bytes_consumed = consumed; error = RlpError.rlp_success }
unfolding u64_of
u64_of-minimal value consumed h = elim (Bool-cases (value == 0)) [
  | inl nothing ↦ let e : value ≡ 0 = (==_iff value 0).0 nothing in rw e (rw minimal_zero refl)
  | inr some_value ↦
      let n : ℕ = byte_length_u64 value in
      let bytes : List ℕ = minimal_bytes value in
      let count = byte_length_u64-IsByteCount value h (ground (arith, some_value)) in
      let written = be_bytes-Holds n value in
      let not_empty : (length bytes == 0) ≡ false = ground (arith, written.1, count.1) in
      let fits : ltb 8 (length bytes) ≡ false = ground (arith, written.1, count.2) in
      let head : (get_or bytes 0 0 == 0) ≡ false =
        ground (arith, be_bytes_head n value count.0 count.1) in
      let number : shift_in 0 bytes ≡ value = omega (
        arith,
        shift_in-be 0 0 bytes (omega arith) (omega (arith, written.1, count.2)) written.2,
        written.0,
        mod-eq_of_lt count.0.holds,
      ) in
      rw (not_empty, fits, head, number, and_false (ltb 1 (length bytes))) refl
]

-- A decoder that stands before the encoding of a number of 64 bits reads that number.
pub decode_u64-encoding :
    (d : RlpDecoder) (value : ℕ) (rest : List ℕ)
    → IsU64 value
    → Before d (encoding (minimal_bytes value) ++ rest)
    → let size = length (encoding (minimal_bytes value)) in
      decode_u64 d ≡ (
        record { value = value; bytes_consumed = size; error = RlpError.rlp_success },
        moved size d,
      )
unfolding decode_u64
decode_u64-encoding d value rest h v =
    let size : ℕ = length (encoding (minimal_bytes value)) in
    ap (λ (bytes, d'). (u64_of bytes, d'))
      (decode_bytes-encoding d (minimal_bytes value) rest v (short value h))
    ∙ ap (λ t. (t, moved size d)) (u64_of-minimal value size h)
  where
    short : (x : ℕ) → IsU64 x → length (minimal_bytes x) < 2 ^ 63
    short x k = elim (Bool-cases (x == 0)) [
      | inl nothing ↦ omega (
        arith,
        ap (λ t. length (minimal_bytes t)) ((==_iff x 0).0 nothing),
        ap length minimal_zero,
      )
      | inr some_value ↦
          omega
            (arith, minimal_size x, byte_length_u64-IsByteCount x k (ground (arith, some_value)))
    ]
