-- ===== src/Rlp/RoundTrip.antt =====
-- Decoding what was encoded.
use div.Common.{
  ℕ, suc, ◌+◌, ◌-◌, ◌^◌, ◌≤◌, ◌<◌, ◌≡◌, ◌≢◌, refl, sym, ap, ◌∙◌, arith, true, false, ◌&&◌, List, [],
  ◌∷◌, ◌++◌, append_assoc, ltb, leb, ◌==◌, if◌then◌else◌, Bool-cases, inl, inr, ltb→lt, ltb→le,
  length, get_or, take, drop, length-append, get_or-append_left, drop-length-append, All, IsU8, u64,
  le→ltb,
}
use mathlib.Core.Path.{subst}
use native.Mathlib.Nat.{mod-eq_of_lt}
use div.Common.BigEndian.{be}
use div.Rlp.{length_of_length}
use div.Rlp.Encode.{be_bytes}
use div.Rlp.Encoding.{
  encoding, is_single, encoding_single, encoding_short, encoding_long, length-encoding_long,
}
use div.Rlp.Lengths.{length_of_length-IsByteCount, be_bytes-Holds, be_bytes_head}
use div.Rlp.Decode.{
  RlpDecoder, BytesResult, RlpError, current, remaining, has_more, advance, failed, decode_short,
  after_length, decode_long, decode_bytes,
}
use div.Rlp.Suffix.{
  Before, size-Before, current-Before, remaining-Before, has_more-Before, advance-pos,
  advance-Before, view_next-Before, decode_length-Before,
}

-- The bytes were read, with the size of their encoding.
abbrev pub read : List ℕ → ℕ → BytesResult
read xs consumed = record {
  view = xs;
  len = length xs;
  bytes_consumed = consumed;
  error = RlpError.rlp_success;
}

pub decode_prefix :
    (d : RlpDecoder)
    → has_more d ≡ true
    → decode_bytes d ≡ (
        if leb (current d) 0x7f
        then (
          record {
            view = take 1 (drop d.pos d.input);
            len = 1;
            bytes_consumed = 1;
            error = RlpError.rlp_success;
          },
          advance 1 d,
        )
        else if leb (current d) 0xb7
        then decode_short (current d - 0x80) (advance 1 d)
        else if leb (current d) 0xbf
        then decode_long (current d - 0xb7) (advance 1 d)
        else (failed RlpError.rlp_err_invalid_prefix, advance 1 d))
unfolding decode_bytes
decode_prefix d more = rw more refl

-- A decoder further on in the same input.
abbrev pub moved : ℕ → RlpDecoder → RlpDecoder
moved n d = record d { pos = d.pos + n }

advance-moved :
    (d : RlpDecoder) (s : List ℕ) (n : ℕ) → Before d s → n ≤ length s → advance n d ≡ moved n d
advance-moved d s n v h = ap (λ t. record d { pos = t }) (advance-pos d s v n h)

Before-append :
    (d : RlpDecoder) (xs ys rest : List ℕ)
    → Before d ((xs ++ ys) ++ rest)
    → Before (advance (length xs) d) (ys ++ rest)
Before-append d xs ys rest v =
    let further =
      advance-Before d ((xs ++ ys) ++ rest) v (length xs)
        (omega (arith, length-append (xs ++ ys) rest, length-append xs ys)) in
    let cut : drop (length xs) ((xs ++ ys) ++ rest) ≡ ys ++ rest =
      ap (drop (length xs)) (append_assoc xs ys rest) ∙ drop-length-append xs (ys ++ rest) in
    record { suffix = further.suffix ∙ cut; inside = further.inside; bound = further.bound }

decode_single :
    (d : RlpDecoder) (x : ℕ) (rest : List ℕ)
    → Before d (x ∷ rest)
    → leb x 0x7f ≡ true
    → decode_bytes d ≡ (read (x ∷ []) 1, moved 1 d)
decode_single d x rest v small =
    let first : current d ≡ x = current-Before d (x ∷ rest) v in
    let next : take 1 (drop d.pos d.input) ≡ x ∷ [] = ap (take 1) v.suffix in
    decode_prefix d (has_more-Before d (x ∷ rest) v (omega arith))
    ∙ rw (first, small, next)
        (ap (λ t. (read (x ∷ []) 1, t)) (advance-moved d (x ∷ rest) 1 v (omega arith)))

-- The byte after the prefix is the first of the string.
not_single_here :
    (xs : List ℕ) (byte : ℕ)
    → (1 ≤ length xs → byte ≡ get_or xs 0 0)
    → is_single xs ≡ false
    → (length xs == 1 && leb byte 0x7f) ≡ false
not_single_here xs byte first not_single = elim (Bool-cases (length xs == 1)) [
  | inl one ↦ let here : byte ≡ get_or xs 0 0 = first (ground (arith, one)) in rw here not_single
  | inr other ↦ rw other refl
]

short_string :
    (d : RlpDecoder) (xs rest : List ℕ)
    → Before d (xs ++ rest)
    → is_single xs ≡ false
    → length xs < 56
    → decode_short (length xs) d ≡ (read xs (1 + length xs), advance (length xs) d)
short_string d xs rest v not_single few =
    let enough : ltb (remaining d) (length xs) ≡ false =
      le→ltb (remaining d) (length xs)
        (omega (arith, remaining-Before d (xs ++ rest) v, length-append xs rest)) in
    let canonical : (length xs == 1 && leb (current d) 0x7f) ≡ false =
      not_single_here xs (current d)
        (λ h. current-Before d (xs ++ rest) v ∙ get_or-append_left xs rest 0 0 h) not_single in
    let consumed : u64 (1 + length xs) ≡ 1 + length xs = omega arith in
    rw (enough, canonical)
      (ap (λ t. (t, advance (length xs) d))
        (view_next-Before d 1 xs rest v ∙ ap (read xs) consumed))

long_string :
    (d : RlpDecoder) (n : ℕ) (header xs rest : List ℕ)
    → Before d ((header ++ xs) ++ rest)
    → length header ≡ n
    → 1 ≤ n
    → n ≤ 8
    → All IsU8 header
    → get_or header 0 0 ≢ 0
    → be header ≡ length xs
    → 56 ≤ length xs
    → length xs < 2 ^ 63
    → decode_long n d ≡ (read xs (1 + n + length xs), advance (length xs) (advance n d))
long_string d n header xs rest v size low high bytes head value many b =
    let later : Before (advance n d) (xs ++ rest) =
      subst (λ t. Before (advance t d) (xs ++ rest)) size (Before-append d header xs rest v) in
    let split : Before d (header ++ (xs ++ rest)) = record {
      suffix = v.suffix ∙ append_assoc header xs rest;
      inside = v.inside;
      bound = v.bound;
    } in
    let length_read = decode_length-Before d n header (xs ++ rest) split size low high bytes head in
    let enough_bytes : ltb (length xs) 56 ≡ false = ground arith in
    let enough : ltb (remaining (advance n d)) (length xs) ≡ false =
      le→ltb (remaining (advance n d)) (length xs)
        (omega (arith, remaining-Before (advance n d) (xs ++ rest) later, length-append xs rest)) in
    let consumed : u64 (1 + n + length xs) ≡ 1 + n + length xs = omega arith in
    ap (after_length n) length_read
    ∙ rw (value, enough_bytes, enough)
        (ap (λ t. (t, advance (length xs) (advance n d)))
          (view_next-Before (advance n d) (1 + n) xs rest later ∙ ap (read xs) consumed))

-- Moving over the parts of an encoding is moving over all of it.
advance_twice :
    (d : RlpDecoder) (s : List ℕ) (m n : ℕ)
    → Before d s
    → m + n ≤ length s
    → advance n (advance m d) ≡ moved (m + n) d
advance_twice d s m n v h =
    let exact : (advance n (advance m d)).pos ≡ d.pos + (m + n) =
      omega (arith, size-Before d s v, v.bound) in
    ap (λ t. record d { pos = t }) exact

decode_short_string :
    (d : RlpDecoder) (xs rest : List ℕ)
    → Before d ((0x80 + length xs) ∷ (xs ++ rest))
    → is_single xs ≡ false
    → length xs < 56
    → decode_bytes d ≡ (read xs (1 + length xs), moved (1 + length xs) d)
decode_short_string d xs rest v not_single few =
    let s : List ℕ = (0x80 + length xs) ∷ (xs ++ rest) in
    let first : current d ≡ 0x80 + length xs = current-Before d s v in
    let above : leb (0x80 + length xs) 0x7f ≡ false = ground arith in
    let short : leb (0x80 + length xs) 0xb7 ≡ true = ground arith in
    let size : 0x80 + length xs - 0x80 ≡ length xs = omega arith in
    let later = advance-Before d s v 1 (omega arith) in
    decode_prefix d (has_more-Before d s v (omega arith))
    ∙ rw (first, above, short, size)
        (short_string (advance 1 d) xs rest later not_single few
          ∙ ap (λ t. (read xs (1 + length xs), t))
              (advance_twice d s 1 (length xs) v (omega (arith, length-append xs rest))))

decode_long_string :
    (d : RlpDecoder) (xs rest : List ℕ)
    → Before d (
        (0xb7 + length_of_length (length xs))
        ∷ ((be_bytes (length_of_length (length xs)) (length xs) ++ xs) ++ rest))
    → 56 ≤ length xs
    → length xs < 2 ^ 63
    → decode_bytes d ≡ (
      read xs (1 + length_of_length (length xs) + length xs),
      moved (1 + length_of_length (length xs) + length xs) d,
    )
decode_long_string d xs rest v many b =
    let n : ℕ = length_of_length (length xs) in
    let header : List ℕ = be_bytes n (length xs) in
    let s : List ℕ = (0xb7 + n) ∷ ((header ++ xs) ++ rest) in
    let count = length_of_length-IsByteCount (length xs) (omega arith) many in
    let written = be_bytes-Holds n (length xs) in
    let value : be header ≡ length xs = written.0 ∙ mod-eq_of_lt count.0.holds in
    let first : current d ≡ 0xb7 + n = current-Before d s v in
    let above : leb (0xb7 + n) 0x7f ≡ false = ground arith in
    let not_short : leb (0xb7 + n) 0xb7 ≡ false = ground (arith, count.1) in
    let long : leb (0xb7 + n) 0xbf ≡ true = ground (arith, count.2) in
    let size : 0xb7 + n - 0xb7 ≡ n = omega arith in
    let later = advance-Before d s v 1 (omega arith) in
    let room : 1 + n + length xs ≤ length s =
      omega (arith, length-append (header ++ xs) rest, length-append header xs, written.1) in
    decode_prefix d (has_more-Before d s v (omega arith))
    ∙ rw (first, above, not_short, long, size)
        (long_string (advance 1 d) n header xs rest later written.1 count.1 count.2 written.2
            (be_bytes_head n (length xs) count.0 count.1) value many b
          ∙ ap (λ t. (read xs (1 + n + length xs), t))
              (ap (advance (length xs)) (advance_twice d s 1 n v (omega arith))
                ∙ ap (λ t. record d { pos = t }) (omega (arith, size-Before d s v, room, v.bound))))

-- A decoder that stands before the encoding of fewer than 2 ^ 63 bytes, whatever follows it, reads
-- those bytes, reports the size of the encoding, and moves exactly behind it.
pub decode_bytes-encoding :
    (d : RlpDecoder) (xs rest : List ℕ)
    → Before d (encoding xs ++ rest)
    → length xs < 2 ^ 63
    → decode_bytes d ≡ (read xs (length (encoding xs)), moved (length (encoding xs)) d)
decode_bytes-encoding d xs rest v b = elim (Bool-cases (is_single xs)) [
  | inl single ↦
      let same : encoding xs ≡ xs = encoding_single xs single in
      one_byte xs single (subst (λ t. Before d (t ++ rest)) same v)
      ∙ ap (λ t. (read xs t, moved t d)) (single_size xs single ∙ ap length (sym same))
  | inr not_single ↦ elim (Bool-cases (ltb (length xs) 56)) [
    | inl short ↦
        let same = encoding_short xs not_single short in
        decode_short_string d xs rest (subst (λ t. Before d (t ++ rest)) same v) not_single
          (ltb→lt _ _ short)
        ∙ ap (λ t. (read xs t, moved t d)) (next_size xs ∙ ap length (sym same))
    | inr long ↦
        let same = encoding_long xs not_single long in
        decode_long_string d xs rest (subst (λ t. Before d (t ++ rest)) same v) (ltb→le _ _ long) b
        ∙ ap (λ t. (read xs t, moved t d)) (sym (length-encoding_long xs not_single long))
  ]
]
  where
    next_size : (ys : List ℕ) → 1 + length ys ≡ suc (length ys)
    next_size ys = omega arith

    single_size : (ys : List ℕ) → is_single ys ≡ true → 1 ≡ length ys
    single_size ys single = ground (arith, single)

    one_byte :
        (ys : List ℕ)
        → is_single ys ≡ true
        → Before d (ys ++ rest)
        → decode_bytes d ≡ (read ys 1, moved 1 d)
    one_byte [] single w = absurd (ground (arith, single))
    one_byte (y ∷ []) single w = decode_single d y rest w single
    one_byte (y ∷ z ∷ ys) single w = absurd (ground (arith, single))
