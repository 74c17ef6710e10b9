-- ===== src/Rlp/Accepted.antt =====
-- What `rlp_decode_bytes` accepts: encodings, and nothing else.
use div.Common.{
  ℕ, zero, suc, ◌+◌, ◌-◌, ◌^◌, ◌≤◌, ◌<◌, ◌≡◌, ◌≢◌, refl, sym, ap, ◌∙◌, arith, true, false, ◌&&◌,
  List, [], ◌∷◌, ◌++◌, ltb, leb, ◌==◌, Bool-cases, inl, inr, ltb→le, leb→le, leb→gt, length, get_or,
  take, drop, length-take, length-drop, get_or-take, All, All-take, All-drop, IsU8, u64,
}
use mathlib.Core.Path.{subst}
use div.Common.BigEndian.{be}
use div.Rlp.{length_of_length}
use div.Rlp.Encode.{be_bytes}
use div.Rlp.Encoding.{encoding, is_single, encoding_single, encoding_short, encoding_long}
use div.Rlp.Decode.{
  RlpDecoder, BytesResult, RlpError, current, remaining, has_more, advance, decode_short,
  after_length, decode_length, decode_long, decode_bytes,
}
use div.Rlp.Suffix.{
  Before, size-Before, current-Before, remaining-Before, has_more-Before, advance-Before,
}
use div.Rlp.RoundTrip.{decode_prefix}
use div.Rlp.Canonical.{Refused, decode_length-cases, length_of_length-be, be_bytes-be}

-- A string that was read is one whose encoding stands at the front of the bytes.
abbrev IsEncoding : List ℕ → BytesResult × RlpDecoder → Type 0
IsEncoding s (r, d) = r.error ≡ RlpError.rlp_success → take r.bytes_consumed s ≡ encoding r.view

take_add : (m n : ℕ) (xs : List ℕ) → take (m + n) xs ≡ take m xs ++ take n (drop m xs)
take_add zero n xs = ap (λ t. take t xs) (omega arith)
take_add (suc m) zero [] =
    let step : suc m + zero ≡ suc (m + zero) = omega arith in ap (λ (t : ℕ). take t []) step
take_add (suc m) (suc n) [] =
    let step : suc m + (suc n) ≡ suc (m + (suc n)) = omega arith in ap (λ (t : ℕ). take t []) step
take_add (suc m) n (x ∷ xs) =
    let step : suc m + n ≡ suc (m + n) = omega arith in
    ap (λ t. take t (x ∷ xs)) step ∙ ap (λ t. x ∷ t) (take_add m n xs)

-- The test of the decoder sees that a string has no shorter form.
not_single :
    (xs : List ℕ) (byte : ℕ)
    → (1 ≤ length xs → get_or xs 0 0 ≡ byte)
    → (length xs == 1 && leb byte 0x7f) ≡ false
    → is_single xs ≡ false
not_single [] byte first canonical = refl
not_single (x ∷ []) byte first canonical = ap (λ t. leb t 0x7f) (first (omega arith)) ∙ canonical
not_single (x ∷ y ∷ xs) byte first canonical = ground arith

short_IsEncoding :
    (d : RlpDecoder) (t : List ℕ) (len : ℕ)
    → Before d t
    → len < 56
    → IsEncoding ((0x80 + len) ∷ t) (decode_short len d)
short_IsEncoding d t len v few = elim (Bool-cases (ltb (remaining d) len)) [
  | inl missing ↦ rw missing (λ e. absurd cc)
  | inr enough ↦ elim (Bool-cases (len == 1 && leb (current d) 0x7f)) [
    | inl one ↦ rw (enough, one) (λ e. absurd cc)
    | inr canonical ↦
        rw (enough, canonical)
          (λ e.
            let xs : List ℕ = take len t in
            let next : take len (drop d.pos d.input) ≡ xs = ap (take len) v.suffix in
            let size : length xs ≡ len =
              omega (arith, length-take len t, remaining-Before d t v, ltb→le _ _ enough) in
            let consumed : u64 (1 + len) ≡ suc len = omega arith in
            let longer : is_single xs ≡ false =
              not_single xs (current d)
                (λ h. get_or-take len t 0 0 (omega (arith, size)) ∙ sym (current-Before d t v))
                (ap (λ k. k == 1 && leb (current d) 0x7f) size ∙ canonical) in
            let short : ltb (length xs) 56 ≡ true = ground (arith, size, few) in
            ap (λ k. take k ((0x80 + len) ∷ t)) consumed
            ∙ sym (
                ap encoding next ∙ encoding_short xs longer short ∙ ap (λ k. (0x80 + k) ∷ xs) size))
  ]
]

-- The checks after a length of `n` bytes.
long_IsEncoding :
    (d : RlpDecoder) (t : List ℕ) (n : ℕ)
    → Before d t
    → All IsU8 t
    → 1 ≤ n
    → n ≤ 8
    → n ≤ length t
    → get_or (take n t) 0 0 ≢ 0
    → IsEncoding ((0xb7 + n) ∷ t) (
        after_length n (
          record {
            view = [];
            len = be (take n t);
            bytes_consumed = n;
            error = RlpError.rlp_success;
          },
          advance n d,
        ))
long_IsEncoding d t n v bytes low high room head =
    let header : List ℕ = take n t in
    let len : ℕ = be header in
    let later = advance-Before d t v n room in
    elim (Bool-cases (ltb len 56)) [
      | inl short ↦ rw short (λ e. absurd cc)
      | inr many ↦ elim (Bool-cases (ltb (remaining (advance n d)) len)) [
        | inl missing ↦ rw (many, missing) (λ e. absurd cc)
        | inr enough ↦
            rw (many, enough)
              (λ e.
                let xs : List ℕ = take len (drop n t) in
                let next : take len (drop (advance n d).pos d.input) ≡ xs =
                  ap (take len) later.suffix in
                let inside : len ≤ length (drop n t) =
                  omega
                    (arith, remaining-Before (advance n d) (drop n t) later, ltb→le _ _ enough) in
                let size : length xs ≡ len = omega (arith, length-take len (drop n t)) in
                let header_size : length header ≡ n = omega (arith, length-take n t) in
                let header_bytes : All IsU8 header = All-take IsU8 n t bytes in
                let count : length_of_length len ≡ n =
                  length_of_length-be header header_bytes (omega (arith, header_size))
                    (omega (arith, header_size)) head (ltb→le _ _ many)
                  ∙ header_size in
                let written : be_bytes n len ≡ header =
                  ap (λ k. be_bytes k len) (sym header_size) ∙ be_bytes-be header header_bytes in
                let consumed : u64 (1 + n + len) ≡ suc (n + len) =
                  omega (arith, size-Before d t v, v.bound, length-drop n t) in
                let longer : is_single xs ≡ false = ground (arith, size, many) in
                let long : ltb (length xs) 56 ≡ false = ap (λ k. ltb k 56) size ∙ many in
                ap (λ k. take k ((0xb7 + n) ∷ t)) consumed
                ∙ ap (λ k. (0xb7 + n) ∷ k) (take_add n len t)
                ∙ sym (
                    ap encoding next
                    ∙ encoding_long xs longer long
                    ∙ ap
                        (λ k. (0xb7 + length_of_length k) ∷ (be_bytes (length_of_length k) k ++ xs))
                        size
                    ∙ ap (λ k. (0xb7 + k) ∷ (be_bytes k len ++ xs)) count
                    ∙ ap (λ k. (0xb7 + n) ∷ (k ++ xs)) written))
      ]
    ]

-- What failed before the checks fails after them.
after_error :
    (e : RlpError) (n : ℕ) (s xs : List ℕ) (len size : ℕ) (d : RlpDecoder)
    → e ≢ RlpError.rlp_success
    → IsEncoding s
        (after_length n (record { view = xs; len = len; bytes_consumed = size; error = e }, d))
after_error RlpError.rlp_success n s xs len size d bad = absurd (bad refl)
after_error RlpError.rlp_err_input_too_short n s xs len size d bad = λ same. absurd cc
after_error RlpError.rlp_err_leading_zeros n s xs len size d bad = λ same. absurd cc
after_error RlpError.rlp_err_non_canonical n s xs len size d bad = λ same. absurd cc
after_error RlpError.rlp_err_integer_overflow n s xs len size d bad = λ same. absurd cc
after_error RlpError.rlp_err_list_mismatch n s xs len size d bad = λ same. absurd cc
after_error RlpError.rlp_err_invalid_prefix n s xs len size d bad = λ same. absurd cc
after_error RlpError.rlp_err_wrong_size n s xs len size d bad = λ same. absurd cc

after_length-Refused :
    (n : ℕ) (s : List ℕ) (r : BytesResult × RlpDecoder)
    → Refused r.0
    → IsEncoding s (after_length n r)
after_length-Refused n s (r, d) bad = after_error r.error n s r.view r.len r.bytes_consumed d bad

decode_bytes-IsEncoding :
    (d : RlpDecoder) (s : List ℕ) → Before d s → All IsU8 s → IsEncoding s (decode_bytes d)
unfolding decode_bytes
decode_bytes-IsEncoding d [] v bytes =
    let none_left : has_more d ≡ false = ground (arith, size-Before d [] v) in
    rw none_left (λ e. absurd cc)
decode_bytes-IsEncoding d (p ∷ t) v bytes =
    let later : Before (advance 1 d) t = advance-Before d (p ∷ t) v 1 (omega arith) in
    let first : current d ≡ p = current-Before d (p ∷ t) v in
    subst (IsEncoding (p ∷ t)) (sym (decode_prefix d (has_more-Before d (p ∷ t) v (omega arith)))) (
      rw first (elim (Bool-cases (leb p 0x7f)) [
        | inl small ↦
            rw small
              (λ e. sym (ap (λ k. encoding (take 1 k)) v.suffix ∙ encoding_single (p ∷ []) small))
        | inr large ↦ elim (Bool-cases (leb p 0xb7)) [
          | inl short ↦
              let prefix : 0x80 + (p - 0x80) ≡ p = omega (arith, leb→gt _ _ large) in
              rw (large, short)
                (subst (λ k. IsEncoding (k ∷ t) (decode_short (p - 0x80) (advance 1 d))) prefix
                  (short_IsEncoding (advance 1 d) t (p - 0x80) later
                    (omega (arith, leb→le _ _ short))))
          | inr not_short ↦ elim (Bool-cases (leb p 0xbf)) [
            | inl long ↦
                let prefix : 0xb7 + (p - 0xb7) ≡ p = omega (arith, leb→gt _ _ not_short) in
                rw (large, not_short, long)
                  (subst (λ k. IsEncoding (k ∷ t) (decode_long (p - 0xb7) (advance 1 d))) prefix
                    (decoded (p - 0xb7) later (omega (arith, leb→gt _ _ not_short))
                      (omega (arith, leb→le _ _ long))))
            | inr a_list ↦ rw (large, not_short, a_list) (λ e. absurd cc)
          ]
        ]
      ]))
  where
    decoded :
        (n : ℕ)
        → Before (advance 1 d) t
        → 1 ≤ n
        → n ≤ 8
        → IsEncoding ((0xb7 + n) ∷ t) (decode_long n (advance 1 d))
    decoded n later low high = elim (decode_length-cases (advance 1 d) t n later bytes.1 low high) [
      | inl bad ↦ after_length-Refused n ((0xb7 + n) ∷ t) (decode_length n (advance 1 d)) bad
      | inr good ↦
          subst (λ r. IsEncoding ((0xb7 + n) ∷ t) (after_length n r)) (sym good.2)
            (long_IsEncoding (advance 1 d) t n later bytes.1 low high good.0 good.1)
    ]

-- Whatever the decoder of a byte string accepts in an input of fewer than 2 ^ 63 bytes, from a
-- position inside it, is the RLP encoding of the string it returns: the bytes it reports as
-- consumed are that encoding.
pub decode_bytes-canonical :
    (d : RlpDecoder)
    → d.pos ≤ length d.input
    → length d.input < 2 ^ 63
    → All IsU8 d.input
    → (decode_bytes d).0.error ≡ RlpError.rlp_success
    → take (decode_bytes d).0.bytes_consumed (drop d.pos d.input) ≡ encoding (decode_bytes d).0.view
decode_bytes-canonical d inside bound bytes =
    decode_bytes-IsEncoding d (drop d.pos d.input)
      (record { suffix = refl; inside = inside; bound = bound }) (All-drop IsU8 d.pos d.input bytes)
