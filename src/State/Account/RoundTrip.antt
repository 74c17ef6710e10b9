-- ===== src/State/Account/RoundTrip.antt =====
-- Accounts are read back from their encoding.
use div.Common.{
  ℕ, ◌+◌, ◌≤◌, ◌<◌, ◌≡◌, refl, sym, ap, ◌∙◌, arith, Bool, true, false, some, List, [], ◌++◌,
  append_assoc, append-nil, ltb, ◌==◌, ==_iff, Bool-cases, inl, inr, replicate, length,
  length-append, drop, drop-length-append, IsU64,
}
use mathlib.Core.Path.{subst}
use div.Types.Bytes.{Bytes, reserve_first}
use div.Uint256.{IsUint256}
use div.Rlp.Encoding.{
  encoding, encoding_single, encoding_short, is_single, encode_bytes-encoding, filled,
  append-filled,
}
use div.Rlp.Encode.{encode_u64, encode_bytes}
use div.Rlp.{byte_length_u64}
use div.Rlp.Lengths.{be_bytes-Holds, byte_length_u64-IsByteCount}
use div.Rlp.Integers.{minimal_bytes, encode_u64-encoding, decode_u64-encoding}
use div.Rlp.Words.{encode_uint256}
use div.Rlp.Words.RoundTrip.{
  word_bytes, word_bytes_few, encode_uint256-encoding, decode_uint256-encoding,
}
use div.Rlp.Lists.{list_start, list_append}
use div.Rlp.Lists.RoundTrip.{
  header, header_bound, list_encoding, list_end-list_encoding, list_end-allocated,
  list_append-filled, decode_list_header-list_encoding,
}
use div.Rlp.Decode.{RlpDecoder, decoder_init, remaining, has_more}
use div.Rlp.Suffix.{Before, size-Before, remaining-Before, advance-Before, advance-pos}
use div.Rlp.RoundTrip.{moved, decode_bytes-encoding}
use div.State.Account.{Account, account_rlp_encode, decode_fields, account_rlp_decode}

-- The fields of an account are what their types say.
pub record IsAccount (acc : Account) : Type 0 where
  pub nonce : IsU64 acc.nonce
  pub balance : IsUint256 acc.balance
  pub storage_root : length acc.storage_root ≡ 32
  pub code_hash : length acc.code_hash ≡ 32

moved-Before :
    (d : RlpDecoder) (xs rest : List ℕ) → Before d (xs ++ rest) → Before (moved (length xs) d) rest
moved-Before d xs rest v =
    let inside : length xs ≤ length (xs ++ rest) = omega (arith, length-append xs rest) in
    let further = advance-Before d (xs ++ rest) v (length xs) inside in
    record {
      suffix =
          ap (λ t. drop t d.input) (sym (advance-pos d (xs ++ rest) v (length xs) inside))
          ∙ further.suffix
          ∙ drop-length-append xs rest;
      inside = omega (arith, size-Before d (xs ++ rest) v, inside);
      bound = v.bound;
    }

-- The encodings of the fields.
abbrev pub payload : Account → List ℕ
payload acc =
    encoding (minimal_bytes acc.nonce)
    ++ (encoding (word_bytes acc.balance) ++ (encoding acc.storage_root ++ encoding acc.code_hash))

decode_fields-payload :
    (acc : Account) (d : RlpDecoder)
    → IsAccount acc
    → Before d (payload acc)
    → decode_fields d ≡ some acc
unfolding decode_fields
decode_fields-payload acc d a v =
    let e1 : List ℕ = encoding (minimal_bytes acc.nonce) in
    let e2 : List ℕ = encoding (word_bytes acc.balance) in
    let e3 : List ℕ = encoding acc.storage_root in
    let e4 : List ℕ = encoding acc.code_hash in
    let d1 : RlpDecoder = moved (length e1) d in
    let d2 : RlpDecoder = moved (length e2) d1 in
    let d3 : RlpDecoder = moved (length e3) d2 in
    let d4 : RlpDecoder = moved (length e4) d3 in
    let v1 = moved-Before d e1 (e2 ++ (e3 ++ e4)) v in
    let v2 = moved-Before d1 e2 (e3 ++ e4) v1 in
    let v3 = moved-Before d2 e3 e4 v2 in
    let v3' : Before d3 (e4 ++ []) = subst (Before d3) (sym (append-nil e4)) v3 in
    let v4 = moved-Before d3 e4 [] v3' in
    let first = decode_u64-encoding d acc.nonce (e2 ++ (e3 ++ e4)) a.nonce v in
    let second = decode_uint256-encoding acc.balance a.balance d1 (e3 ++ e4) v1 in
    let third = decode_bytes-encoding d2 acc.storage_root e4 v2 (omega (arith, a.storage_root)) in
    let fourth = decode_bytes-encoding d3 acc.code_hash [] v3' (omega (arith, a.code_hash)) in
    let root_size : (length acc.storage_root == 32) ≡ true = ground (arith, a.storage_root) in
    let code_size : (length acc.code_hash == 32) ≡ true = ground (arith, a.code_hash) in
    let done : has_more d4 ≡ false = ground (arith, size-Before d4 [] v4) in
    rw (first, second, third, fourth, root_size, code_size, done) refl

pub encoding_few : (xs : List ℕ) → length xs < 55 → length (encoding xs) ≤ 1 + length xs
encoding_few xs h = elim (Bool-cases (is_single xs)) [
  | inl single ↦ omega (arith, ap length (encoding_single xs single))
  | inr many ↦
      let short : ltb (length xs) 56 ≡ true = ground arith in
      omega (arith, ap length (encoding_short xs many short))
]

zero_bytes : byte_length_u64 0 ≡ 0
unfolding byte_length_u64
zero_bytes = refl

pub minimal_few : (n : ℕ) → IsU64 n → length (minimal_bytes n) ≤ 8
minimal_few n h = elim (Bool-cases (n == 0)) [
  | inl nothing ↦
      let e : n ≡ 0 = (==_iff n 0).0 nothing in
      omega (
        arith,
        ap (λ t. length (minimal_bytes t)) e,
        (be_bytes-Holds (byte_length_u64 0) 0).1,
        zero_bytes,
      )
  | inr more ↦ omega (
    arith,
    (be_bytes-Holds (byte_length_u64 n) n).1,
    byte_length_u64-IsByteCount n h (ground (arith, more)),
  )
]

-- The sizes of the encoded fields.
sizes :
    (acc : Account)
    → IsAccount acc
    → (length (encoding (minimal_bytes acc.nonce)) ≤ 9)
      × (length (encoding (word_bytes acc.balance)) ≤ 33)
      × (length (encoding acc.storage_root) ≤ 33)
      × (length (encoding acc.code_hash) ≤ 33)
sizes acc a = (
  omega (
    arith,
    encoding_few (minimal_bytes acc.nonce) (omega (arith, minimal_few acc.nonce a.nonce)),
    minimal_few acc.nonce a.nonce,
  ),
  omega (
    arith,
    encoding_few (word_bytes acc.balance) (omega (arith, word_bytes_few acc.balance a.balance)),
    word_bytes_few acc.balance a.balance,
  ),
  omega (arith, encoding_few acc.storage_root (omega (arith, a.storage_root)), a.storage_root),
  omega (arith, encoding_few acc.code_hash (omega (arith, a.code_hash)), a.code_hash),
)

pub payload_bound : (acc : Account) → IsAccount acc → length (payload acc) ≤ 108
payload_bound acc a =
    let e1 : List ℕ = encoding (minimal_bytes acc.nonce) in
    let e2 : List ℕ = encoding (word_bytes acc.balance) in
    let e3 : List ℕ = encoding acc.storage_root in
    let e4 : List ℕ = encoding acc.code_hash in
    let (s1, s2, s3, s4) = sizes acc a in
    omega (
      arith,
      length-append e1 (e2 ++ (e3 ++ e4)),
      length-append e2 (e3 ++ e4),
      length-append e3 e4,
      s1,
      s2,
      s3,
      s4,
    )

module _ (alloc : ℕ → Bool) (granted : (n : ℕ) → n ≤ 128 → alloc n ≡ true) where
  append_item :
      (xs ys : List ℕ) (item : Bytes)
      → item.stored ≡ ys
      → length xs + length ys ≤ 128
      → list_append alloc (filled alloc 128 xs) item ≡ filled alloc 128 (xs ++ ys)
  append_item xs ys item e h = list_append-filled alloc 128 xs ys item e h (omega arith)

  -- An account is encoded as the list of its four fields, in a buffer.
  pub account_rlp_encode-Written :
      (acc : Account)
      → IsAccount acc
      → ((account_rlp_encode alloc acc).stored ≡ list_encoding (payload acc))
        × ((account_rlp_encode alloc acc).allocated ≡ true)
  unfolding account_rlp_encode list_start
  account_rlp_encode-Written acc a =
      let e1 : List ℕ = encoding (minimal_bytes acc.nonce) in
      let e2 : List ℕ = encoding (word_bytes acc.balance) in
      let e3 : List ℕ = encoding acc.storage_root in
      let e4 : List ℕ = encoding acc.code_hash in
      let z : List ℕ = replicate 9 0 in
      let (s1, s2, s3, s4) = sizes acc a in
      let l1 : length (z ++ e1) ≡ 9 + length e1 = length-append z e1 in
      let l2 : length ((z ++ e1) ++ e2) ≡ 9 + length e1 + length e2 =
        omega (arith, length-append (z ++ e1) e2, l1) in
      let l3 : length (((z ++ e1) ++ e2) ++ e3) ≡ 9 + length e1 + length e2 + length e3 =
        omega (arith, length-append ((z ++ e1) ++ e2) e3, l2) in
      let reserved = reserve_first alloc 128 (omega arith) (granted 128 (omega arith)) in
      let started = append-filled alloc 128 [] z (omega arith) (omega arith) in
      let first =
        append_item z e1 (encode_u64 alloc acc.nonce)
          (encode_u64-encoding alloc acc.nonce a.nonce (granted (length e1) (omega (arith, s1))))
          (omega (arith, s1)) in
      let second =
        append_item (z ++ e1) e2 (encode_uint256 alloc acc.balance)
          (encode_uint256-encoding acc.balance a.balance alloc
            (granted (length e2) (omega (arith, s2))))
          (omega (arith, s1, s2, l1)) in
      let third =
        append_item ((z ++ e1) ++ e2) e3 (encode_bytes alloc acc.storage_root)
          (encode_bytes-encoding alloc acc.storage_root (omega (arith, a.storage_root))
            (granted (length e3) (omega (arith, s3))))
          (omega (arith, s1, s2, s3, l2)) in
      let fourth =
        append_item (((z ++ e1) ++ e2) ++ e3) e4 (encode_bytes alloc acc.code_hash)
          (encode_bytes-encoding alloc acc.code_hash (omega (arith, a.code_hash))
            (granted (length e4) (omega (arith, s4))))
          (omega (arith, s1, s2, s3, s4, l3)) in
      let whole : (((z ++ e1) ++ e2) ++ e3) ++ e4 ≡ [] ++ (z ++ payload acc) =
        append_assoc ((z ++ e1) ++ e2) e3 e4
        ∙ append_assoc (z ++ e1) e2 (e3 ++ e4)
        ∙ append_assoc z e1 (e2 ++ (e3 ++ e4)) in
      rw (reserved, started, first, second, third, fourth)
        (
          list_end-list_encoding [] (payload acc)
              (filled alloc 128 ((((z ++ e1) ++ e2) ++ e3) ++ e4))
              (omega (arith, payload_bound acc a)) whole,
          list_end-allocated 0 (filled alloc 128 ((((z ++ e1) ++ e2) ++ e3) ++ e4)),
        )

  -- With room in the arena, the decoder reads back the account that was encoded.
  pub account_rlp_decode-encode :
      (acc : Account)
      → IsAccount acc
      → account_rlp_decode (account_rlp_encode alloc acc).stored ≡ some acc
  unfolding account_rlp_decode
  account_rlp_decode-encode acc a =
      let input : List ℕ = list_encoding (payload acc) in
      let k : ℕ = length (header (length (payload acc))) in
      let bound = payload_bound acc a in
      let size = header_bound (length (payload acc)) (omega (arith, bound)) in
      let total : length input ≡ k + length (payload acc) =
        length-append (header (length (payload acc))) (payload acc) in
      let v : Before (decoder_init input) (input ++ []) = record {
        suffix = sym (append-nil input);
        inside = omega arith;
        bound = omega (arith, total, size, bound);
      } in
      let opened =
        decode_list_header-list_encoding (decoder_init input) (payload acc) [] v
          (omega (arith, bound)) in
      let d : RlpDecoder = moved k (decoder_init input) in
      let inside : Before d (payload acc) = subst (Before d) (append-nil (payload acc)) opened.1 in
      let some_input : (length input == 0) ≡ false = ground (arith, total, size) in
      let matches : (length (payload acc) == remaining d) ≡ true =
        ground (arith, remaining-Before d (payload acc) inside) in
      rw ((account_rlp_encode-Written acc a).0, some_input, opened.0, matches)
        (decode_fields-payload acc d a inside)
