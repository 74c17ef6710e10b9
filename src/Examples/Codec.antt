-- ===== src/Examples/Codec.antt =====
-- RLP at concrete inputs.
use div.Common.{ℕ, take, drop, ◌≡◌, refl, arith, Bool, true, List, [], ◌∷◌, ◌++◌, length}
use div.Rlp.{bit_length, byte_length_u64}
use div.Rlp.Encode.{be_bytes, encode_bytes}
use div.Rlp.Encoding.{encoding}
use div.Rlp.Decode.{RlpDecoder, decoder_init, decode_bytes}
use div.Rlp.Suffix.{Before}
use div.Rlp.Accepted.{decode_bytes-canonical}
use div.Rlp.RoundTrip.{read, moved, decode_bytes-encoding}
use div.Rlp.Integers.{minimal_bytes, decode_bytes-encode_bytes}

abbrev granted : ℕ → Bool
granted n = true

abbrev cat : List ℕ
cat = 99 ∷ 97 ∷ 116 ∷ []

-- The string behind one byte, and before another one.
abbrev buffer : List ℕ
buffer = 7 ∷ 0x83 ∷ 99 ∷ 97 ∷ 116 ∷ 9 ∷ []

abbrev second : RlpDecoder
second = record { input = buffer; pos = 1 }

second-Before : Before second (encoding cat ++ (9 ∷ []))
second-Before = record { suffix = refl; inside = omega arith; bound = omega arith }

decode_bytes-encoding_example :
    decode_bytes second ≡ (read cat (length (encoding cat)), moved (length (encoding cat)) second)
decode_bytes-encoding_example =
    decode_bytes-encoding second cat (9 ∷ []) second-Before (omega arith)

decode_bytes-encode_bytes_example :
    decode_bytes (decoder_init ((encode_bytes granted cat).stored ++ (9 ∷ []))) ≡ (
      read cat (length (encode_bytes granted cat).stored),
      record {
        input = (encode_bytes granted cat).stored ++ (9 ∷ []);
        pos = length (encode_bytes granted cat).stored;
      },
    )
decode_bytes-encode_bytes_example =
    decode_bytes-encode_bytes granted cat (9 ∷ []) (omega arith) (omega arith) refl

abbrev number : RlpDecoder
number = record { input = 0x82 ∷ 4 ∷ 0 ∷ []; pos = 0 }

number-Before : Before number (encoding (minimal_bytes 1024) ++ [])
unfolding byte_length_u64 bit_length be_bytes
number-Before = record { suffix = refl; inside = omega arith; bound = omega arith }

decode_bytes-canonical_example :
    take (decode_bytes second).0.bytes_consumed (drop 1 buffer)
    ≡ encoding (decode_bytes second).0.view
unfolding decode_bytes
decode_bytes-canonical_example =
    decode_bytes-canonical second (omega arith) (omega arith)
      (omega arith, (omega arith, (omega arith, (omega arith, (omega arith, (omega arith, tt))))))
      refl
