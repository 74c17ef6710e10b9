-- ===== src/Rlp/Words.antt =====
-- src/rlp/encode.c and src/rlp/decode.c: words of 256 bits and addresses.
pub mod RoundTrip
use div.Common.{ℕ, ◌+◌, Bool, ◌&&◌, List, [], ◌∷◌, ltb, ◌==◌, if◌then◌else◌, length, get_or, u8}
use div.Types.Address.{Address, address_zero}
use div.Types.Bytes.{Bytes, init_arena, reserve, append, append_byte}
use div.Uint256.{Uint256, u256_zero, is_zero}
use div.Uint256.Bytes.{to_bytes_be, from_bytes_be}
use div.Rlp.{rlp_empty_string_byte}
use div.Rlp.Decode.{RlpDecoder, RlpError, BytesResult, decode_bytes}

-- The loop over the leading bytes equal to 0.
unfoldable pub strip_zeros : List ℕ → List ℕ
strip_zeros [] = []
strip_zeros (x ∷ xs) = if x == 0 then strip_zeros xs else x ∷ xs

module _ (alloc : ℕ → Bool) where
  unfoldable pub encode_uint256 : Uint256 → Bytes
  encode_uint256 value =
      if is_zero value
      then (append_byte alloc rlp_empty_string_byte (reserve alloc 1 init_arena).1).1
      else if (value.limb3 == 0) && (value.limb2 == 0) && (value.limb1 == 0) && ltb value.limb0 128
      then (append_byte alloc (u8 value.limb0) (reserve alloc 1 init_arena).1).1
      else (let bytes = strip_zeros (to_bytes_be value) in
          let result =
            (append_byte alloc (u8 (rlp_empty_string_byte + length bytes))
              (reserve alloc (1 + length bytes) init_arena).1).1 in
          (append alloc bytes result).1)

  unfoldable pub encode_address : Address → Bytes
  encode_address addr =
      (append alloc addr (append_byte alloc 0x94 (reserve alloc 21 init_arena).1).1).1

pub record Uint256Result : Type 0 where
  pub value : Uint256
  pub bytes_consumed : ℕ
  pub error : RlpError

pub record AddressResult : Type 0 where
  pub value : Address
  pub bytes_consumed : ℕ
  pub error : RlpError

abbrev pub failed_word : RlpError → Uint256Result
failed_word error = record { value = u256_zero; bytes_consumed = 0; error = error }

unfoldable pub uint256_of : BytesResult → Uint256Result
uint256_of bytes = elim bytes.error [
  | RlpError.rlp_success ↦
      if bytes.len == 0
      then record {
        value = u256_zero;
        bytes_consumed = bytes.bytes_consumed;
        error = RlpError.rlp_success;
      }
      else if ltb 32 bytes.len
      then failed_word RlpError.rlp_err_integer_overflow
      else if ltb 1 bytes.len && (get_or bytes.view 0 0 == 0)
      then failed_word RlpError.rlp_err_leading_zeros
      else record {
        value = from_bytes_be bytes.view;
        bytes_consumed = bytes.bytes_consumed;
        error = RlpError.rlp_success;
      }
  | _ ↦ failed_word bytes.error
]

unfoldable pub decode_uint256 : RlpDecoder → Uint256Result × RlpDecoder
decode_uint256 d = let (bytes, d') = decode_bytes d in (uint256_of bytes, d')

abbrev pub failed_address : RlpError → AddressResult
failed_address error = record { value = address_zero; bytes_consumed = 0; error = error }

unfoldable pub address_of : BytesResult → AddressResult
address_of bytes = elim bytes.error [
  | RlpError.rlp_success ↦
      if bytes.len == 20
      then record {
        value = bytes.view;
        bytes_consumed = bytes.bytes_consumed;
        error = RlpError.rlp_success;
      }
      else failed_address RlpError.rlp_err_wrong_size
  | _ ↦ failed_address bytes.error
]

unfoldable pub decode_address : RlpDecoder → AddressResult × RlpDecoder
decode_address d = let (bytes, d') = decode_bytes d in (address_of bytes, d')
