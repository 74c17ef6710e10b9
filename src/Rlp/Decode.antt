-- ===== src/Rlp/Decode.antt =====
-- include/div0/rlp/decode.h and src/rlp/decode.c: the decoder, a position in a buffer of bytes.
-- A pointer into the input, with a length, is the list of the bytes it points to.
use div.Common.{
  ℕ, ◌+◌, ◌-◌, Bool, ◌&&◌, not, List, [], ltb, leb, ◌==◌, if◌then◌else◌, length, get_or, take, drop,
  u64,
}
use div.Common.BigEndian.{shift_in}
use div.Rlp.{
  rlp_small_prefix_barrier, rlp_empty_string_byte, rlp_single_byte_max, rlp_short_string_max,
  rlp_long_string_max, is_list_prefix, is_string_prefix,
}

pub data RlpError : Type 0 where
  rlp_success : RlpError
  rlp_err_input_too_short : RlpError
  rlp_err_leading_zeros : RlpError
  rlp_err_non_canonical : RlpError
  rlp_err_integer_overflow : RlpError
  rlp_err_list_mismatch : RlpError
  rlp_err_invalid_prefix : RlpError
  rlp_err_wrong_size : RlpError

-- The field `size` is the length of the input.
pub record RlpDecoder : Type 0 where
  pub input : List ℕ
  pub pos : ℕ

-- The fields `data` and `len` are `view` and its length.
pub record BytesResult : Type 0 where
  pub view : List ℕ
  pub len : ℕ
  pub bytes_consumed : ℕ
  pub error : RlpError

pub record U64Result : Type 0 where
  pub value : ℕ
  pub bytes_consumed : ℕ
  pub error : RlpError

pub record ListResult : Type 0 where
  pub payload_length : ℕ
  pub bytes_consumed : ℕ
  pub error : RlpError

abbrev pub decoder_init : List ℕ → RlpDecoder
decoder_init input = record { input = input; pos = 0 }

abbrev pub has_more : RlpDecoder → Bool
has_more d = ltb d.pos (length d.input)

abbrev pub remaining : RlpDecoder → ℕ
remaining d = if leb (length d.input) d.pos then 0 else length d.input - d.pos

abbrev pub peek : RlpDecoder → ℕ
peek d = if ltb d.pos (length d.input) then get_or d.input d.pos 0 else 0

abbrev pub next_is_list : RlpDecoder → Bool
next_is_list d = is_list_prefix (peek d)

abbrev pub next_is_string : RlpDecoder → Bool
next_is_string d = is_string_prefix (peek d)

-- The byte at the position, which the callers have checked.
abbrev pub current : RlpDecoder → ℕ
current d = get_or d.input d.pos 0

abbrev pub advance : ℕ → RlpDecoder → RlpDecoder
advance n d = record d { pos = u64 (d.pos + n) }

abbrev pub failed : RlpError → BytesResult
failed error = record { view = []; len = 0; bytes_consumed = 0; error = error }

-- The `num_bytes` rounds of the loop read as many bytes.
unfoldable pub decode_length : ℕ → RlpDecoder → BytesResult × RlpDecoder
decode_length num_bytes d =
    if ltb (remaining d) num_bytes
    then (failed RlpError.rlp_err_input_too_short, d)
    else if current d == 0
    then (failed RlpError.rlp_err_leading_zeros, d)
    else (
      record {
        view = [];
        len = shift_in 0 (take num_bytes (drop d.pos d.input));
        bytes_consumed = num_bytes;
        error = RlpError.rlp_success;
      },
      advance num_bytes d,
    )

-- The view of the next `len` bytes, after a header of `header` bytes.
abbrev pub view_next : ℕ → ℕ → RlpDecoder → BytesResult × RlpDecoder
view_next header len d = (
  record {
    view = take len (drop d.pos d.input);
    len = len;
    bytes_consumed = u64 (header + len);
    error = RlpError.rlp_success;
  },
  advance len d,
)

abbrev pub decode_short : ℕ → RlpDecoder → BytesResult × RlpDecoder
decode_short len d =
    if ltb (remaining d) len
    then (failed RlpError.rlp_err_input_too_short, d)
    else if len == 1 && leb (current d) rlp_single_byte_max
    then (failed RlpError.rlp_err_non_canonical, d)
    else view_next 1 len d

-- The checks after the length was read.
abbrev pub after_length : ℕ → BytesResult × RlpDecoder → BytesResult × RlpDecoder
after_length len_of_len (len_result, d) = elim len_result.error [
  | RlpError.rlp_success ↦
      if ltb len_result.len rlp_small_prefix_barrier
      then (failed RlpError.rlp_err_non_canonical, d)
      else if ltb (remaining d) len_result.len
      then (failed RlpError.rlp_err_input_too_short, d)
      else view_next (1 + len_of_len) len_result.len d
  | _ ↦ (failed len_result.error, d)
]

abbrev pub decode_long : ℕ → RlpDecoder → BytesResult × RlpDecoder
decode_long len_of_len d = after_length len_of_len (decode_length len_of_len d)

unfoldable pub decode_bytes : RlpDecoder → BytesResult × RlpDecoder
decode_bytes d =
    if not (has_more d)
    then (failed RlpError.rlp_err_input_too_short, d)
    else (let prefix = current d in
        let d' = advance 1 d in
        if leb prefix rlp_single_byte_max
        then (
          record {
            view = take 1 (drop d.pos d.input);
            len = 1;
            bytes_consumed = 1;
            error = RlpError.rlp_success;
          },
          d',
        )
        else if leb prefix rlp_short_string_max
        then decode_short (prefix - rlp_empty_string_byte) d'
        else if leb prefix rlp_long_string_max
        then decode_long (prefix - rlp_short_string_max) d'
        else (failed RlpError.rlp_err_invalid_prefix, d'))

-- The number that a byte string stands for, with its checks.
unfoldable pub u64_of : BytesResult → U64Result
u64_of bytes = elim bytes.error [
  | RlpError.rlp_success ↦
      if bytes.len == 0
      then record { value = 0; bytes_consumed = bytes.bytes_consumed; error = RlpError.rlp_success }
      else if ltb 8 bytes.len
      then record { value = 0; bytes_consumed = 0; error = RlpError.rlp_err_integer_overflow }
      else if ltb 1 bytes.len && (get_or bytes.view 0 0 == 0)
      then record { value = 0; bytes_consumed = 0; error = RlpError.rlp_err_leading_zeros }
      else record {
        value = shift_in 0 bytes.view;
        bytes_consumed = bytes.bytes_consumed;
        error = RlpError.rlp_success;
      }
  | _ ↦ record { value = 0; bytes_consumed = 0; error = bytes.error }
]

unfoldable pub decode_u64 : RlpDecoder → U64Result × RlpDecoder
decode_u64 d = let (bytes, d') = decode_bytes d in (u64_of bytes, d')
