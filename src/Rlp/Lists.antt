-- ===== src/Rlp/Lists.antt =====
-- src/rlp/encode.c and src/rlp/decode.c: lists. The builder reserves nine bytes for the header of
-- a list, and closes the gap when the list is complete.
pub mod RoundTrip
use div.Common.{
  ℕ, ◌+◌, ◌-◌, Bool, not, List, [], ◌∷◌, ◌++◌, ltb, leb, ◌==◌, if◌then◌else◌, length, take, drop,
  replicate, u8, sub_u64,
}
use div.Types.Bytes.{Bytes, append}
use div.Rlp.{
  rlp_small_prefix_barrier, rlp_empty_list_byte, rlp_long_string_max, rlp_short_list_max,
  length_of_length,
}
use div.Rlp.Encode.{write_length_bytes}
use div.Rlp.Decode.{
  RlpDecoder, RlpError, BytesResult, ListResult, has_more, current, advance, decode_length,
}

abbrev pub rlp_max_header_size : ℕ
rlp_max_header_size = 9

-- The position of the header, and the output.
unfoldable pub list_start : (ℕ → Bool) → Bytes → ℕ × Bytes
list_start alloc output =
    (length output.stored, (append alloc (replicate rlp_max_header_size 0) output).1)

unfoldable pub list_append : (ℕ → Bool) → Bytes → Bytes → Bytes
list_append alloc output item = (append alloc item.stored output).1

unfoldable pub list_header : ℕ → List ℕ
list_header payload_len =
    if ltb payload_len rlp_small_prefix_barrier
    then u8 (rlp_empty_list_byte + payload_len) ∷ []
    else u8 (rlp_short_list_max + length_of_length payload_len) ∷ write_length_bytes payload_len

-- The header is written over the reserved bytes, and the payload is moved down to it.
unfoldable pub list_end : ℕ → Bytes → Bytes
list_end header_pos output =
    let payload_len = sub_u64 (sub_u64 (length output.stored) header_pos) rlp_max_header_size in
    let header = list_header payload_len in
    let actual_header_size = length header in
    let written =
      take header_pos output.stored
      ++ (header ++ drop (header_pos + actual_header_size) output.stored) in
    if ltb actual_header_size rlp_max_header_size
    then record output {
      stored =
          take (header_pos + actual_header_size) written
          ++ take payload_len (drop (header_pos + rlp_max_header_size) written);
    }
    else record output { stored = written }

abbrev pub failed_list : RlpError → ListResult
failed_list error = record { payload_length = 0; bytes_consumed = 0; error = error }

-- The checks after the length of a long list was read.
abbrev pub after_list_length : ℕ → BytesResult × RlpDecoder → ListResult × RlpDecoder
after_list_length len_of_len (len_result, d) = elim len_result.error [
  | RlpError.rlp_success ↦
      if ltb len_result.len rlp_small_prefix_barrier
      then (failed_list RlpError.rlp_err_non_canonical, d)
      else (
        record {
          payload_length = len_result.len;
          bytes_consumed = 1 + len_of_len;
          error = RlpError.rlp_success;
        },
        d,
      )
  | _ ↦ (failed_list len_result.error, d)
]

unfoldable pub decode_list_header : RlpDecoder → ListResult × RlpDecoder
decode_list_header d =
    if not (has_more d)
    then (failed_list RlpError.rlp_err_input_too_short, d)
    else (let prefix = current d in
        let d' = advance 1 d in
        if leb prefix rlp_long_string_max
        then (failed_list RlpError.rlp_err_invalid_prefix, d')
        else if leb prefix rlp_short_list_max
        then (
          record {
            payload_length = prefix - rlp_empty_list_byte;
            bytes_consumed = 1;
            error = RlpError.rlp_success;
          },
          d',
        )
        else after_list_length (prefix - rlp_short_list_max)
            (decode_length (prefix - rlp_short_list_max) d'))
