-- ===== src/State/Account.antt =====
-- include/div0/state/account.h and src/state/account.c: accounts and their encoding.
pub mod RoundTrip
use div.Common.{
  ℕ, ◌+◌, Bool, true, false, not, ◌||◌, Option, none, some, List, [], ◌∷◌, ◌==◌, if◌then◌else◌,
  length,
}
use div.Types.Address.{Hash, address_equal}
use div.Types.Bytes.{Bytes, init_arena, reserve}
use div.Uint256.{Uint256, u256_zero, is_zero}
use div.Rlp.Encode.{encode_u64, encode_bytes}
use div.Rlp.Words.{encode_uint256, decode_uint256}
use div.Rlp.Lists.{list_start, list_append, list_end, decode_list_header}
use div.Rlp.Decode.{
  RlpDecoder, RlpError, decoder_init, remaining, has_more, decode_u64, decode_bytes,
}

pub record Account : Type 0 where
  pub nonce : ℕ
  pub balance : Uint256
  pub storage_root : Hash
  pub code_hash : Hash

abbrev pub empty_code_hash : Hash
empty_code_hash =
    0xc5 ∷ 0xd2 ∷ 0x46 ∷ 0x01 ∷ 0x86 ∷ 0xf7 ∷ 0x23 ∷ 0x3c ∷ 0x92 ∷ 0x7e ∷ 0x7d ∷ 0xb2 ∷ 0xdc ∷ 0xc7
    ∷ 0x03 ∷ 0xc0 ∷ 0xe5 ∷ 0x00 ∷ 0xb6 ∷ 0x53 ∷ 0xca ∷ 0x82 ∷ 0x27 ∷ 0x3b ∷ 0x7b ∷ 0xfa ∷ 0xd8
    ∷ 0x04 ∷ 0x5d ∷ 0x85 ∷ 0xa4 ∷ 0x70 ∷ []

abbrev pub mpt_empty_root : Hash
mpt_empty_root =
    0x56 ∷ 0xe8 ∷ 0x1f ∷ 0x17 ∷ 0x1b ∷ 0xcc ∷ 0x55 ∷ 0xa6 ∷ 0xff ∷ 0x83 ∷ 0x45 ∷ 0xe6 ∷ 0x92 ∷ 0xc0
    ∷ 0xf8 ∷ 0x6e ∷ 0x5b ∷ 0x48 ∷ 0xe0 ∷ 0x1b ∷ 0x99 ∷ 0x6c ∷ 0xad ∷ 0xc0 ∷ 0x01 ∷ 0x62 ∷ 0x2f
    ∷ 0xb5 ∷ 0xe3 ∷ 0x63 ∷ 0xb4 ∷ 0x21 ∷ []

abbrev pub account_empty : Account
account_empty = record {
  nonce = 0;
  balance = u256_zero;
  storage_root = mpt_empty_root;
  code_hash = empty_code_hash;
}

unfoldable pub account_is_empty : Account → Bool
account_is_empty acc =
    if not (acc.nonce == 0)
    then false
    else if not (is_zero acc.balance)
    then false
    else address_equal acc.code_hash empty_code_hash

unfoldable pub account_rlp_encode : (ℕ → Bool) → Account → Bytes
account_rlp_encode alloc acc =
    let (header_pos, started) = list_start alloc (reserve alloc 128 init_arena).1 in
    let with_nonce = list_append alloc started (encode_u64 alloc acc.nonce) in
    let with_balance = list_append alloc with_nonce (encode_uint256 alloc acc.balance) in
    let with_root = list_append alloc with_balance (encode_bytes alloc acc.storage_root) in
    let with_code = list_append alloc with_root (encode_bytes alloc acc.code_hash) in
    list_end header_pos with_code

abbrev pub is_success : RlpError → Bool
is_success RlpError.rlp_success = true
is_success RlpError.rlp_err_input_too_short = false
is_success RlpError.rlp_err_leading_zeros = false
is_success RlpError.rlp_err_non_canonical = false
is_success RlpError.rlp_err_integer_overflow = false
is_success RlpError.rlp_err_list_mismatch = false
is_success RlpError.rlp_err_invalid_prefix = false
is_success RlpError.rlp_err_wrong_size = false

-- The fields, in their order.
unfoldable pub decode_fields : RlpDecoder → Option Account
decode_fields d =
    let (nonce_result, d1) = decode_u64 d in
    let (balance_result, d2) = decode_uint256 d1 in
    let (root_result, d3) = decode_bytes d2 in
    let (code_result, d4) = decode_bytes d3 in
    if not (is_success nonce_result.error)
    then none
    else if not (is_success balance_result.error)
    then none
    else if not (is_success root_result.error) || not (root_result.len == 32)
    then none
    else if not (is_success code_result.error) || not (code_result.len == 32)
    then none
    else if has_more d4
    then none
    else some (record {
      nonce = nonce_result.value;
      balance = balance_result.value;
      storage_root = root_result.view;
      code_hash = code_result.view;
    })

-- `none` is the answer false. The callers do not read the account then.
unfoldable pub account_rlp_decode : List ℕ → Option Account
account_rlp_decode input =
    if length input == 0
    then none
    else (let (list_result, d) = decode_list_header (decoder_init input) in
        if not (is_success list_result.error)
        then none
        else if not (list_result.payload_length == remaining d)
        then none
        else decode_fields d)
