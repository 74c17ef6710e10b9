-- ===== src/Trie/HexPrefix.antt =====
-- include/div0/trie/hex_prefix.h and src/trie/hex_prefix.c: a sequence of nibbles as bytes, with its
-- parity and the kind of its node in front.
pub mod RoundTrip
use div.Common.{
  ℕ, zero, suc, ◌+◌, ◌-◌, ◌*◌, ◌/◌, ◌%◌, ◌^◌, Bool, true, false, not, List, [], ◌∷◌, ◌==◌, ◌!=◌,
  if◌then◌else◌, length, get_or, drop, u8, u64, bit_and, bit_or, ◌<<<◌, ◌>>>◌,
}
use div.Types.Bytes.{Bytes, init_arena, reserve, append_byte}
use div.Trie.Nibbles.{split}

abbrev pub hp_flag_odd : ℕ
hp_flag_odd = 0x01

abbrev pub hp_flag_leaf : ℕ
hp_flag_leaf = 0x02

pub record HexPrefixResult : Type 0 where
  pub nibbles : List ℕ
  pub is_leaf : Bool
  pub success : Bool

abbrev pub flags_of : Bool → Bool → ℕ
flags_of is_leaf is_odd =
    let flags = if is_leaf then bit_or 0 hp_flag_leaf else 0 in
    if is_odd then bit_or flags hp_flag_odd else flags

module _ (alloc : ℕ → Bool) where
  -- The loops that append the pairs of nibbles, whose number is even.
  unfoldable pub append_pairs : List ℕ → Bytes → Bytes
  append_pairs [] result = result
  append_pairs (high ∷ []) result = result
  append_pairs (high ∷ low ∷ nibbles) result =
      append_pairs nibbles (append_byte alloc (u8 (bit_or (high <<< 4) low)) result).1

  unfoldable pub encode : List ℕ → Bool → Bytes
  encode nibbles is_leaf =
      let is_odd = length nibbles % 2 == 1 in
      let encoded_len = u64 (1 + u64 (length nibbles + 1) / 2) in
      let (reserved, result) = reserve alloc encoded_len init_arena in
      if not reserved
      then result
      else (let flags = flags_of is_leaf is_odd in
          if is_odd
          then append_pairs (drop 1 nibbles)
              (append_byte alloc (u8 (bit_or (flags <<< 4) (get_or nibbles 0 0))) result).1
          else append_pairs nibbles (append_byte alloc (u8 (flags <<< 4)) result).1)

  unfoldable pub decode : List ℕ → HexPrefixResult
  decode bytes =
      if length bytes == 0
      then record { nibbles = []; is_leaf = false; success = false }
      else (let first_byte = get_or bytes 0 0 in
          let flags = bit_and (first_byte >>> 4) 0x03 in
          let is_leaf = bit_and flags hp_flag_leaf != 0 in
          let is_odd = bit_and flags hp_flag_odd != 0 in
          let pairs = u64 ((length bytes - 1) * 2) in
          let nibble_count = if is_odd then u64 (1 + pairs) else pairs in
          if nibble_count == 0
          then record { nibbles = []; is_leaf = is_leaf; success = true }
          else if alloc nibble_count
          then record {
            nibbles =
                if is_odd
                then bit_and first_byte 0x0f ∷ split (drop 1 bytes)
                else split (drop 1 bytes);
            is_leaf = is_leaf;
            success = true;
          }
          else record { nibbles = []; is_leaf = is_leaf; success = false })
