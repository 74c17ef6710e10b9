-- ===== src/Rlp.antt =====
-- include/div0/rlp/helpers.h and src/rlp/helpers.c: the prefixes of RLP, and the sizes of
-- lengths. The coders are in the child modules.
pub mod Encode
pub mod Decode
pub mod Lengths
pub mod Encoding
pub mod Suffix
pub mod RoundTrip
pub mod Integers
pub mod Accepted
pub mod Canonical
pub mod Words
pub mod Lists
use div.Common.{
  ℕ, zero, suc, ◌+◌, ◌-◌, ◌*◌, ◌/◌, ◌^◌, Bool, List, [], ◌∷◌, ◌++◌, ltb, leb, not, ◌==◌,
  if◌then◌else◌, get_or, replicate,
}

abbrev pub rlp_small_prefix_barrier : ℕ
rlp_small_prefix_barrier = 56

abbrev pub rlp_empty_string_byte : ℕ
rlp_empty_string_byte = 0x80

abbrev pub rlp_empty_list_byte : ℕ
rlp_empty_list_byte = 0xc0

abbrev pub rlp_single_byte_max : ℕ
rlp_single_byte_max = 0x7f

abbrev pub rlp_short_string_max : ℕ
rlp_short_string_max = 0xb7

abbrev pub rlp_long_string_max : ℕ
rlp_long_string_max = 0xbf

abbrev pub rlp_short_list_max : ℕ
rlp_short_list_max = 0xf7

-- The rows of the table, with the runs of one value as `replicate`.
abbrev rlp_prefix_length_table : List ℕ
rlp_prefix_length_table =
    replicate 128 0
    ++ (replicate 56 1
        ++ ((2 ∷ 3 ∷ 4 ∷ 5 ∷ 6 ∷ 7 ∷ 8 ∷ 9 ∷ [])
            ++ (replicate 56 1 ++ (2 ∷ 3 ∷ 4 ∷ 5 ∷ 6 ∷ 7 ∷ 8 ∷ 9 ∷ []))))

unfoldable pub prefix_length : ℕ → ℕ
prefix_length prefix = get_or rlp_prefix_length_table prefix 0

-- The number of binary digits: 64 less the leading zeros that `__builtin_clzll` counts.
unfoldable pub bit_length : ℕ → ℕ → ℕ
bit_length zero value = 0
bit_length (suc fuel) value =
    let rest = bit_length fuel (value / 2) in if value == 0 then 0 else suc rest

abbrev pub builtin_clzll : ℕ → ℕ
builtin_clzll value = 64 - bit_length 64 value

unfoldable pub length_of_length : ℕ → ℕ
length_of_length value =
    if ltb value rlp_small_prefix_barrier
    then 0
    else (let bits = 64 - builtin_clzll value in (bits + 7) / 8)

unfoldable pub byte_length_u64 : ℕ → ℕ
byte_length_u64 value =
    if value == 0 then 0 else (let leading_zeros = builtin_clzll value in 8 - leading_zeros / 8)

abbrev pub is_string_prefix : ℕ → Bool
is_string_prefix prefix = leb prefix rlp_long_string_max

abbrev pub is_list_prefix : ℕ → Bool
is_list_prefix prefix = ltb rlp_long_string_max prefix

abbrev pub is_single_byte : ℕ → Bool
is_single_byte prefix = leb prefix rlp_single_byte_max
