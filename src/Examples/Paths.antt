-- ===== src/Examples/Paths.antt =====
-- Nibbles and their encoding at concrete inputs.
use div.Common.{
  ℕ, ◌≤◌, ◌<◌, ◌≡◌, refl, arith, Bool, true, List, [], ◌∷◌, length, take, get_or, ◌≢◌, All, IsU8,
}
use div.Trie.Nibbles.{common_prefix}
use div.Trie.Nibbles.Laws.{IsNibble, common_prefix-longest}
use div.Trie.HexPrefix.{encode, decode}
use div.Trie.HexPrefix.RoundTrip.{decode-encode}

abbrev all_room : ℕ → Bool
all_room n = true

abbrev path : List ℕ
path = 0xa ∷ 0xb ∷ 0xc ∷ []

path-IsNibble : All IsNibble path
path-IsNibble = (omega arith, (omega arith, (omega arith, tt)))

abbrev key : List ℕ
key = 0x12 ∷ 0xfe ∷ []

key-IsU8 : All IsU8 key
key-IsU8 = (omega arith, (omega arith, tt))

common_prefix-longest_example :
    (common_prefix path key ≤ length path)
    × (common_prefix path key ≤ length key)
    × (take (common_prefix path key) path ≡ take (common_prefix path key) key)
    × (common_prefix path key < length path
        → common_prefix path key < length key
        → get_or path (common_prefix path key) 0 ≢ get_or key (common_prefix path key) 0)
common_prefix-longest_example = common_prefix-longest path key

decode-encode_example :
    decode all_room (encode all_room path true).stored
    ≡ record { nibbles = path; is_leaf = true; success = true }
decode-encode_example =
    decode-encode all_room path true path-IsNibble (omega arith) refl (λ h. refl)
