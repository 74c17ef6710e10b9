-- ===== src/Trie.antt =====
-- include/div0/trie and src/trie: the nibbles of the keys, and their encoding with a prefix.
pub mod Nibbles
pub mod HexPrefix
