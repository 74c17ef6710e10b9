-- ===== src/Executor/Create.antt =====
-- src/executor/address.c: the addresses of new contracts. The hash function is a parameter, as is
-- whether the temporary arena has room.
pub mod Preimage
use div.Common.{ℕ, Bool, List, [], ◌∷◌, ◌++◌, drop}
use div.Types.Address.{Address, Hash}
use div.Types.Bytes.{Bytes, init_arena, reserve}
use div.Rlp.Encode.{encode_u64}
use div.Rlp.Words.{encode_address}
use div.Rlp.Lists.{list_start, list_append, list_end}

-- The encoded list of the sender and the nonce.
unfoldable pub create_list : (ℕ → Bool) → Address → ℕ → Bytes
create_list alloc sender nonce =
    let (header_pos, started) = list_start alloc (reserve alloc 64 init_arena).1 in
    let with_sender = list_append alloc started (encode_address alloc sender) in
    let with_nonce = list_append alloc with_sender (encode_u64 alloc nonce) in
    list_end header_pos with_nonce

-- The last 20 bytes of the hash.
abbrev pub compute_create_address : (List ℕ → Hash) → (ℕ → Bool) → Address → ℕ → Address
compute_create_address keccak256 alloc sender nonce =
    drop 12 (keccak256 (create_list alloc sender nonce).stored)

abbrev pub compute_create2_address : (List ℕ → Hash) → Address → Hash → Hash → Address
compute_create2_address keccak256 sender salt init_code_hash =
    drop 12 (keccak256 (0xff ∷ (sender ++ (salt ++ init_code_hash))))
