-- ===== src/Executor/Create/Preimage.antt =====
-- What is hashed for the address of a new contract.
use div.Common.{
  ℕ, ◌+◌, ◌≤◌, ◌≡◌, ap, arith, Bool, true, List, [], ◌++◌, append_assoc, length, length-append,
  replicate, drop, IsU64,
}
use div.Types.Address.{Address, Hash, IsAddress}
use div.Types.Bytes.{reserve_first}
use div.Rlp.Encoding.{encoding, filled, append-filled}
use div.Rlp.Encode.{encode_u64}
use div.Rlp.Integers.{minimal_bytes, encode_u64-encoding}
use div.Rlp.Words.{encode_address}
use div.Rlp.Words.RoundTrip.{encode_address-encoding}
use div.Rlp.Lists.{list_start}
use div.Rlp.Lists.RoundTrip.{list_encoding, list_append-filled, list_end-list_encoding}
use div.State.Account.RoundTrip.{encoding_few, minimal_few}
use div.Executor.Create.{create_list, compute_create_address}

-- With room in the arena, the address of a new contract is the last 20 bytes of the hash of the
-- encoded list of the sender and the nonce.
pub compute_create_address-hashes :
    (keccak256 : List ℕ → Hash) (alloc : ℕ → Bool) (sender : Address) (nonce : ℕ)
    → ((n : ℕ) → n ≤ 64 → alloc n ≡ true)
    → IsAddress sender
    → IsU64 nonce
    → compute_create_address keccak256 alloc sender nonce
      ≡ drop 12 (keccak256 (list_encoding (encoding sender ++ encoding (minimal_bytes nonce))))
unfolding create_list list_start
compute_create_address-hashes keccak256 alloc sender nonce granted p q =
    let e1 : List ℕ = encoding sender in
    let e2 : List ℕ = encoding (minimal_bytes nonce) in
    let z : List ℕ = replicate 9 0 in
    let s1 : length e1 ≤ 21 = omega (arith, encoding_few sender (omega (arith, p)), p) in
    let s2 : length e2 ≤ 9 = omega (
      arith,
      encoding_few (minimal_bytes nonce) (omega (arith, minimal_few nonce q)),
      minimal_few nonce q,
    ) in
    let l1 : length (z ++ e1) ≡ 9 + length e1 = length-append z e1 in
    let reserved = reserve_first alloc 64 (omega arith) (granted 64 (omega arith)) in
    let started = append-filled alloc 64 [] z (omega arith) (omega arith) in
    let first =
      list_append-filled alloc 64 z e1 (encode_address alloc sender)
        (encode_address-encoding alloc sender p (granted 21 (omega arith))) (omega (arith, s1))
        (omega arith) in
    let second =
      list_append-filled alloc 64 (z ++ e1) e2 (encode_u64 alloc nonce)
        (encode_u64-encoding alloc nonce q (granted (length e2) (omega (arith, s2))))
        (omega (arith, s1, s2, l1)) (omega arith) in
    rw (reserved, started, first, second)
      (ap (λ t. drop 12 (keccak256 t))
        (list_end-list_encoding [] (e1 ++ e2) (filled alloc 64 ((z ++ e1) ++ e2))
          (omega (arith, length-append e1 e2, s1, s2)) (append_assoc z e1 e2)))
